-- ===== src/Service/Poll/Named.antt =====
-- The rows that a poll hands to goroutines have an id.
use tucanbit_tvs.Service.Poll.{
  ByChain, append_to, page_limit, visit_rows, visit_page, collect, on_solana,
}
use mathlib.Core.Option
use tucanbit_tvs.Effects.{Env, Action}
use tucanbit_tvs.Effects.Triple.{Triple, Triple-bind, Triple-fact, Triple-pure}
use tucanbit_tvs.Service.Rules.{is_solana_chain}
use tucanbit_tvs.Prelude.{
  ◌∷◌, [], String, ◌≡◌, All, List, Bool-cases, ℕ, true, ◌++◌, ◌==◌, ◌≢◌, Option, none, inl, some,
  suc, subst, inr, ◌+◌, eq_of_==, All-append, zero, refl,
}
use tucanbit_tvs.Db.Rows.{Db}

-- Of the value, where there is one.
abbrev pub OnSome : {A : Type 0} → (A → Type 0) → Option A → Type 0
OnSome Q none = Unit
OnSome Q (some a) = Q a

pub OnSome-map :
    {A B : Type 0} (P : A → Type 0) (Q : B → Type 0) (f : A → B) (o : Option A)
    → ((a : A) → P a → Q (f a))
    → OnSome P o
    → OnSome Q (Option.map f o)
OnSome-map P Q f none k h = tt
OnSome-map P Q f (some a) k h = k a h

pub is_none_of_map : {A B : Type 0} (f : A → B) (o : Option A) → o ≢ none → Option.map f o ≢ none
is_none_of_map f none n e = n refl
is_none_of_map f (some a) n e = cc e

module _ {A : Type 0} (id chain : A → String) where
  -- A row of a Solana chain has an id.
  abbrev pub IsNamed : A → Type 0
  IsNamed row = is_solana_chain (chain row) ≡ true → id row ≢ ""

  -- So have the rows that are kept for a Solana chain.
  abbrev pub AreNamed : ByChain A → Type 0
  AreNamed chains = All (λ e. is_solana_chain e.0 ≡ true → All (λ row. id row ≢ "") e.1) chains

  All-snoc :
      (P : A → Type 0) (rows : List A) (row : A) → All P rows → P row → All P (rows ++ row ∷ [])
  All-snoc P [] row h p = (p, tt)
  All-snoc P (r ∷ rows) row (hr, h) p = (hr, All-snoc P rows row h p)

  pub append_to-AreNamed :
      (row : A) (chains : ByChain A)
      → IsNamed row
      → AreNamed chains
      → AreNamed (append_to (chain row) row chains)
  append_to-AreNamed row [] n h = ((λ s. (n s, tt)), tt)
  append_to-AreNamed row ((c, rows) ∷ chains) n (hr, h) = elim (Bool-cases (c == chain row)) [
    | inl e ↦ rw e (
      (λ s.
          All-snoc (λ r. id r ≢ "") rows row (hr s)
            (n (subst (λ d. is_solana_chain d ≡ true) (eq_of_== c (chain row) e) s))),
      h,
    )
    | inr e ↦ rw e (hr, append_to-AreNamed row chains n h)
  ]

  pub on_solana-AreNamed :
      (chains : ByChain A) → AreNamed chains → All (λ row. id row ≢ "") (on_solana chains)
  unfolding on_solana
  on_solana-AreNamed [] h = tt
  on_solana-AreNamed ((c, rows) ∷ chains) (hr, h) = elim (Bool-cases (is_solana_chain c)) [
    | inl e ↦ rw e (All-append _ rows _ (hr e) (on_solana-AreNamed chains h))
    | inr e ↦ rw e (on_solana-AreNamed chains h)
  ]

-- A property of the map from chains to rows that every visit keeps.
module _ {A : Type 0} {env : Env} {P : Db → Type 0} (G : A → Type 0) (C : ByChain A → Type 0)
    (load : ℕ → ℕ → Action (List A)) (visit : A → ByChain A → Action (ByChain A))
    (loads : (limit offset : ℕ) → Triple env P (load limit offset) (λ page db. All G page × P db))
    (visits : (row : A) (chains : ByChain A)
      → G row
      → C chains
      → Triple env P (visit row chains) (λ chains' db. C chains' × P db)) where
  Triple-rows :
      (rows : List A) (chains : ByChain A)
      → All G rows
      → C chains
      → Triple env P (visit_rows load visit rows chains) (λ chains' db. C chains' × P db)
  unfolding visit_rows
  Triple-rows [] chains g c = Triple-pure chains (λ db h. (c, h))
  Triple-rows (row ∷ rows) chains (gr, g) c =
      Triple-bind _ _ (visits row chains gr c)
        (λ chains'. Triple-fact _ (λ c'. Triple-rows rows chains' g c')) (λ _ db h. h.1)

  Triple-chains_page :
      (page : List A) (chains : ByChain A) (later : ByChain A → Action (Option (ByChain A)))
      → All G page
      → C chains
      → ((chains' : ByChain A)
          → C chains'
          → Triple env P (later chains') (λ o db. OnSome C o × P db))
      → Triple env P (visit_page load visit page chains later) (λ o db. OnSome C o × P db)
  unfolding visit_page
  Triple-chains_page [] chains later g c k = Triple-pure (some chains) (λ db h. (c, h))
  Triple-chains_page (row ∷ rows) chains later g c k =
      Triple-bind _ _ (Triple-rows (row ∷ rows) chains g c)
        (λ chains'. Triple-fact _ (λ c'. k chains' c')) (λ _ db h. h.1)

  pub Triple-chains :
      (fuel offset : ℕ) (chains : ByChain A)
      → C chains
      → Triple env P (collect load visit fuel offset chains) (λ o db. OnSome C o × P db)
  unfolding collect
  Triple-chains zero offset chains c = Triple-pure none (λ db h. (tt, h))
  Triple-chains (suc fuel) offset chains c =
      Triple-bind _ _ (loads page_limit offset)
        (λ page. Triple-fact _ (λ g.
          Triple-chains_page page chains _ g c
            (λ chains' c'. Triple-chains fuel (offset + page_limit) chains' c')))
        (λ _ db h. h.1)
