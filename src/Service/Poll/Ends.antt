-- ===== src/Service/Poll/Ends.antt =====
-- The loop over the pages of `processPendingSessions` and `processPendingWithdrawals` ends: the
-- offset grows by a page in every round, and a page behind the end of the table is empty.
use tucanbit_tvs.Service.Poll.{ByChain, page_limit, visit_rows, visit_page, collect}
use tucanbit_tvs.Effects.{Env, Action}
use tucanbit_tvs.Effects.Keeps.{Keeps, Keeps-bind, Keeps-pure}
use tucanbit_tvs.Effects.Triple.{Triple, Triple-bind, Triple-Keeps, Triple-fact, Triple-pure}
use tucanbit_tvs.Prelude.{
  ◌∷◌, [], ℕ, List, Option, ◌<◌, some, length, arith, ◌+◌, ◌≤◌, ◌*◌, ◌≢◌, none, suc, zero,
}
use tucanbit_tvs.Db.Rows.{Db}

module _ {A : Type 0} {env : Env} {P : Db → Type 0} (load : ℕ → ℕ → Action (List A))
    (visit : A → ByChain A → Action (ByChain A))
    (visits : (row : A) (chains : ByChain A) → Keeps env P (visit row chains)) where
  Keeps-visit_rows :
      (rows : List A) (chains : ByChain A) → Keeps env P (visit_rows load visit rows chains)
  unfolding visit_rows
  Keeps-visit_rows [] chains = Keeps-pure chains
  Keeps-visit_rows (row ∷ rows) chains =
      Keeps-bind _ _ (visits row chains) (λ chains'. Keeps-visit_rows rows chains')

  Triple-visit_page :
      (R : Option (ByChain A) → Db → Type 0) (page : List A) (chains : ByChain A)
      (later : ByChain A → Action (Option (ByChain A)))
      → ((db : Db) → P db → R (some chains) db)
      → (0 < length page → (chains' : ByChain A) → Triple env P (later chains') R)
      → Triple env P (visit_page load visit page chains later) R
  unfolding visit_page
  Triple-visit_page R [] chains later e k = Triple-pure (some chains) e
  Triple-visit_page R (row ∷ rows) chains later e k =
      Triple-bind {Q = λ _. P} _ _
        (Triple-Keeps _ (Keeps-visit_rows (row ∷ rows) chains) (λ _ db h. h)) (k (omega arith))
        (λ _ db h. h)

  -- With fuel for every page of a table of `n` rows and one more, the loop is at its end.
  pub Triple-collect :
      (n : ℕ)
      → ((offset : ℕ)
          → Triple env P
              (load page_limit offset)
              (λ page db. (0 < length page → offset < n) × P db))
      → (fuel offset : ℕ) (chains : ByChain A) → n + page_limit ≤ offset + page_limit * fuel
      → offset < n + page_limit
      → Triple env P (collect load visit fuel offset chains) (λ o db. (o ≢ none) × P db)
  unfolding collect
  Triple-collect n loads zero offset chains enough here = absurd (omega arith)
  Triple-collect n loads (suc fuel) offset chains enough here =
      Triple-bind _ _ (loads offset)
        (λ page. Triple-fact _ (λ within.
          Triple-visit_page _ page chains _ (λ db h. ((λ e. cc e), h))
            (λ some_row chains'.
              Triple-collect n loads fuel (offset + page_limit) chains' (omega arith)
                (omega (arith, within some_row)))))
        (λ _ db h. h.1)
