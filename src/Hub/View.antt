-- ===== src/Hub/View.antt =====
-- The hub of internal/server/websocket/ws_hub.go seen as a relation between users and connections,
-- without the nested maps.
use tucanbit_tvs.Hub.Message.{WsMessage}
use tucanbit_tvs.Hub.Clients.{UserConns, elem, conns_of, put}
use tucanbit_tvs.Hub.Clients.Laws.{conns_of-put, conns_of-delete, eq_of_eqb, pick}
use tucanbit_tvs.Hub.Run.{
  conns_or_new, store, write_all, with_conns, write_users, WsHub, address, Address, owner, nobody,
  address_unowned, only, everyone,
}
use tucanbit_tvs.Prelude.{
  ◌∷◌, [], refl, ℕ, List, Bool, String, Option, ◌≡◌, false, if◌then◌else◌, some, ◌&&◌, none, arith,
  ◌==◌, true, Bool-cases, ◌||◌, inl, ◌∙◌, eqb, sym, inr, subst, eq_of_==, Option-cases, not,
}

abbrev pub in_conns : ℕ → Option (List ℕ) → Bool
in_conns c none = false
in_conns c (some cs) = elem c cs

-- The user has the connection.
abbrev pub connected : List UserConns → String → ℕ → Bool
connected es u c = in_conns c (conns_of u es)

in_conns-if :
    (b : Bool) (c : ℕ) (x y : Option (List ℕ))
    → in_conns c (if b then x else y) ≡ (if b then in_conns c x else in_conns c y)
in_conns-if b c x y = ground arith

pub elem-conns_or_new : (c : ℕ) (o : Option (List ℕ)) → elem c (conns_or_new o) ≡ in_conns c o
elem-conns_or_new c none = refl
elem-conns_or_new c (some cs) = refl

pub connected-put :
    (u v : String) (cs : List ℕ) (es : List UserConns) (c : ℕ)
    → connected (put u cs es) v c ≡ (if u == v then elem c cs else connected es v c)
connected-put u v cs es c = rw (conns_of-put v u cs es) (in_conns-if (u == v) c _ _)

pub connected-store :
    (u v : String) (cs : List ℕ) (es : List UserConns) (c : ℕ)
    → connected (store u cs es) v c ≡ (if u == v then elem c cs else connected es v c)
connected-store u v [] es c = rw (conns_of-delete v u es) (in_conns-if (u == v) c _ _)
connected-store u v (d ∷ cs) es c = connected-put u v (d ∷ cs) es c

absorb_held : (b o e : Bool) → (b ≡ true → o ≡ true) → (b || (o && e)) ≡ (o && (b || e))
absorb_held b o e h = ground arith

absorb_failed : (b o e : Bool) → (b ≡ true → o ≡ false) → (o && e) ≡ (o && (b || e))
absorb_failed b o e h = ground arith

pub elem-left :
    (ok : ℕ → Bool) (m : WsMessage) (cs : List ℕ) (c : ℕ)
    → elem c (write_all ok m cs).left ≡ (ok c && elem c cs)
elem-left ok m [] c = ground arith
elem-left ok m (d ∷ cs) c = elim (Bool-cases (ok d)) [
  | inl e ↦
      rw (e, elem-left ok m cs c)
        (absorb_held (eqb d c) (ok c) (elem c cs)
          (λ q. subst (λ x. ok x ≡ true) (eq_of_eqb d c q) e))
  | inr e ↦
      rw (e, elem-left ok m cs c)
        (absorb_failed (eqb d c) (ok c) (elem c cs)
          (λ q. subst (λ x. ok x ≡ false) (eq_of_eqb d c q) e))
]

-- No user has two entries.
abbrev pub HasDistinctUsers : List UserConns → Type 0
HasDistinctUsers [] = Unit
HasDistinctUsers (e ∷ es) = (conns_of e.user es ≡ none) × HasDistinctUsers es

in_conns-with_conns :
    (e : UserConns) (cs : List ℕ) (es : List UserConns) (v : String) (c : ℕ)
    → conns_of e.user es ≡ none
    → connected (with_conns e cs es) v c ≡ (if e.user == v then elem c cs else connected es v c)
in_conns-with_conns e [] es v c h = elim (Bool-cases (e.user == v)) [
  | inl q ↦ rw (q, sym (eq_of_== e.user v q), h) refl
  | inr q ↦ rw q refl
]
in_conns-with_conns e (d ∷ cs) es v c h = in_conns-if (e.user == v) c _ _

conns_of-with_conns :
    (e : UserConns) (cs : List ℕ) (es : List UserConns) (v : String)
    → (e.user == v) ≡ false
    → conns_of v (with_conns e cs es) ≡ conns_of v es
conns_of-with_conns e [] es v h = refl
conns_of-with_conns e (d ∷ cs) es v h = rw h refl

-- A user without an entry does not get one.
pub conns_of-write_users :
    (ok : ℕ → Bool) (m : WsMessage) (es : List UserConns) (v : String)
    → conns_of v es ≡ none
    → conns_of v (write_users ok m es).clients ≡ none
conns_of-write_users ok m [] v h = refl
conns_of-write_users ok m (e ∷ es) v h = elim (Bool-cases (e.user == v)) [
  | inl q ↦ absurd (cc (h, q))
  | inr q ↦
      conns_of-with_conns e _ _ v q
      ∙ conns_of-write_users ok m es v
          (subst (λ b. pick b (some e.conns) (conns_of v es) ≡ none) q h)
]

pub connected-write_users :
    (ok : ℕ → Bool) (m : WsMessage) (es : List UserConns) (v : String) (c : ℕ)
    → HasDistinctUsers es
    → connected (write_users ok m es).clients v c ≡ (ok c && connected es v c)
connected-write_users ok m [] v c h = ground arith
connected-write_users ok m (e ∷ es) v c (fresh, h) =
    in_conns-with_conns e _ _ v c (conns_of-write_users ok m es e.user fresh)
    ∙ elim (Bool-cases (e.user == v)) [
      | inl q ↦ rw q (elem-left ok m e.conns c)
      | inr q ↦ rw q (connected-write_users ok m es v c h)
    ]

-- The cases of the guards of a broadcast.
pub data Addressed (m : WsMessage) (h : WsHub) : Address → Type 0 where
  owner_absent :
      (owner m == "") ≡ false → conns_of (owner m) h.clients ≡ none → Addressed m h nobody
  unowned : (owner m == "") ≡ true → (m.kind == "balance") ≡ false → Addressed m h nobody
  to_owner :
      {cs : List ℕ}
      → (owner m == "") ≡ false
      → conns_of (owner m) h.clients ≡ some cs
      → Addressed m h (only cs)
  to_everyone : (owner m == "") ≡ true → (m.kind == "balance") ≡ true → Addressed m h everyone

address_unowned-Addressed :
    (m : WsMessage) (h : WsHub)
    → ((owner m == "") ≡ false → conns_of (owner m) h.clients ≡ none)
    → Addressed m h (address_unowned m)
address_unowned-Addressed m h k = elim (Bool-cases (owner m == "")) [
  | inl e ↦ elim (Bool-cases (m.kind == "balance")) [
    | inl q ↦ rw (e, q) (to_everyone e q)
    | inr q ↦ rw (e, q) (unowned e q)
  ]
  | inr e ↦ rw e (owner_absent e (k e))
]

pub address-Addressed : (m : WsMessage) (h : WsHub) → Addressed m h (address m h)
unfolding address
address-Addressed m h = elim (Option-cases (conns_of (owner m) h.clients)) [
  | inl e ↦ rw e (address_unowned-Addressed m h (λ _. e))
  | inr (cs, e) ↦ elim (Bool-cases (owner m == "")) [
    | inl q ↦ rw e (
        subst (λ b. Addressed m h (if not b then only cs else address_unowned m)) (sym q)
          (address_unowned-Addressed m h (λ n. absurd (cc (n, q)))))
    | inr q ↦ rw (e, q) (to_owner q e)
  ]
]
