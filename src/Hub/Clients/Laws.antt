-- ===== src/Hub/Clients/Laws.antt =====
-- Lookups in the maps of internal/server/websocket/ws_hub.go after a change.
use tucanbit_tvs.Hub.Clients.{
  UserConns, elem, add, remove, conns_of, put, delete, Bool, ℕ, String, Option, eqb, List, not,
  some, none,
}
use tucanbit_tvs.Prelude.{
  ◌∷◌, [], refl, if◌then◌else◌, ◌≡◌, arith, true, ◌||◌, ◌==◌, Bool-cases, ◌&&◌, inl, sym, eq_of_==,
  inr, false,
}

abbrev pub pick : Bool → Option (List ℕ) → Option (List ℕ) → Option (List ℕ)
pick b x y = if b then x else y

pub eqb_symm : (a b : ℕ) → eqb a b ≡ eqb b a
eqb_symm a b = ground arith

pub eq_of_eqb : (a b : ℕ) → eqb a b ≡ true → a ≡ b
eq_of_eqb a b h = ground arith

pub elem-add : (d c : ℕ) (cs : List ℕ) → elem d (add c cs) ≡ (eqb c d || elem d cs)
elem-add d c cs = elim (Bool-cases (elem c cs)) [
  | inl e ↦
      rw e (elim (Bool-cases (eqb c d)) [
        | inl q ↦ rw (q, sym (eq_of_eqb c d q)) e
        | inr q ↦ rw q refl
      ])
  | inr e ↦ rw e refl
]

pub elem-remove : (d c : ℕ) (cs : List ℕ) → elem d (remove c cs) ≡ (not (eqb d c) && elem d cs)
elem-remove d c [] = ground arith
elem-remove d c (x ∷ xs) = ground (arith, elem-remove d c xs)

pub test_apart : (a u v : String) → (a == u) ≡ false → (a == v) ≡ true → (u == v) ≡ false
test_apart a u v n h = elim (Bool-cases (u == v)) [
  | inl e ↦ absurd (cc (n, h, eq_of_== u v e))
  | inr e ↦ e
]

pub test_same : (a u v : String) → (a == u) ≡ true → (a == v) ≡ true → (u == v) ≡ true
test_same a u v h k = rw (sym (eq_of_== a u h)) k

pub conns_of-put :
    (v u : String) (cs : List ℕ) (es : List UserConns)
    → conns_of v (put u cs es) ≡ (if u == v then some cs else conns_of v es)
conns_of-put v u cs [] = refl
conns_of-put v u cs (e ∷ es) = elim (Bool-cases (e.user == u)) [
  | inl q ↦ rw (q, eq_of_== e.user u q) (ground arith)
  | inr q ↦ elim (Bool-cases (e.user == v)) [
    | inl r ↦ rw (q, r, test_apart e.user u v q r) refl
    | inr r ↦ rw (q, r) (conns_of-put v u cs es)
  ]
]

pub conns_of-delete :
    (v u : String) (es : List UserConns)
    → conns_of v (delete u es) ≡ (if u == v then none else conns_of v es)
conns_of-delete v u [] = ground arith
conns_of-delete v u (e ∷ es) = elim (Bool-cases (e.user == u)) [
  | inl q ↦ rw q (elim (Bool-cases (e.user == v)) [
    | inl r ↦ rw (r, conns_of-delete v u es, test_same e.user u v q r) refl
    | inr r ↦ rw (r, conns_of-delete v u es) refl
  ])
  | inr q ↦ elim (Bool-cases (e.user == v)) [
    | inl r ↦ rw (q, r, test_apart e.user u v q r) refl
    | inr r ↦ rw (q, r) (conns_of-delete v u es)
  ]
]
