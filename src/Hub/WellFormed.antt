-- ===== src/Hub/WellFormed.antt =====
-- What the maps of internal/server/websocket/ws_hub.go keep: one entry for a user, no empty entry,
-- no connection twice in an entry.
use tucanbit_tvs.Hub.Message.{WsMessage}
use tucanbit_tvs.Hub.Clients.{UserConns, elem, add, remove, conns_of, put, delete}
use tucanbit_tvs.Hub.Clients.Laws.{conns_of-put, conns_of-delete, elem-remove, pick}
use tucanbit_tvs.Hub.View.{HasDistinctUsers, elem-left}
use tucanbit_tvs.Hub.Run.{write_all}
use tucanbit_tvs.Prelude.{
  ◌∷◌, [], refl, List, ℕ, String, ◌≡◌, All, Bool-cases, Bool, ◌==◌, false, inl, not, some, subst,
  eqb, ◌∙◌, eq_of_==, inr, if◌then◌else◌, arith, ==-refl, sym,
}

-- No connection occurs twice.
abbrev pub IsUnique : List ℕ → Type 0
IsUnique [] = Unit
IsUnique (c ∷ cs) = (elem c cs ≡ false) × IsUnique cs

-- The connections of an entry: at least one, and none of them twice.
abbrev pub IsProper : List ℕ → Type 0
IsProper [] = ⊥
IsProper (c ∷ cs) = IsUnique (c ∷ cs)

unfoldable pub IsWellFormed : List UserConns → Type 0
IsWellFormed es = HasDistinctUsers es × All (λ e. IsProper e.conns) es

pub IsProper-IsUnique : (cs : List ℕ) → IsProper cs → IsUnique cs
IsProper-IsUnique [] h = absurd h
IsProper-IsUnique (c ∷ cs) h = h

pub IsProper-add : (c : ℕ) (cs : List ℕ) → IsUnique cs → IsProper (add c cs)
IsProper-add c [] h = (refl, tt)
IsProper-add c (d ∷ cs) h = elim (Bool-cases (elem c (d ∷ cs))) [
  | inl e ↦ subst (λ b. IsProper (if b then d ∷ cs else c ∷ d ∷ cs)) (sym e) h
  | inr e ↦ subst (λ b. IsProper (if b then d ∷ cs else c ∷ d ∷ cs)) (sym e) (e, h)
]

pub IsUnique-remove : (c : ℕ) (cs : List ℕ) → IsUnique cs → IsUnique (remove c cs)
IsUnique-remove c [] h = tt
IsUnique-remove c (d ∷ cs) (fresh, h) = elim (Bool-cases (not (eqb d c))) [
  | inl e ↦
      subst (λ b. IsUnique (if b then d ∷ remove c cs else remove c cs)) (sym e)
        (elem-remove d c cs ∙ ground (arith, fresh), IsUnique-remove c cs h)
  | inr e ↦
      subst (λ b. IsUnique (if b then d ∷ remove c cs else remove c cs)) (sym e)
        (IsUnique-remove c cs h)
]

pub IsUnique-left :
    (ok : ℕ → Bool) (m : WsMessage) (cs : List ℕ) → IsUnique cs → IsUnique (write_all ok m cs).left
IsUnique-left ok m [] h = tt
IsUnique-left ok m (d ∷ cs) (fresh, h) = elim (Bool-cases (ok d)) [
  | inl e ↦ rw e (elem-left ok m cs d ∙ ground (arith, fresh), IsUnique-left ok m cs h)
  | inr e ↦ rw e (IsUnique-left ok m cs h)
]

pub ==-symm_false : (s t : String) → (s == t) ≡ false → (t == s) ≡ false
==-symm_false s t h = elim (Bool-cases (t == s)) [
  | inl e ↦ absurd (cc (h, eq_of_== t s e, ==-refl s))
  | inr e ↦ e
]

pub HasDistinctUsers-put :
    (u : String) (cs : List ℕ) (es : List UserConns)
    → HasDistinctUsers es
    → HasDistinctUsers (put u cs es)
HasDistinctUsers-put u cs [] h = (refl, tt)
HasDistinctUsers-put u cs (e ∷ es) (fresh, h) = elim (Bool-cases (e.user == u)) [
  | inl q ↦ rw q (fresh, h)
  | inr q ↦ rw q (
    conns_of-put e.user u cs es ∙ rw (==-symm_false e.user u q) fresh,
    HasDistinctUsers-put u cs es h,
  )
]

pub HasDistinctUsers-delete :
    (u : String) (es : List UserConns) → HasDistinctUsers es → HasDistinctUsers (delete u es)
HasDistinctUsers-delete u [] h = tt
HasDistinctUsers-delete u (e ∷ es) (fresh, h) = elim (Bool-cases (e.user == u)) [
  | inl q ↦ rw q (HasDistinctUsers-delete u es h)
  | inr q ↦ rw q (
    conns_of-delete e.user u es ∙ rw (==-symm_false e.user u q) fresh,
    HasDistinctUsers-delete u es h,
  )
]

-- Changes of the entries that keep a predicate of the connections.
module _ (P : String → List ℕ → Type 0) where
  pub All-put :
      (u : String) (cs : List ℕ) (es : List UserConns)
      → P u cs
      → All (λ e. P e.user e.conns) es
      → All (λ e. P e.user e.conns) (put u cs es)
  All-put u cs [] p h = (p, tt)
  All-put u cs (e ∷ es) p (q, h) = elim (Bool-cases (e.user == u)) [
    | inl r ↦ rw r (subst (λ v. P v cs) (sym (eq_of_== e.user u r)) p, h)
    | inr r ↦ rw r (q, All-put u cs es p h)
  ]

  pub All-delete :
      (u : String) (es : List UserConns)
      → All (λ e. P e.user e.conns) es
      → All (λ e. P e.user e.conns) (delete u es)
  All-delete u [] h = tt
  All-delete u (e ∷ es) (q, h) = elim (Bool-cases (e.user == u)) [
    | inl r ↦ rw r (All-delete u es h)
    | inr r ↦ rw r (q, All-delete u es h)
  ]

  pub All-conns_of :
      (u : String) (cs : List ℕ) (es : List UserConns)
      → All (λ e. P e.user e.conns) es
      → conns_of u es ≡ some cs
      → P u cs
  All-conns_of u cs [] h k = cc k
  All-conns_of u cs (e ∷ es) (q, h) k = elim (Bool-cases (e.user == u)) [
    | inl r ↦
        let same : some e.conns ≡ some cs =
          subst (λ b. pick b (some e.conns) (conns_of u es) ≡ some cs) r k in
        let here : e.conns ≡ cs = cc same in
        subst (λ v. P v cs) (eq_of_== e.user u r) (subst (λ d. P e.user d) here q)
    | inr r ↦
        All-conns_of u cs es h (subst (λ b. pick b (some e.conns) (conns_of u es) ≡ some cs) r k)
  ]
