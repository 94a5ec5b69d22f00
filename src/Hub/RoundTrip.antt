-- ===== src/Hub/RoundTrip.antt =====
-- A client of internal/server/websocket/ws_hub.go that comes and goes.
use tucanbit_tvs.Hub.Run.{WsClient, unregister, register, WsHub, store, conns_or_new}
use tucanbit_tvs.Prelude.{
  ◌∷◌, [], refl, String, ℕ, List, ◌≡◌, none, ==-refl, some, false, Bool-cases, ◌==◌, arith, inl,
  inr, subst, Option-cases, ap, sym, ◌∙◌,
}
use tucanbit_tvs.Hub.Clients.{UserConns, elem, conns_of, put, delete, remove, add}
use tucanbit_tvs.Hub.WellFormed.{IsWellFormed, IsProper, All-conns_of}
use tucanbit_tvs.Hub.View.{connected, in_conns}
use tucanbit_tvs.Hub.Clients.Laws.{conns_of-put, pick}

delete-put_absent :
    (u : String) (cs : List ℕ) (es : List UserConns)
    → conns_of u es ≡ none
    → delete u (put u cs es) ≡ es
delete-put_absent u cs [] h = rw (==-refl u) refl
delete-put_absent u cs (e ∷ es) h = elim (Bool-cases (e.user == u)) [
  | inl q ↦ absurd (cc (h, q))
  | inr q ↦
      rw (q, q)
        (ap (λ r. e ∷ r)
          (delete-put_absent u cs es
            (subst (λ b. pick b (some e.conns) (conns_of u es) ≡ none) q h)))
]

put-put : (u : String) (cs ds : List ℕ) (es : List UserConns) → put u cs (put u ds es) ≡ put u cs es
put-put u cs ds [] = rw (==-refl u) refl
put-put u cs ds (e ∷ es) = elim (Bool-cases (e.user == u)) [
  | inl q ↦ rw (q, q) refl
  | inr q ↦ rw (q, q) (ap (λ r. e ∷ r) (put-put u cs ds es))
]

put-same :
    (u : String) (cs : List ℕ) (es : List UserConns) → conns_of u es ≡ some cs → put u cs es ≡ es
put-same u cs [] h = cc h
put-same u cs (e ∷ es) h = elim (Bool-cases (e.user == u)) [
  | inl q ↦
      let same : some e.conns ≡ some cs =
        subst (λ b. pick b (some e.conns) (conns_of u es) ≡ some cs) q h in
      let here : e.conns ≡ cs = cc same in rw (q, sym here) refl
  | inr q ↦ rw q (
      ap (λ r. e ∷ r)
        (put-same u cs es (subst (λ b. pick b (some e.conns) (conns_of u es) ≡ some cs) q h)))
]

remove-absent : (c : ℕ) (cs : List ℕ) → elem c cs ≡ false → remove c cs ≡ cs
remove-absent c [] h = refl
remove-absent c (d ∷ cs) h = ground (arith, remove-absent c cs)

remove-add : (c : ℕ) (cs : List ℕ) → elem c cs ≡ false → remove c (add c cs) ≡ cs
remove-add c cs h = rw h (ground (arith, remove-absent c cs))

store-proper :
    (u : String) (cs : List ℕ) (es : List UserConns) → IsProper cs → store u cs es ≡ put u cs es
store-proper u [] es h = absurd h
store-proper u (c ∷ cs) es h = refl

come_and_go :
    (u : String) (c : ℕ) (es : List UserConns)
    → conns_of u es ≡ none
    → store u (remove c (c ∷ [])) (put u (c ∷ []) es) ≡ es
come_and_go u c es h = rw (remove-add c [] refl) (delete-put_absent u (c ∷ []) es h)

join_and_leave :
    (u : String) (c : ℕ) (cs : List ℕ) (es : List UserConns)
    → conns_of u es ≡ some cs
    → elem c cs ≡ false
    → IsProper cs
    → store u (remove c (add c cs)) (put u (add c cs) es) ≡ es
join_and_leave u c cs es h new p =
    rw (remove-add c cs new)
      (store-proper u cs _ p ∙ put-put u cs (add c cs) es ∙ put-same u cs es h)

-- A client whose connection the hub does not hold for its user, once registered and unregistered,
-- leaves the maps of a well-formed hub as they were.
pub unregister-register :
    (c : WsClient) (h : WsHub)
    → IsWellFormed h.clients
    → connected h.clients c.user_id c.conn ≡ false
    → (unregister c (register c h)).clients ≡ h.clients
unfolding unregister register IsWellFormed
unregister-register c h w new =
    rw
      (
        conns_of-put c.user_id c.user_id (add c.conn (conns_or_new (conns_of c.user_id h.clients)))
            h.clients,
        ==-refl c.user_id,
      )
      (elim (Option-cases (conns_of c.user_id h.clients)) [
        | inl e ↦ rw e (come_and_go c.user_id c.conn h.clients e)
        | inr (cs, e) ↦ rw e (
            join_and_leave c.user_id c.conn cs h.clients e
              (subst (λ o. in_conns c.conn o ≡ false) e new)
              (All-conns_of (λ _ ds. IsProper ds) c.user_id cs h.clients w.1 e))
      ])
