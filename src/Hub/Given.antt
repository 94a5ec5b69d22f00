-- ===== src/Hub/Given.antt =====
-- The messages that the hub of internal/server/websocket/ws_hub.go does give out.
use tucanbit_tvs.Hub.Message.{WsMessage}
use tucanbit_tvs.Hub.Run.{
  owner, Delivery, broadcast_user, turn, Event, broadcast_everyone, broadcast, WsHub, write_users,
  Address, write_all, run, broadcast_to, broadcasted, address,
}
use tucanbit_tvs.Prelude.{
  ◌∷◌, [], List, ℕ, ◌==◌, Any, Bool, String, ◌≡◌, ◌++◌, true, Bool-cases, ◌⊎◌, inl, eqb, inr,
  eq_of_==, subst, sym, ◌||◌, ◌∙◌, refl, some, Option, none, false, if◌then◌else◌,
}
use tucanbit_tvs.Hub.Clients.{elem, UserConns, conns_of}
use tucanbit_tvs.Hub.Refine.{spec_run, run-spec_run, meant_for}
use tucanbit_tvs.Hub.View.{
  Addressed, connected, owner_absent, unowned, to_owner, address-Addressed, to_everyone, in_conns,
}
use tucanbit_tvs.Hub.Clients.Laws.{eq_of_eqb, pick}

-- The connection was given the message.
abbrev pub Gave : WsMessage → ℕ → List Delivery → Type 0
Gave m c ds = Any (λ x. x ≡ record { conn = c; message = m }) ds

Gave-append :
    (m : WsMessage) (c : ℕ) (xs ys : List Delivery)
    → Gave m c xs ⊎ Gave m c ys
    → Gave m c (xs ++ ys)
Gave-append m c [] ys (inl h) = absurd h
Gave-append m c [] ys (inr h) = h
Gave-append m c (x ∷ xs) ys (inl (inl e)) = inl e
Gave-append m c (x ∷ xs) ys (inl (inr h)) = inr (Gave-append m c xs ys (inl h))
Gave-append m c (x ∷ xs) ys (inr h) = inr (Gave-append m c xs ys (inr h))

write_all-Gave :
    (ok : ℕ → Bool) (m : WsMessage) (cs : List ℕ) (c : ℕ)
    → elem c cs ≡ true
    → ok c ≡ true
    → Gave m c (write_all ok m cs).given
write_all-Gave ok m [] c h k = cc h
write_all-Gave ok m (d ∷ cs) c h k = elim (Bool-cases (eqb d c)) [
  | inl e ↦ rw (eq_of_eqb d c e, k) (inl refl)
  | inr e ↦
      let rest = write_all-Gave ok m cs c (subst (λ b. (b || elem c cs) ≡ true) e h) k in
      elim (Bool-cases (ok d)) [ inl o ↦ rw o (inr rest) | inr o ↦ rw o rest ]
]

write_users-Gave :
    (ok : ℕ → Bool) (m : WsMessage) (es : List UserConns) (u : String) (c : ℕ)
    → connected es u c ≡ true
    → ok c ≡ true
    → Gave m c (write_users ok m es).delivered
write_users-Gave ok m [] u c h k = cc h
write_users-Gave ok m (e ∷ es) u c h k = elim (Bool-cases (e.user == u)) [
  | inl q ↦ Gave-append m c _ _ (
      inl (
        write_all-Gave ok m e.conns c
          (subst (λ b. in_conns c (pick b (some e.conns) (conns_of u es)) ≡ true) q h) k))
  | inr q ↦ Gave-append m c _ _ (
      inr (
        write_users-Gave ok m es u c
          (subst (λ b. in_conns c (pick b (some e.conns) (conns_of u es)) ≡ true) q h) k))
]

owned :
    (m : WsMessage) (h : WsHub) (u : String) (c : ℕ) (o : Option (List ℕ))
    → (owner m == "") ≡ false
    → conns_of (owner m) h.clients ≡ o
    → connected h.clients u c ≡ true
    → meant_for m u ≡ true
    → in_conns c o ≡ true
owned m h u c o n k i f =
    let is_owner : (owner m == u) ≡ true =
      subst (λ b. (if b then m.kind == "balance" else owner m == u) ≡ true) n f in
    let his : connected h.clients (owner m) c ≡ true =
      subst (λ v. connected h.clients v c ≡ true) (sym (eq_of_== (owner m) u is_owner)) i in
    subst (λ x. in_conns c x ≡ true) k his

broadcast_to-Gave :
    (ok : ℕ → Bool) (m : WsMessage) (h : WsHub) (a : Address) (u : String) (c : ℕ)
    → Addressed m h a
    → connected h.clients u c ≡ true
    → meant_for m u ≡ true
    → ok c ≡ true
    → Gave m c (broadcast_to ok m h a).delivered
unfolding broadcast_user broadcast_everyone
broadcast_to-Gave ok m h a u c (owner_absent n k) i f o = cc (owned m h u c none n k i f)
broadcast_to-Gave ok m h a u c (unowned e n) i f o =
    cc (n, subst (λ b. (if b then m.kind == "balance" else owner m == u) ≡ true) e f)
broadcast_to-Gave ok m h a u c (to_owner {cs} n k) i f o =
    Gave-append m c _ _ (inl (write_all-Gave ok m cs c (owned m h u c (some cs) n k i f) o))
broadcast_to-Gave ok m h a u c (to_everyone e q) i f o =
    Gave-append m c _ _ (inl (write_users-Gave ok m h.clients u c i o))

-- A connection that is registered for a user when a message that is meant for this user is taken
-- from the channel, and that can be written to, is given the message in that turn.
pub run-Gave :
    (es : List Event) (ok : ℕ → Bool) (m : WsMessage) (u : String) (c : ℕ)
    → spec_run es u c ≡ true
    → meant_for m u ≡ true
    → ok c ≡ true
    → Gave m c (run (broadcasted ok m ∷ es)).delivered
unfolding turn broadcast
run-Gave es ok m u c i f o =
    broadcast_to-Gave ok m (run es) (address m (run es)) u c (address-Addressed m (run es))
      (run-spec_run es u c ∙ i) f o
