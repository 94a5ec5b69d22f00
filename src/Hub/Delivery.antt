-- ===== src/Hub/Delivery.antt =====
-- Who gets the messages that the hub of internal/server/websocket/ws_hub.go is given.
use tucanbit_tvs.Hub.Message.{WsMessage}
use tucanbit_tvs.Hub.Run.{
  WsClient, owner, Delivery, broadcast_user, turn, Event, broadcast_everyone, broadcast, WsHub,
  register, registered, write_users, Address, unregister, write_all, run, broadcast_to,
  unregistered, broadcasted, address,
}
use tucanbit_tvs.Prelude.{
  ◌∷◌, [], List, ℕ, ◌==◌, Any, Bool, All, String, ◌≡◌, true, Bool-cases, ◌⊎◌, inl, split, arith,
  eqb, inr, eq_of_==, subst, sym, ◌||◌, not, ◌∙◌, refl, Option-cases, All-map, All-append,
}
use tucanbit_tvs.Hub.Clients.{elem, UserConns, conns_of}
use tucanbit_tvs.Hub.Refine.{spec_run, is_client, run-spec_run, meant_for}
use tucanbit_tvs.Hub.View.{
  Addressed, connected, owner_absent, unowned, to_owner, address-Addressed, to_everyone,
}
use tucanbit_tvs.Hub.Clients.Laws.{eq_of_eqb}

-- The client was registered by one of the events.
abbrev pub WasRegistered : List Event → String → ℕ → Type 0
WasRegistered es u c = Any (λ e. e ≡ registered (record { user_id = u; conn = c })) es

-- An update of a balance that names no user.
abbrev pub IsForEveryone : WsMessage → Type 0
IsForEveryone m = ((owner m == "") ≡ true) × ((m.kind == "balance") ≡ true)

spec_run-WasRegistered :
    (es : List Event) (u : String) (c : ℕ) → spec_run es u c ≡ true → WasRegistered es u c
spec_run-WasRegistered [] u c h = cc h
spec_run-WasRegistered (registered k ∷ es) u c h = elim (Bool-cases (is_client k u c)) [
  | inl e ↦
      let (eu, ec) = split (k.user_id == u) (eqb k.conn c) e in
      let same_user : k.user_id ≡ u = eq_of_== k.user_id u eu in
      let same_conn : k.conn ≡ c = eq_of_eqb k.conn c ec in inl (cc (same_user, same_conn))
  | inr e ↦ inr (spec_run-WasRegistered es u c (subst (λ b. (b || spec_run es u c) ≡ true) e h))
]
spec_run-WasRegistered (unregistered k ∷ es) u c h =
    inr (spec_run-WasRegistered es u c (split (not (is_client k u c)) (spec_run es u c) h).1)
spec_run-WasRegistered (broadcasted ok m ∷ es) u c h =
    inr (spec_run-WasRegistered es u c (split (spec_run es u c) (not (meant_for m u) || ok c) h).0)

write_all-given :
    (P : Delivery → Type 0) (ok : ℕ → Bool) (m : WsMessage) (cs : List ℕ)
    → ((c : ℕ) → elem c cs ≡ true → P (record { conn = c; message = m }))
    → All P (write_all ok m cs).given
write_all-given P ok m [] h = tt
write_all-given P ok m (c ∷ cs) h = elim (Bool-cases (ok c)) [
  | inl e ↦ rw e (h c (ground arith), write_all-given P ok m cs (λ d k. h d (ground (arith, k))))
  | inr e ↦ rw e (write_all-given P ok m cs (λ d k. h d (ground (arith, k))))
]

write_users-delivered :
    (P : Delivery → Type 0) (ok : ℕ → Bool) (m : WsMessage) (es : List UserConns)
    → ((c : ℕ) → P (record { conn = c; message = m }))
    → All P (write_users ok m es).delivered
write_users-delivered P ok m [] h = tt
write_users-delivered P ok m (e ∷ es) h =
    All-append _ _ _ (write_all-given P ok m e.conns (λ c _. h c))
      (write_users-delivered P ok m es h)

-- What a broadcast gives out satisfies what holds of the owner's connections and of everyone's.
broadcast_to-delivered :
    (P : Delivery → Type 0) (ok : ℕ → Bool) (m : WsMessage) (h : WsHub) (a : Address)
    → Addressed m h a
    → ((c : ℕ) → connected h.clients (owner m) c ≡ true → P (record { conn = c; message = m }))
    → (IsForEveryone m → (c : ℕ) → P (record { conn = c; message = m }))
    → All P h.delivered
    → All P (broadcast_to ok m h a).delivered
unfolding broadcast_user broadcast_everyone
broadcast_to-delivered P ok m h a (owner_absent n k) own all past = past
broadcast_to-delivered P ok m h a (unowned e n) own all past = past
broadcast_to-delivered P ok m h a (to_owner {cs} n k) own all past =
    All-append _ _ _ (write_all-given P ok m cs (λ c i. own c (rw k i))) past
broadcast_to-delivered P ok m h a (to_everyone e q) own all past =
    All-append _ _ _ (write_users-delivered P ok m h.clients (all (e, q))) past

unregister-delivered : (k : WsClient) (h : WsHub) → (unregister k h).delivered ≡ h.delivered
unfolding unregister
unregister-delivered k h = elim (Option-cases (conns_of k.user_id h.clients)) [
  | inl e ↦ rw e refl
  | inr (cs, e) ↦ rw e refl
]

-- The message is for everyone, or its connection was registered for its owner.
abbrev pub WasEntitled : List Event → Delivery → Type 0
WasEntitled es d = WasRegistered es (owner d.message) d.conn ⊎ IsForEveryone d.message

still_entitled :
    (e : Event) (es : List Event) (ds : List Delivery)
    → All (WasEntitled es) ds
    → All (WasEntitled (e ∷ es)) ds
still_entitled e es ds h = All-map ds (λ d k. elim k [ inl r ↦ inl (inr r) | inr f ↦ inr f ]) h

-- After any events in any order, every connection that was given a message had been registered
-- under the name of the message's owner, unless the message is an update of a balance that names no
-- user.
pub run-delivered :
    (es : List Event)
    → All
        (λ d. WasRegistered es (owner d.message) d.conn ⊎ IsForEveryone d.message)
        (run es).delivered
unfolding turn broadcast register unregister
run-delivered [] = tt
run-delivered (registered k ∷ es) = still_entitled (registered k) es _ (run-delivered es)
run-delivered (unregistered k ∷ es) =
    subst (All _) (sym (unregister-delivered k (run es)))
      (still_entitled (unregistered k) es _ (run-delivered es))
run-delivered (broadcasted ok m ∷ es) =
    broadcast_to-delivered _ ok m (run es) (address m (run es)) (address-Addressed m (run es))
      (λ c i.
        inl (inr (spec_run-WasRegistered es (owner m) c (sym (run-spec_run es (owner m) c) ∙ i))))
      (λ f c. inr f) (still_entitled (broadcasted ok m) es _ (run-delivered es))
