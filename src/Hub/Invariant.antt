-- ===== src/Hub/Invariant.antt =====
-- The maps of internal/server/websocket/ws_hub.go over the turns of `Run`.
use tucanbit_tvs.Hub.Message.{WsMessage}
use tucanbit_tvs.Hub.Clients.{UserConns, remove, conns_of}
use tucanbit_tvs.Hub.View.{
  HasDistinctUsers, conns_of-write_users, Addressed, to_owner, address-Addressed,
}
use tucanbit_tvs.Hub.Run.{
  conns_or_new, store, register, unregister, broadcast_user, turn, WsClient, broadcast_everyone,
  broadcast, Event, WsHub, run, write_users, Address, registered, with_conns, unregistered,
  broadcast_to, broadcasted, only, address, owner, nobody, everyone,
}
use tucanbit_tvs.Prelude.{
  ◌∷◌, [], List, String, ℕ, ◌≡◌, Bool, some, Option-cases, none, All, inl, inr, subst, sym,
}
use tucanbit_tvs.Hub.WellFormed.{
  IsWellFormed, IsUnique, HasDistinctUsers-delete, HasDistinctUsers-put, All-delete,
  IsProper-IsUnique, All-put, IsProper, IsUnique-left, All-conns_of, IsProper-add, IsUnique-remove,
}

IsWellFormed-store :
    (u : String) (cs : List ℕ) (es : List UserConns)
    → IsUnique cs
    → IsWellFormed es
    → IsWellFormed (store u cs es)
unfolding IsWellFormed
IsWellFormed-store u [] es p (d, h) =
    (HasDistinctUsers-delete u es d, All-delete (λ _ ds. IsProper ds) u es h)
IsWellFormed-store u (c ∷ cs) es p (d, h) =
    (HasDistinctUsers-put u (c ∷ cs) es d, All-put (λ _ ds. IsProper ds) u (c ∷ cs) es p h)

IsUnique-conns_of :
    (u : String) (cs : List ℕ) (es : List UserConns)
    → IsWellFormed es
    → conns_of u es ≡ some cs
    → IsUnique cs
unfolding IsWellFormed
IsUnique-conns_of u cs es (d, h) k =
    IsProper-IsUnique cs (All-conns_of (λ _ ds. IsProper ds) u cs es h k)

pub register-IsWellFormed :
    (c : WsClient) (h : WsHub) → IsWellFormed h.clients → IsWellFormed (register c h).clients
unfolding register IsWellFormed
register-IsWellFormed c h w = (
  HasDistinctUsers-put c.user_id _ h.clients w.0,
  All-put (λ _ ds. IsProper ds) c.user_id _ h.clients
      (IsProper-add c.conn _ (elim (Option-cases (conns_of c.user_id h.clients)) [
        | inl e ↦ subst (λ o. IsUnique (conns_or_new o)) (sym e) tt
        | inr (cs, e) ↦
            subst (λ o. IsUnique (conns_or_new o)) (sym e)
              (IsUnique-conns_of c.user_id cs h.clients w e)
      ]))
      w.1,
)

unregister-IsWellFormed :
    (c : WsClient) (h : WsHub) → IsWellFormed h.clients → IsWellFormed (unregister c h).clients
unfolding unregister
unregister-IsWellFormed c h w = elim (Option-cases (conns_of c.user_id h.clients)) [
  | inl e ↦ rw e w
  | inr (cs, e) ↦ rw e (
      IsWellFormed-store c.user_id (remove c.conn cs) h.clients
        (IsUnique-remove c.conn cs (IsUnique-conns_of c.user_id cs h.clients w e)) w)
]

HasDistinctUsers-with_conns :
    (e : UserConns) (cs : List ℕ) (es : List UserConns)
    → conns_of e.user es ≡ none
    → HasDistinctUsers es
    → HasDistinctUsers (with_conns e cs es)
HasDistinctUsers-with_conns e [] es f d = d
HasDistinctUsers-with_conns e (c ∷ cs) es f d = (f, d)

IsProper-with_conns :
    (e : UserConns) (cs : List ℕ) (es : List UserConns)
    → IsUnique cs
    → All (λ x. IsProper x.conns) es
    → All (λ x. IsProper x.conns) (with_conns e cs es)
IsProper-with_conns e [] es p h = h
IsProper-with_conns e (c ∷ cs) es p h = (p, h)

write_users-IsWellFormed :
    (ok : ℕ → Bool) (m : WsMessage) (es : List UserConns)
    → IsWellFormed es
    → IsWellFormed (write_users ok m es).clients
unfolding IsWellFormed
write_users-IsWellFormed ok m [] w = w
write_users-IsWellFormed ok m (e ∷ es) ((fresh, d), (p, h)) =
    let rest = write_users-IsWellFormed ok m es (d, h) in
    (
      HasDistinctUsers-with_conns e _ _ (conns_of-write_users ok m es e.user fresh) rest.0,
      IsProper-with_conns e _ _ (IsUnique-left ok m e.conns (IsProper-IsUnique e.conns p)) rest.1,
    )

broadcast_to-IsWellFormed :
    (ok : ℕ → Bool) (m : WsMessage) (h : WsHub) (a : Address)
    → Addressed m h a
    → IsWellFormed h.clients
    → IsWellFormed (broadcast_to ok m h a).clients
unfolding broadcast_user broadcast_everyone
broadcast_to-IsWellFormed ok m h nobody d w = w
broadcast_to-IsWellFormed ok m h (only cs) (to_owner n k) w =
    IsWellFormed-store (owner m) _ h.clients
      (IsUnique-left ok m cs (IsUnique-conns_of (owner m) cs h.clients w k)) w
broadcast_to-IsWellFormed ok m h everyone d w = write_users-IsWellFormed ok m h.clients w

pub turn-IsWellFormed :
    (e : Event) (h : WsHub) → IsWellFormed h.clients → IsWellFormed (turn e h).clients
unfolding turn broadcast
turn-IsWellFormed (registered c) h w = register-IsWellFormed c h w
turn-IsWellFormed (unregistered c) h w = unregister-IsWellFormed c h w
turn-IsWellFormed (broadcasted ok m) h w =
    broadcast_to-IsWellFormed ok m h (address m h) (address-Addressed m h) w

-- Whatever the loop takes from its channels, in whatever order, a user has one entry at most, no
-- entry is empty and no entry has a connection twice.
pub run-IsWellFormed : (es : List Event) → IsWellFormed (run es).clients
unfolding IsWellFormed
run-IsWellFormed [] = (tt, tt)
run-IsWellFormed (e ∷ es) = turn-IsWellFormed e (run es) (run-IsWellFormed es)
