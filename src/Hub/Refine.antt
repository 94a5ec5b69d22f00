-- ===== src/Hub/Refine.antt =====
-- What the hub of internal/server/websocket/ws_hub.go promises: a relation between users and
-- connections, and how each event changes it.
use tucanbit_tvs.Hub.Message.{WsMessage}
use tucanbit_tvs.Hub.Run.{
  WsClient, Event, register, unregister, broadcast_user, WsHub, broadcast_everyone, registered,
  Address, owner, unregistered, broadcasted, broadcast_to, conns_or_new, turn, broadcast, run,
  address,
}
use tucanbit_tvs.Prelude.{
  refl, String, ℕ, Bool, ◌==◌, if◌then◌else◌, ◌&&◌, ◌||◌, ◌≡◌, eqb, not, ◌∙◌, Option-cases,
  Bool-cases, inl, sym, eq_of_==, arith, inr, ◌∷◌, [], true, List, ap, false,
}
use tucanbit_tvs.Hub.View.{
  connected, Addressed, connected-put, HasDistinctUsers, owner_absent, unowned, to_owner,
  elem-conns_or_new, to_everyone, connected-write_users, connected-store, elem-left,
  address-Addressed,
}
use tucanbit_tvs.Hub.Clients.{conns_of, elem}
use tucanbit_tvs.Hub.Clients.Laws.{elem-add, elem-remove, eqb_symm}
use tucanbit_tvs.Hub.WellFormed.{IsWellFormed}
use tucanbit_tvs.Hub.Invariant.{run-IsWellFormed}

-- The user and the connection are the client's.
abbrev pub is_client : WsClient → String → ℕ → Bool
is_client c u d = (c.user_id == u) && eqb c.conn d

-- The message is for the user: the owner of what it carries, and everyone if it is an update of a
-- balance without an owner.
abbrev pub meant_for : WsMessage → String → Bool
meant_for m u = if owner m == "" then m.kind == "balance" else owner m == u

-- An event on the relation: a registration adds a pair, an unregistration takes it away, and a
-- message drops the pairs that it is for and cannot be written to.
abbrev pub spec_turn : Event → (String → ℕ → Bool) → String → ℕ → Bool
spec_turn (registered c) r u d = is_client c u d || r u d
spec_turn (unregistered c) r u d = not (is_client c u d) && r u d
spec_turn (broadcasted ok m) r u d = r u d && (not (meant_for m u) || ok d)

register-connected :
    (c : WsClient) (h : WsHub) (u : String) (d : ℕ)
    → connected (register c h).clients u d ≡ (is_client c u d || connected h.clients u d)
unfolding register
register-connected c h u d =
    connected-put c.user_id u _ h.clients d ∙ elim (Bool-cases (c.user_id == u)) [
      | inl e ↦
          rw
            (
              e,
              elem-add d c.conn (conns_or_new (conns_of c.user_id h.clients)),
              elem-conns_or_new d (conns_of c.user_id h.clients),
              eq_of_== c.user_id u e,
            )
            refl
      | inr e ↦ rw e refl
    ]

unregister-connected :
    (c : WsClient) (h : WsHub) (u : String) (d : ℕ)
    → connected (unregister c h).clients u d ≡ (not (is_client c u d) && connected h.clients u d)
unfolding unregister
unregister-connected c h u d = elim (Option-cases (conns_of c.user_id h.clients)) [
  | inl k ↦ rw k (elim (Bool-cases (c.user_id == u)) [
    | inl e ↦ rw (sym (eq_of_== c.user_id u e), k) (ground arith)
    | inr e ↦ rw e refl
  ])
  | inr (cs, k) ↦ rw k (
      connected-store c.user_id u _ h.clients d ∙ elim (Bool-cases (c.user_id == u)) [
        | inl e ↦
            rw (e, elem-remove d c.conn cs, sym (eq_of_== c.user_id u e), k)
              (ap (λ b. not b && elem d cs) (eqb_symm d c.conn))
        | inr e ↦ rw e refl
      ])
]

and_true : (b : Bool) → b ≡ (b && true)
and_true b = ground arith

and_swap : (a b : Bool) → (a && b) ≡ (b && a)
and_swap a b = ground arith

broadcast_to-connected :
    (ok : ℕ → Bool) (m : WsMessage) (h : WsHub) (a : Address) (u : String) (d : ℕ)
    → Addressed m h a
    → HasDistinctUsers h.clients
    → connected (broadcast_to ok m h a).clients u d
      ≡ (connected h.clients u d && (not (meant_for m u) || ok d))
unfolding broadcast_user broadcast_everyone
broadcast_to-connected ok m h a u d (owner_absent n k) w = elim (Bool-cases (owner m == u)) [
  | inl e ↦ rw (sym (eq_of_== (owner m) u e), k) (ground arith)
  | inr e ↦ rw (n, e) (and_true (connected h.clients u d))
]
broadcast_to-connected ok m h a u d (unowned e n) w = rw (e, n) (and_true (connected h.clients u d))
broadcast_to-connected ok m h a u d (to_owner {cs} n k) w =
    connected-store (owner m) u _ h.clients d ∙ elim (Bool-cases (owner m == u)) [
      | inl e ↦
          rw (n, e, elem-left ok m cs d, sym (eq_of_== (owner m) u e), k)
            (and_swap (ok d) (elem d cs))
      | inr e ↦ rw (n, e) (and_true (connected h.clients u d))
    ]
broadcast_to-connected ok m h a u d (to_everyone e q) w =
    connected-write_users ok m h.clients u d w
    ∙ rw (e, q) (and_swap (ok d) (connected h.clients u d))

turn-spec_turn :
    (e : Event) (h : WsHub) (u : String) (d : ℕ)
    → IsWellFormed h.clients
    → connected (turn e h).clients u d ≡ spec_turn e (connected h.clients) u d
unfolding turn broadcast IsWellFormed
turn-spec_turn (registered c) h u d w = register-connected c h u d
turn-spec_turn (unregistered c) h u d w = unregister-connected c h u d
turn-spec_turn (broadcasted ok m) h u d w =
    broadcast_to-connected ok m h (address m h) u d (address-Addressed m h) w.0

-- The events on the relation, the last one first.
abbrev pub spec_run : List Event → String → ℕ → Bool
spec_run [] u d = false
spec_run (e ∷ es) u d = spec_turn e (spec_run es) u d

spec_turn-cong :
    (e : Event) (r s : String → ℕ → Bool) (u : String) (d : ℕ)
    → r u d ≡ s u d
    → spec_turn e r u d ≡ spec_turn e s u d
spec_turn-cong (registered c) r s u d k = ap (λ b. is_client c u d || b) k
spec_turn-cong (unregistered c) r s u d k = ap (λ b. not (is_client c u d) && b) k
spec_turn-cong (broadcasted ok m) r s u d k = ap (λ b. b && (not (meant_for m u) || ok d)) k

-- After any events in any order, the nested maps hold a connection for a user exactly when the
-- relation between users and connections does: registrations add a pair, unregistrations remove
-- it, and a message removes the pairs it is meant for and could not be written to, and no other.
pub run-spec_run :
    (es : List Event) (u : String) (d : ℕ) → connected (run es).clients u d ≡ spec_run es u d
run-spec_run [] u d = refl
run-spec_run (e ∷ es) u d =
    turn-spec_turn e (run es) u d (run-IsWellFormed es)
    ∙ spec_turn-cong e _ _ u d (run-spec_run es u d)
