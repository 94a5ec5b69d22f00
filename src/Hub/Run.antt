-- ===== src/Hub/Run.antt =====
-- `Run` of internal/server/websocket/ws_hub.go: one turn of its loop for each event that `select`
-- takes from a channel. Whether `WriteJSON` succeeds on a connection is an argument of the turn.
use tucanbit_tvs.Hub.Message.{WsMessage}
use tucanbit_tvs.Hub.Clients.{UserConns, add, remove, conns_of, put, delete}
use tucanbit_tvs.Prelude.{
  ℕ, String, Bool, Option, none, some, List, [], ◌∷◌, ◌++◌, not, ◌&&◌, if◌then◌else◌, ◌==◌,
}

-- `WsClient`
pub record WsClient : Type 0 where
  pub user_id : String
  pub conn : ℕ

-- A message that a connection was given.
pub record Delivery : Type 0 where
  pub conn : ℕ
  pub message : WsMessage

-- `WsHub`, with what its connections were given and which were closed.
pub record WsHub : Type 0 where
  pub clients : List UserConns
  pub delivered : List Delivery
  pub closed : List ℕ

-- `NewWsHub`
abbrev pub new_ws_hub : WsHub
new_ws_hub = record { clients = []; delivered = []; closed = [] }

-- The inner map of a user, made when it is missing.
abbrev pub conns_or_new : Option (List ℕ) → List ℕ
conns_or_new none = []
conns_or_new (some cs) = cs

-- `case client := <-h.Register`
unfoldable pub register : WsClient → WsHub → WsHub
register c h = record h {
  clients = put c.user_id (add c.conn (conns_or_new (conns_of c.user_id h.clients))) h.clients;
}

-- Store a user's connections, and drop the user whose last one is gone.
abbrev pub store : String → List ℕ → List UserConns → List UserConns
store u [] es = delete u es
store u (c ∷ cs) es = put u (c ∷ cs) es

abbrev pub unregister_from : WsClient → WsHub → Option (List ℕ) → WsHub
unregister_from c h none = h
unregister_from c h (some cs) = record h {
  clients = store c.user_id (remove c.conn cs) h.clients;
  closed = c.conn ∷ h.closed;
}

-- `case client := <-h.Unregister`
unfoldable pub unregister : WsClient → WsHub → WsHub
unregister c h = unregister_from c h (conns_of c.user_id h.clients)

-- What the loop over one user's connections leaves, gives out and closes.
pub record Written : Type 0 where
  pub left : List ℕ
  pub given : List Delivery
  pub failed : List ℕ

-- `for conn := range clients { err := conn.WriteJSON(message) ... }`
abbrev pub write_all : (ℕ → Bool) → WsMessage → List ℕ → Written
write_all ok m [] = record { left = []; given = []; failed = [] }
write_all ok m (c ∷ cs) =
    let rest = write_all ok m cs in
    if ok c
    then record {
      left = c ∷ rest.left;
      given = record { conn = c; message = m } ∷ rest.given;
      failed = rest.failed;
    }
    else record { left = rest.left; given = rest.given; failed = c ∷ rest.failed }

-- The user that a message is for, empty when its payload is missing.
unfoldable pub owner : WsMessage → String
owner m =
    if m.kind == "deposit"
    then elim m.deposit [ none ↦ "" | some s ↦ s.user_id ]
    else if m.kind == "withdrawal"
    then elim m.withdrawal [ none ↦ "" | some w ↦ w.user_id ]
    else if m.kind == "balance"
    then elim m.balance [ none ↦ "" | some b ↦ b.user_id ]
    else ""

-- The message goes to one user.
unfoldable pub broadcast_user : (ℕ → Bool) → WsMessage → List ℕ → WsHub → WsHub
broadcast_user ok m cs h =
    let w = write_all ok m cs in
    record {
      clients = store (owner m) w.left h.clients;
      delivered = w.given ++ h.delivered;
      closed = w.failed ++ h.closed;
    }

-- An entry that is left with no connection is dropped.
abbrev pub with_conns : UserConns → List ℕ → List UserConns → List UserConns
with_conns e [] es = es
with_conns e (c ∷ cs) es = record e { conns = c ∷ cs } ∷ es

-- `for userID, clients := range h.Clients`
abbrev pub write_users : (ℕ → Bool) → WsMessage → List UserConns → WsHub
write_users ok m [] = record { clients = []; delivered = []; closed = [] }
write_users ok m (e ∷ es) =
    let rest = write_users ok m es in
    let w = write_all ok m e.conns in
    record {
      clients = with_conns e w.left rest.clients;
      delivered = w.given ++ rest.delivered;
      closed = w.failed ++ rest.closed;
    }

-- The message goes to everyone.
unfoldable pub broadcast_everyone : (ℕ → Bool) → WsMessage → WsHub → WsHub
broadcast_everyone ok m h =
    let all = write_users ok m h.clients in
    record {
      clients = all.clients;
      delivered = all.delivered ++ h.delivered;
      closed = all.closed ++ h.closed;
    }

-- Who is addressed: nobody, the owner with these connections, or everyone.
pub data Address : Type 0 where
  nobody : Address
  only : List ℕ → Address
  everyone : Address

-- No user of that name is there: only an update of a balance without an owner goes on.
abbrev pub address_unowned : WsMessage → Address
address_unowned m = if (owner m == "") && (m.kind == "balance") then everyone else nobody

abbrev pub address_from : WsMessage → Option (List ℕ) → Address
address_from m none = address_unowned m
address_from m (some cs) = if not (owner m == "") then only cs else address_unowned m

-- The guards of the broadcast, in the order of the code.
unfoldable pub address : WsMessage → WsHub → Address
address m h = address_from m (conns_of (owner m) h.clients)

abbrev pub broadcast_to : (ℕ → Bool) → WsMessage → WsHub → Address → WsHub
broadcast_to ok m h nobody = h
broadcast_to ok m h (only cs) = broadcast_user ok m cs h
broadcast_to ok m h everyone = broadcast_everyone ok m h

-- `case message := <-h.Broadcast`
unfoldable pub broadcast : (ℕ → Bool) → WsMessage → WsHub → WsHub
broadcast ok m h = broadcast_to ok m h (address m h)

-- What the loop takes from its channels.
pub data Event : Type 0 where
  registered : WsClient → Event
  unregistered : WsClient → Event
  broadcasted : (ℕ → Bool) → WsMessage → Event

-- One turn of the loop.
unfoldable pub turn : Event → WsHub → WsHub
turn (registered c) h = register c h
turn (unregistered c) h = unregister c h
turn (broadcasted ok m) h = broadcast ok m h

-- The turns of the loop, the last event first.
abbrev pub run : List Event → WsHub
run [] = new_ws_hub
run (e ∷ es) = turn e (run es)
