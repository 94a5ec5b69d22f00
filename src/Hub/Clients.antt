-- ===== src/Hub/Clients.antt =====
-- The map of internal/server/websocket/ws_hub.go from users to their connections. A connection is
-- the number of its object, a map is the list of its entries in the order of an iteration.
pub mod Laws
use tucanbit_tvs.Prelude.{
  ℕ, String, Bool, Option, none, some, List, [], ◌∷◌, not, eqb, if◌then◌else◌, ◌==◌, keep, any,
}

-- One entry of `Clients map[string]map[*websocket.Conn]bool`
pub record UserConns : Type 0 where
  pub user : String
  pub conns : List ℕ

abbrev pub elem : ℕ → List ℕ → Bool
elem c cs = any (λ d. eqb d c) cs

-- `clients[conn] = true`
abbrev pub add : ℕ → List ℕ → List ℕ
add c cs = if elem c cs then cs else c ∷ cs

-- `delete(clients, conn)`
abbrev pub remove : ℕ → List ℕ → List ℕ
remove c cs = keep (λ d. not (eqb d c)) cs

-- `h.Clients[userID]`
abbrev pub conns_of : String → List UserConns → Option (List ℕ)
conns_of u [] = none
conns_of u (e ∷ es) = if e.user == u then some e.conns else conns_of u es

-- `h.Clients[userID] = conns`
abbrev pub put : String → List ℕ → List UserConns → List UserConns
put u cs [] = record { user = u; conns = cs } ∷ []
put u cs (e ∷ es) =
    let rest = put u cs es in
    if e.user == u then record { user = e.user; conns = cs } ∷ es else e ∷ rest

-- `delete(h.Clients, userID)`
abbrev pub delete : String → List UserConns → List UserConns
delete u es = keep (λ e. not (e.user == u)) es
