-- ===== src/Server/Delivery.antt =====
-- The hub of internal/server/websocket/ws_hub.go with the handlers of internal/server in front of
-- it: the clients that the loop takes from its channel Register come from served requests.
use tucanbit_tvs.Auth.{AuthLibrary}
use tucanbit_tvs.Hub.Run.{Event, registered, unregistered, broadcasted, run, owner, WsClient}
use tucanbit_tvs.Hub.Delivery.{WasRegistered, IsForEveryone, run-delivered}
use tucanbit_tvs.Server.Access.{IsAuthorized, serve-guarded}
use tucanbit_tvs.Server.Routes.{serve}
use tucanbit_tvs.Server.Request.{Request, Response}
use tucanbit_tvs.Prelude.{
  ◌∷◌, [], List, String, ℕ, All, ◌≡◌, inl, ◌⊎◌, subst, All-map, some, inr, Bool, ap, ◌∙◌,
}
use tucanbit_tvs.Effects.{Env, World}
use tucanbit_tvs.Db.Rows.{ok}
use tucanbit_tvs.Hub.Message.{WsMessage}

registered_inj : (c d : WsClient) → registered c ≡ registered d → c ≡ d
registered_inj c d h = cc h

-- The events that the loop can see, the last one first: a client that joins was answered to.
pub data Served (library : AuthLibrary) (env : Env) : List Event → Type 0 where
  start : Served library env []
  joins :
      {es : List Event} (w : World) (request : Request) (response : Response) (client : WsClient)
      → (serve library request env w).0 ≡ ok response
      → response.joined ≡ some client
      → Served library env es
      → Served library env (registered client ∷ es)
  leaves :
      {es : List Event} (client : WsClient)
      → Served library env es
      → Served library env (unregistered client ∷ es)
  sends :
      {es : List Event} (writes : ℕ → Bool) (m : WsMessage)
      → Served library env es
      → Served library env (broadcasted writes m ∷ es)

module _ (library : AuthLibrary) (env : Env) where
  -- The connection belongs to a served request of the user, whose token was good then.
  abbrev pub HasToken : String → ℕ → Type 0
  HasToken user conn =
      (request : Request) × (w : World) × (response : Response) × ((serve library request env w).0
        ≡ ok response)
      × (response.joined ≡ some (record { user_id = user; conn = conn }))
      × IsAuthorized library env w request (record { user_id = user; conn = conn })

  WasRegistered-HasToken :
      (es : List Event) (user : String) (conn : ℕ)
      → Served library env es
      → WasRegistered es user conn
      → HasToken user conn
  WasRegistered-HasToken _ user conn start h = absurd h
  WasRegistered-HasToken _ user conn (joins w request response client h j s) (inl e) = (
    request,
    w,
    response,
    h,
    j ∙ ap some (registered_inj client _ e),
    subst (IsAuthorized library env w request) (registered_inj client _ e)
        (serve-guarded library env w request response client h j),
  )
  WasRegistered-HasToken _ user conn (joins w request response client h j s) (inr r) =
      WasRegistered-HasToken _ user conn s r
  WasRegistered-HasToken _ user conn (leaves client s) (inl e) = absurd (cc e)
  WasRegistered-HasToken _ user conn (leaves client s) (inr r) =
      WasRegistered-HasToken _ user conn s r
  WasRegistered-HasToken _ user conn (sends writes m s) (inl e) = absurd (cc e)
  WasRegistered-HasToken _ user conn (sends writes m s) (inr r) =
      WasRegistered-HasToken _ user conn s r

-- In every run of the hub whose clients joined through the routes, a connection that was given a
-- message joined by a served request under the name of the message's owner, and the token of that
-- request named this user and was accepted and not expired when the request was served, unless the
-- message is an update of a balance that names no user.
pub Served-delivered :
    (library : AuthLibrary) (env : Env) (es : List Event)
    → Served library env es
    → All
        (λ d. HasToken library env (owner d.message) d.conn ⊎ IsForEveryone d.message)
        (run es).delivered
Served-delivered library env es s =
    All-map (run es).delivered
      (λ d h. elim h [
        | inl r ↦ inl (WasRegistered-HasToken library env es (owner d.message) d.conn s r)
        | inr f ↦ inr f
      ])
      (run-delivered es)
