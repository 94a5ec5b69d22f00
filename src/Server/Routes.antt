-- ===== src/Server/Routes.antt =====
-- `SetupHandlers` of internal/server/handlers/handlers.go, with the cross-origin part of
-- `SetupMiddleware` in internal/server/middleware/middleware.go.
use tucanbit_tvs.Server.Request.{Request, Response, reply}
use tucanbit_tvs.Server.Middleware.{auth_middleware, api_key_middleware}
use tucanbit_tvs.Server.Handlers.{
  handle_message, handle_web_socket, test_web_socket, health, no_content,
}
use tucanbit_tvs.Prelude.{String, if◌then◌else◌, ◌==◌, ◌&&◌}
use tucanbit_tvs.Auth.{AuthLibrary}
use tucanbit_tvs.Effects.{Action, pure}

-- The routes with a method and a path of their own.
pub data Route : Type 0 where
  health_route message_route status_route webhook_route test_route unknown_route : Route

abbrev get_route : String → Route
get_route path =
    if path == "/health"
    then health_route
    else if path == "/tvs/api/v1/status/ws"
    then status_route
    else if path == "/tvs/api/v1/webhook/verify"
    then webhook_route
    else if path == "/tvs/api/v1/test"
    then test_route
    else unknown_route

-- The route of a method and a path.
unfoldable pub route_of : String → String → Route
route_of method path =
    if method == "GET"
    then get_route path
    else if method == "POST" && (path == "/tvs/api/es/messages/send")
    then message_route
    else unknown_route

-- The chain of handlers of a route; gin answers 404 when there is none.
abbrev pub chain_of : AuthLibrary → Request → Route → Action Response
chain_of library request health_route = health
chain_of library request message_route = api_key_middleware request (handle_message request.body)
chain_of library request status_route = auth_middleware library request (handle_web_socket request)
chain_of library request webhook_route = auth_middleware library request (λ _. pure no_content)
chain_of library request test_route = auth_middleware library request test_web_socket
chain_of library request unknown_route = pure (reply 404 "404 page not found")

-- A request from its arrival to its answer.
unfoldable pub serve : AuthLibrary → Request → Action Response
serve library request =
    if request.method == "OPTIONS"
    then pure no_content
    else chain_of library request (route_of request.method request.path)
