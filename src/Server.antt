-- ===== src/Server.antt =====
-- internal/server: the routes, the middleware and the handlers. The framework
-- github.com/gin-gonic/gin hands a request over with its parts, as `Request` has them.
pub mod Request
pub mod Middleware
pub mod Handlers
pub mod Routes
pub mod Bearer
pub mod Spaces
pub mod Access
pub mod Delivery
pub mod Quiet
pub mod Sent
