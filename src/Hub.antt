-- ===== src/Hub.antt =====
-- internal/server/websocket/ws_hub.go: the hub that sends updates to the connected users.
pub mod Message
pub mod Clients
pub mod Run
pub mod View
pub mod WellFormed
pub mod Invariant
pub mod Refine
pub mod Delivery
pub mod Given
pub mod RoundTrip
