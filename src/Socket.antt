-- ===== src/Socket.antt =====
-- src/frontend/src/lib/api/websocket.ts, the WebSocket client.
pub mod State
pub mod Client
pub mod Events
pub mod Timers
pub mod Waits
pub mod Free
pub mod Lasting
pub mod Kept
pub mod Lifetime
pub mod Settling
pub mod Firing
pub mod Histories
pub mod Settled
pub mod Invariant
pub mod Reachable
pub mod Closing
pub mod Disconnect
pub mod Delivery
mod Tests
