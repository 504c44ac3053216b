-- ===== src/Api.antt =====
-- src/frontend/src/lib/api and src/frontend/src/types/api.ts: the calls of the client to the server.
pub mod Types
pub mod Http
pub mod Auth
pub mod Messages
mod Tests
