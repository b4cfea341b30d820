-- ===== src/Ws.antt =====
-- internal/ws: the WebSocket core.
pub mod Client
pub mod Slices
pub mod Jobs
pub mod Manager
pub mod Router
pub mod Loop
