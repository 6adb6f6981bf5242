-- ===== src/Websocket.antt =====
-- http/websocket: connections, and the pool of their subscriptions.
pub mod Pool
pub mod Connection
