-- ===== src/Http.antt =====
-- http: the handlers of HTTP requests.
pub mod Response
pub mod Static
pub mod Worker
