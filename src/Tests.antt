-- ===== src/Tests.antt =====
-- Runs of the definitions on concrete inputs, and the theorems at concrete inputs.
mod Binary
mod Worker
mod Jobs
mod Websocket
mod Static
mod Handler
mod Exchange
mod Redis
mod Pool
mod Uuid
mod Connection
mod Client
mod Server
mod Chain
mod Reparse
mod Startup
mod Liveliness
