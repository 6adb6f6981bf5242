-- ===== src/Worker/Pipe.antt =====
-- worker.go, readMsg and writeMsg: messages on the pipes of a worker. A message is its length in
-- decimal, a line feed, and its bytes; both sides move the bytes in chunks of PipeChunkSize.
pub mod Write
pub mod Read
pub mod Framing
use core_runner.Common.{ℕ, ltb, if◌then◌else◌}

abbrev pub pipe_chunk_size : ℕ
pipe_chunk_size = 2048

abbrev pub newline : ℕ
newline = b'\n'

-- util.go
abbrev pub min : ℕ → ℕ → ℕ
min a b = if ltb a b then a else b
