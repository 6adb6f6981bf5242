-- ===== src/Websocket/Connection.antt =====
-- http/websocket/connection.go: one connection, its two goroutines read and write, and its callers,
-- as steps in any order. What the peer and the library do (a message that arrives, a write that
-- fails) is a choice of the step.
pub mod Frames
pub mod Closing
pub mod Stuck
use core_runner.Common.{
  ℕ, suc, ◌+◌, ◌<◌, ◌≡◌, ◌≢◌, Bool, true, false, Option, none, some, List, [], ◌∷◌, ◌++◌, Bytes,
  Error, length,
}

abbrev pub message_queue_size : ℕ
message_queue_size = 2048

-- Where the goroutine `read` stands.
pub data Reader : Type 0 where
  -- at ReadMessage
  reading : Reader
  -- at `conn.send <- resp`
  replying : Bytes → Reader
  -- in the deferred function: before isClosed, between it and closeHandler, and before Close
  unread handling_read leaving_read : Reader
  done_reading : Reader

-- Where the goroutine `write` stands.
pub data Writer : Type 0 where
  -- at the select
  selecting : Writer
  -- in the deferred function: before isClosed, between it and closeHandler, and before Close
  unwritten handling_write leaving_write : Writer
  done_writing : Writer

-- What goes out on the wire: from WriteMessage, and, in answer to a ping or a close frame of the
-- peer, from the handlers that the library sets for ReadMessage by default.
pub data Frame : Type 0 where
  text_frame : Bytes → Frame
  ping_frame close_frame : Frame
  pong_answer close_answer : Frame

-- `send` is the channel's buffer, `closed` the flag, which is set together with the closing of the
-- channel under the mutex. `holder` is the Send that has the mutex and is at `conn.send <- data`;
-- the other holders of the mutex do not wait while they have it, so that each is one step.
-- `accepted` are the messages that came into the buffer, and `handled` counts the calls of
-- closeHandler.
pub record Connection : Type 0 where
  pub send : List Bytes
  pub closed : Bool
  pub holder : Option Bytes
  pub reader : Reader
  pub writer : Writer
  pub frames : List Frame
  pub accepted : List Bytes
  pub handled : ℕ
  pub crashed : Bool

-- NewConnection, with both goroutines started by the handler.
unfoldable pub new_connection : Connection
new_connection = record {
  send = [];
  closed = false;
  holder = none;
  reader = reading;
  writer = selecting;
  frames = [];
  accepted = [];
  handled = 0;
  crashed = false;
}

-- ServeHTTP of the handler, with the error of Upgrade, which is only logged.
unfoldable pub serve_upgrade : Option Error → Option Connection
serve_upgrade none = some new_connection
serve_upgrade (some e) = none

-- A step of a caller of Send or Close.
pub data Call (s : Connection) : Connection → Type 0 where
  send_locks :
      (message : Bytes)
      → s.holder ≡ none
      → s.closed ≡ false
      → Call s (record s { holder = some message })
  send_pushes :
      (message : Bytes)
      → s.holder ≡ some message
      → length s.send < message_queue_size
      → Call s (record s {
        holder = none;
        send = s.send ++ message ∷ [];
        accepted = s.accepted ++ message ∷ [];
      })
  -- Close; where the flag is set already, and in a Send then, nothing changes
  closes : s.holder ≡ none → Call s (record s { closed = true })

-- A step of the goroutine `read`.
pub data Read (s : Connection) : Connection → Type 0 where
  read_answer :
      (resp : Bytes) → s.reader ≡ reading → resp ≢ [] → Read s (record s { reader = replying resp })
  read_error : s.reader ≡ reading → Read s (record s { reader = unread })
  -- a ping of the peer, which ReadMessage answers
  read_ping : s.reader ≡ reading → Read s (record s { frames = s.frames ++ pong_answer ∷ [] })
  -- a close frame of the peer, which ReadMessage answers before it returns an error
  read_peer_close :
      s.reader ≡ reading
      → Read s (record s { reader = unread; frames = s.frames ++ close_answer ∷ [] })
  reply :
      (resp : Bytes)
      → s.reader ≡ replying resp
      → s.closed ≡ false
      → length s.send < message_queue_size
      → Read s (record s {
        reader = reading;
        send = s.send ++ resp ∷ [];
        accepted = s.accepted ++ resp ∷ [];
      })
  -- a send on the closed channel
  reply_panics :
      (resp : Bytes)
      → s.reader ≡ replying resp
      → s.closed ≡ true
      → Read s (record s { crashed = true })
  read_open :
      s.reader ≡ unread
      → s.holder ≡ none
      → s.closed ≡ false
      → Read s (record s { reader = handling_read })
  read_handles :
      s.reader ≡ handling_read
      → Read s (record s { reader = leaving_read; handled = suc s.handled })
  read_closed :
      s.reader ≡ unread
      → s.holder ≡ none
      → s.closed ≡ true
      → Read s (record s { reader = leaving_read })
  read_closes :
      s.reader ≡ leaving_read
      → s.holder ≡ none
      → Read s (record s { reader = done_reading; closed = true })

-- A step of the goroutine `write`.
pub data Write (s : Connection) : Connection → Type 0 where
  write_text :
      (message : Bytes) (rest : List Bytes)
      → s.writer ≡ selecting
      → s.send ≡ message ∷ rest
      → Write s (record s { send = rest; frames = s.frames ++ text_frame message ∷ [] })
  write_fails :
      (message : Bytes) (rest : List Bytes)
      → s.writer ≡ selecting
      → s.send ≡ message ∷ rest
      → Write s (record s { send = rest; writer = unwritten })
  write_close :
      s.writer ≡ selecting
      → s.send ≡ []
      → s.closed ≡ true
      → Write s (record s { writer = unwritten; frames = s.frames ++ close_frame ∷ [] })
  -- the error of WriteMessage is not looked at
  write_close_fails :
      s.writer ≡ selecting
      → s.send ≡ []
      → s.closed ≡ true
      → Write s (record s { writer = unwritten })
  write_ping : s.writer ≡ selecting → Write s (record s { frames = s.frames ++ ping_frame ∷ [] })
  ping_fails : s.writer ≡ selecting → Write s (record s { writer = unwritten })
  write_open :
      s.writer ≡ unwritten
      → s.holder ≡ none
      → s.closed ≡ false
      → Write s (record s { writer = handling_write })
  write_handles :
      s.writer ≡ handling_write
      → Write s (record s { writer = leaving_write; handled = suc s.handled })
  write_closed :
      s.writer ≡ unwritten
      → s.holder ≡ none
      → s.closed ≡ true
      → Write s (record s { writer = leaving_write })
  write_closes :
      s.writer ≡ leaving_write
      → s.holder ≡ none
      → Write s (record s { writer = done_writing; closed = true })

pub data Step (s t : Connection) : Type 0 where
  calls : Call s t → Step s t
  reads : Read s t → Step s t
  writes : Write s t → Step s t

-- What happens until a panic, which ends the process.
pub data Reach : Connection → Connection → Type 0 where
  here : {s : Connection} → Reach s s
  later : {s t u : Connection} → Reach s t → t.crashed ≡ false → Step t u → Reach s u
