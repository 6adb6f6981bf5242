-- ===== src/Tests/Connection.antt =====
-- http/websocket/connection.go: some runs of a connection.
use core_runner.Common.{◌≤◌, ◌≡◌, refl, true, codes}
use core_runner.Websocket.Connection.{
  Connection, new_connection, unread, done_reading, done_writing, closes, read_answer, reply_panics,
  read_error, read_open, read_handles, write_handles, read_closed, read_closes, write_close,
  ping_fails, write_open, write_closed, write_closes, calls, reads, writes, Reach, here, later,
}
use core_runner.Websocket.Connection.Frames.{Inv, Reach-Inv}
use core_runner.Websocket.Connection.Closing.{IsShut, Reach-IsShut, Reach-handled}
use core_runner.Websocket.Connection.Stuck.{IsStuck, IsStuck-for_ever}

abbrev start : Connection
start = new_connection

-- Both goroutines find the connection open before either closes it.
twice_handled : (s : Connection) × Reach start s × (s.handled ≡ 2)
unfolding new_connection
twice_handled = (
  _,
  later
      (later
        (later
          (later (later (later here refl (reads (read_error refl))) refl (writes (ping_fails refl)))
            refl (reads (read_open refl refl refl)))
          refl (writes (write_open refl refl refl)))
        refl (reads (read_handles refl)))
      refl (writes (write_handles refl)),
  refl,
)

-- closeHandler is called after Close, by a goroutine that had found the connection open.
handled_after_close : (s : Connection) × Reach start s × (s.closed ≡ true) × (s.handled ≡ 1)
unfolding new_connection
handled_after_close = (
  _,
  later
      (later
        (later (later here refl (reads (read_error refl))) refl (reads (read_open refl refl refl)))
        refl (calls (closes refl)))
      refl (reads (read_handles refl)),
  refl,
  refl,
)

-- Close is called: both goroutines end, and closeHandler is not called.
abbrev shut : Connection
shut = record start { closed = true }

shut-Reach : Reach start shut
unfolding new_connection
shut-Reach = later here refl (calls (closes refl))

never_handled :
    (s : Connection) × Reach start s
    × (s.handled ≡ 0)
    × (s.reader ≡ done_reading)
    × (s.writer ≡ done_writing)
unfolding new_connection
never_handled = (
  _,
  later
      (later
        (later
          (later
            (later (later shut-Reach refl (writes (write_close refl refl refl))) refl
              (writes (write_closed refl refl refl)))
            refl (writes (write_closes refl refl)))
          refl (reads (read_error refl)))
        refl (reads (read_closed refl refl refl)))
      refl (reads (read_closes refl refl)),
  refl,
  refl,
  refl,
)

-- A reply to a message that arrived before Close panics.
reply_after_close : (s : Connection) × Reach start s × (s.crashed ≡ true)
unfolding new_connection
reply_after_close = (
  _,
  later
      (later (later here refl (reads (read_answer (codes "ok") refl (λ e. cc)))) refl
        (calls (closes refl)))
      refl (reads (reply_panics (codes "ok") refl refl)),
  refl,
)

shut-Inv : Inv shut
shut-Inv = Reach-Inv shut-Reach

abbrev shut_unread : Connection
shut_unread = record shut { reader = unread }

shut_unread-Reach : Reach shut shut_unread
unfolding new_connection
shut_unread-Reach = later here refl (reads (read_error refl))

Reach-IsShut_example : IsShut shut shut_unread × Inv shut_unread
Reach-IsShut_example = Reach-IsShut shut-Inv refl shut_unread-Reach

Reach-handled_example : shut.handled ≤ 2
Reach-handled_example = Reach-handled shut-Reach

IsStuck-for_ever_example :
    (s : Connection) × Reach new_connection s
    × IsStuck (codes "x") s
    × ((t : Connection) → Reach s t → IsStuck (codes "x") t)
IsStuck-for_ever_example = IsStuck-for_ever (codes "x")
