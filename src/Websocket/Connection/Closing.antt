-- ===== src/Websocket/Connection/Closing.antt =====
-- What closing a connection does, and does not do.
use core_runner.Common.{ℕ, ◌+◌, ◌≤◌, ◌≡◌, refl, ap, true, arith}
use core_runner.Websocket.Connection.{
  Reader, reading, replying, unread, handling_read, leaving_read, done_reading, Writer, selecting,
  unwritten, handling_write, leaving_write, done_writing, Connection, new_connection, Call,
  send_locks, send_pushes, closes, Read, read_answer, read_error, read_ping, read_peer_close,
  read_handles, reply, reply_panics, read_open, read_closed, read_closes, Write, write_text,
  write_fails, write_close, write_close_fails, write_handles, write_ping, ping_fails, write_open,
  write_closed, write_closes, Step, calls, reads, writes, Reach, here, later,
}
use core_runner.Websocket.Connection.Frames.{Inv, Step-Inv}

-- Whether a goroutine has found the connection open and is about to call closeHandler.
abbrev pub read_due : Reader → ℕ
read_due reading = 0
read_due (replying resp) = 0
read_due unread = 0
read_due handling_read = 1
read_due leaving_read = 0
read_due done_reading = 0

abbrev pub write_due : Writer → ℕ
write_due selecting = 0
write_due unwritten = 0
write_due handling_write = 1
write_due leaving_write = 0
write_due done_writing = 0

-- The calls of closeHandler that were made, and those that are due.
abbrev pub handled_or_due : Connection → ℕ
handled_or_due s = s.handled + (read_due s.reader + write_due s.writer)

-- Closed, with nothing accepted since `s`, and with closeHandler called only where it was due.
abbrev pub IsShut : Connection → Connection → Type 0
IsShut s t = (t.closed ≡ true) × (t.accepted ≡ s.accepted) × (handled_or_due t ≡ handled_or_due s)

Step-IsShut : (s : Connection) {t u : Connection} → Inv t → Step t u → IsShut s t → IsShut s u
Step-IsShut s inv (calls (send_locks message free open_)) shut = shut
Step-IsShut s inv (calls (send_pushes message held room)) (shut, same, due) =
    absurd (cc (inv.unlocked shut))
Step-IsShut s inv (calls (closes free)) (shut, same, due) = (refl, same, due)
Step-IsShut s inv (reads (read_answer resp at some_resp)) (shut, same, due) =
    (shut, same, omega (arith, ap read_due at, due))
Step-IsShut s inv (reads (read_error at)) (shut, same, due) =
    (shut, same, omega (arith, ap read_due at, due))
Step-IsShut s inv (reads (read_ping at)) shut = shut
Step-IsShut s inv (reads (read_peer_close at)) (shut, same, due) =
    (shut, same, omega (arith, ap read_due at, due))
Step-IsShut s inv (reads (reply resp at open_ room)) (shut, same, due) = absurd (cc)
Step-IsShut s inv (reads (reply_panics resp at closed)) shut = shut
Step-IsShut s inv (reads (read_open at free open_)) (shut, same, due) = absurd (cc)
Step-IsShut s inv (reads (read_handles at)) (shut, same, due) =
    (shut, same, omega (arith, ap read_due at, due))
Step-IsShut s inv (reads (read_closed at free closed)) (shut, same, due) =
    (shut, same, omega (arith, ap read_due at, due))
Step-IsShut s inv (reads (read_closes at free)) (shut, same, due) =
    (refl, same, omega (arith, ap read_due at, due))
Step-IsShut s inv (writes (write_text message rest at e)) shut = shut
Step-IsShut s inv (writes (write_fails message rest at e)) (shut, same, due) =
    (shut, same, omega (arith, ap write_due at, due))
Step-IsShut s inv (writes (write_close at empty closed)) (shut, same, due) =
    (shut, same, omega (arith, ap write_due at, due))
Step-IsShut s inv (writes (write_close_fails at empty closed)) (shut, same, due) =
    (shut, same, omega (arith, ap write_due at, due))
Step-IsShut s inv (writes (write_ping at)) shut = shut
Step-IsShut s inv (writes (ping_fails at)) (shut, same, due) =
    (shut, same, omega (arith, ap write_due at, due))
Step-IsShut s inv (writes (write_open at free open_)) (shut, same, due) = absurd (cc)
Step-IsShut s inv (writes (write_handles at)) (shut, same, due) =
    (shut, same, omega (arith, ap write_due at, due))
Step-IsShut s inv (writes (write_closed at free closed)) (shut, same, due) =
    (shut, same, omega (arith, ap write_due at, due))
Step-IsShut s inv (writes (write_closes at free)) (shut, same, due) =
    (refl, same, omega (arith, ap write_due at, due))

-- Once a connection is closed, it stays so, and nothing that Send or a reply offers is accepted any
-- more; and closeHandler is called after that only by a goroutine that had found the connection open
-- before, once by each, so not at all if there was none, also where a call of Close closed it.
pub Reach-IsShut : {s t : Connection} → Inv s → s.closed ≡ true → Reach s t → IsShut s t × Inv t
Reach-IsShut inv shut here = ((shut, refl, refl), inv)
Reach-IsShut {s} inv shut (later r alive st) =
    let (before, inv') = Reach-IsShut inv shut r in (Step-IsShut s inv' st before, Step-Inv st inv')

-- How often each goroutine has called closeHandler at most.
abbrev read_calls : Reader → ℕ
read_calls reading = 0
read_calls (replying resp) = 0
read_calls unread = 0
read_calls handling_read = 0
read_calls leaving_read = 1
read_calls done_reading = 1

abbrev write_calls : Writer → ℕ
write_calls selecting = 0
write_calls unwritten = 0
write_calls handling_write = 0
write_calls leaving_write = 1
write_calls done_writing = 1

abbrev Counted : Connection → Type 0
Counted s = s.handled ≤ read_calls s.reader + write_calls s.writer

Call-Counted : {s t : Connection} → Call s t → Counted s → Counted t
Call-Counted (send_locks message free open_) h = h
Call-Counted (send_pushes message held room) h = h
Call-Counted (closes free) h = h

Read-Counted : {s t : Connection} → Read s t → Counted s → Counted t
Read-Counted (read_answer resp at some_resp) h = omega (arith, ap read_calls at, h)
Read-Counted (read_error at) h = omega (arith, ap read_calls at, h)
Read-Counted (read_ping at) h = h
Read-Counted (read_peer_close at) h = omega (arith, ap read_calls at, h)
Read-Counted (read_handles at) h = omega (arith, ap read_calls at, h)
Read-Counted (reply resp at open_ room) h = omega (arith, ap read_calls at, h)
Read-Counted (reply_panics resp at closed) h = h
Read-Counted (read_open at free open_) h = omega (arith, ap read_calls at, h)
Read-Counted (read_closed at free closed) h = omega (arith, ap read_calls at, h)
Read-Counted (read_closes at free) h = omega (arith, ap read_calls at, h)

Write-Counted : {s t : Connection} → Write s t → Counted s → Counted t
Write-Counted (write_text message rest at e) h = h
Write-Counted (write_fails message rest at e) h = omega (arith, ap write_calls at, h)
Write-Counted (write_close at empty closed) h = omega (arith, ap write_calls at, h)
Write-Counted (write_close_fails at empty closed) h = omega (arith, ap write_calls at, h)
Write-Counted (write_handles at) h = omega (arith, ap write_calls at, h)
Write-Counted (write_ping at) h = h
Write-Counted (ping_fails at) h = omega (arith, ap write_calls at, h)
Write-Counted (write_open at free open_) h = omega (arith, ap write_calls at, h)
Write-Counted (write_closed at free closed) h = omega (arith, ap write_calls at, h)
Write-Counted (write_closes at free) h = omega (arith, ap write_calls at, h)

Reach-Counted : {s t : Connection} → Reach s t → Counted s → Counted t
Reach-Counted here h = h
Reach-Counted (later r alive (calls st)) h = Call-Counted st (Reach-Counted r h)
Reach-Counted (later r alive (reads st)) h = Read-Counted st (Reach-Counted r h)
Reach-Counted (later r alive (writes st)) h = Write-Counted st (Reach-Counted r h)

calls-le : (r : Reader) (w : Writer) → read_calls r + write_calls w ≤ 2
calls-le r w = ground arith

-- closeHandler is called at most twice for a connection, once by each goroutine.
pub Reach-handled : {s : Connection} → Reach new_connection s → s.handled ≤ 2
unfolding new_connection
Reach-handled {s} r = omega (arith, Reach-Counted r (omega arith), calls-le s.reader s.writer)
