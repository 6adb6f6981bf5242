-- ===== src/Websocket/Connection/Stuck.antt =====
-- A Send that waits with the mutex in its hands, when nobody takes from the buffer any more.
use core_runner.Common.{
  ℕ, zero, suc, ◌≤◌, ◌≡◌, ◌≢◌, refl, false, none, some, [], ◌∷◌, Bytes, length, length-append,
  arith,
}
use core_runner.Websocket.Connection.{
  message_queue_size, selecting, unwritten, Connection, new_connection, send_locks, send_pushes,
  closes, read_answer, read_error, read_ping, read_peer_close, read_handles, reply, reply_panics,
  read_open, read_closed, read_closes, write_text, write_fails, write_close, write_close_fails,
  write_handles, write_ping, ping_fails, write_open, write_closed, write_closes, Step, calls, reads,
  writes, Reach, here, later,
}

-- The Send of `message` has the mutex, the buffer is full, and the goroutine `write` has left its
-- loop.
pub record IsStuck (message : Bytes) (s : Connection) : Type 0 where
  pub held : s.holder ≡ some message
  pub full : length s.send ≡ message_queue_size
  pub left : s.writer ≢ selecting
  pub still_open : s.closed ≡ false

Step-IsStuck :
    {message : Bytes} {s t : Connection} → Step s t → IsStuck message s → IsStuck message t
Step-IsStuck (calls (send_locks other free open_)) stuck = absurd (cc stuck.held)
Step-IsStuck (calls (send_pushes other held room)) stuck = absurd (omega (arith, stuck.full))
Step-IsStuck (calls (closes free)) stuck = absurd (cc stuck.held)
Step-IsStuck (reads (read_answer resp at some_resp)) stuck = record {
  held = stuck.held;
  full = stuck.full;
  left = stuck.left;
  still_open = stuck.still_open;
}
Step-IsStuck (reads (read_error at)) stuck = record {
  held = stuck.held;
  full = stuck.full;
  left = stuck.left;
  still_open = stuck.still_open;
}
Step-IsStuck (reads (read_ping at)) stuck = record {
  held = stuck.held;
  full = stuck.full;
  left = stuck.left;
  still_open = stuck.still_open;
}
Step-IsStuck (reads (read_peer_close at)) stuck = record {
  held = stuck.held;
  full = stuck.full;
  left = stuck.left;
  still_open = stuck.still_open;
}
Step-IsStuck (reads (read_handles at)) stuck = record {
  held = stuck.held;
  full = stuck.full;
  left = stuck.left;
  still_open = stuck.still_open;
}
Step-IsStuck (writes (write_handles at)) stuck = record {
  held = stuck.held;
  full = stuck.full;
  left = λ k. cc;
  still_open = stuck.still_open;
}
Step-IsStuck (writes (write_close_fails at empty closed)) stuck = absurd (stuck.left at)
Step-IsStuck (reads (reply resp at open_ room)) stuck = absurd (omega (arith, stuck.full))
Step-IsStuck (reads (reply_panics resp at closed)) stuck = absurd (cc stuck.still_open)
Step-IsStuck (reads (read_open at free open_)) stuck = absurd (cc stuck.held)
Step-IsStuck (reads (read_closed at free closed)) stuck = absurd (cc stuck.held)
Step-IsStuck (reads (read_closes at free)) stuck = absurd (cc stuck.held)
Step-IsStuck (writes (write_text other rest at e)) stuck = absurd (stuck.left at)
Step-IsStuck (writes (write_fails other rest at e)) stuck = absurd (stuck.left at)
Step-IsStuck (writes (write_close at empty closed)) stuck = absurd (stuck.left at)
Step-IsStuck (writes (write_ping at)) stuck = absurd (stuck.left at)
Step-IsStuck (writes (ping_fails at)) stuck = absurd (stuck.left at)
Step-IsStuck (writes (write_open at free open_)) stuck = absurd (cc stuck.held)
Step-IsStuck (writes (write_closed at free closed)) stuck = absurd (cc stuck.held)
Step-IsStuck (writes (write_closes at free)) stuck = absurd (cc stuck.held)

Reach-IsStuck :
    {message : Bytes} {s t : Connection} → Reach s t → IsStuck message s → IsStuck message t
Reach-IsStuck here stuck = stuck
Reach-IsStuck (later r alive st) stuck = Step-IsStuck st (Reach-IsStuck r stuck)

-- An open connection with a number of messages in its buffer and nobody at work.
record IsFilled (n : ℕ) (s : Connection) : Type 0 where
  free : s.holder ≡ none
  size : length s.send ≡ n
  at : s.writer ≡ selecting
  open_ : s.closed ≡ false
  alive : s.crashed ≡ false

fill : (n : ℕ) → n ≤ message_queue_size → (s : Connection) × Reach new_connection s × IsFilled n s
unfolding new_connection
fill zero h = (_, here, record { free = refl; size = refl; at = refl; open_ = refl; alive = refl })
fill (suc n) h =
    let (s, r, f) = fill n (omega arith) in
    let locked = later r f.alive (calls (send_locks [] f.free f.open_)) in
    (
      _,
      later locked f.alive (calls (send_pushes [] refl (omega (arith, f.size, h)))),
      record {
        free = refl;
        size = omega (arith, length-append s.send ([] ∷ []), f.size);
        at = f.at;
        open_ = f.open_;
        alive = f.alive;
      },
    )

-- A connection can come into a state in which a Send of `message` has the mutex and waits for room
-- in the full buffer, while the goroutine that empties the buffer has left its loop after a failed
-- write; and then, whatever happens, that Send goes on waiting with the mutex, so that neither Close
-- nor the deferred functions of both goroutines come to their end.
pub IsStuck-for_ever :
    (message : Bytes)
    → (s : Connection) × Reach new_connection s
      × IsStuck message s
      × ((t : Connection) → Reach s t → IsStuck message t)
IsStuck-for_ever message =
    let (s, r, f) = fill message_queue_size (omega arith) in
    let left = later r f.alive (writes (ping_fails f.at)) in
    let stuck : IsStuck message (record s { writer = unwritten; holder = some message }) = record {
      held = refl;
      full = f.size;
      left = λ k. cc;
      still_open = f.open_;
    } in
    (
      _,
      later left f.alive (calls (send_locks message f.free f.open_)),
      stuck,
      λ t r'. Reach-IsStuck r' stuck,
    )
