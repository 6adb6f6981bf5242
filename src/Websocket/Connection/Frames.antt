-- ===== src/Websocket/Connection/Frames.antt =====
-- What the peer gets.
use core_runner.Common.{
  ◌≤◌, ◌<◌, ◌≡◌, ◌≢◌, refl, sym, ap, ◌∙◌, Bool, true, false, ◌||◌, Option, none, some, List, [],
  ◌∷◌, ◌++◌, Bytes, length, length-append, append_assoc, append-nil, arith, Bool-cases, inl, inr,
}
use core_runner.Websocket.Connection.{
  message_queue_size, Writer, selecting, unwritten, handling_write, leaving_write, done_writing,
  Frame, text_frame, ping_frame, close_frame, pong_answer, close_answer, Connection, new_connection,
  send_locks, send_pushes, closes, read_answer, read_error, read_ping, read_peer_close,
  read_handles, reply, reply_panics, read_open, read_closed, read_closes, write_text, write_fails,
  write_close, write_close_fails, write_handles, write_ping, ping_fails, write_open, write_closed,
  write_closes, Step, calls, reads, writes, Reach, here, later,
}

-- The messages among the frames.
abbrev pub texts : List Frame → List Bytes
texts [] = []
texts (text_frame message ∷ frames) = message ∷ texts frames
texts (ping_frame ∷ frames) = texts frames
texts (close_frame ∷ frames) = texts frames
texts (pong_answer ∷ frames) = texts frames
texts (close_answer ∷ frames) = texts frames

-- Whether `write` has sent its close frame.
abbrev pub has_close : List Frame → Bool
has_close [] = false
has_close (close_frame ∷ frames) = true
has_close (text_frame message ∷ frames) = has_close frames
has_close (ping_frame ∷ frames) = has_close frames
has_close (pong_answer ∷ frames) = has_close frames
has_close (close_answer ∷ frames) = has_close frames

texts-append : (xs ys : List Frame) → texts (xs ++ ys) ≡ texts xs ++ texts ys
texts-append [] ys = refl
texts-append (text_frame message ∷ xs) ys = ap (◌∷◌ message) (texts-append xs ys)
texts-append (ping_frame ∷ xs) ys = texts-append xs ys
texts-append (close_frame ∷ xs) ys = texts-append xs ys
texts-append (pong_answer ∷ xs) ys = texts-append xs ys
texts-append (close_answer ∷ xs) ys = texts-append xs ys

has_close-append : (xs ys : List Frame) → has_close (xs ++ ys) ≡ (has_close xs || has_close ys)
has_close-append [] ys = refl
has_close-append (text_frame message ∷ xs) ys = has_close-append xs ys
has_close-append (ping_frame ∷ xs) ys = has_close-append xs ys
has_close-append (close_frame ∷ xs) ys = refl
has_close-append (pong_answer ∷ xs) ys = has_close-append xs ys
has_close-append (close_answer ∷ xs) ys = has_close-append xs ys

-- Every accepted message is written, lost in a write that failed, or still in the buffer, in this
-- order; and the close frame of `write` comes when nothing is left.
pub record Flow (send : List Bytes) (closed : Bool) (holder : Option Bytes) (writer : Writer)
    (frames : List Frame) (accepted : List Bytes) : Type 0 where
  pub lost : List Bytes
  pub order : accepted ≡ texts frames ++ (lost ++ send)
  pub one_lost : length lost ≤ 1
  pub unlost : writer ≡ selecting → lost ≡ []
  pub unlocked : closed ≡ true → holder ≡ none
  pub bound : length send ≤ message_queue_size
  pub final_closed : has_close frames ≡ true → closed ≡ true
  pub final_writer : has_close frames ≡ true → writer ≢ selecting
  pub final_empty : has_close frames ≡ true → lost ++ send ≡ []

abbrev pub Inv : Connection → Type 0
Inv s = Flow s.send s.closed s.holder s.writer s.frames s.accepted

module _ {send : List Bytes} {closed : Bool} {holder : Option Bytes} {writer : Writer}
    {frames : List Frame} {accepted : List Bytes}
    (flow : Flow send closed holder writer frames accepted) where
  lock-Flow :
      (message : Bytes) → closed ≡ false → Flow send closed (some message) writer frames accepted
  lock-Flow message open_ = record {
    lost = flow.lost;
    order = flow.order;
    one_lost = flow.one_lost;
    unlost = flow.unlost;
    unlocked = λ h. cc;
    bound = flow.bound;
    final_closed = flow.final_closed;
    final_writer = flow.final_writer;
    final_empty = flow.final_empty;
  }

  push-Flow :
      (message : Bytes) (holder' : Option Bytes)
      → closed ≡ false
      → length send < message_queue_size
      → Flow (send ++ message ∷ []) closed holder' writer frames (accepted ++ message ∷ [])
  push-Flow message holder' open_ room = record {
    lost = flow.lost;
    order =
        ap (λ l. l ++ message ∷ []) flow.order
        ∙ append_assoc (texts frames) (flow.lost ++ send) (message ∷ [])
        ∙ ap (◌++◌ (texts frames)) (append_assoc flow.lost send (message ∷ []));
    one_lost = flow.one_lost;
    unlost = flow.unlost;
    unlocked = λ h. cc;
    bound = omega (arith, length-append send (message ∷ []));
    final_closed = flow.final_closed;
    final_writer = flow.final_writer;
    final_empty = λ h. cc (flow.final_closed h);
  }

  close-Flow : holder ≡ none → Flow send true holder writer frames accepted
  close-Flow free = record {
    lost = flow.lost;
    order = flow.order;
    one_lost = flow.one_lost;
    unlost = flow.unlost;
    unlocked = λ h. free;
    bound = flow.bound;
    final_closed = λ h. refl;
    final_writer = flow.final_writer;
    final_empty = flow.final_empty;
  }

  -- The goroutine `write` goes on behind its loop.
  leave-Flow :
      (writer' : Writer) → writer' ≢ selecting → Flow send closed holder writer' frames accepted
  leave-Flow writer' left = record {
    lost = flow.lost;
    order = flow.order;
    one_lost = flow.one_lost;
    unlost = λ h. absurd (left h);
    unlocked = flow.unlocked;
    bound = flow.bound;
    final_closed = flow.final_closed;
    final_writer = λ h. left;
    final_empty = flow.final_empty;
  }

  still_open :
      (f : Frame)
      → has_close (f ∷ []) ≡ false
      → has_close (frames ++ f ∷ []) ≡ true
      → has_close frames ≡ true
  still_open f g h = ground (arith, has_close-append frames (f ∷ []))

  -- A frame that is no message and not the close frame of `write`.
  control-Flow :
      (f : Frame)
      → texts (f ∷ []) ≡ []
      → has_close (f ∷ []) ≡ false
      → Flow send closed holder writer (frames ++ f ∷ []) accepted
  control-Flow f no_text no_close = record {
    lost = flow.lost;
    order =
        flow.order
        ∙ ap (λ l. l ++ (flow.lost ++ send))
            (sym (
              texts-append frames (f ∷ [])
              ∙ ap (◌++◌ (texts frames)) no_text
              ∙ append-nil (texts frames)));
    one_lost = flow.one_lost;
    unlost = flow.unlost;
    unlocked = flow.unlocked;
    bound = flow.bound;
    final_closed = λ h. flow.final_closed (still_open f no_close h);
    final_writer = λ h. flow.final_writer (still_open f no_close h);
    final_empty = λ h. flow.final_empty (still_open f no_close h);
  }

  module _ (selects : writer ≡ selecting) where
    no_close : {A : Type 0} → has_close frames ≡ true → A
    no_close h = absurd (flow.final_writer h selects)

    nothing_lost : accepted ≡ texts frames ++ send
    nothing_lost = flow.order ∙ ap (λ l. texts frames ++ (l ++ send)) (flow.unlost selects)

    text-Flow :
        (message : Bytes) (rest : List Bytes)
        → send ≡ message ∷ rest
        → Flow rest closed holder writer (frames ++ text_frame message ∷ []) accepted
    text-Flow message rest e = record {
      lost = [];
      order =
          nothing_lost
          ∙ ap (◌++◌ (texts frames)) e
          ∙ sym (append_assoc (texts frames) (message ∷ []) rest)
          ∙ ap (λ l. l ++ rest) (sym (texts-append frames (text_frame message ∷ [])));
      one_lost = omega arith;
      unlost = λ h. refl;
      unlocked = flow.unlocked;
      bound = omega (arith, ap length e, flow.bound);
      final_closed = λ h. no_close (still_open (text_frame message) refl h);
      final_writer = λ h. no_close (still_open (text_frame message) refl h);
      final_empty = λ h. no_close (still_open (text_frame message) refl h);
    }

    fail-Flow :
        (message : Bytes) (rest : List Bytes)
        → send ≡ message ∷ rest
        → Flow rest closed holder unwritten frames accepted
    fail-Flow message rest e = record {
      lost = message ∷ [];
      order = nothing_lost ∙ ap (◌++◌ (texts frames)) e;
      one_lost = omega arith;
      unlost = λ h. cc;
      unlocked = flow.unlocked;
      bound = omega (arith, ap length e, flow.bound);
      final_closed = flow.final_closed;
      final_writer = λ h k. cc;
      final_empty = λ h. no_close h;
    }

    final-Flow :
        send ≡ []
        → closed ≡ true
        → Flow send closed holder unwritten (frames ++ close_frame ∷ []) accepted
    final-Flow empty shut = record {
      lost = [];
      order =
          nothing_lost
          ∙ ap (λ l. l ++ send)
              (sym (texts-append frames (close_frame ∷ []) ∙ append-nil (texts frames)));
      one_lost = omega arith;
      unlost = λ h. refl;
      unlocked = flow.unlocked;
      bound = flow.bound;
      final_closed = λ h. shut;
      final_writer = λ h k. cc;
      final_empty = λ h. empty;
    }

open_of_held :
    (s : Connection) {message : Bytes} → Inv s → s.holder ≡ some message → s.closed ≡ false
open_of_held s inv held = elim (Bool-cases s.closed) [
  | inl shut ↦ cc (inv.unlocked shut)
  | inr open_ ↦ open_
]

pub Step-Inv : {s t : Connection} → Step s t → Inv s → Inv t
Step-Inv (calls (send_locks message free open_)) inv = lock-Flow inv message open_
Step-Inv {s} (calls (send_pushes message held room)) inv =
    push-Flow inv message none (open_of_held s inv held) room
Step-Inv (calls (closes free)) inv = close-Flow inv free
Step-Inv (reads (read_answer resp at some_resp)) inv = inv
Step-Inv (reads (read_error at)) inv = inv
Step-Inv (reads (read_ping at)) inv = control-Flow inv pong_answer refl refl
Step-Inv (reads (read_peer_close at)) inv = control-Flow inv close_answer refl refl
Step-Inv (reads (read_handles at)) inv = inv
Step-Inv {s} (reads (reply resp at open_ room)) inv = push-Flow inv resp s.holder open_ room
Step-Inv (reads (reply_panics resp at shut)) inv = inv
Step-Inv (reads (read_open at free open_)) inv = inv
Step-Inv (reads (read_closed at free shut)) inv = inv
Step-Inv (reads (read_closes at free)) inv = close-Flow inv free
Step-Inv (writes (write_text message rest at e)) inv = text-Flow inv at message rest e
Step-Inv (writes (write_fails message rest at e)) inv = fail-Flow inv at message rest e
Step-Inv (writes (write_close at empty shut)) inv = final-Flow inv at empty shut
Step-Inv (writes (write_ping at)) inv = control-Flow inv ping_frame refl refl
Step-Inv (writes (ping_fails at)) inv = leave-Flow inv unwritten (λ k. cc)
Step-Inv (writes (write_close_fails at empty shut)) inv = leave-Flow inv unwritten (λ k. cc)
Step-Inv (writes (write_open at free open_)) inv = leave-Flow inv handling_write (λ k. cc)
Step-Inv (writes (write_handles at)) inv = leave-Flow inv leaving_write (λ k. cc)
Step-Inv (writes (write_closed at free shut)) inv = leave-Flow inv leaving_write (λ k. cc)
Step-Inv (writes (write_closes at free)) inv =
    leave-Flow (close-Flow inv free) done_writing (λ k. cc)

pub new_connection-Inv : Inv new_connection
unfolding new_connection
new_connection-Inv = record {
  lost = [];
  order = refl;
  one_lost = omega arith;
  unlost = λ h. refl;
  unlocked = λ h. refl;
  bound = omega arith;
  final_closed = λ h. cc;
  final_writer = λ h. cc;
  final_empty = λ h. refl;
}

pub Reach-Inv : {s : Connection} → Reach new_connection s → Inv s
Reach-Inv r = go r new_connection-Inv
  where
    go : {s t : Connection} → Reach s t → Inv s → Inv t
    go here inv = inv
    go (later r alive st) inv = Step-Inv st (go r inv)
