-- ===== src/Worker/Process/Exchange.antt =====
-- A message to the process of a worker, and its answer, over buffered pipes.
use core_runner.Common.{
  ℕ, ◌≤◌, ◌≡◌, refl, ap, subst, false, none, some, [], ◌++◌, append-nil, Bytes, Outcome, ok, length,
}
use core_runner.Common.Decimal.{max_int}
use core_runner.Worker.Pipe.Read.{read_frame}
use core_runner.Worker.Pipe.Framing.{
  frame, Buffered, buffered_write, buffered_flush, read-write_frame,
}
use core_runner.Worker.Process.{Worker, write_msg, read_msg, send}
use core_runner.Worker.Process.TimedSend.{WorkerResult, Race, timed_send, timed_send_answer}

-- Nothing waits in the buffer of the worker's input.
abbrev pub empty_buffer : Bytes → Buffered
empty_buffer sent = record { sent = sent; waiting = [] }

module _ (spill : ℕ → ℕ) where
  write_msg-frame :
      (s sent : Bytes) (w : Worker Buffered)
      → length s ≤ max_int
      → w.write ≡ some (empty_buffer sent)
      → write_msg (buffered_write spill) buffered_flush s w
        ≡ (ok tt, record w { write = some (empty_buffer (sent ++ frame s)) })
  unfolding write_msg
  write_msg-frame s sent w fits input = rw (input, (read-write_frame spill s sent [] fits).0) refl

  read_msg-frame :
      (s rest : Bytes) (w : Worker Buffered)
      → length s ≤ max_int
      → w.read ≡ some (frame s ++ rest)
      → read_msg (buffered_write spill) buffered_flush w ≡ (ok s, record w { read = some rest })
  unfolding read_msg
  read_msg-frame s rest w fits output = rw (output, (read-write_frame spill s [] rest fits).1) refl

  send-frames :
      (s reply sent rest : Bytes) (w : Worker Buffered)
      → length s ≤ max_int
      → length reply ≤ max_int
      → w.write ≡ some (empty_buffer sent)
      → w.read ≡ some (frame reply ++ rest)
      → send (buffered_write spill) buffered_flush s w
        ≡ (ok reply, record w { write = some (empty_buffer (sent ++ frame s)); read = some rest })
  unfolding send
  send-frames s reply sent rest w fits fits' input output =
      rw (write_msg-frame s sent w fits input) (
        read_msg-frame reply rest (record w { write = some (empty_buffer (sent ++ frame s)) }) fits'
          output)

  -- The process finds one frame behind what was sent before, and the frame of its answer is taken off
  -- its output.
  pub timed_send-frames :
      (race : Race Buffered) (timeout : ℕ) (s reply sent rest : Bytes) (w : Worker Buffered)
      → race.timer_first ≡ false
      → length s ≤ max_int
      → length reply ≤ max_int
      → w.write ≡ some (empty_buffer sent)
      → w.read ≡ some (frame reply ++ rest)
      → timed_send (buffered_write spill) buffered_flush race s timeout w ≡ (
        ok (record { res = reply; err_field = none }),
        record w { write = some (empty_buffer (sent ++ frame s)); read = some rest },
      )
  timed_send-frames race timeout s reply sent rest w in_time fits fits' input output =
      timed_send_answer (buffered_write spill) buffered_flush race s timeout w _ reply in_time
        (send-frames s reply sent rest w fits fits' input output)

pub read_frame-frame : (s : Bytes) → length s ≤ max_int → read_frame (frame s) ≡ (ok s, [])
read_frame-frame s fits =
    subst (λ (b : Bytes). read_frame b ≡ (ok s, [])) (append-nil (frame s))
      (read-write_frame (λ n. n) s [] [] fits).1

-- The result that a pool hands on is the one of timedSend.
pub result_eq :
    {S : Type 0} {answer result : WorkerResult} (r : Outcome WorkerResult × S) (s : S)
    → r.0 ≡ ok answer
    → r ≡ (ok result, s)
    → answer ≡ result
result_eq r s h e = cc (ap (λ x. x.0) e)
