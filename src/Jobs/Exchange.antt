-- ===== src/Jobs/Exchange.antt =====
-- A job on its way through the pipes of a worker, and back.
use core_runner.Common.{ℕ, ◌≤◌, ◌≡◌, ap, false, some, [], ◌++◌, Bytes, ok, length}
use core_runner.Common.Decimal.{ℤ, max_int}
use core_runner.Binary.Messages.{JobRequest}
use core_runner.Binary.Parse.{parse_job_request}
use core_runner.Binary.Parse.Inverse.{IsShort}
use core_runner.Worker.Pipe.Read.{read_frame}
use core_runner.Worker.Pipe.Framing.{frame, Buffered, buffered_write, buffered_flush}
use core_runner.Worker.Process.{Worker}
use core_runner.Worker.Process.TimedSend.{WorkerResult, Race, timed_send}
use core_runner.Worker.Process.Exchange.{
  empty_buffer, timed_send-frames, read_frame-frame, result_eq,
}
use core_runner.Jobs.{milliseconds, request_for, call}
use core_runner.Jobs.Call.{written, answer_bytes, call_answers}

-- A job and its answer cross the pipes. If the pool answers with what timedSend gives for a worker that
-- answers in time, then the process finds on its input, behind what was sent before, one message and
-- nothing else, which reads as a frame and parses as a JobRequest with the name, the payload and the
-- timeout in milliseconds of the call; the frame that it answers with is taken off its output, and
-- what follows is left; and the call returns the payload of the JobResponse in the frame. (The name,
-- the payload and the reply are of lengths that the runtime can hold, and the lengths of both messages
-- are ints.)
pub call_exchange :
    (spill : ℕ → ℕ) (race : Race Buffered) (limit : ℕ) (w : Worker Buffered) (sent rest : Bytes)
    (answers : Bytes → ℤ → WorkerResult) (name payload reply : Bytes) (timeout : ℤ)
    (old : JobRequest)
    → let message = written (request_for name payload timeout) in
      race.timer_first ≡ false
      → w.write ≡ some (empty_buffer sent)
      → w.read ≡ some (frame (answer_bytes reply) ++ rest)
      → (timed_send (buffered_write spill) buffered_flush race message limit w).0
        ≡ ok (answers message timeout)
      → IsShort name
      → IsShort payload
      → IsShort reply
      → length message ≤ max_int
      → length (answer_bytes reply) ≤ max_int
      → (input : Bytes) × ((timed_send (buffered_write spill) buffered_flush race message limit w).1
          ≡ record w { write = some (empty_buffer (sent ++ input)); read = some rest })
        × (read_frame input ≡ (ok message, []))
        × (parse_job_request (old, message) ≡ (
          ok tt,
          (record { name = name; payload = payload; timeout = milliseconds timeout }, []),
        ))
        × (call answers name payload timeout ≡ ok reply)
call_exchange spill race limit w sent rest answers name payload reply timeout old in_time input
      output pool hn hp hr fits fits' =
    let message = written (request_for name payload timeout) in
    let exchange =
      timed_send-frames spill race limit message (answer_bytes reply) sent rest w in_time fits fits'
        input output in
    let (parsed, called) = call_answers answers name payload reply timeout old hn hp hr (
      result_eq (timed_send (buffered_write spill) buffered_flush race message limit w) _ pool
        exchange) in
    (frame message, ap (λ x. x.1) exchange, read_frame-frame message fits, parsed, called)
