-- ===== src/Jobs/Call.antt =====
-- What a caller of a job gets back.
use core_runner.Common.{
  ℕ, ◌≡◌, refl, ap, ◌∙◌, Option, none, some, [], ◌∷◌, ◌++◌, Bytes, Error, wrapped, ok, err, arith,
  IsU64,
}
use core_runner.Common.Decimal.{ℤ, pos, negsuc}
use core_runner.Common.Sink.{buffer_write}
use core_runner.Binary.Messages.{JobRequest}
use core_runner.Binary.Write.{write_job_request, write_job_response}
use core_runner.Binary.Parse.{parse_job_request}
use core_runner.Binary.Parse.Inverse.{IsShort}
use core_runner.Binary.RoundTrip.{
  parse_job_request-buffer, parse_job_response-buffer, write_job_request-buffer,
}
use core_runner.Binary.Truncated.{parse_job_response_truncated}
use core_runner.Worker.Process.TimedSend.{WorkerResult}
use core_runner.Jobs.{
  milliseconds, payload_of, receive, request_for, send_request, call, request_error,
  deserialization_error,
}

milliseconds_fits : (t : ℤ) → IsU64 (milliseconds t)
unfolding milliseconds
milliseconds_fits (pos ns) = omega arith
milliseconds_fits (negsuc n) = omega arith

abbrev pub written : JobRequest → Bytes
written jr = (write_job_request buffer_write jr []).0

abbrev pub answer_bytes : Bytes → Bytes
answer_bytes reply = (write_job_response buffer_write (record { payload = reply }) []).0

-- A call ends as its request is received.
call-receive :
    (send : Bytes → ℤ → WorkerResult) (name payload : Bytes) (timeout : ℤ)
    → call send name payload timeout
      ≡ receive (send (written (request_for name payload timeout)) timeout)
unfolding call
call-receive send name payload timeout =
    go (write_job_request buffer_write (request_for name payload timeout) [])
      (write_job_request-buffer (request_for name payload timeout))
  where
    go :
        (r : Bytes × Option Error)
        → r.1 ≡ none
        → send_request send timeout r ≡ receive (send r.0 timeout)
    go (buf, e) h = unfold send_request in rw h

-- The worker that a job is sent to is sent one message, which it parses as a JobRequest with the
-- name, the payload and the timeout in milliseconds of the call; and if it answers with a
-- JobResponse, the call returns that response's payload. (The name, the payload and the reply are
-- of lengths that the runtime can hold.)
pub call_answers :
    (send : Bytes → ℤ → WorkerResult) (name payload reply : Bytes) (timeout : ℤ) (old : JobRequest)
    → IsShort name
    → IsShort payload
    → IsShort reply
    → (send (written (request_for name payload timeout)) timeout
        ≡ record { res = answer_bytes reply; err_field = none })
    → (parse_job_request (old, written (request_for name payload timeout))
        ≡ (ok tt, (record { name = name; payload = payload; timeout = milliseconds timeout }, [])))
      × (call send name payload timeout ≡ ok reply)
unfolding request_for
call_answers send name payload reply timeout old hn hp hr answers = (
  parse_job_request-buffer old (request_for name payload timeout) hn hp (milliseconds_fits timeout),
  call-receive send name payload timeout
      ∙ ap receive answers
      ∙ (unfold receive payload_of in
          rw (parse_job_response-buffer (record { payload = [] }) (record { payload = reply }) hr)),
)

-- A call whose worker fails, or sends an answer that breaks off anywhere before its end, returns an
-- error: the text of the worker's error, also of a timeout, behind "job: request error: ", or that of
-- a parse error behind "job: response deserialization error: "; it neither returns a payload nor panics.
pub call_fails :
    (send : Bytes → ℤ → WorkerResult) (name payload : Bytes) (timeout : ℤ) (res : Bytes)
    (failure : Option Error)
    → (send (written (request_for name payload timeout)) timeout
        ≡ record { res = res; err_field = failure })
    → (failure ≡ none
        → (reply : Bytes) × (x : ℕ) × (back : Bytes) × IsShort reply
          × (write_job_response buffer_write (record { payload = reply }) []
              ≡ (res ++ (x ∷ back), none)))
    → (e : Error) × (call send name payload timeout
        ≡ err (elim failure [
          | none ↦ wrapped deserialization_error e
          | some e' ↦ wrapped request_error e'
        ]))
call_fails send name payload timeout res none answers cut =
    let (reply, x, back, hr, broken) = cut refl in
    let (e, s, parsed) =
      parse_job_response_truncated (record { payload = reply }) (record { payload = [] }) res x back
        hr broken in
    (
      e,
      call-receive send name payload timeout
          ∙ ap receive answers
          ∙ (unfold receive payload_of in rw parsed),
    )
call_fails send name payload timeout res (some e) answers cut =
    (e, call-receive send name payload timeout ∙ ap receive answers ∙ unfold receive in refl)
