-- ===== src/Http/Worker/Exchange.antt =====
-- A request on its way through the handler, the pipes of a worker and its process, and back.
use core_runner.Common.{ℕ, ◌≤◌, ◌≡◌, ap, false, some, [], ◌∷◌, ◌++◌, Bytes, ok, length}
use core_runner.Common.Decimal.{ℤ, max_int}
use core_runner.Binary.Messages.{HttpRequest, HttpResponse}
use core_runner.Binary.Parse.{parse_http_request}
use core_runner.Binary.RoundTrip.{RequestOk, ResponseOk}
use core_runner.Worker.Pipe.Read.{read_frame}
use core_runner.Worker.Pipe.Framing.{frame, Buffered, buffered_write, buffered_flush}
use core_runner.Worker.Process.{Worker}
use core_runner.Worker.Process.Exchange.{
  empty_buffer, timed_send-frames, read_frame-frame, result_eq,
}
use core_runner.Worker.Process.TimedSend.{WorkerResult, Race, timed_send}
use core_runner.Http.Response.{write_header, write_body, cors_headers}
use core_runner.Http.Worker.{
  WorkerHandler, Request, returned, form_request, set_headers, serve_http,
}
use core_runner.Http.Worker.Answers.{written, answer_bytes, serve_http_answers}

-- A request and its answer cross the pipes. If the pool answers with what timedSend gives for a worker
-- that answers in time, then the process finds on its input, behind what was sent before, one message
-- and nothing else, which reads as a frame and parses as the HTTPRequest that was formed from the
-- client's request; the frame that it answers with is taken off its output, and what follows is left;
-- and the client gets the headers, status and body of the HTTPResponse in the frame, behind the CORS
-- headers, with the count of timeouts reset. (The message and the response are of sizes that the
-- runtime can hold, with distinct keys, their lengths are ints, and the status has three digits.)
pub serve_http_exchange :
    (spill : ℕ → ℕ) (race : Race Buffered) (timeout : ℕ) (w : Worker Buffered) (sent rest : Bytes)
    (answers : Bytes → ℤ → WorkerResult) (h : WorkerHandler) (r : Request) (m old : HttpRequest)
    (hr : HttpResponse)
    → race.timer_first ≡ false
    → w.write ≡ some (empty_buffer sent)
    → w.read ≡ some (frame (answer_bytes hr) ++ rest)
    → (timed_send (buffered_write spill) buffered_flush race (written m) timeout w).0
      ≡ ok (answers (written m) h.timeout)
    → form_request r ≡ ok m
    → RequestOk m
    → ResponseOk hr
    → length (written m) ≤ max_int
    → length (answer_bytes hr) ≤ max_int
    → 100 ≤ hr.status_code
    → hr.status_code ≤ 999
    → (input : Bytes) × ((timed_send
          (buffered_write spill)
          buffered_flush
          race
          (written m)
          timeout
          w).1
        ≡ record w { write = some (empty_buffer (sent ++ input)); read = some rest })
      × (read_frame input ≡ (ok (written m), []))
      × (parse_http_request (old, written m) ≡ (ok tt, (m, [])))
      × (serve_http answers h r ≡ (
        record h { timeouts_count = 0 },
        (
          cors_headers h.cors
              ++ (set_headers hr.headers ++ write_header hr.status_code ∷ write_body hr.body ∷ []),
          returned,
        ),
      ))
serve_http_exchange spill race timeout w sent rest answers h r m old hr in_time input output pool
      formed ok_m ok_hr fits fits' low high =
    let exchange =
      timed_send-frames spill race timeout (written m) (answer_bytes hr) sent rest w in_time fits
        fits' input output in
    let (parsed, served) = serve_http_answers answers h r m old hr formed ok_m ok_hr low high (
      result_eq (timed_send (buffered_write spill) buffered_flush race (written m) timeout w) _ pool
        exchange) in
    (frame (written m), ap (λ x. x.1) exchange, read_frame-frame (written m) fits, parsed, served)
