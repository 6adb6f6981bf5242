-- ===== src/Http/Worker/Answers.antt =====
-- What the client of a request gets back.
use core_runner.Common.{◌≤◌, ◌≡◌, refl, Option, none, [], ◌∷◌, ◌++◌, Bytes, Error, ok, arith}
use core_runner.Common.Decimal.{ℤ}
use core_runner.Common.Sink.{buffer_write}
use core_runner.Binary.Messages.{HttpRequest, HttpResponse}
use core_runner.Binary.Write.{write_http_request, write_http_response}
use core_runner.Binary.Parse.{parse_http_request}
use core_runner.Binary.Reparse.{write_http_request-none}
use core_runner.Binary.RoundTrip.{
  RequestOk, ResponseOk, parse_http_request-buffer, parse_http_response-buffer,
}
use core_runner.Worker.Process.TimedSend.{WorkerResult}
use core_runner.Http.Response.{write_header, write_body, cors_headers}
use core_runner.Http.Worker.{
  WorkerHandler, Request, returned, form_request, set_headers, respond, parsed, empty_response,
  handle_result, send_bytes, handle_request, serve_http,
}

abbrev pub written : HttpRequest → Bytes
written m = (write_http_request buffer_write m []).0

abbrev pub answer_bytes : HttpResponse → Bytes
answer_bytes hr = (write_http_response buffer_write hr []).0

handle_request-sent :
    (send : Bytes → ℤ → WorkerResult) (h : WorkerHandler) (m : HttpRequest)
    → handle_request send h (ok m) ≡ handle_result h (send (written m) h.timeout)
unfolding handle_request
handle_request-sent send h m = go (write_http_request buffer_write m []) (write_http_request-none m)
  where
    go :
        (r : Bytes × Option Error)
        → r.1 ≡ none
        → send_bytes send h r ≡ handle_result h (send r.0 h.timeout)
    go (buf, e) no_error = unfold send_bytes in rw no_error

respond_valid :
    (hr : HttpResponse)
    → 100 ≤ hr.status_code
    → hr.status_code ≤ 999
    → respond hr
      ≡ (set_headers hr.headers ++ write_header hr.status_code ∷ write_body hr.body ∷ [], returned)
unfolding respond
respond_valid hr low high = ground arith

-- The worker is sent one message, which it parses as the HTTPRequest that was formed from the
-- client's request; and if it answers with an HTTPResponse, the client gets its headers, status and
-- body behind the CORS headers, and the count of timeouts is reset. (The message and the response
-- are of sizes that the runtime can hold, with distinct keys, and the status has three digits.)
pub serve_http_answers :
    (send : Bytes → ℤ → WorkerResult) (h : WorkerHandler) (r : Request) (m old : HttpRequest)
    (hr : HttpResponse)
    → form_request r ≡ ok m
    → RequestOk m
    → ResponseOk hr
    → 100 ≤ hr.status_code
    → hr.status_code ≤ 999
    → send (written m) h.timeout ≡ record { res = answer_bytes hr; err_field = none }
    → (parse_http_request (old, written m) ≡ (ok tt, (m, [])))
      × (serve_http send h r ≡ (
        record h { timeouts_count = 0 },
        (
          cors_headers h.cors
              ++ (set_headers hr.headers ++ write_header hr.status_code ∷ write_body hr.body ∷ []),
          returned,
        ),
      ))
unfolding serve_http
serve_http_answers send h r m old hr formed ok_m ok_hr low high answers = (
  parse_http_request-buffer old m ok_m,
  rw (formed, handle_request-sent send h m, answers)
      (unfold handle_result parsed in
        rw (parse_http_response-buffer empty_response hr ok_hr, respond_valid hr low high) refl),
)
