-- ===== src/Tests/Handler.antt =====
-- http/worker.go on a posted request, an upload and some timeouts.
use core_runner.Common.{
  ◌≡◌, refl, [], ◌∷◌, ◌++◌, none, some, Bytes, codes, false, if◌then◌else◌, external,
  worker_timed_out, ok, err, panic, failed_assertion, arith,
}
use core_runner.Common.Decimal.{ℤ, pos}
use core_runner.Common.Maps.{◌==◌, nat_eq, bytes_eq, lookup, insert}
use core_runner.Common.Maps.Fetch.{elem}
use core_runner.Common.Text.{has_prefix}
use core_runner.Binary.Messages.{HttpRequest, HttpResponse}
use core_runner.Binary.Parse.{parse_http_request}
use core_runner.Binary.RoundTrip.{RequestOk, ResponseOk}
use core_runner.Worker.Process.TimedSend.{WorkerResult}
use core_runner.Http.Response.{write_header, write_body, cors_headers}
use core_runner.Http.Worker.{
  WorkerHandler, Request, returned, form_request, form_body, has_body, add_headers, add_files,
  add_file, file_of_header, parse_files, set_headers, serve_http, is_timeout,
}
use core_runner.Http.Worker.Timeouts.{handle_all, streaks, handle_all-streaks}
use core_runner.Http.Worker.Answers.{written, answer_bytes, serve_http_answers}

abbrev pub handler : WorkerHandler
handler = record { cors = false; timeout = pos 1_000_000_000; timeouts_count = 1; max_timeouts = 2 }

abbrev pub posted : Request
posted = record {
  url = codes "/x";
  method = codes "POST";
  header_keys = codes "Host" ∷ [];
  header_get = λ k. if k == codes "Host" then codes "h" else [];
  content_length = pos 2;
  body = ok (codes "hi");
  form = err (external 1);
}

abbrev pub message : HttpRequest
message = record {
  method = codes "POST";
  url = codes "/x";
  headers = (codes "Host", codes "h") ∷ [];
  body = codes "hi";
  files = [];
  form = [];
}

pub message-RequestOk : RequestOk message
unfolding lookup
message-RequestOk = record {
  method_short = omega arith;
  url_short = omega arith;
  headers_ok = ((omega arith, omega arith), (refl, tt));
  body_short = omega arith;
  files_ok = ((omega arith, tt));
  form_ok = ((omega arith, tt));
}

abbrev pub found_it : HttpResponse
found_it = record { status_code = 200; headers = (codes "A", codes "b") ∷ []; body = codes "done" }

pub found_it-ResponseOk : ResponseOk found_it
unfolding lookup
found_it-ResponseOk = record {
  code_fits = omega arith;
  headers_ok = ((omega arith, omega arith), (refl, tt));
  body_short = omega arith;
}

abbrev pub worker : Bytes → ℤ → WorkerResult
worker buf timeout = record { res = answer_bytes found_it; err_field = none }

-- A form with one empty file, which is kept in memory.
abbrev uploaded : Request
uploaded = record posted {
  header_get = λ k. codes "multipart/form-data; boundary=x";
  form = ok (record {
    values = [];
    file_headers =
        (codes "f", some (record { filename = codes "a"; size = 0; opened = none }) ∷ []) ∷ [];
  });
}

empty_upload : form_request uploaded ≡ panic failed_assertion
unfolding form_request has_body form_body parse_files add_files add_file file_of_header has_prefix
empty_upload = refl

posted_answered :
    (parse_http_request (message, written message) ≡ (ok tt, (message, [])))
    × (serve_http worker handler posted ≡ (
      record handler { timeouts_count = 0 },
      (
        cors_headers false
            ++ (set_headers ((codes "A", codes "b") ∷ [])
                ++ write_header 200 ∷ write_body (codes "done") ∷ []),
        returned,
      ),
    ))
unfolding form_request has_body form_body add_headers insert has_prefix
posted_answered =
    serve_http_answers worker handler posted message message found_it refl message-RequestOk
      found_it-ResponseOk (omega arith) (omega arith) refl

abbrev late : WorkerResult
late = record { res = []; err_field = some (worker_timed_out 7 1_000_000_000) }

abbrev broken_pipe : WorkerResult
broken_pipe = record { res = []; err_field = some (external 32) }

abbrev answered : WorkerResult
answered = record { res = []; err_field = none }

-- The count reaches the maximum over an error that is no timeout.
in_a_row : streaks 0 (late ∷ answered ∷ late ∷ broken_pipe ∷ late ∷ []) ≡ 1 ∷ 1 ∷ 2 ∷ []
unfolding streaks is_timeout
in_a_row = refl

handle_all-streaks_example :
    handle_all handler (answered ∷ late ∷ broken_pipe ∷ late ∷ [])
    ≡ elem 2 (streaks 1 (answered ∷ late ∷ broken_pipe ∷ late ∷ []))
handle_all-streaks_example =
    handle_all-streaks handler (answered ∷ late ∷ broken_pipe ∷ late ∷ []) (omega arith)
