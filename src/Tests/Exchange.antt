-- ===== src/Tests/Exchange.antt =====
-- http/worker.go over worker.go: a posted request that a worker process answers.
use core_runner.Common.{
  ℕ, ◌≤◌, ◌≡◌, refl, ap, [], ◌∷◌, ◌++◌, false, none, some, Bytes, codes, ok, length, arith, ◌-◌,
}
use core_runner.Common.Decimal.{max_int}
use core_runner.Common.Maps.{insert, bytes_eq}
use core_runner.Common.Text.{has_prefix}
use core_runner.Common.Sink.{buffer_write}
use core_runner.Binary.Wire.{le_bytes}
use core_runner.Binary.Write.{
  write_uint64, write_bytes, write_string, write_string_map, write_string_entries, write_file_map,
  write_file_entries, write_http_request, write_http_response,
}
use core_runner.Binary.Parse.{parse_http_request}
use core_runner.Worker.Pipe.Read.{read_frame}
use core_runner.Worker.Pipe.Framing.{frame, Buffered, buffered_write, buffered_flush}
use core_runner.Worker.Process.{Worker}
use core_runner.Worker.Process.TimedSend.{Race, timed_send}
use core_runner.Http.Response.{write_header, write_body, cors_headers}
use core_runner.Http.Worker.{
  returned, set_headers, serve_http, form_request, form_body, has_body, add_headers,
}
use core_runner.Http.Worker.Answers.{written, answer_bytes}
use core_runner.Http.Worker.Exchange.{serve_http_exchange}
use core_runner.Worker.Process.Exchange.{empty_buffer, timed_send-frames}
use core_runner.Tests.Handler.{
  handler, posted, message, found_it, worker, message-RequestOk, found_it-ResponseOk,
}

-- A process that has answered once, and whose next answers are there.
abbrev process : Worker Buffered
process = record {
  cmd = some 7;
  read = some (frame (answer_bytes found_it) ++ codes "2\nhi");
  write = some (empty_buffer (codes "0\n"));
  argv = codes "php" ∷ codes "http.php" ∷ [];
  env = [];
  loops = 1;
  calls = [];
}

abbrev in_time : Race Buffered
in_time = record {
  timer_first = false;
  read_left = none;
  write_left = none;
  killed = none;
  relaunch = record {
    stdout_pipe = none;
    stdin_pipe = none;
    stderr_pipe = none;
    start = none;
    pid = 8;
    input = empty_buffer [];
    output = codes "ok\n";
  };
}

message_fits : length (written message) ≤ max_int
unfolding write_http_request write_string write_bytes write_uint64 write_string_map
    write_string_entries write_file_map write_file_entries buffer_write le_bytes
message_fits = omega arith

answer_fits : length (answer_bytes found_it) ≤ max_int
unfolding write_http_response write_string write_bytes write_uint64 write_string_map
    write_string_entries buffer_write le_bytes
answer_fits = omega arith

-- A buffer that keeps four bytes and spills the rest.
abbrev spill : ℕ → ℕ
spill n = n - 4

pool_answers :
    (timed_send (buffered_write spill) buffered_flush in_time (written message) 30 process).0
    ≡ ok (worker (written message) handler.timeout)
pool_answers =
    ap (λ x. x.0)
      (timed_send-frames spill in_time 30 (written message) (answer_bytes found_it) (codes "0\n")
        (codes "2\nhi") process refl message_fits answer_fits refl refl)

serve_http_exchange_example :
    (input : Bytes) × ((timed_send
        (buffered_write spill)
        buffered_flush
        in_time
        (written message)
        30
        process).1
      ≡ record process {
        write = some (empty_buffer (codes "0\n" ++ input));
        read = some (codes "2\nhi");
      })
    × (read_frame input ≡ (ok (written message), []))
    × (parse_http_request (message, written message) ≡ (ok tt, (message, [])))
    × (serve_http worker handler posted ≡ (
      record handler { timeouts_count = 0 },
      (
        cors_headers false
            ++ (set_headers ((codes "A", codes "b") ∷ [])
                ++ write_header 200 ∷ write_body (codes "done") ∷ []),
        returned,
      ),
    ))
unfolding form_request has_body form_body add_headers insert has_prefix
serve_http_exchange_example =
    serve_http_exchange spill in_time 30 process (codes "0\n") (codes "2\nhi") worker handler posted
      message message found_it refl refl refl pool_answers refl message-RequestOk
      found_it-ResponseOk message_fits answer_fits (omega arith) (omega arith)
