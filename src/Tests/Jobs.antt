-- ===== src/Tests/Jobs.antt =====
-- jobs/jobs.go on a worker that answers, one that fails and one that breaks off.
use core_runner.Common.{
  ◌≤◌, ◌≡◌, refl, ap, [], ◌∷◌, ◌++◌, false, none, some, Bytes, codes, Error, wrapped, ok, err,
  arith, length,
}
use core_runner.Common.Decimal.{ℤ, pos, negsuc, max_int}
use core_runner.Common.Sink.{buffer_write}
use core_runner.Binary.Messages.{JobRequest}
use core_runner.Binary.Write.{
  write_job_request, write_job_response, write_string, write_bytes, write_uint64,
}
use core_runner.Binary.Wire.{le_bytes}
use core_runner.Binary.Parse.{parse_job_request}
use core_runner.Worker.Pipe.Read.{read_frame}
use core_runner.Worker.Pipe.Framing.{frame, Buffered, buffered_write, buffered_flush}
use core_runner.Worker.Process.{Worker}
use core_runner.Worker.Process.TimedSend.{WorkerResult, Race, timed_send}
use core_runner.Worker.Process.Exchange.{empty_buffer, timed_send-frames}
use core_runner.Jobs.Exchange.{call_exchange}
use core_runner.Jobs.{call, milliseconds, request_for, deserialization_error}
use core_runner.Jobs.Call.{call_fails, written, answer_bytes}

-- A worker that answers every job with "done".
abbrev done : Bytes → ℤ → WorkerResult
done buf timeout = record { res = answer_bytes (codes "done"); err_field = none }

-- A worker whose answer is one byte short.
abbrev short_answer : Bytes
short_answer = 4 ∷ 0 ∷ 0 ∷ 0 ∷ 0 ∷ 0 ∷ 0 ∷ 0 ∷ codes "don"

abbrev breaks_off : Bytes → ℤ → WorkerResult
breaks_off buf timeout = record { res = short_answer; err_field = none }

abbrev empty_request : JobRequest
empty_request = record { name = []; payload = []; timeout = 0 }

-- Two and a half seconds.
abbrev a_while : ℤ
a_while = pos 2_500_000_000

negative_timeout : milliseconds (negsuc 1_999_999) ≡ 18446744073709551614
unfolding milliseconds
negative_timeout = refl

-- A process that has answered nothing yet, and writes "done" and the beginning of something else.
abbrev process : Worker Buffered
process = record {
  cmd = some 7;
  read = some (frame (answer_bytes (codes "done")) ++ codes "5");
  write = some (empty_buffer []);
  argv = codes "php" ∷ codes "jobs.php" ∷ [];
  env = [];
  loops = 1;
  calls = [];
}

abbrev in_time : Race Buffered
in_time = record {
  timer_first = false;
  read_left = none;
  write_left = none;
  killed = none;
  relaunch = record {
    stdout_pipe = none;
    stdin_pipe = none;
    stderr_pipe = none;
    start = none;
    pid = 8;
    input = empty_buffer [];
    output = codes "ok\n";
  };
}

abbrev mail : Bytes
mail = written (request_for (codes "mail") (codes "x") a_while)

mail_fits : length mail ≤ max_int
unfolding request_for write_job_request write_string write_bytes write_uint64 buffer_write le_bytes
mail_fits = omega arith

done_fits : length (answer_bytes (codes "done")) ≤ max_int
unfolding write_job_response write_bytes write_uint64 buffer_write le_bytes
done_fits = omega arith

call_exchange_example :
    (input : Bytes) × ((timed_send
        (buffered_write (λ n. n))
        buffered_flush
        in_time
        mail
        30
        process).1
      ≡ record process { write = some (empty_buffer ([] ++ input)); read = some (codes "5") })
    × (read_frame input ≡ (ok mail, []))
    × (parse_job_request (empty_request, mail) ≡ (
      ok tt,
      (record { name = codes "mail"; payload = codes "x"; timeout = milliseconds a_while }, []),
    ))
    × (call done (codes "mail") (codes "x") a_while ≡ ok (codes "done"))
call_exchange_example =
    call_exchange (λ n. n) in_time 30 process [] (codes "5") done (codes "mail") (codes "x")
      (codes "done") a_while empty_request refl refl refl
      (ap (λ r. r.0)
        (timed_send-frames (λ n. n) in_time 30 mail (answer_bytes (codes "done")) [] (codes "5")
          process refl mail_fits done_fits refl refl))
      (omega arith) (omega arith) (omega arith) mail_fits done_fits

call_fails_example :
    (e : Error) × (call breaks_off (codes "mail") (codes "x") a_while
      ≡ err (wrapped deserialization_error e))
unfolding write_job_response write_bytes write_uint64 buffer_write le_bytes
call_fails_example =
    call_fails breaks_off (codes "mail") (codes "x") a_while short_answer none refl
      (λ _. (codes "done", 101, [], omega arith, refl))
