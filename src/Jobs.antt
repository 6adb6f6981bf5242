-- ===== src/Jobs.antt =====
-- jobs/jobs.go: a call of a job by name. The worker pool is the argument `send`: what comes out of
-- the channel that Pool.Send returns for these bytes and this timeout.
pub mod Call
pub mod Exchange
use core_runner.Common.{
  ℕ, zero, suc, ◌+◌, ◌-◌, ◌/◌, ◌%◌, Option, none, some, [], Bytes, codes, Error, wrapped, Outcome,
  ok, err, panic, u64_mod,
}
use core_runner.Common.Decimal.{ℤ, pos, negsuc}
use core_runner.Common.Sink.{buffer_write}
use core_runner.Binary.Messages.{JobRequest, JobResponse}
use core_runner.Binary.Write.{write_job_request}
use core_runner.Binary.Parse.{parse_job_response}
use core_runner.Worker.Process.TimedSend.{WorkerResult}

-- uint64(timeout.Milliseconds()): a Duration is a signed number of nanoseconds, Milliseconds rounds
-- towards zero, and the conversion wraps around.
unfoldable pub milliseconds : ℤ → ℕ
milliseconds (pos ns) = ns / 1_000_000 % u64_mod
milliseconds (negsuc n) = (u64_mod - (n + 1) / 1_000_000 % u64_mod) % u64_mod

abbrev pub serialization_error : Bytes
serialization_error = codes "job: serialization error: "

abbrev pub request_error : Bytes
request_error = codes "job: request error: "

abbrev pub deserialization_error : Bytes
deserialization_error = codes "job: response deserialization error: "

-- The end of Call, on what res.Parse did to an empty JobResponse.
unfoldable pub payload_of : Outcome (Unit {0}) × (JobResponse × Bytes) → Outcome Bytes
payload_of (ok u, (res, rest)) = ok res.payload
payload_of (err e, s) = err (wrapped deserialization_error e)
payload_of (panic p, s) = panic p

-- Call behind Send.
unfoldable pub receive : WorkerResult → Outcome Bytes
receive wrk = elim wrk.err_field [
  | some e ↦ err (wrapped request_error e)
  | none ↦ payload_of (parse_job_response (record { payload = [] }, wrk.res))
]

unfoldable pub request_for : Bytes → Bytes → ℤ → JobRequest
request_for name payload timeout = record {
  name = name;
  payload = payload;
  timeout = milliseconds timeout;
}

unfoldable pub send_request : (Bytes → ℤ → WorkerResult) → ℤ → Bytes × Option Error → Outcome Bytes
send_request send timeout (buf, none) = receive (send buf timeout)
send_request send timeout (buf, some e) = err (wrapped serialization_error e)

unfoldable pub call : (Bytes → ℤ → WorkerResult) → Bytes → Bytes → ℤ → Outcome Bytes
call send name payload timeout =
    send_request send timeout (write_job_request buffer_write (request_for name payload timeout) [])
