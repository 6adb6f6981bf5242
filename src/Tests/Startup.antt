-- ===== src/Tests/Startup.antt =====
-- cmd/server/main.go: main with all of its parts, and with a file that is missing.
use core_runner.Common.{
  ℕ, ◌≡◌, refl, true, Option, none, some, [], Bytes, codes, Outcome, ok, err, panic, external,
  nil_dereference, length, if◌then◌else◌,
}
use core_runner.Common.Ensures.{Ensures}
use core_runner.Common.Decimal.{pos}
use core_runner.Common.Maps.{◌==◌, bytes_eq}
use core_runner.Common.Sink.{buffer_write}
use core_runner.Redis.Client.{Buffering}
use core_runner.Worker.Pipe.Read.{read_string, split_after}
use core_runner.Worker.Process.{Launch, start, new_worker, launch, greet}
use core_runner.Worker.Pool.{start_pool, new_pool, start_workers, add_worker}
use core_runner.Server.{must_exist}
use core_runner.Http.Static.{found, not_exist}
use core_runner.Http.Worker.{exited}
use core_runner.Server.Startup.{
  Flags, World, fresh, main, listen_rpc, accept_round, fatal, start_rpc_part, start_jobs, start_php,
  watch_rpc, tabulate, start_http_part, start_site,
}
use core_runner.Server.Startup.Parts.{Fails}
use core_runner.Server.Startup.Serving.{Serves, main-Serves}

abbrev exact : Buffering
exact = record { copied = λ n r. n; buffered = λ rest. 0 }

abbrev greeting : ℕ → Launch Bytes
greeting i = record {
  stdout_pipe = none;
  stdin_pipe = none;
  stderr_pipe = none;
  start = none;
  pid = i;
  input = [];
  output = codes "ok\n";
}

-- A machine with one PHP file and redis.
abbrev machine : World Bytes Bytes
machine = record {
  env = [];
  stat = λ file.
      if file == codes "jobs.php"
      then found (record { is_regular = true; perm = 420 })
      else not_exist;
  jobs_launch = greeting;
  http_launch = greeting;
  rpc_listen = λ stage. none;
  resolves = true;
  dial = ok (record { output = []; input = codes "+OK\r\n" });
}

abbrev all_parts : Flags
all_parts = record {
  http_exe = codes "jobs.php";
  wrks_num = pos 3;
  addr = codes ":3000";
  static = codes "www";
  max_age = pos 0;
  cors = true;
  jobs_exe = codes "jobs.php";
  rpc_addr = codes ":4000";
  redis_addr = codes "redis://redis:6379";
}

main-Serves_example :
    Ensures
      (λ u p. Serves buffer_write exact all_parts machine p)
      (Fails buffer_write exact all_parts machine)
      (main buffer_write exact all_parts machine fresh)
main-Serves_example = main-Serves buffer_write exact all_parts machine

abbrev outcome : Flags → Outcome (Unit {0}) × (ℕ × Option Bytes)
outcome flags =
    let (o, p) = main buffer_write exact flags machine fresh in (o, (length p.running, p.listening))

-- The HTTP file is missing: the program ends, and the jobs pool is not stopped.
http_file_missing :
    outcome (record all_parts { http_exe = codes "index.php" }) ≡ (err fatal, (1, none))
unfolding main fresh start_rpc_part start_jobs start_php must_exist start_pool new_pool
    start_workers tabulate add_worker start new_worker launch read_string split_after greet
    start_http_part start_site watch_rpc listen_rpc
http_file_missing = refl

address_in_use : listen_rpc (some (external 98)) ≡ exited
unfolding listen_rpc
address_in_use = refl

-- After an error of Accept.
nobody_accepted : accept_round (some (external 24)) ≡ panic nil_dereference
unfolding accept_round
nobody_accepted = refl
