-- ===== src/Tests/Worker.antt =====
-- worker.go on concrete answers of the system.
use core_runner.Common.{
  ℕ, ◌-◌, ◌≡◌, refl, List, [], ◌∷◌, ◌++◌, none, some, Bytes, codes, external, ok, err, panic, eof,
  nil_dereference, true, false, arith, flatten, All, ◌⊎◌, ◌↔◌,
}
use core_runner.Common.Decimal.{itoa, atoi}
use core_runner.Common.Ensures.{Ensures}
use core_runner.Common.Text.{trim_suffix, has_suffix}
use core_runner.Common.Sink.{◌>>◌, write_all}
use core_runner.Worker.Pipe.{newline}
use core_runner.Worker.Pipe.Read.{
  split_after, read_string, read_frame, read_body, read_chunks, copy_n,
}
use core_runner.Worker.Pipe.Write.{write_frame, write_frame-write_all, write_chunks, IsChunk}
use core_runner.Worker.Pipe.Framing.{
  Buffered, buffered_write, buffered_flush, frame, read-write_frame,
}
use core_runner.Worker.Process.{
  Worker, Launch, start, stop, launch, restart, reset, send, write_msg, read_msg, already_started,
  end_process, cmd_wait, greet, sigkill, waited_for,
}
use core_runner.Worker.Process.Lifecycle.{
  IsOk, Started, Starts, Restarted, start_outcome, restart_outcome,
}
use core_runner.Worker.Process.TimedSend.{Race, timed_send, timed_out, pid_of, timed_send_answer}

-- A buffer that keeps four bytes and spills the rest.
abbrev spill_four : ℕ → ℕ
spill_four n = n - 4

read-write_frame_example :
    (write_frame
        (buffered_write spill_four)
        buffered_flush
        (codes "hello")
        (record { sent = codes "x"; waiting = [] })
      ≡ (record { sent = codes "x" ++ frame (codes "hello"); waiting = [] }, none))
    × (read_frame (frame (codes "hello") ++ codes "rest") ≡ (ok (codes "hello"), codes "rest"))
read-write_frame_example =
    read-write_frame spill_four (codes "hello") (codes "x") (codes "rest") (omega arith)

write_frame-write_all_example :
    (cs : List Bytes) × (write_frame (buffered_write spill_four) buffered_flush (codes "hello")
      ≡ (write_all (buffered_write spill_four) ((itoa 5 ++ newline ∷ []) ∷ cs) >> buffered_flush))
    × (flatten cs ≡ codes "hello")
    × All IsChunk cs
write_frame-write_all_example =
    write_frame-write_all (buffered_write spill_four) buffered_flush (codes "hello")

-- A header with a minus sign is an empty message.
negative_header : read_frame (codes "-5\nabc") ≡ (ok [], codes "abc")
unfolding read_frame read_string split_after trim_suffix has_suffix atoi read_body
negative_header = refl

cut_message : read_frame (codes "5\nabc") ≡ (err eof, [])
unfolding read_frame read_string split_after trim_suffix has_suffix atoi read_body read_chunks
    copy_n
cut_message = refl

abbrev fresh_input : Buffered
fresh_input = record { sent = []; waiting = [] }

-- A process that greets and then answers one request with "hi".
abbrev php : Launch Buffered
php = record {
  stdout_pipe = none;
  stdin_pipe = none;
  stderr_pipe = none;
  start = none;
  pid = 42;
  input = fresh_input;
  output = codes "ok\n2\nhi";
}

-- A start that the system refuses.
abbrev no_php : Launch Buffered
no_php = record php { start = some (external 2) }

abbrev php_argv : List Bytes
php_argv = codes "php" ∷ codes "http.php" ∷ []

abbrev ready : Worker Buffered
ready = record {
  cmd = some 42;
  read = some (codes "2\nhi");
  write = some fresh_input;
  argv = php_argv;
  env = [];
  loops = 1;
  calls = [];
}

abbrev idle : Worker Buffered
idle = record { cmd = none; read = none; write = none; argv = []; env = []; loops = 0; calls = [] }

php_starts : start php php_argv [] idle ≡ (ok tt, ready)
unfolding start launch greet read_string split_after
php_starts = refl

start_outcome_example :
    ((idle.cmd ≡ none)
      × (IsOk (start php php_argv [] idle).0 ↔ Starts php php_argv)
      × Ensures
          (λ _ w'. Started php php_argv [] 0 w')
          (λ w'. w'.cmd ≡ none)
          (start php php_argv [] idle))
    ⊎ ((pid : ℕ) × (idle.cmd ≡ some pid)
        × (start php php_argv [] idle ≡ (err already_started, idle)))
start_outcome_example = start_outcome php php_argv [] idle

restart_outcome_example :
    Restarted php ready (sigkill 42 ∷ waited_for 42 ∷ []) (restart none php true ready)
restart_outcome_example = restart_outcome none php true ready

-- Stop after an exit status of 1: the worker keeps the process, which has ended.
kept_after_stop :
    stop
      (buffered_write spill_four)
      buffered_flush
      (record { error = some (external 1); read_left = []; write_left = fresh_input })
      ready
    ≡ (
      err (external 1),
      record ready { read = some []; write = some fresh_input; calls = waited_for 42 ∷ [] },
    )
unfolding stop cmd_wait buffered_write buffered_flush
kept_after_stop = refl

abbrev late : Race Buffered
late = record {
  timer_first = true;
  read_left = some [];
  write_left = some fresh_input;
  killed = none;
  relaunch = php;
}

-- The process that answers too late cannot be started again: the send panics.
late_and_gone :
    (timed_send
      (buffered_write spill_four)
      buffered_flush
      (record late { relaunch = no_php })
      (codes "q")
      30
      ready).0
    ≡ panic nil_dereference
unfolding timed_send timed_out restart end_process reset start launch pid_of
late_and_gone = refl

abbrev in_time : Race Buffered
in_time = record late { timer_first = false }

abbrev after_send : Worker Buffered
after_send = record ready {
  read = some [];
  write = some (record { sent = codes "1\nq"; waiting = [] });
}

send_runs :
    send (buffered_write spill_four) buffered_flush (codes "q") ready
    ≡ (ok (codes "hi"), after_send)
unfolding send write_msg read_msg write_frame write_chunks buffered_write buffered_flush itoa
    read_frame read_string split_after trim_suffix has_suffix atoi read_body read_chunks copy_n
send_runs = refl

answer_in_time :
    timed_send (buffered_write spill_four) buffered_flush in_time (codes "q") 30 ready
    ≡ (ok (record { res = codes "hi"; err_field = none }), after_send)
answer_in_time =
    timed_send_answer (buffered_write spill_four) buffered_flush in_time (codes "q") 30 ready
      after_send (codes "hi") refl send_runs

-- The process has closed its output.
abbrev gone : Worker Buffered
gone = record ready { read = some [] }
