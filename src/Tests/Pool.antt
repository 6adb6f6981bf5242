-- ===== src/Tests/Pool.antt =====
-- worker.go, type Pool, on two processes and on a job.
use core_runner.Common.{
  ℕ, ◌<◌, ◌*◌, ◌≡◌, ◌≢◌, ◌⊎◌, ◌↔◌, All, refl, false, List, [], ◌∷◌, none, some, Bytes, codes, ok,
  err, external, text, arith,
}
use core_runner.Common.Ensures.{Ensures}
use core_runner.Common.Sink.{buffer_write, return_nil}
use core_runner.Worker.Pipe.Read.{read_string, split_after}
use core_runner.Worker.Process.{
  Worker, Launch, Waited, start, launch, restart, end_process, reset, new_worker, greet, send,
  write_msg, already_started,
}
use core_runner.Worker.Process.Lifecycle.{Starts, IsOk}
use core_runner.Worker.Process.TimedSend.{timed_send, answered}
use core_runner.Worker.Pool.{opened, Pool, new_pool, start_pool, start_workers, add_worker}
use core_runner.Worker.Pool.Lifecycle.{Adds, Fewer, start_pool_outcome}
use core_runner.Worker.Pool.Queue.{Dispatch, init, Work, enqueue, work, Reach, later}
use core_runner.Worker.Pool.Queue
use core_runner.Worker.Pool.Queue.Places.{Once, Reach-Once, total, is_answer}
use core_runner.Worker.Pool.Queue.Progress.{InOrder, Reach-InOrder, Work-pending, pending}
use core_runner.Worker.Pool.Queue.Answers.{Works, Reach-answers}

abbrev php : Launch Bytes
php = record {
  stdout_pipe = none;
  stdin_pipe = none;
  stderr_pipe = none;
  start = none;
  pid = 42;
  input = [];
  output = codes "ok\n";
}

-- A start that the system refuses.
abbrev no_php : Launch Bytes
no_php = record php { start = some (external 2) }

abbrev argv : List Bytes
argv = codes "php" ∷ codes "http.php" ∷ []

abbrev started : Worker Bytes
started = record {
  cmd = some 42;
  read = some [];
  write = some [];
  argv = argv;
  env = [];
  loops = 1;
  calls = [];
}

-- One worker of two starts, and the other's error is returned.
half_started :
    start_pool (php ∷ no_php ∷ []) argv [] new_pool
    ≡ (err (external 2), record { pool = started ∷ []; queue = opened 1024 })
unfolding start_pool start_workers add_worker new_pool start launch new_worker read_string
    split_after greet
half_started = refl

abbrev unstarted : Pool Bytes
unstarted = new_pool

start_pool_outcome_example :
    ((unstarted.pool ≡ [])
      × (IsOk (start_pool (php ∷ php ∷ []) argv [] unstarted).0
          ↔ All (λ l. Starts l argv) (php ∷ php ∷ []))
      × Ensures
          (λ _ p'. Adds argv [] (php ∷ php ∷ []) (opened (2 * 512)) 2 p')
          (Fewer argv [] (php ∷ php ∷ []) (opened (2 * 512)) 2)
          (start_pool (php ∷ php ∷ []) argv [] unstarted))
    ⊎ ((unstarted.pool ≢ [])
        × (start_pool (php ∷ php ∷ []) argv [] unstarted ≡ (err already_started, unstarted)))
start_pool_outcome_example = start_pool_outcome argv [] (php ∷ php ∷ []) unstarted

abbrev two : Pool Bytes
two = record { pool = started ∷ started ∷ []; queue = opened 1024 }

-- cmd.Wait answers an exit status of 1.
abbrev exited : Waited Bytes
exited = record { error = some (external 1); read_left = []; write_left = [] }

-- A job that is still in the queue when its worker has been stopped starts a new process.
revived :
    timed_send buffer_write return_nil
      (record {
        timer_first = false;
        read_left = none;
        write_left = none;
        killed = none;
        relaunch = php;
      })
      (codes "q")
      30
      (record started { cmd = none; read = none; write = none })
    ≡ (
      ok (record { res = []; err_field = some (text (codes "write pipe is not started")) }),
      record started { loops = 2 },
    )
unfolding timed_send answered send write_msg restart end_process reset start launch greet
    read_string split_after
revived = refl

abbrev one_sent : Dispatch
one_sent = record (init 1 512) {
  senders = record { res = 0; job_bytes = codes "q"; timeout = 30 } ∷ [];
  next_res = 1;
}

one_sent-Reach : Reach 1 512 one_sent
one_sent-Reach = later Queue.start refl (Queue.send (codes "q") 30)

abbrev one_queued : Dispatch
one_queued = record one_sent {
  senders = [];
  queue = record { res = 0; job_bytes = codes "q"; timeout = 30 } ∷ [];
  entered = record { res = 0; job_bytes = codes "q"; timeout = 30 } ∷ [];
}

one_queued-Work : Work one_sent one_queued
one_queued-Work = enqueue [] [] _ refl refl (omega arith)

one_queued-Reach : Reach 1 512 one_queued
one_queued-Reach = later one_sent-Reach refl (work one_queued-Work)

Reach-Once_example : Once 0 one_queued
Reach-Once_example = Reach-Once 0 one_queued-Reach

one_queued-InOrder : InOrder 512 one_queued
one_queued-InOrder = Reach-InOrder one_queued-Reach

Work-pending_example : pending one_queued < pending one_sent
Work-pending_example = Work-pending one_queued-Work

Reach-answers_example :
    (t : Dispatch) × Works one_queued t × ((i : ℕ) → i < 1 → total (is_answer i) t.answered ≡ 1)
Reach-answers_example = Reach-answers one_queued-Reach (omega arith) refl refl
