-- ===== src/Worker/Pool/Queue.antt =====
-- worker.go, Send, jobLoop and the queue between them: callers and goroutines as steps in any order.
-- A job is known by its result channel. What timedSend gives is any result, and a restart inside it
-- may leave one jobLoop more, as Worker.Process shows.
pub mod Places
pub mod Progress
pub mod Answers
use core_runner.Common.{
  ℕ, suc, ◌≤◌, ◌<◌, ◌≡◌, Bool, true, false, List, [], ◌∷◌, ◌++◌, Bytes, length, replicate,
}
use core_runner.Worker.Process.TimedSend.{WorkerResult}

pub record WorkerJob : Type 0 where
  pub res : ℕ
  pub job_bytes : Bytes
  pub timeout : ℕ

-- Where a goroutine stands in jobLoop.
pub data Loop : Type 0 where
  -- at `<-wrk.queue`
  waiting : Loop
  -- in timedSend
  serving : WorkerJob → Loop
  -- at `job.res <-`
  answering : WorkerJob → WorkerResult → Loop
  returned : Loop

-- `senders` are the callers at `p.queue <-`, and `queue` is the channel's buffer. `entered` and
-- `taken` are the jobs in the order in which they came into the buffer and left it.
pub record Dispatch : Type 0 where
  pub senders : List WorkerJob
  pub queue : List WorkerJob
  pub capacity : ℕ
  pub closed : Bool
  pub loops : List Loop
  pub answered : List (ℕ × WorkerResult)
  pub next_res : ℕ
  pub entered : List WorkerJob
  pub taken : List WorkerJob
  pub crashed : Bool

-- After Start of `n` workers.
abbrev pub init : ℕ → ℕ → Dispatch
init n capacity = record {
  senders = [];
  queue = [];
  capacity = capacity;
  closed = false;
  loops = replicate n waiting;
  answered = [];
  next_res = 0;
  entered = [];
  taken = [];
  crashed = false;
}

-- What the goroutines do by themselves.
pub data Work (s : Dispatch) : Dispatch → Type 0 where
  enqueue :
      (front back : List WorkerJob) (job : WorkerJob)
      → s.senders ≡ front ++ job ∷ back
      → s.closed ≡ false
      → length s.queue < s.capacity
      → Work s (record s {
        senders = front ++ back;
        queue = s.queue ++ job ∷ [];
        entered = s.entered ++ job ∷ [];
      })
  take_job :
      (front back : List Loop) (job : WorkerJob) (rest : List WorkerJob)
      → s.loops ≡ front ++ waiting ∷ back
      → s.queue ≡ job ∷ rest
      → Work s (record s {
        loops = front ++ serving job ∷ back;
        queue = rest;
        taken = s.taken ++ job ∷ [];
      })
  finish :
      (front back : List Loop) (job : WorkerJob) (result : WorkerResult) (restarts : ℕ)
      → s.loops ≡ front ++ serving job ∷ back
      → restarts ≤ 1
      → Work s (record s {
        loops = (front ++ answering job result ∷ back) ++ replicate restarts waiting;
      })
  deliver :
      (front back : List Loop) (job : WorkerJob) (result : WorkerResult)
      → s.loops ≡ front ++ answering job result ∷ back
      → Work s (record s {
        loops = front ++ waiting ∷ back;
        answered = s.answered ++ (job.res, result) ∷ [];
      })

pub data Step (s : Dispatch) : Dispatch → Type 0 where
  work : {t : Dispatch} → Work s t → Step s t
  -- Send makes the result channel, and comes to `p.queue <-`
  send :
      (job_bytes : Bytes) (timeout : ℕ)
      → Step s (record s {
        senders =
            s.senders ++ record { res = s.next_res; job_bytes = job_bytes; timeout = timeout } ∷ [];
        next_res = suc s.next_res;
      })
  -- close(p.queue) in Stop
  close_queue : s.closed ≡ false → Step s (record s { closed = true })
  close_again : s.closed ≡ true → Step s (record s { crashed = true })
  -- a send on the closed channel
  send_panics :
      (front back : List WorkerJob) (job : WorkerJob)
      → s.senders ≡ front ++ job ∷ back
      → s.closed ≡ true
      → Step s (record s { crashed = true })
  -- a panic in timedSend
  serve_panics :
      (front back : List Loop) (job : WorkerJob)
      → s.loops ≡ front ++ serving job ∷ back
      → Step s (record s { crashed = true })
  -- `if ok == false { return }`
  leave :
      (front back : List Loop)
      → s.loops ≡ front ++ waiting ∷ back
      → s.queue ≡ []
      → s.closed ≡ true
      → Step s (record s { loops = front ++ returned ∷ back })

pub data Reach (n capacity : ℕ) : Dispatch → Type 0 where
  start : Reach n capacity (init n capacity)
  later : {s t : Dispatch} → Reach n capacity s → s.crashed ≡ false → Step s t → Reach n capacity t
