-- ===== src/Worker/Pool/Queue/Places.antt =====
-- Every job is in one place, from its Send to its answer.
use core_runner.Common.{
  ℕ, zero, suc, ◌+◌, ◌≡◌, refl, sym, ap, ◌∙◌, List, [], ◌∷◌, ◌++◌, replicate, if◌then◌else◌, ltb,
  ◌==◌, arith,
}
use core_runner.Worker.Process.TimedSend.{WorkerResult}
use core_runner.Worker.Pool.Queue.{
  WorkerJob, Loop, waiting, serving, answering, returned, Dispatch, Work, enqueue, take_job, finish,
  deliver, Step, work, send, close_queue, close_again, send_panics, serve_panics, leave, Reach,
  start, later,
}

-- How often a value of a list counts.
abbrev pub total : {A : Type 0} → (A → ℕ) → List A → ℕ
total w [] = 0
total w (x ∷ xs) = w x + total w xs

pub total-append :
    {A : Type 0} (w : A → ℕ) (xs ys : List A) → total w (xs ++ ys) ≡ total w xs + total w ys
total-append w [] ys = omega arith
total-append w (x ∷ xs) ys = omega (arith, total-append w xs ys)

pub total-replicate :
    {A : Type 0} (w : A → ℕ) (n : ℕ) (a : A) → w a ≡ 0 → total w (replicate n a) ≡ 0
total-replicate w zero a h = refl
total-replicate w (suc n) a h = omega (arith, total-replicate w n a h, h)

-- A list with one value singled out.
pub total_at :
    {A : Type 0} (w : A → ℕ) (front back : List A) (a : A) {l : List A}
    → l ≡ front ++ a ∷ back
    → total w l ≡ total w front + (w a + total w back)
total_at w front back a e = ap (total w) e ∙ total-append w front (a ∷ back)

abbrev pub is_job : ℕ → WorkerJob → ℕ
is_job i job = if job.res == i then 1 else 0

abbrev pub is_held : ℕ → Loop → ℕ
is_held i waiting = 0
is_held i (serving job) = is_job i job
is_held i (answering job result) = is_job i job
is_held i returned = 0

abbrev pub is_answer : ℕ → ℕ × WorkerResult → ℕ
is_answer i (j, result) = if j == i then 1 else 0

-- The places of the job with the result channel `i`: at its Send, in the queue, in a jobLoop, and
-- answered.
abbrev pub places : ℕ → Dispatch → ℕ
places i s =
    total (is_job i) s.senders
    + total (is_job i) s.queue
    + total (is_held i) s.loops
    + total (is_answer i) s.answered

pub Work-next_res : {s t : Dispatch} → Work s t → t.next_res ≡ s.next_res
Work-next_res (enqueue front back job e open_ room) = refl
Work-next_res (take_job front back job rest e q) = refl
Work-next_res (finish front back job result restarts e few) = refl
Work-next_res (deliver front back job result e) = refl

module _ (i : ℕ) where
  Work-places : {s t : Dispatch} → Work s t → places i t ≡ places i s
  Work-places {s} (enqueue front back job e open_ room) = omega (
    arith,
    total_at (is_job i) front back job e,
    total-append (is_job i) front back,
    total-append (is_job i) s.queue (job ∷ []),
  )
  Work-places {s} (take_job front back job rest e q) = omega (
    arith,
    total_at (is_held i) front back waiting e,
    total-append (is_held i) front (serving job ∷ back),
    ap (total (is_job i)) q,
  )
  Work-places {s} (finish front back job result restarts e few) = omega (
    arith,
    total_at (is_held i) front back (serving job) e,
    total-append (is_held i) (front ++ answering job result ∷ back) (replicate restarts waiting),
    total-append (is_held i) front (answering job result ∷ back),
    total-replicate (is_held i) restarts waiting refl,
  )
  Work-places {s} (deliver front back job result e) = omega (
    arith,
    total_at (is_held i) front back (answering job result) e,
    total-append (is_held i) front (waiting ∷ back),
    total-append (is_answer i) s.answered ((job.res, result) ∷ []),
  )

  abbrev pub Once : Dispatch → Type 0
  Once s = places i s ≡ (if ltb i s.next_res then 1 else 0)

  Step-Once : {s t : Dispatch} → Step s t → Once s → Once t
  Step-Once (work w) once =
      Work-places w ∙ once ∙ ap (λ n. if ltb i n then 1 else 0) (sym (Work-next_res w))
  Step-Once {s} (send job_bytes timeout) once =
      let job : WorkerJob = record { res = s.next_res; job_bytes = job_bytes; timeout = timeout } in
      ground (arith, total-append (is_job i) s.senders (job ∷ []))
  Step-Once (close_queue open_) once = once
  Step-Once (close_again shut) once = once
  Step-Once (send_panics front back job e shut) once = once
  Step-Once (serve_panics front back job e) once = once
  Step-Once {s} (leave front back e q shut) once = omega (
    arith,
    once,
    total_at (is_held i) front back waiting e,
    total-append (is_held i) front (returned ∷ back),
  )

  -- However the callers, the goroutines and a Stop interleave, a job that was sent is in exactly one
  -- place: at its Send, in the queue, in one jobLoop, or answered once; and no other job is in any.
  pub Reach-Once : {n capacity : ℕ} {s : Dispatch} → Reach n capacity s → Once s
  Reach-Once {n} start = ground (arith, total-replicate (is_held i) n waiting refl)
  Reach-Once (later r alive st) = Step-Once st (Reach-Once r)
