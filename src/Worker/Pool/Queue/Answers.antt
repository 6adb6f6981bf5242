-- ===== src/Worker/Pool/Queue/Answers.antt =====
-- No job waits for ever while the queue is open.
use core_runner.Common.{
  ℕ, zero, suc, ◌+◌, ◌<◌, ◌≡◌, refl, sym, ap, ◌∙◌, subst, Bool, false, none, List, [], ◌∷◌, ◌++◌,
  length, replicate, if◌then◌else◌, arith, length-append, ◌⊎◌, inl, inr, All, All-append,
  All-of_append, lt→ltb,
}
use native.Mathlib.Decide.{dec_lt}
use core_runner.Worker.Pool.Queue.{
  WorkerJob, Loop, waiting, serving, answering, returned, Dispatch, Work, enqueue, take_job, finish,
  deliver, Step, work, send, close_queue, close_again, send_panics, serve_panics, leave, Reach,
  start, later,
}
use core_runner.Worker.Pool.Queue.Places.{
  total, is_job, is_held, is_answer, Reach-Once, Work-next_res,
}
use core_runner.Worker.Pool.Queue.Progress.{Reach-InOrder, effort, pending, Work-pending}

abbrev IsAlive : Loop → Type 0
IsAlive returned = ⊥
IsAlive waiting = Unit
IsAlive (serving job) = Unit
IsAlive (answering job result) = Unit

-- While the queue is open, there are goroutines, and none of them has returned.
abbrev IsManned : Dispatch → Type 0
IsManned s = s.closed ≡ false → All IsAlive s.loops × (0 < length s.loops)

All-replicate : (n : ℕ) → All IsAlive (replicate n waiting)
All-replicate zero = tt
All-replicate (suc n) = (tt, All-replicate n)

-- Another goroutine in a place.
replace :
    (front back : List Loop) (old new : Loop) {l : List Loop}
    → l ≡ front ++ old ∷ back
    → IsAlive new
    → All IsAlive l × (0 < length l)
    → All IsAlive (front ++ new ∷ back) × (0 < length (front ++ new ∷ back))
replace front back old new e alive (all, some_loop) =
    let (before, (_, after)) =
      All-of_append IsAlive front (old ∷ back) (subst (All IsAlive) e all) in
    (
      All-append IsAlive front (new ∷ back) before (alive, after),
      omega (arith, length-append front (new ∷ back)),
    )

Work-IsManned : {s t : Dispatch} → Work s t → IsManned s → IsManned t
Work-IsManned (enqueue front back job e open_ room) manned h = manned h
Work-IsManned (take_job front back job rest e q) manned open_ =
    replace front back waiting (serving job) e tt (manned open_)
Work-IsManned (finish front back job result restarts e few) manned open_ =
    let (all, some_loop) =
      replace front back (serving job) (answering job result) e tt (manned open_) in
    let l = front ++ answering job result ∷ back in
    (
      All-append IsAlive l (replicate restarts waiting) all (All-replicate restarts),
      omega (arith, length-append l (replicate restarts waiting)),
    )
Work-IsManned (deliver front back job result e) manned open_ =
    replace front back (answering job result) waiting e tt (manned open_)

Step-IsManned : {s t : Dispatch} → Step s t → IsManned s → IsManned t
Step-IsManned (work w) manned = Work-IsManned w manned
Step-IsManned (send job_bytes timeout) manned = manned
Step-IsManned (close_queue open_) manned = λ h. cc
Step-IsManned (close_again shut) manned = manned
Step-IsManned (send_panics front back job e shut) manned = manned
Step-IsManned (serve_panics front back job e) manned = manned
Step-IsManned (leave front back e q shut) manned = λ h. cc

Reach-IsManned : {n capacity : ℕ} {s : Dispatch} → Reach (suc n) capacity s → IsManned s
Reach-IsManned {n} start = λ h. ((tt, All-replicate n), omega arith)
Reach-IsManned (later r alive st) = Step-IsManned st (Reach-IsManned r)

abbrev Busy : List Loop → Type 0
Busy l =
    (front : List Loop) × (back : List Loop) × (loop : Loop) × (l ≡ front ++ loop ∷ back)
    × (0 < effort loop)

-- Some goroutine has a job, or none has.
Busy-cases : (l : List Loop) → Busy l ⊎ (total effort l ≡ 0)
Busy-cases [] = inr refl
Busy-cases (serving job ∷ l) = inl ([], l, serving job, refl, omega arith)
Busy-cases (answering job result ∷ l) = inl ([], l, answering job result, refl, omega arith)
Busy-cases (waiting ∷ l) = elim (Busy-cases l) [
  | inl (front, back, loop, e, h) ↦ inl (waiting ∷ front, back, loop, ap (◌∷◌ waiting) e, h)
  | inr h ↦ inr (omega arith)
]
Busy-cases (returned ∷ l) = elim (Busy-cases l) [
  | inl (front, back, loop, e, h) ↦ inl (returned ∷ front, back, loop, ap (◌∷◌ returned) e, h)
  | inr h ↦ inr (omega arith)
]

busy_works :
    (s : Dispatch) (front back : List Loop) (loop : Loop)
    → s.loops ≡ front ++ loop ∷ back
    → 0 < effort loop
    → (t : Dispatch) × Work s t
busy_works s front back waiting e h = absurd (omega arith)
busy_works s front back returned e h = absurd (omega arith)
busy_works s front back (serving job) e h =
    (_, finish front back job (record { res = []; err_field = none }) 0 e (omega arith))
busy_works s front back (answering job result) e h = (_, deliver front back job result e)

first_waits :
    (l : List Loop)
    → All IsAlive l
    → 0 < length l
    → total effort l ≡ 0
    → (back : List Loop) × (l ≡ waiting ∷ back)
first_waits [] alive some_loop idle = absurd (omega arith)
first_waits (waiting ∷ l) alive some_loop idle = (l, refl)
first_waits (returned ∷ l) alive some_loop idle = absurd alive.0
first_waits (serving job ∷ l) alive some_loop idle = absurd (omega arith)
first_waits (answering job result ∷ l) alive some_loop idle = absurd (omega arith)

idle_works :
    (s : Dispatch) (back : List Loop)
    → s.loops ≡ waiting ∷ back
    → s.closed ≡ false
    → 0 < s.capacity
    → 0 < length s.senders + length s.queue
    → (t : Dispatch) × Work s t
idle_works s back e open_ room jobs = go s.queue s.senders refl refl
  where
    go :
        (queue senders : List WorkerJob)
        → s.queue ≡ queue
        → s.senders ≡ senders
        → (t : Dispatch) × Work s t
    go (job ∷ rest) senders q _ = (_, take_job [] back job rest e q)
    go [] (job ∷ rest) q w = (_, enqueue [] rest job w open_ (omega (arith, ap length q, room)))
    go [] [] q w = absurd (omega (arith, ap length q, ap length w, jobs))

-- While the queue of a started pool is open and a job is pending, some goroutine or caller can go on.
progress :
    {n capacity : ℕ} {s : Dispatch}
    → Reach (suc n) capacity s
    → 0 < capacity
    → s.closed ≡ false
    → 0 < pending s
    → (t : Dispatch) × Work s t
progress {n} {capacity} {s} r room open_ jobs = elim (Busy-cases s.loops) [
  | inl (front, back, loop, e, h) ↦ busy_works s front back loop e h
  | inr idle ↦
      let (alive, some_loop) = Reach-IsManned r open_ in
      let (back, e) = first_waits s.loops alive some_loop idle in
      idle_works s back e open_ (omega (arith, (Reach-InOrder r).made, room))
        (omega (arith, jobs, idle))
]

pub data Works : Dispatch → Dispatch → Type 0 where
  here : {s : Dispatch} → Works s s
  more : {s t u : Dispatch} → Work s t → Works t u → Works s u

-- Nothing pending: no job is held by a goroutine.
idle_holds : (i : ℕ) (l : List Loop) → total effort l ≡ 0 → total (is_held i) l ≡ 0
idle_holds i [] h = refl
idle_holds i (waiting ∷ l) h = omega (arith, idle_holds i l)
idle_holds i (returned ∷ l) h = omega (arith, idle_holds i l)
idle_holds i (serving job ∷ l) h = absurd (omega arith)
idle_holds i (answering job result ∷ l) h = absurd (omega arith)

empty_counts : (i : ℕ) (jobs : List WorkerJob) → length jobs ≡ 0 → total (is_job i) jobs ≡ 0
empty_counts i [] h = refl
empty_counts i (job ∷ jobs) h = absurd (omega arith)

quiet_answered :
    {n capacity : ℕ} {s : Dispatch}
    → Reach n capacity s
    → pending s ≡ 0
    → (i : ℕ) → i < s.next_res
    → total (is_answer i) s.answered ≡ 1
quiet_answered {n} {capacity} {s} r quiet i sent = omega (
  arith,
  Reach-Once i r,
  ap {B = ℕ} (λ (b : Bool). if b then 1 else 0) (lt→ltb i s.next_res sent),
  empty_counts i s.senders (omega arith),
  empty_counts i s.queue (omega arith),
  idle_holds i s.loops (omega arith),
)

Work-closed : {s t : Dispatch} → Work s t → t.closed ≡ s.closed
Work-closed (enqueue front back job e open_ room) = refl
Work-closed (take_job front back job rest e q) = refl
Work-closed (finish front back job result restarts e few) = refl
Work-closed (deliver front back job result e) = refl

Work-crashed : {s t : Dispatch} → Work s t → t.crashed ≡ s.crashed
Work-crashed (enqueue front back job e open_ room) = refl
Work-crashed (take_job front back job rest e q) = refl
Work-crashed (finish front back job result restarts e few) = refl
Work-crashed (deliver front back job result e) = refl

answers :
    (fuel : ℕ) {n capacity : ℕ} {s : Dispatch}
    → Reach (suc n) capacity s
    → 0 < capacity
    → s.closed ≡ false
    → s.crashed ≡ false
    → pending s < fuel
    → (t : Dispatch) × Works s t × ((i : ℕ) → i < s.next_res → total (is_answer i) t.answered ≡ 1)
answers zero r room open_ alive h = absurd (omega arith)
answers (suc fuel) {n} {capacity} {s} r room open_ alive h = elim (dec_lt 0 (pending s)) [
  | no quiet ↦ (s, here, quiet_answered r (omega arith))
  | yes jobs ↦
      let (t, w) = progress r room open_ jobs in
      let (u, ws, done) =
        answers fuel (later r alive (work w)) room (Work-closed w ∙ open_) (Work-crashed w ∙ alive)
          (omega (arith, Work-pending w)) in
      (u, more w ws, λ i sent. done i (subst (λ k. i < k) (sym (Work-next_res w)) sent))
]

-- From every reachable state of a pool with workers, as long as its queue is open and nothing has
-- panicked, the goroutines and the callers that wait can go on until every job that was sent has
-- been answered, exactly once.
pub Reach-answers :
    {n capacity : ℕ} {s : Dispatch}
    → Reach (suc n) capacity s
    → 0 < capacity
    → s.closed ≡ false
    → s.crashed ≡ false
    → (t : Dispatch) × Works s t × ((i : ℕ) → i < s.next_res → total (is_answer i) t.answered ≡ 1)
Reach-answers {s} r room open_ alive = answers (suc (pending s)) r room open_ alive (omega arith)
