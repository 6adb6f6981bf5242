-- ===== src/Worker/Pool/Queue/Progress.antt =====
-- The queue keeps its bound and its order, and work goes on until every job is answered.
use core_runner.Common.{
  ℕ, ◌+◌, ◌*◌, ◌≤◌, ◌<◌, ◌≡◌, refl, sym, ap, ◌∙◌, [], ◌∷◌, ◌++◌, length, replicate, arith,
  append_assoc, length-append,
}
use core_runner.Worker.Pool.Queue.{
  Loop, waiting, serving, answering, returned, Dispatch, Work, enqueue, take_job, finish, deliver,
  Step, work, send, close_queue, close_again, send_panics, serve_panics, leave, Reach, start, later,
}
use core_runner.Worker.Pool.Queue.Places.{total, total-append, total-replicate, total_at}

-- The buffer holds what entered and was not taken, in that order, and is within its capacity.
pub record InOrder (capacity : ℕ) (s : Dispatch) : Type 0 where
  pub order : s.entered ≡ s.taken ++ s.queue
  pub bound : length s.queue ≤ s.capacity
  pub made : s.capacity ≡ capacity

Work-InOrder : {capacity : ℕ} {s t : Dispatch} → Work s t → InOrder capacity s → InOrder capacity t
Work-InOrder {s} (enqueue front back job e open_ room) inv = record {
  order = rw inv.order (append_assoc s.taken s.queue (job ∷ []));
  bound = omega (arith, length-append s.queue (job ∷ []));
  made = inv.made;
}
Work-InOrder {s} (take_job front back job rest e q) inv = record {
  order = inv.order ∙ ap (λ l. s.taken ++ l) q ∙ sym (append_assoc s.taken (job ∷ []) rest);
  bound = omega (arith, ap length q, inv.bound);
  made = inv.made;
}
Work-InOrder (finish front back job result restarts e few) inv = record {
  order = inv.order;
  bound = inv.bound;
  made = inv.made;
}
Work-InOrder (deliver front back job result e) inv = record {
  order = inv.order;
  bound = inv.bound;
  made = inv.made;
}

Step-InOrder : {capacity : ℕ} {s t : Dispatch} → Step s t → InOrder capacity s → InOrder capacity t
Step-InOrder (work w) inv = Work-InOrder w inv
Step-InOrder (send job_bytes timeout) inv = record {
  order = inv.order;
  bound = inv.bound;
  made = inv.made;
}
Step-InOrder (close_queue open_) inv = record {
  order = inv.order;
  bound = inv.bound;
  made = inv.made;
}
Step-InOrder (close_again shut) inv = record {
  order = inv.order;
  bound = inv.bound;
  made = inv.made;
}
Step-InOrder (send_panics front back job e shut) inv = record {
  order = inv.order;
  bound = inv.bound;
  made = inv.made;
}
Step-InOrder (serve_panics front back job e) inv = record {
  order = inv.order;
  bound = inv.bound;
  made = inv.made;
}
Step-InOrder (leave front back e q shut) inv = record {
  order = inv.order;
  bound = inv.bound;
  made = inv.made;
}

-- In every reachable state the jobs have left the queue in the order in which they entered it, and
-- no more of them are in it than the capacity that it was made with.
pub Reach-InOrder : {n capacity : ℕ} {s : Dispatch} → Reach n capacity s → InOrder capacity s
Reach-InOrder start = record { order = refl; bound = omega arith; made = refl }
Reach-InOrder (later r alive st) = Step-InOrder st (Reach-InOrder r)

-- The steps that a goroutine's job still needs.
abbrev pub effort : Loop → ℕ
effort waiting = 0
effort (serving job) = 2
effort (answering job result) = 1
effort returned = 0

abbrev pub pending : Dispatch → ℕ
pending s = length s.senders * 4 + length s.queue * 3 + total effort s.loops

-- Every step of work brings the end nearer, so that no run of them goes on for ever.
pub Work-pending : {s t : Dispatch} → Work s t → pending t < pending s
Work-pending {s} (enqueue front back job e open_ room) = omega (
  arith,
  ap length e,
  length-append front (job ∷ back),
  length-append front back,
  length-append s.queue (job ∷ []),
)
Work-pending (take_job front back job rest e q) = omega (
  arith,
  total_at effort front back waiting e,
  total-append effort front (serving job ∷ back),
  ap length q,
)
Work-pending (finish front back job result restarts e few) = omega (
  arith,
  total_at effort front back (serving job) e,
  total-append effort (front ++ answering job result ∷ back) (replicate restarts waiting),
  total-append effort front (answering job result ∷ back),
  total-replicate effort restarts waiting refl,
)
Work-pending (deliver front back job result e) = omega (
  arith,
  total_at effort front back (answering job result) e,
  total-append effort front (waiting ∷ back),
)
