-- ===== src/Worker/Pool.antt =====
-- worker.go, type Pool: its start and its stop. The queue of the jobs is in the child modules.
pub mod Lifecycle
pub mod Success
pub mod Queue
use core_runner.Common.{
  ℕ, ◌*◌, Bool, true, false, Option, none, some, List, [], ◌∷◌, ◌++◌, Bytes, Outcome, ok, err,
  panic, Error, closed_channel, nil_channel, Run, next, pure, ◌>>=◌, ◌>>◌, length, if◌then◌else◌,
}
use core_runner.Common.Maps.{or_else}
use core_runner.Common.Maps.Fetch.{is_nil}
use core_runner.Common.Sink.{Write}
use core_runner.Worker.Process.{Worker, Launch, Waited, new_worker, start, stop, already_started}

-- A channel of jobs: nil, made with a capacity, or closed.
pub data Channel : Type 0 where
  unmade : Channel
  opened : ℕ → Channel
  shut : Channel

pub record Pool (W : Type 0) : Type 0 where
  pub pool : List (Worker W)
  pub queue : Channel

-- &Pool{}
unfoldable pub new_pool : {W : Type 0} → Pool W
new_pool = record { pool = []; queue = unmade }

module _ {W : Type 0} where
  -- What a goroutine of Start does with the result of its worker's Start; a panic ends the process.
  unfoldable pub add_worker : Outcome (Unit {0}) × Worker W → Run (Pool W) (Option Error)
  add_worker (ok u, w) p = (ok none, record p { pool = p.pool ++ w ∷ [] })
  add_worker (err e, w) p = (ok (some e), p)
  add_worker (panic x, w) p = (panic x, p)

  -- The goroutines of Start, in the order in which they end; `werr` keeps the last error.
  unfoldable pub start_workers :
      List (Launch W) → List Bytes → List Bytes → Run (Pool W) (Option Error)
  start_workers [] argv env = pure none
  start_workers (l ∷ launches) argv env = do
    e ← add_worker (start l argv env new_worker)
    werr ← start_workers launches argv env
    pure (or_else werr e)

  abbrev pub return_error : Option Error → Run (Pool W) (Unit {0})
  return_error none p = (ok tt, p)
  return_error (some e) p = (err e, p)

  -- Start of as many workers as there are launches.
  unfoldable pub start_pool : List (Launch W) → List Bytes → List Bytes → Run (Pool W) (Unit {0})
  start_pool launches argv env p =
      if is_nil p.pool
      then (do werr ← start_workers launches argv env; return_error werr)
          (record p { queue = opened (length launches * 512) })
      else (err already_started, p)

  -- close(p.queue)
  unfoldable pub close_queue : Channel → Run (Pool W) (Unit {0})
  close_queue unmade p = (panic nil_channel, p)
  close_queue (opened capacity) p = (ok tt, record p { queue = shut })
  close_queue shut p = (panic closed_channel, p)

  -- The error of a worker's Stop is not looked at.
  abbrev pub stopped : Outcome (Unit {0}) × Worker W → Run (Pool W) (Unit {0})
  stopped (panic x, w) p = (panic x, p)
  stopped (ok u, w) p = (ok tt, p)
  stopped (err e, w) p = (ok tt, p)

module _ {W : Type 0} (write : Bytes → Write W) (flush : Write W) where
  -- The loop of Stop, with the answer of cmd.Wait for each worker.
  unfoldable pub stop_workers : (Worker W → Waited W) → List (Worker W) → Run (Pool W) (Unit {0})
  stop_workers waited [] = pure tt
  stop_workers waited (w ∷ ws) = do stopped (stop write flush (waited w) w); stop_workers waited ws

  unfoldable pub stop_pool : (Worker W → Waited W) → Run (Pool W) (Unit {0})
  stop_pool waited p =
      (do close_queue p.queue; stop_workers waited p.pool; λ p'. (ok tt, record p' { pool = [] })) p
