-- ===== src/Worker/Process/TimedSend.antt =====
-- worker.go, timedSend and one round of jobLoop: a send against a timer.
use core_runner.Common.{
  ℕ, ◌≡◌, ap, ◌∙◌, Bool, true, false, Option, none, some, [], Bytes, Outcome, ok, err, panic, Error,
  worker_timed_out, nil_dereference, Panic, Run, pure, ◌>>=◌, ◌>>◌, if◌then◌else◌, ◌⊎◌, ◌≢◌,
}
use core_runner.Common.Sink.{Write}
use core_runner.Common.Ensures.{Ensures}
use core_runner.Worker.Process.Lifecycle.{Started}
use core_runner.Worker.Process.{Worker, Launch, restart, send}

pub record WorkerResult : Type 0 where
  pub res : Bytes
  pub err_field : Option Error

-- What happens around one timedSend: whether the timer fires before the answer is there, what the
-- unfinished send leaves of the pipes then, and the answers to the calls of a restart.
pub record Race (W : Type 0) : Type 0 where
  pub timer_first : Bool
  pub read_left : Option Bytes
  pub write_left : Option W
  pub killed : Option Error
  pub relaunch : Launch W

module _ {W : Type 0} where
  -- A call whose error is not looked at.
  abbrev pub ignore_error : Outcome (Unit {0}) × Worker W → Outcome (Unit {0}) × Worker W
  ignore_error (ok u, w) = (ok u, w)
  ignore_error (err e, w) = (ok tt, w)
  ignore_error (panic p, w) = (panic p, w)

  abbrev pub try_restart : Race W → Run (Worker W) (Unit {0})
  try_restart r w = ignore_error (restart r.killed r.relaunch true w)

  -- The answer came first.
  unfoldable pub answered : Race W → Outcome Bytes × Worker W → Outcome WorkerResult × Worker W
  answered r (ok res, w) = (ok (record { res = res; err_field = none }), w)
  answered r (err e, w) = (try_restart r >> pure (record { res = []; err_field = some e })) w
  answered r (panic p, w) = (panic p, w)

  -- wrk.cmd.Process.Pid
  unfoldable pub pid_of : Option ℕ → Run (Worker W) ℕ
  pid_of none w = (panic nil_dereference, w)
  pid_of (some pid) w = (ok pid, w)

  abbrev pub get_pid : Run (Worker W) ℕ
  get_pid w = pid_of w.cmd w

  -- The timer came first.
  unfoldable pub timed_out : Race W → ℕ → Run (Worker W) WorkerResult
  timed_out r timeout = do
    try_restart r
    pid ← get_pid
    pure (record { res = []; err_field = some (worker_timed_out pid timeout) })

module _ {W : Type 0} (write : Bytes → Write W) (flush : Write W) where
  unfoldable pub timed_send : Race W → Bytes → ℕ → Run (Worker W) WorkerResult
  timed_send r s timeout w =
      if r.timer_first
      then timed_out r timeout (record w { read = r.read_left; write = r.write_left })
      else answered r (send write flush s w)

module _ {W : Type 0} where
  abbrev pub ReportsError : Race W → Error → Worker W → Outcome WorkerResult × Worker W → Type 0
  ReportsError r e w (o, w') =
      ((o ≡ ok (record { res = []; err_field = some e }))
        × (Started r.relaunch w.argv w.env w.loops w' ⊎ ((w'.cmd ≡ none) ⊎ (r.killed ≢ none))))
      ⊎ ((w'.cmd ≡ none) × ((p : Panic) × (o ≡ panic p)))

  abbrev pub Reported : Race W → ℕ → Worker W → Outcome WorkerResult × Worker W → Type 0
  Reported r timeout w (o, w') =
      (Started r.relaunch w.argv w.env w.loops w'
        × (o
            ≡ ok (record { res = []; err_field = some (worker_timed_out r.relaunch.pid timeout) })))
      ⊎ ((w'.cmd ≡ none) × ((p : Panic) × (o ≡ panic p)))

module _ {W : Type 0} (write : Bytes → Write W) (flush : Write W) where
  timed_send-answered :
      (r : Race W) (s : Bytes) (timeout : ℕ) (w : Worker W)
      → r.timer_first ≡ false
      → timed_send write flush r s timeout w ≡ answered r (send write flush s w)
  unfolding timed_send
  timed_send-answered r s timeout w answer =
      ap
        (λ (b : Bool).
          if b
          then timed_out r timeout (record w { read = r.read_left; write = r.write_left })
          else answered r (send write flush s w))
        answer

  -- If the answer comes before the timer, it is the result, and the worker is as the send left it.
  pub timed_send_answer :
      (r : Race W) (s : Bytes) (timeout : ℕ) (w w' : Worker W) (res : Bytes)
      → r.timer_first ≡ false
      → send write flush s w ≡ (ok res, w')
      → timed_send write flush r s timeout w ≡ (ok (record { res = res; err_field = none }), w')
  unfolding answered
  timed_send_answer r s timeout w w' res answer sent =
      timed_send-answered r s timeout w answer ∙ ap (answered r) sent
