-- ===== src/Worker/Process.antt =====
-- worker.go, type Worker: a process, its pipes, and the calls that start, stop and use it. What the
-- operating system answers to a call is an argument of the model: the errors of the calls, the PID
-- and the output of a started process, and whether a timer fires first. The mutex, which only
-- orders the calls, and the log are left out; the calls of one worker are a sequence.
pub mod Lifecycle
pub mod TimedSend
pub mod Exchange
use core_runner.Common.{
  ℕ, suc, ◌+◌, ◌-◌, Bool, true, false, ◌&&◌, Option, none, some, List, [], ◌∷◌, ◌++◌, Bytes, codes,
  Outcome, ok, err, panic, Error, text, worker_timed_out, index_range, nil_dereference, Run, next,
  pure, ◌>>=◌, ◌>>◌, if◌then◌else◌, not,
}
use core_runner.Common.Maps.{◌==◌, bytes_eq}
use core_runner.Common.Sink.{Write, if_nil}
use core_runner.Worker.Pipe.{newline}
use core_runner.Worker.Pipe.Read.{read_string, read_frame}
use core_runner.Worker.Pipe.Write.{write_frame}

-- A call on the process with the PID that the system carried out.
pub data ProcessCall : Type 0 where
  sigkill : ℕ → ProcessCall
  waited_for : ℕ → ProcessCall

-- `W` is the state of the bufio.Writer on the process's input. `read` is what the process still
-- writes before it closes its output, and `cmd` is the PID. A nil field is `none`.
-- `loops` counts the goroutines that run jobLoop for the worker: no field of the source, but what
-- `go wrk.jobLoop()` leaves behind. `calls` are the signals that were sent to its processes and the
-- waits for their end, in order: no field either, but what the system has done for the worker.
pub record Worker (W : Type 0) : Type 0 where
  pub cmd : Option ℕ
  pub read : Option Bytes
  pub write : Option W
  pub argv : List Bytes
  pub env : List Bytes
  pub loops : ℕ
  pub calls : List ProcessCall

-- What cmd.Wait answers: its error, and, since it closes both pipes, what a reader of the output
-- then still has in its buffer and the state of the writer on the closed input.
pub record Waited (W : Type 0) : Type 0 where
  pub error : Option Error
  pub read_left : Bytes
  pub write_left : W

-- The answers to one call of Start.
pub record Launch (W : Type 0) : Type 0 where
  pub stdout_pipe : Option Error
  pub stdin_pipe : Option Error
  pub stderr_pipe : Option Error
  pub start : Option Error
  pub pid : ℕ
  pub input : W
  pub output : Bytes

abbrev pub is_some {ℓ} : {A : Type ℓ} → Option A → Bool
is_some none = false
is_some (some a) = true

-- What a field of a pipe holds once the pipe is closed: nil stays nil.
abbrev pub left_in : {A : Type 0} → Option A → A → Option A
left_in none left = none
left_in (some a) left = some left

-- &Worker{queue: queue}
unfoldable pub new_worker : {W : Type 0} → Worker W
new_worker = record {
  cmd = none;
  read = none;
  write = none;
  argv = [];
  env = [];
  loops = 0;
  calls = [];
}

abbrev pub already_started : Error
already_started = text (codes "already started")

abbrev pub not_running : Error
not_running = text (codes "Worker is not running")

-- io.ReadAll
abbrev pub read_all : Run Bytes Bytes
read_all r = (ok r, [])

module _ {W : Type 0} where
  abbrev pub fail {ℓ} : {A : Type ℓ} → Error → Run (Worker W) A
  fail e w = (err e, w)

  -- `if err != nil { return err }`
  abbrev pub check : Option Error → Run (Worker W) (Unit {0})
  check none w = (ok tt, w)
  check (some e) w = (err e, w)

  abbrev pub modify : (Worker W → Worker W) → Run (Worker W) (Unit {0})
  modify f w = (ok tt, f w)

  -- argv[0]
  abbrev pub command : List Bytes → Run (Worker W) (Unit {0})
  command [] w = (panic index_range, w)
  command (exe ∷ args) w = (ok tt, w)

  abbrev pub with_output {ℓ} : {A : Type ℓ} → Worker W → Outcome A × Bytes → Outcome A × Worker W
  with_output w (o, r) = (o, record w { read = some r })

  -- A read from `wrk.read`, which is not nil there.
  abbrev pub from_output {ℓ} : {A : Type ℓ} → Run Bytes A → Run (Worker W) A
  from_output p w = elim w.read [ none ↦ (panic nil_dereference, w) | some r ↦ with_output w (p r) ]

  -- `if string(ok) != "ok\n"`
  unfoldable pub greet : Bytes → Run (Worker W) (Unit {0})
  greet line =
      if line == codes "ok\n" then pure tt else (do msg ← from_output read_all; fail (text msg))

  -- Start, behind the test of `wrk.cmd`.
  unfoldable pub launch : Launch W → List Bytes → List Bytes → Run (Worker W) (Unit {0})
  launch l argv env = do
    modify (λ w. record w { argv = argv; env = env })
    command argv
    check l.stdout_pipe
    modify (λ w. record w { read = some l.output })
    check l.stdin_pipe
    modify (λ w. record w { write = some l.input })
    check l.stderr_pipe
    check l.start
    line ← from_output (read_string newline)
    greet line
    modify (λ w. record w { cmd = some l.pid })
    modify (λ w. record w { loops = suc w.loops })

  unfoldable pub start : Launch W → List Bytes → List Bytes → Run (Worker W) (Unit {0})
  start l argv env w = if is_some w.cmd then (err already_started, w) else launch l argv env w

  unfoldable pub reset : Worker W → Worker W
  reset w = record w { cmd = none; write = none; read = none }

  abbrev pub with_input : Worker W → W × Option Error → Outcome (Unit {0}) × Worker W
  with_input w (i, none) = (ok tt, record w { write = some i })
  with_input w (i, some e) = (err e, record w { write = some i })

  -- A write to `wrk.write`, which is not nil there.
  abbrev pub to_input : Write W → Run (Worker W) (Unit {0})
  to_input m w = elim w.write [ none ↦ (panic nil_dereference, w) | some i ↦ with_input w (m i) ]

  -- A call on the process that the system carries out.
  abbrev pub call : ProcessCall → Run (Worker W) (Unit {0})
  call c w = (ok tt, record w { calls = w.calls ++ c ∷ [] })

  -- cmd.Wait
  unfoldable pub cmd_wait : Waited W → ℕ → Run (Worker W) (Unit {0})
  cmd_wait waited pid = do
    call (waited_for pid)
    modify (λ w. record w {
      read = left_in w.read waited.read_left;
      write = left_in w.write waited.write_left;
    })
    check waited.error

  -- What is done with `wrk.cmd`, which is not nil there.
  abbrev pub if_running : Option ℕ → (ℕ → Run (Worker W) (Unit {0})) → Run (Worker W) (Unit {0})
  if_running none f w = (err not_running, w)
  if_running (some pid) f w = f pid w

  -- Wait, with the answer of cmd.Wait.
  unfoldable pub wait : Waited W → Run (Worker W) (Unit {0})
  wait waited w = if_running w.cmd (λ pid. do cmd_wait waited pid; modify reset) w

  -- Kill, with the answers of Process.Kill and Process.Wait.
  unfoldable pub kill : Option Error → Option Error → Run (Worker W) (Unit {0})
  kill killed waited w =
      if_running w.cmd
        (λ pid. do
          check killed
          call (sigkill pid)
          check waited
          call (waited_for pid)
          modify reset)
        w

  -- Restart's end of the old process, with the answer of Process.Kill. The error of cmd.Wait is only
  -- logged, and the pipes that it closes are dropped by the reset behind it.
  unfoldable pub end_process : Option Error → Bool → Option ℕ → Run (Worker W) (Unit {0})
  end_process killed is_kill none = pure tt
  end_process killed is_kill (some pid) = do
    if is_kill then (do check killed; call (sigkill pid)) else pure tt
    call (waited_for pid)

  -- Restart, with the answers of Process.Kill and of Start.
  unfoldable pub restart : Option Error → Launch W → Bool → Run (Worker W) (Unit {0})
  restart killed l is_kill w =
      (do end_process killed is_kill w.cmd; modify reset; start l w.argv w.env) w

module _ {W : Type 0} (write : Bytes → Write W) (flush : Write W) where
  -- Stop, with the answer of cmd.Wait.
  unfoldable pub stop : Waited W → Run (Worker W) (Unit {0})
  stop waited w =
      if_running w.cmd
        (λ pid. do
          to_input (write (newline ∷ []))
          to_input flush
          cmd_wait waited pid
          modify reset)
        w

  unfoldable pub write_msg : Bytes → Run (Worker W) (Unit {0})
  write_msg s w =
      if is_some w.write
      then to_input (write_frame write flush s) w
      else (err (text (codes "write pipe is not started")), w)

  unfoldable pub read_msg : Run (Worker W) Bytes
  read_msg w =
      if is_some w.read
      then from_output read_frame w
      else (err (text (codes "read pipe is not started")), w)

  unfoldable pub send : Bytes → Run (Worker W) Bytes
  send s = do write_msg s; read_msg
