-- ===== src/Server/Startup.antt =====
-- main of cmd/server/main.go: from the flags to the program that serves. What the system answers on
-- the way is the argument `world`; log.Fatal is an error, at which nothing that was started before is
-- stopped, since a deferred call does not run then.
pub mod Php
pub mod Parts
pub mod Listening
pub mod Serving
use core_runner.Common.{
  ℕ, zero, suc, Bool, true, false, not, ◌&&◌, Option, none, some, List, [], ◌∷◌, ◌++◌, Bytes, codes,
  Outcome, ok, err, panic, Error, text, nil_dereference, Run, next, pure, ◌>>=◌, ◌>>◌,
  if◌then◌else◌,
}
use core_runner.Common.Decimal.{ℤ, pos, negsuc}
use core_runner.Common.Maps.{◌==◌, bytes_eq}
use core_runner.Common.Sink.{Write}
use core_runner.Redis.Client.{Connection, Buffering, Dial}
use core_runner.Worker.Process.{Launch}
use core_runner.Worker.Pool.{Pool, new_pool, start_pool}
use core_runner.Http.Static.{Stat, StaticHandler}
use core_runner.Http.Worker.{WorkerHandler, Ending, returned, exited, panicked}
use core_runner.Server.{must_exist, start_listener}
use core_runner.Server.Chain.{new_front, new_back}

pub record Flags : Type 0 where
  pub http_exe : Bytes
  pub wrks_num : ℤ
  pub addr : Bytes
  pub static : Bytes
  pub max_age : ℤ
  pub cors : Bool
  pub jobs_exe : Bytes
  pub rpc_addr : Bytes
  pub redis_addr : Bytes

-- How far main has come since it started the goroutine of startRPC.
pub data Stage : Type 0 where
  after_rpc after_http after_redis : Stage

-- os.Environ, os.Stat, the start of each process by its number, and the network. `rpc_listen` is the
-- error of Listen in startRPC, if it has come by the stage: the goroutine runs beside main.
pub record World (W V : Type 0) : Type 0 where
  pub env : List Bytes
  pub stat : Bytes → Stat
  pub jobs_launch : ℕ → Launch W
  pub http_launch : ℕ → Launch W
  pub rpc_listen : Stage → Option Error
  pub resolves : Bool
  pub dial : Dial V

-- The handlers of "/", with their workers.
pub record Site (W : Type 0) : Type 0 where
  pub workers : Pool W
  pub front : StaticHandler
  pub back : WorkerHandler

-- `running` are the pools on which Start was called, `jobs_pool` the variable of that name, `rpc` the
-- address of the goroutine in startRPC, and `listening` the address of ListenAndServe.
pub record Program (W V : Type 0) : Type 0 where
  pub running : List (Pool W)
  pub jobs_pool : Option (Pool W)
  pub rpc : Option Bytes
  pub site : Option (Site W)
  pub listener : Option (Connection V)
  pub listening : Option Bytes

-- The program before main.
unfoldable pub fresh : {W V : Type 0} → Program W V
fresh = record {
  running = [];
  jobs_pool = none;
  rpc = none;
  site = none;
  listener = none;
  listening = none;
}

-- `f 0` to `f (n - 1)`
unfoldable pub tabulate : {A : Type 0} → ℕ → (ℕ → A) → List A
tabulate zero f = []
tabulate (suc n) f = f 0 ∷ tabulate n (λ i. f (suc i))

abbrev pub php : Bytes → List Bytes
php exe = codes "php" ∷ exe ∷ []

abbrev pub is_set : Bytes → Bool
is_set flag = not (flag == [])

-- The workers of `*wrksNum > 0`.
abbrev pub count : ℤ → ℕ
count (pos n) = n
count (negsuc n) = 0

-- What log.Fatal ends with: a line in the log and the exit status 1.
abbrev pub fatal : Error
fatal = text (codes "exit status 1")

-- Listen of startRPC
unfoldable pub listen_rpc : Option Error → Ending
listen_rpc none = returned
listen_rpc (some e) = exited

module _ {W V : Type 0} where
  abbrev pub modify : (Program W V → Program W V) → Run (Program W V) (Unit {0})
  modify f p = (ok tt, f p)

  abbrev pub check_exit : Ending → Run (Program W V) (Unit {0})
  check_exit returned p = (ok tt, p)
  check_exit exited p = (err fatal, p)
  check_exit (panicked x) p = (panic x, p)

  -- The pool runs what it has started, also after an error.
  abbrev pub keep_running : Outcome (Unit {0}) × Pool W → Run (Program W V) (Pool W)
  keep_running (ok u, wrks) p = (ok wrks, record p { running = p.running ++ wrks ∷ [] })
  keep_running (err e, wrks) p = (err e, record p { running = p.running ++ wrks ∷ [] })
  keep_running (panic x, wrks) p = (panic x, record p { running = p.running ++ wrks ∷ [] })

  abbrev pub keep_listener : Outcome (Connection V) → Run (Program W V) (Unit {0})
  keep_listener (ok c) p = (ok tt, record p { listener = some c })
  keep_listener (err e) p = (err e, p)
  keep_listener (panic x) p = (panic x, p)

  -- mustExist, and Start of a new pool.
  unfoldable pub start_php : World W V → Bytes → List (Launch W) → Run (Program W V) (Pool W)
  start_php world exe launches = do
    check_exit (must_exist (world.stat exe))
    keep_running (start_pool launches (php exe) world.env new_pool)

  unfoldable pub start_jobs : Flags → World W V → Run (Program W V) (Unit {0})
  start_jobs flags world = do
    wrks ← start_php world flags.jobs_exe (tabulate 2 world.jobs_launch)
    modify (λ p. record p { jobs_pool = some wrks })

  unfoldable pub start_rpc_part : Flags → World W V → Run (Program W V) (Unit {0})
  start_rpc_part flags world =
      if is_set flags.rpc_addr
      then (do
        if is_set flags.jobs_exe then start_jobs flags world else pure tt
        modify (λ p. record p { rpc = some flags.rpc_addr }))
      else pure tt

  unfoldable pub start_site : Flags → World W V → ℕ → Run (Program W V) (Unit {0})
  start_site flags world n = do
    wrks ← start_php world flags.http_exe (tabulate n world.http_launch)
    modify (λ p. record p {
      site = some (record {
        workers = wrks;
        front = new_front flags.static flags.max_age flags.cors;
        back = new_back flags.cors n;
      });
    })

  -- A number of workers below one starts none.
  unfoldable pub start_http_part : Flags → World W V → ℕ → Run (Program W V) (Unit {0})
  start_http_part flags world zero = pure tt
  start_http_part flags world (suc n) =
      if is_set flags.http_exe then start_site flags world (suc n) else pure tt

  unfoldable pub start_redis_part :
      (Bytes → Write V) → Buffering → Flags → World W V → Run (Program W V) (Unit {0})
  start_redis_part put b flags world =
      if is_set flags.redis_addr
      then keep_listener (start_listener put b flags.redis_addr world.resolves world.dial)
      else pure tt

  -- log.Fatal of startRPC ends the program wherever main is; it is looked for at each stage.
  unfoldable pub watch_rpc : Flags → World W V → Stage → Run (Program W V) (Unit {0})
  watch_rpc flags world stage =
      if is_set flags.rpc_addr then check_exit (listen_rpc (world.rpc_listen stage)) else pure tt

  -- main, up to the call of ListenAndServe.
  unfoldable pub main :
      (Bytes → Write V) → Buffering → Flags → World W V → Run (Program W V) (Unit {0})
  main put b flags world = do
    start_rpc_part flags world
    watch_rpc flags world after_rpc
    start_http_part flags world (count flags.wrks_num)
    watch_rpc flags world after_http
    start_redis_part put b flags world
    watch_rpc flags world after_redis
    modify (λ p. record p { listening = some flags.addr })

-- A round of startRPC with what Accept answers: after an error the goroutine works on a nil
-- connection.
unfoldable pub accept_round : Option Error → Outcome (Unit {0})
accept_round none = ok tt
accept_round (some e) = panic nil_dereference
