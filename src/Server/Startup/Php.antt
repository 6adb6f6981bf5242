-- ===== src/Server/Startup/Php.antt =====
-- The pools that main starts: mustExist and Start.
use core_runner.Common.{
  ℕ, ◌*◌, ◌≡◌, refl, List, [], ◌∷◌, ◌++◌, Bytes, Outcome, ok, err, panic, Run, next, length, ◌⊎◌,
  inl, inr,
}
use core_runner.Common.Ensures.{Ensures}
use core_runner.Common.Maps.{bytes_eq}
use core_runner.Worker.Process.{Launch}
use core_runner.Worker.Pool.{Pool, new_pool, opened, start_pool}
use core_runner.Worker.Pool.Lifecycle.{Adds, Fewer, start_pool_outcome}
use core_runner.Http.Static.{Stat, found, not_exist, other_error}
use core_runner.Server.{must_exist}
use core_runner.Server.Startup.{Flags, World, Program, php, check_exit, keep_running, start_php}

abbrev pub HasFailed {ℓ} : {A : Type ℓ} → Outcome A → Type 0
HasFailed (ok a) = ⊥
HasFailed (err e) = Unit
HasFailed (panic x) = Unit

module _ {W V : Type 0} (flags : Flags) (world : World W V) where
  -- The file is missing, or a worker of it does not start.
  abbrev pub CannotRun : Bytes → List (Launch W) → Type 0
  CannotRun exe launches =
      (world.stat exe ≡ not_exist) ⊎ HasFailed (start_pool launches (php exe) world.env new_pool).0

  -- A pool of `n` workers, all of which run the file in a process of one of the launches.
  abbrev pub Runs : Bytes → List (Launch W) → ℕ → Pool W → Type 0
  Runs exe launches n wrks = Adds (php exe) world.env launches (opened (n * 512)) n wrks

  start_pool-Runs :
      (exe : Bytes) (launches : List (Launch W))
      → Ensures
          (λ u wrks. Runs exe launches (length launches) wrks)
          (λ wrks. Unit {0})
          (start_pool launches (php exe) world.env new_pool)
  unfolding new_pool
  start_pool-Runs exe launches = elim (start_pool_outcome (php exe) world.env launches new_pool) [
    | inl (_, _, h) ↦ go (start_pool launches (php exe) world.env new_pool) h
    | inr (some_workers, _) ↦ absurd (some_workers refl)
  ]
    where
      go :
          (r : Outcome (Unit {0}) × Pool W)
          → Ensures
              (λ u wrks. Runs exe launches (length launches) wrks)
              (Fewer
                (php exe)
                world.env
                launches
                (opened (length launches * 512))
                (length launches))
              r
          → Ensures (λ u wrks. Runs exe launches (length launches) wrks) (λ wrks. Unit {0}) r
      go (ok u, wrks) h = h
      go (err e, wrks) h = tt
      go (panic x, wrks) h = tt

  module _ (Q : Program W V → Type 0) (E : Program W V → Type 0) where
    abbrev pub After : Outcome (Unit {0}) × Program W V → Type 0
    After = Ensures (λ u p. Q p) E

    -- start_php, and what is done with the pool.
    pub start_php-After :
        (exe : Bytes) (launches : List (Launch W)) (k : Pool W → Run (Program W V) (Unit {0}))
        (p : Program W V)
        → ((wrks : Pool W)
            → Runs exe launches (length launches) wrks
            → After (k wrks (record p { running = p.running ++ wrks ∷ [] })))
        → (CannotRun exe launches → (wrks : List (Pool W)) → E (record p { running = wrks }))
        → After (next (start_php world exe launches p) k)
    unfolding start_php
    start_php-After exe launches k p good bad = at (world.stat exe) refl
      where
        kept :
            (r : Outcome (Unit {0}) × Pool W)
            → r ≡ start_pool launches (php exe) world.env new_pool
            → Ensures (λ u wrks. Runs exe launches (length launches) wrks) (λ wrks. Unit {0}) r
            → After (next (keep_running r p) k)
        kept (ok u, wrks) e h = good wrks h
        kept (err x, wrks) e h = bad (inr (rw (← e) tt)) (p.running ++ wrks ∷ [])
        kept (panic x, wrks) e h = bad (inr (rw (← e) tt)) (p.running ++ wrks ∷ [])

        go : After (next (keep_running (start_pool launches (php exe) world.env new_pool) p) k)
        go = kept _ refl (start_pool-Runs exe launches)

        at :
            (s : Stat)
            → world.stat exe ≡ s
            → After (
                next
                  (next
                    (check_exit (must_exist s) p)
                    (λ u. keep_running (start_pool launches (php exe) world.env new_pool)))
                  k)
        at (found mode) e = unfold must_exist in go
        at not_exist e = unfold must_exist in bad (inl e) p.running
        at (other_error x) e = unfold must_exist in go
