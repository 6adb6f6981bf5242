-- ===== src/Worker/Pool/Success.antt =====
-- worker.go, Pool.Start: when it returns no error.
use core_runner.Common.{
  Option, none, some, List, [], ◌∷◌, Bytes, Outcome, ok, err, panic, Error, next, pure, All, ◌↔◌,
  inl, inr, ◌++◌, ◌>>=◌,
}
use core_runner.Common.Maps.{or_else}
use core_runner.Worker.Process.{Worker, Launch, new_worker, start}
use core_runner.Worker.Process.Lifecycle.{Starts, IsOk, start_outcome}
use core_runner.Worker.Pool.{Pool, add_worker, start_workers, return_error}

module _ {W : Type 0} where
  -- Neither an error of a worker nor a panic.
  abbrev pub IsFine : Outcome (Option Error) × Pool W → Type 0
  IsFine (ok none, p) = Unit
  IsFine (ok (some e), p) = ⊥
  IsFine (err e, p) = ⊥
  IsFine (panic x, p) = ⊥

  IsFine-on :
      (r : Outcome (Option Error) × Pool W)
      → IsFine (next r (λ werr. pure (or_else werr none))) ↔ IsFine r
  IsFine-on (ok none, p) = (λ h. h, λ h. h)
  IsFine-on (ok (some e), p) = (λ h. h, λ h. h)
  IsFine-on (err e, p) = (λ h. h, λ h. h)
  IsFine-on (panic x, p) = (λ h. h, λ h. h)

  IsFine-never :
      (r : Outcome (Option Error) × Pool W) (e : Error)
      → IsFine (next r (λ werr. pure (or_else werr (some e))))
      → ⊥
  IsFine-never (ok none, p) e h = h
  IsFine-never (ok (some x), p) e h = h
  IsFine-never (err x, p) e h = h
  IsFine-never (panic x, p) e h = h

  pub return_error-IsOk :
      (r : Outcome (Option Error) × Pool W) → IsOk (next r return_error).0 ↔ IsFine r
  return_error-IsOk (ok none, p) = (λ h. h, λ h. h)
  return_error-IsOk (ok (some e), p) = (λ h. h, λ h. h)
  return_error-IsOk (err e, p) = (λ h. h, λ h. h)
  return_error-IsOk (panic x, p) = (λ h. h, λ h. h)

  module _ (argv env : List Bytes) where
    start-Starts : (l : Launch W) → IsOk (start l argv env new_worker).0 ↔ Starts l argv
    unfolding new_worker
    start-Starts l = elim (start_outcome l argv env new_worker) [
      | inl (_, h, _) ↦ h
      | inr (pid, e, _) ↦ absurd (cc)
    ]

    -- The goroutines come to their end without an error exactly if every launch can start.
    pub start_workers-IsFine :
        (launches : List (Launch W)) (p : Pool W)
        → IsFine (start_workers launches argv env p) ↔ All (λ l. Starts l argv) launches
    unfolding start_workers add_worker
    start_workers-IsFine [] p = (λ h. tt, λ h. tt)
    start_workers-IsFine (l ∷ ls) p =
        go (start l argv env new_worker) (start-Starts l) (λ p'. start_workers-IsFine ls p')
      where
        go :
            (r : Outcome (Unit {0}) × Worker W)
            → (IsOk r.0 ↔ Starts l argv)
            → ((p' : Pool W) → IsFine (start_workers ls argv env p') ↔ All (λ l. Starts l argv) ls)
            → IsFine (
                next
                  (add_worker r p)
                  (λ e. do werr ← start_workers ls argv env; pure (or_else werr e)))
              ↔ All (λ l. Starts l argv) (l ∷ ls)
        go (ok u, w) first rest =
            let p' : Pool W = record p { pool = p.pool ++ w ∷ [] } in
            let r' = start_workers ls argv env p' in
            (
              λ h. (first.0 tt, (rest p').0 ((IsFine-on r').0 h)),
              λ (starts : Starts l argv × All (λ l. Starts l argv) ls).
                  (IsFine-on r').1 ((rest p').1 starts.1),
            )
        go (err e, w) first rest = (
          λ h. absurd (IsFine-never (start_workers ls argv env p) e h),
          λ (starts : Starts l argv × All (λ l. Starts l argv) ls). absurd (first.1 starts.0),
        )
        go (panic x, w) first rest = (
          λ h. absurd h,
          λ (starts : Starts l argv × All (λ l. Starts l argv) ls). absurd (first.1 starts.0),
        )
