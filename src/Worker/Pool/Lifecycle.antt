-- ===== src/Worker/Pool/Lifecycle.antt =====
-- What Start and Stop of the pool leave behind.
use core_runner.Common.{
  ℕ, suc, ◌+◌, ◌-◌, ◌*◌, ◌≤◌, ◌<◌, ◌≡◌, refl, subst, Option, none, some, List, [], ◌∷◌, Bytes, ◌↔◌,
  Outcome, ok, err, panic, Error, next, pure, ◌>>=◌, ◌>>◌, length, length-append, All, All-append,
  Has, arith, inl, inr, ◌≢◌, ◌⊎◌,
}
use core_runner.Common.Ensures.{Ensures}
use core_runner.Common.Maps.{or_else}
use core_runner.Common.Sink.{Write}
use core_runner.Worker.Process.{Worker, Launch, new_worker, start, already_started}
use core_runner.Worker.Process.Lifecycle.{Started, Starts, IsOk, start_outcome}
use core_runner.Worker.Pool.Success.{start_workers-IsFine, return_error-IsOk}
use core_runner.Worker.Pool.{
  Channel, opened, Pool, add_worker, start_workers, return_error, start_pool,
}

module _ {W : Type 0} (argv env : List Bytes) (launches : List (Launch W)) where
  -- A worker that one of the launches started from the pool's command, with one goroutine that runs
  -- its jobLoop.
  abbrev pub IsReady : Worker W → Type 0
  IsReady w = (l : Launch W) × Has l launches × Started l argv env 0 w

  -- The pool has `n` workers, all ready.
  abbrev pub Adds : Channel → ℕ → Pool W → Type 0
  Adds q n p = (length p.pool ≡ n) × All IsReady p.pool × (p.queue ≡ q)

  abbrev pub Fewer : Channel → ℕ → Pool W → Type 0
  Fewer q n p = (length p.pool < n) × All IsReady p.pool × (p.queue ≡ q)

  -- One goroutine.
  abbrev OneMore : Channel → ℕ → Option Error → Pool W → Type 0
  OneMore q n none p = Adds q (suc n) p
  OneMore q n (some e) p = Adds q n p

  add_worker-OneMore :
      (q : Channel) (n : ℕ) (l : Launch W) (r : Outcome (Unit {0}) × Worker W) (p : Pool W)
      → Has l launches
      → Ensures (λ _ w. Started l argv env 0 w) (λ w. w.cmd ≡ none) r
      → Adds q n p
      → Ensures (OneMore q n) (Fewer q (suc n)) (add_worker r p)
  unfolding add_worker
  add_worker-OneMore q n l (ok u, w) p one h (size, ready, kept) = (
    omega (arith, length-append p.pool (w ∷ []), size),
    All-append IsReady p.pool (w ∷ []) ready ((l, one, h), tt),
    kept,
  )
  add_worker-OneMore q n l (err e, w) p one h adds = adds
  add_worker-OneMore q n l (panic x, w) p one h (size, ready, kept) =
      (omega (arith, size), ready, kept)

  start-Ensures :
      (l : Launch W)
      → Ensures (λ _ w. Started l argv env 0 w) (λ w. w.cmd ≡ none) (start l argv env new_worker)
  unfolding new_worker
  start-Ensures l = elim (start_outcome l argv env new_worker) [
    | inl (_, _, h) ↦ h
    | inr (pid, e, _) ↦ cc
  ]

  -- All goroutines: either `n` workers are in the pool, or there is an error and there are fewer.
  abbrev Outcomes : Channel → ℕ → Option Error → Pool W → Type 0
  Outcomes q n none p = Adds q n p
  Outcomes q n (some e) p = Fewer q n p

  Ensures-more :
      (q : Channel) (m n : ℕ) (r : Outcome (Option Error) × Pool W)
      → m ≡ n
      → Ensures (Outcomes q m) (Fewer q m) r
      → Ensures (Outcomes q n) (Fewer q n) r
  Ensures-more q m n r e h = subst (λ k. Ensures (Outcomes q k) (Fewer q k) r) e h

  -- The last result, with what the goroutine before gave.
  last_error :
      (q : Channel) (n : ℕ) (e : Option Error) (r : Outcome (Option Error) × Pool W)
      → Ensures (Outcomes q (elim e [ none ↦ n | some x ↦ n - 1 ])) (Fewer q n) r
      → 0 < n
      → Ensures (Outcomes q n) (Fewer q n) (next r (λ werr. pure (or_else werr e)))
  last_error q n none (ok none, p) h pos = h
  last_error q n none (ok (some x), p) h pos = h
  last_error q n none (err x, p) h pos = h
  last_error q n none (panic x, p) h pos = h
  last_error q n (some e) (ok none, p) (size, ready, kept) pos = (omega arith, ready, kept)
  last_error q n (some e) (ok (some x), p) (size, ready, kept) pos = (omega arith, ready, kept)
  last_error q n (some e) (err x, p) h pos = h
  last_error q n (some e) (panic x, p) h pos = h

  weaken-Fewer :
      (q : Channel) (m n k : ℕ) (r : Outcome (Option Error) × Pool W)
      → m ≤ n
      → m ≡ k
      → Ensures (Outcomes q m) (Fewer q m) r
      → Ensures (Outcomes q k) (Fewer q n) r
  weaken-Fewer q m n k (ok werr, p) le e h = subst (λ j. Outcomes q j werr p) e h
  weaken-Fewer q m n k (err x, p) le e (size, ready, kept) = (omega arith, ready, kept)
  weaken-Fewer q m n k (panic x, p) le e (size, ready, kept) = (omega arith, ready, kept)

  start_workers-Ensures :
      (q : Channel) (n : ℕ) (ls : List (Launch W)) (p : Pool W)
      → All (λ l. Has l launches) ls
      → Adds q n p
      → Ensures (Outcomes q (n + length ls)) (Fewer q (n + length ls)) (start_workers ls argv env p)
  unfolding start_workers
  start_workers-Ensures q n [] p among (size, ready, kept) = (omega arith, ready, kept)
  start_workers-Ensures q n (l ∷ ls) p (one, among) adds =
      go (add_worker (start l argv env new_worker) p)
        (add_worker-OneMore q n l (start l argv env new_worker) p one (start-Ensures l) adds)
        (λ k p' h. start_workers-Ensures q k ls p' among h)
    where
      m : ℕ
      m = n + length (l ∷ ls)

      go :
          (r : Outcome (Option Error) × Pool W)
          → Ensures (OneMore q n) (Fewer q (suc n)) r
          → ((k : ℕ) (p' : Pool W)
              → Adds q k p'
              → Ensures
                  (Outcomes q (k + length ls))
                  (Fewer q (k + length ls))
                  (start_workers ls argv env p'))
          → Ensures
              (Outcomes q m)
              (Fewer q m)
              (next r λ e. do werr ← start_workers ls argv env; pure (or_else werr e))
      go (ok none, p') h more =
          last_error q m none (start_workers ls argv env p')
            (weaken-Fewer q (suc n + length ls) m m _ (omega arith) (omega arith)
              (more (suc n) p' h))
            (omega arith)
      go (ok (some e), p') h more =
          last_error q m (some e) (start_workers ls argv env p')
            (weaken-Fewer q (n + length ls) m (m - 1) _ (omega arith) (omega arith) (more n p' h))
            (omega arith)
      go (err x, p') (size, ready, kept) more = (omega arith, ready, kept)
      go (panic x, p') (size, ready, kept) more = (omega arith, ready, kept)

  All-Has :
      (ls : List (Launch W))
      → ((l : Launch W) → Has l ls → Has l launches)
      → All (λ l. Has l launches) ls
  All-Has [] sub = tt
  All-Has (l ∷ ls) sub = (sub l (inl refl), All-Has ls (λ x h. sub x (inr h)))

  return_error-Ensures :
      (q : Channel) (n : ℕ) (r : Outcome (Option Error) × Pool W)
      → Ensures (Outcomes q n) (Fewer q n) r
      → Ensures (λ _ p'. Adds q n p') (Fewer q n) (next r (λ werr. return_error werr))
  return_error-Ensures q n (ok none, p) h = h
  return_error-Ensures q n (ok (some e), p) h = h
  return_error-Ensures q n (err e, p) h = h
  return_error-Ensures q n (panic x, p) h = h

  -- Start of an empty pool: without an error as many workers are in the pool as were launched, each
  -- with one jobLoop and a process of the command from one of the launches, which met no error of
  -- the system and greeted with the line "ok"; with an error or a panic fewer are, and those are as
  -- good. There is no error and no panic exactly if each of the launches can start a process so. The queue is made for 512 jobs for each worker. A pool that has workers is left as
  -- it is, with the error "already started".
  pub start_pool_outcome :
      (p : Pool W)
      → ((p.pool ≡ [])
          × (IsOk (start_pool launches argv env p).0 ↔ All (λ l. Starts l argv) launches)
          × Ensures
              (λ _ p'. Adds (opened (length launches * 512)) (length launches) p')
              (Fewer (opened (length launches * 512)) (length launches))
              (start_pool launches argv env p))
        ⊎ ((p.pool ≢ []) × (start_pool launches argv env p ≡ (err already_started, p)))
  unfolding start_pool
  start_pool_outcome p = go p.pool refl
    where
      q : Channel
      q = opened (length launches * 512)

      r : Outcome (Option Error) × Pool W
      r = start_workers launches argv env (record { pool = []; queue = q })

      fine : IsOk (next r return_error).0 ↔ All (λ l. Starts l argv) launches
      fine =
          let all = start_workers-IsFine argv env launches (record { pool = []; queue = q }) in
          let same = return_error-IsOk r in (λ h. all.0 (same.0 h), λ h. same.1 (all.1 h))

      go :
          (ws : List (Worker W))
          → p.pool ≡ ws
          → ((p.pool ≡ [])
              × (IsOk (start_pool launches argv env p).0 ↔ All (λ l. Starts l argv) launches)
              × Ensures
                  (λ _ p'. Adds q (length launches) p')
                  (Fewer q (length launches))
                  (start_pool launches argv env p))
            ⊎ ((p.pool ≢ []) × (start_pool launches argv env p ≡ (err already_started, p)))
      go [] e = inl (
        e,
        rw e fine,
        rw e (
            return_error-Ensures q (length launches)
              (start_workers launches argv env (record { pool = []; queue = q }))
              (subst
                (λ k.
                  Ensures (Outcomes q k) (Fewer q k)
                    (start_workers launches argv env (record { pool = []; queue = q })))
                (omega arith)
                (start_workers-Ensures q 0 launches (record { pool = []; queue = q })
                  (All-Has launches (λ l h. h)) (refl, tt, refl)))),
      )
      go (w ∷ ws) e = inr (λ k. cc, rw e refl)

module _ {W : Type 0} (write : Bytes → Write W) (flush : Write W) where
  -- A worker whose input is there, as of every worker that has been started.
  abbrev pub HasInput : Worker W → Type 0
  HasInput w = (i : W) × (w.write ≡ some i)

  abbrev Returns {ℓ} : {A S : Type ℓ} → Outcome A × S → Type 0
  Returns (ok a, s) = Unit
  Returns (err e, s) = Unit
  Returns (panic x, s) = ⊥
