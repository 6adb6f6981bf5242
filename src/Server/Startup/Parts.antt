-- ===== src/Server/Startup/Parts.antt =====
-- Each part of main: what it leaves behind, and when it fails.
use core_runner.Common.{
  ℕ, zero, suc, ◌≡◌, refl, sym, subst, ap, ◌∙◌, Bool, true, false, ◌&&◌, Option, none, some, [],
  ◌∷◌, Bytes, codes, Outcome, ok, Error, Option-cases, length, ◌⊎◌, inl, inr, if◌then◌else◌,
  Bool-cases, arith,
}
use core_runner.Common.Ensures.{next-Ensures}
use core_runner.Common.Maps.{bytes_eq}
use core_runner.Common.Sink.{Write}
use core_runner.Redis.Client.{Connection, Buffering}
use core_runner.Worker.Pool.{Pool}
use core_runner.Server.{start_listener}
use core_runner.Server.Chain.{new_front, new_back}
use core_runner.Server.Startup.Php.{HasFailed, CannotRun, Runs, After, start_php-After}
use core_runner.Server.Startup.{
  Flags, World, Stage, watch_rpc, listen_rpc, Site, Program, fresh, tabulate, is_set, count,
  start_jobs, start_rpc_part, start_site, start_http_part,
}

-- A part that is there just if it is asked for.
abbrev pub Served : {A : Type 0} → Bool → (A → Type 0) → Option A → Type 0
Served {A} true P o = (a : A) × (o ≡ some a) × P a
Served false P o = o ≡ none

abbrev pub is_positive : ℕ → Bool
is_positive zero = false
is_positive (suc n) = true

module _ {W V : Type 0} (put : Bytes → Write V) (b : Buffering) (flags : Flags)
    (world : World W V) where
  abbrev pub workers : ℕ
  workers = count flags.wrks_num

  abbrev pub JobsServed : Program W V → Type 0
  JobsServed p =
      Served (is_set flags.rpc_addr && is_set flags.jobs_exe)
        (Runs flags world flags.jobs_exe (tabulate 2 world.jobs_launch) 2) p.jobs_pool
      × (p.rpc ≡ (if is_set flags.rpc_addr then some flags.rpc_addr else none))

  -- The handlers of "/", with as many workers as the flag says.
  abbrev pub IsSite : Site W → Type 0
  IsSite site =
      Runs flags world flags.http_exe (tabulate workers world.http_launch) workers site.workers
      × (site.front ≡ new_front flags.static flags.max_age flags.cors)
      × (site.back ≡ new_back flags.cors workers)

  abbrev pub SiteServed : Program W V → Type 0
  SiteServed p = Served (is_set flags.http_exe && is_positive workers) IsSite p.site

  abbrev pub IsListener : Connection V → Type 0
  IsListener c =
      (start_listener put b flags.redis_addr world.resolves world.dial ≡ ok c)
      × (c.topics ≡ codes "chat:*" ∷ [])

  abbrev pub ListenerServed : Program W V → Type 0
  ListenerServed p = Served (is_set flags.redis_addr) IsListener p.listener

  -- A part that was asked for cannot be started.
  abbrev pub JobsFail : Type 0
  JobsFail =
      (is_set flags.rpc_addr ≡ true)
      × (is_set flags.jobs_exe ≡ true)
      × CannotRun flags world flags.jobs_exe (tabulate 2 world.jobs_launch)

  abbrev pub SiteFail : Type 0
  SiteFail =
      (is_set flags.http_exe ≡ true)
      × CannotRun flags world flags.http_exe (tabulate workers world.http_launch)

  abbrev pub ListenerFail : Type 0
  ListenerFail =
      (is_set flags.redis_addr ≡ true)
      × HasFailed (start_listener put b flags.redis_addr world.resolves world.dial)

  -- The error of Listen in startRPC, if the flags ask for it and it has come by then.
  abbrev pub rpc_error : Stage → Option Error
  rpc_error stage = if is_set flags.rpc_addr then world.rpc_listen stage else none

  abbrev pub RpcFail : Type 0
  RpcFail = (stage : Stage) × (e : Error) × (rpc_error stage ≡ some e)

  abbrev pub Fails : Program W V → Type 0
  Fails p = (p.listening ≡ none) × (JobsFail ⊎ (SiteFail ⊎ (ListenerFail ⊎ RpcFail)))

  -- What is so of the program stays so while log.Fatal of startRPC does not end it.
  pub watch_rpc-After :
      (Q : Program W V → Type 0) (stage : Stage) (p : Program W V)
      → ((p : Program W V) → Q p → p.listening ≡ none)
      → Q p
      → After flags world
          (λ p. Q p × (rpc_error stage ≡ none))
          Fails
          (watch_rpc flags world stage p)
  unfolding watch_rpc listen_rpc
  watch_rpc-After Q stage p deaf h = elim (Bool-cases (is_set flags.rpc_addr)) [
    | inr no_rpc ↦ rw no_rpc (h, refl)
    | inl rpc ↦ elim (Option-cases (world.rpc_listen stage)) [
      | inl quiet ↦ rw (rpc, quiet) (h, refl)
      | inr (e, failed) ↦
          rw (rpc, failed) (deaf p h, inr (inr (inr (stage, e, rw (rpc, failed) refl))))
    ]
  ]

  abbrev pub Unserved : Program W V → Type 0
  Unserved p = (p.site ≡ none) × (p.listener ≡ none) × (p.listening ≡ none)

  length-tabulate : {A : Type 0} (n : ℕ) (f : ℕ → A) → length (tabulate n f) ≡ n
  unfolding tabulate
  length-tabulate zero f = refl
  length-tabulate (suc n) f = omega (arith, length-tabulate n (λ i. f (suc i)))

  abbrev pub Sited : Program W V → Type 0
  Sited p = JobsServed p × SiteServed p × (p.listener ≡ none) × (p.listening ≡ none)

  start_jobs-After :
      is_set flags.rpc_addr ≡ true
      → is_set flags.jobs_exe ≡ true
      → After flags world
          (λ p.
            ((wrks : Pool W) × (p.jobs_pool ≡ some wrks)
              × Runs flags world flags.jobs_exe (tabulate 2 world.jobs_launch) 2 wrks)
            × Unserved p)
          Fails
          (start_jobs flags world fresh)
  unfolding start_jobs fresh tabulate
  start_jobs-After rpc jobs =
      start_php-After flags world _ Fails flags.jobs_exe (tabulate 2 world.jobs_launch) _ fresh
        (λ wrks runs. ((wrks, refl, runs), (refl, refl, refl)))
        (λ cannot wrks. (refl, inl (rpc, jobs, cannot)))

  -- start_rpc_part of the program as main finds it.
  pub start_rpc_part-After :
      After flags world (λ p. JobsServed p × Unserved p) Fails (start_rpc_part flags world fresh)
  unfolding start_rpc_part fresh
  start_rpc_part-After = elim (Bool-cases (is_set flags.rpc_addr)) [
    | inr no_rpc ↦ rw no_rpc ((refl, refl), (refl, refl, refl))
    | inl rpc ↦ elim (Bool-cases (is_set flags.jobs_exe)) [
      | inr no_jobs ↦ rw (rpc, no_jobs) ((refl, refl), (refl, refl, refl))
      | inl jobs ↦
          let h = start_jobs-After rpc jobs in
          rw (rpc, jobs)
            (next-Ensures _ _ Fails (start_jobs flags world fresh) _ h
              (λ u p (runs, rest). ((runs, refl), rest)))
    ]
  ]

  start_site-After :
      (n : ℕ) (p : Program W V)
      → workers ≡ suc n
      → is_set flags.http_exe ≡ true
      → JobsServed p × Unserved p
      → After flags world Sited Fails (start_site flags world workers p)
  unfolding start_site
  start_site-After n p some_workers http (jobs, unserved) =
      start_php-After flags world _ Fails flags.http_exe (tabulate workers world.http_launch) _ p
        (λ wrks runs. (
          jobs,
          rw (http, some_workers)
              (_, refl, (exact wrks runs, refl, ap (new_back flags.cors) (sym some_workers))),
          unserved.1,
          unserved.2,
        ))
        (λ cannot wrks. (unserved.2, inr (inl (http, cannot))))
    where
      exact :
          (wrks : Pool W)
          → Runs flags world flags.http_exe
              (tabulate workers world.http_launch)
              (length (tabulate workers world.http_launch))
              wrks
          → Runs flags world flags.http_exe (tabulate workers world.http_launch) workers wrks
      exact wrks runs =
          subst (λ m. Runs flags world flags.http_exe (tabulate workers world.http_launch) m wrks)
            (length-tabulate workers world.http_launch) runs

  pub start_http_part-After :
      (p : Program W V)
      → JobsServed p × Unserved p
      → After flags world Sited Fails (start_http_part flags world workers p)
  start_http_part-After p (jobs, unserved) = go workers refl
    where
      none_asked :
          (http positive : Bool)
          → (http && positive) ≡ false
          → Served (http && positive) IsSite p.site
      none_asked http positive e = rw e unserved.0

      and_false : (b : Bool) → (b && false) ≡ false
      and_false true = refl
      and_false false = refl

      skipped :
          (n : ℕ)
          → is_set flags.http_exe ≡ false
          → ◌≡◌ {A = Outcome (Unit {0}) × Program W V}
              (ok tt, p)
              (start_http_part flags world (suc n) p)
      skipped n no_http = unfold start_http_part in rw no_http refl

      made :
          (n : ℕ)
          → is_set flags.http_exe ≡ true
          → start_site flags world (suc n) p ≡ start_http_part flags world (suc n) p
      made n http = unfold start_http_part in rw http refl

      go : (n : ℕ) → workers ≡ n → After flags world Sited Fails (start_http_part flags world n p)
      go zero e =
          let no_site = none_asked (is_set flags.http_exe) (is_positive workers) (
            ap (λ m. is_set flags.http_exe && is_positive m) e
            ∙ and_false (is_set flags.http_exe)) in
          unfold start_http_part in (jobs, no_site, unserved.1, unserved.2)
      go (suc n) e = elim (Bool-cases (is_set flags.http_exe)) [
        | inr no_http ↦
            subst (λ r. After flags world Sited Fails r) (skipped n no_http)
              (
                jobs,
                none_asked (is_set flags.http_exe) (is_positive workers)
                    (ap (λ b. b && is_positive workers) no_http),
                unserved.1,
                unserved.2,
              )
        | inl http ↦
            subst (λ r. After flags world Sited Fails r) (made n http)
              (subst (λ m. After flags world Sited Fails (start_site flags world m p)) e
                (start_site-After n p e http (jobs, unserved)))
      ]
