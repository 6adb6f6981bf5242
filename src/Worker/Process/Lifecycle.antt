-- ===== src/Worker/Process/Lifecycle.antt =====
-- What the calls that start, stop and restart a worker do to it, on every answer of the system.
use core_runner.Common.{
  ℕ, suc, ◌≡◌, refl, ap, Bool, Option, none, some, List, [], ◌∷◌, Bytes, codes, Outcome, ok, err,
  panic, Error, Run, next, ◌>>◌, ◌⊎◌, ◌↔◌, inl, inr, ◌≢◌, Bool-cases, Option-cases, true, false,
  sym, subst, ◌∙◌, ◌++◌, append_assoc, append-nil,
}
use core_runner.Common.Ensures.{Ensures, Ensures-map}
use core_runner.Common.Maps.{bytes_eq, bytes_beq_iff, bytes_beq}
use core_runner.Worker.Pipe.{newline}
use core_runner.Worker.Pipe.Read.{read_string}
use core_runner.Worker.Process.{
  Worker, Launch, is_some, greet, launch, start, reset, restart, with_output, check, command,
  already_started, ProcessCall, sigkill, waited_for, modify, end_process,
}

abbrev pub IsOk {ℓ} : {A : Type ℓ} → Outcome A → Type 0
IsOk (ok a) = Unit
IsOk (err e) = ⊥
IsOk (panic p) = ⊥

module _ {W : Type 0} where
  -- One step of a run, whose failure leaves the state that it found.
  check-Ensures :
      {B : Type 0} (Q : B → Worker W → Type 0) (E : Worker W → Type 0) (e : Option Error)
      (f : Run (Worker W) B) (w : Worker W)
      → E w
      → (e ≡ none → Ensures Q E (f w))
      → Ensures Q E (next (check e w) (λ _. f))
  check-Ensures Q E none f w bad good = good refl
  check-Ensures Q E (some e) f w bad good = bad

  command-Ensures :
      {B : Type 0} (Q : B → Worker W → Type 0) (E : Worker W → Type 0) (argv : List Bytes)
      (f : Run (Worker W) B) (w : Worker W)
      → E w
      → (argv ≢ [] → Ensures Q E (f w))
      → Ensures Q E (next (command argv w) (λ _. f))
  command-Ensures Q E [] f w bad good = bad
  command-Ensures Q E (exe ∷ args) f w bad good = good (λ e. cc)

  output-Ensures :
      {A B : Type 0} (Q : B → Worker W → Type 0) (E : Worker W → Type 0) (r : Outcome A × Bytes)
      (f : A → Run (Worker W) B) (w : Worker W)
      → ((rest : Bytes) → E (record w { read = some rest }))
      → ((a : A) (rest : Bytes)
          → r ≡ (ok a, rest)
          → Ensures Q E (f a (record w { read = some rest })))
      → Ensures Q E (next (with_output w r) f)
  output-Ensures Q E (ok a, rest) f w bad good = good a rest refl
  output-Ensures Q E (err e, rest) f w bad good = bad rest
  output-Ensures Q E (panic p, rest) f w bad good = bad rest

  greet-Ensures :
      {B : Type 0} (Q : B → Worker W → Type 0) (E : Worker W → Type 0) (line rest : Bytes)
      (f : Run (Worker W) B) (w : Worker W)
      → w.read ≡ some rest
      → E (record w { read = some [] })
      → (line ≡ codes "ok\n" → Ensures Q E (f w))
      → Ensures Q E (next (greet line w) (λ _. f))
  unfolding greet
  greet-Ensures Q E line rest f w r bad good = elim (Bool-cases (bytes_beq line (codes "ok\n"))) [
    | inl p ↦ rw p (good ((bytes_beq_iff line (codes "ok\n")).0 p))
    | inr p ↦ rw (p, r) bad
  ]

  -- What a successful Start leaves: the process that was started, with no error of a call of the
  -- system and with its greeting read, and one goroutine more that runs jobLoop.
  pub record Started (l : Launch W) (argv env : List Bytes) (loops : ℕ) (w : Worker W)
      : Type 0 where
    pub argv_given : argv ≢ []
    pub no_error :
        (l.stdout_pipe ≡ none) × (l.stdin_pipe ≡ none) × (l.stderr_pipe ≡ none) × (l.start ≡ none)
    pub greeting :
        (rest : Bytes) × (read_string newline l.output ≡ (ok (codes "ok\n"), rest))
        × (w.read ≡ some rest)
    pub cmd_eq : w.cmd ≡ some l.pid
    pub write_eq : w.write ≡ some l.input
    pub argv_eq : w.argv ≡ argv
    pub env_eq : w.env ≡ env
    pub loops_eq : w.loops ≡ suc loops

  -- The same with the calls on processes, of which Start makes none.
  abbrev pub Launched : Launch W → List Bytes → List Bytes → Worker W → Worker W → Type 0
  Launched l argv env w w' = Started l argv env w.loops w' × (w'.calls ≡ w.calls)

  -- No process, and no call on one.
  abbrev pub Unlaunched : Worker W → Worker W → Type 0
  Unlaunched w w' = (w'.cmd ≡ none) × (w'.calls ≡ w.calls)

  launch-Ensures :
      (l : Launch W) (argv env : List Bytes) (w : Worker W)
      → w.cmd ≡ none
      → Ensures (λ _ w'. Launched l argv env w w') (Unlaunched w) (launch l argv env w)
  unfolding launch
  launch-Ensures l argv env w stopped =
      command-Ensures Q (Unlaunched w) argv _ w₁ (stopped, refl)
        λ given.
          check-Ensures Q (Unlaunched w) l.stdout_pipe _ w₁ (stopped, refl)
            λ h₁.
              check-Ensures Q (Unlaunched w) l.stdin_pipe _ w₂ (stopped, refl)
                λ h₂.
                  check-Ensures Q (Unlaunched w) l.stderr_pipe _ w₃ (stopped, refl)
                    λ h₃.
                      check-Ensures Q (Unlaunched w) l.start _ w₃ (stopped, refl)
                        λ h₄.
                          output-Ensures Q (Unlaunched w) (read_string newline l.output) _ w₃
                            (λ _. (stopped, refl))
                            λ line rest e.
                              greet-Ensures Q (Unlaunched w) line rest _
                                (record w₃ { read = some rest }) refl (stopped, refl)
                                λ h. (
                                  record {
                                    argv_given = given;
                                    no_error = (h₁, h₂, h₃, h₄);
                                    greeting = (rest, rw (← h) e, refl);
                                    cmd_eq = refl;
                                    write_eq = refl;
                                    argv_eq = refl;
                                    env_eq = refl;
                                    loops_eq = refl;
                                  },
                                  refl,
                                )
    where
      Q : Unit {0} → Worker W → Type 0
      Q _ w' = Launched l argv env w w'

      w₁ : Worker W
      w₁ = record w { argv = argv; env = env }

      w₂ : Worker W
      w₂ = record w₁ { read = some l.output }

      w₃ : Worker W
      w₃ = record w₂ { write = some l.input }

  -- Start succeeds where it can: a worker without a process, a command, no error from the system,
  -- and a process that greets.
  start_succeeds :
      (l : Launch W) (exe : Bytes) (args env : List Bytes) (rest : Bytes) (w : Worker W)
      → w.cmd ≡ none
      → l.stdout_pipe ≡ none
      → l.stdin_pipe ≡ none
      → l.stderr_pipe ≡ none
      → l.start ≡ none
      → read_string newline l.output ≡ (ok (codes "ok\n"), rest)
      → start l (exe ∷ args) env w ≡ (
        ok tt,
        record {
          cmd = some l.pid;
          read = some rest;
          write = some l.input;
          argv = exe ∷ args;
          env = env;
          loops = suc w.loops;
          calls = w.calls;
        },
      )
  unfolding start launch greet
  start_succeeds l exe args env rest w stopped h₁ h₂ h₃ h₄ greets =
      rw (stopped, h₁, h₂, h₃, h₄, greets)

  -- What must be so for a Start with `argv` to succeed: a command, no error from the system, and a
  -- process whose first line is "ok".
  abbrev pub Starts : Launch W → List Bytes → Type 0
  Starts l argv =
      (argv ≢ [])
      × ((l.stdout_pipe ≡ none) × (l.stdin_pipe ≡ none) × (l.stderr_pipe ≡ none) × (l.start ≡ none))
      × ((rest : Bytes) × (read_string newline l.output ≡ (ok (codes "ok\n"), rest)))

  start-IsOk :
      (l : Launch W) (argv env : List Bytes) (w : Worker W)
      → w.cmd ≡ none
      → Starts l argv
      → IsOk (start l argv env w).0
  start-IsOk l [] env w stopped (given, _, _) = absurd (given refl)
  start-IsOk l (exe ∷ args) env w stopped (given, (h₁, h₂, h₃, h₄), (rest, greets)) =
      rw (start_succeeds l exe args env rest w stopped h₁ h₂ h₃ h₄ greets) tt

  Started-Starts :
      (l : Launch W) (argv env : List Bytes) (w : Worker W) (r : Outcome (Unit {0}) × Worker W)
      → Ensures (λ _ w'. Started l argv env w.loops w') (λ w'. w'.cmd ≡ none) r
      → IsOk r.0
      → Starts l argv
  Started-Starts l argv env w (ok u, w') h fine =
      let (rest, read, left) = h.greeting in (h.argv_given, h.no_error, (rest, read))
  Started-Starts l argv env w (err e, w') h fine = absurd fine
  Started-Starts l argv env w (panic p, w') h fine = absurd fine

  -- Start of a worker without a process succeeds exactly if a command is given, no call of the
  -- system returns an error and the first line of the process is "ok"; and then that process, with its pipes, the rest of its output, its command and its environment, is the
  -- worker's, and one more jobLoop runs for it; if it fails or panics, the worker still has no
  -- process. Start of a worker that has one changes nothing and returns the error "already started".
  pub start_outcome :
      (l : Launch W) (argv env : List Bytes) (w : Worker W)
      → ((w.cmd ≡ none)
          × (IsOk (start l argv env w).0 ↔ Starts l argv)
          × Ensures
              (λ _ w'. Started l argv env w.loops w')
              (λ w'. w'.cmd ≡ none)
              (start l argv env w))
        ⊎ ((pid : ℕ) × (w.cmd ≡ some pid) × (start l argv env w ≡ (err already_started, w)))
  start_outcome l argv env w = elim (Option-cases w.cmd) [
    | inl e ↦
        let h =
          Ensures-map (λ _ w'. Launched l argv env w w') (λ _ w'. Started l argv env w.loops w')
            (Unlaunched w) (λ w'. w'.cmd ≡ none) (start l argv env w)
            (unfold start in rw (ap is_some e) (launch-Ensures l argv env w e)) (λ _ w' h. h.0)
            (λ w' h. h.0) in
        inl (e, (Started-Starts l argv env w (start l argv env w) h, start-IsOk l argv env w e), h)
    | inr (pid, e) ↦ inr (pid, e, unfold start in rw (ap is_some e))
  ]

  -- What Restart leaves if it comes to Start: a new process for the same command and environment
  -- and one more jobLoop, or no process, by the answers to that Start; and for the old process just
  -- `calls`.
  abbrev pub Restarted :
      Launch W → Worker W → List ProcessCall → Outcome (Unit {0}) × Worker W → Type 0
  Restarted l w calls r =
      (IsOk r.0 ↔ Starts l w.argv)
      × Ensures (λ _ w'. Started l w.argv w.env w.loops w' × (w'.calls ≡ w.calls ++ calls))
          (λ w'. (w'.cmd ≡ none) × (w'.calls ≡ w.calls ++ calls)) r

  -- What Restart does to a process of the worker, by what Process.Kill answers.
  abbrev pub Ends :
      Option Error → Bool → Launch W → ℕ → Worker W → Outcome (Unit {0}) × Worker W → Type 0
  Ends none true l pid w r = Restarted l w (sigkill pid ∷ waited_for pid ∷ []) r
  Ends (some e) true l pid w r = r ≡ (err e, w)
  Ends killed false l pid w r = Restarted l w (waited_for pid ∷ []) r

  -- The same for a worker with a process, and with none.
  abbrev pub Restarts :
      Option Error → Launch W → Bool → Option ℕ → Worker W → Outcome (Unit {0}) × Worker W → Type 0
  Restarts killed l is_kill none w r = Restarted l w [] r
  Restarts killed l is_kill (some pid) w r = Ends killed is_kill l pid w r

  start-launch :
      (l : Launch W) (argv env : List Bytes) (w : Worker W)
      → w.cmd ≡ none
      → start l argv env w ≡ launch l argv env w
  unfolding start
  start-launch l argv env w stopped = rw (ap is_some stopped) refl

  relaunched :
      (l : Launch W) (w : Worker W) (cs : List ProcessCall) (w₁ : Worker W)
      → w₁.cmd ≡ none
      → (w₁.calls ≡ w.calls ++ cs) × (w₁.loops ≡ w.loops)
      → Restarted l w cs (launch l w.argv w.env w₁)
  relaunched l w cs w₁ stopped (said, same) =
      let r = launch l w.argv w.env w₁ in
      let h : Ensures (λ _ w'. Started l w.argv w.env w.loops w' × (w'.calls ≡ w.calls ++ cs))
          (λ w'. (w'.cmd ≡ none) × (w'.calls ≡ w.calls ++ cs)) r =
        Ensures-map _ _ _ _ r (launch-Ensures l w.argv w.env w₁ stopped)
          (λ _ w' h. (subst (λ n. Started l w.argv w.env n w') same h.0, h.1 ∙ said))
          (λ w' h. (h.0, h.1 ∙ said)) in
      (
        (
          Started-Starts l w.argv w.env w r (Ensures-map _ _ _ _ r h (λ _ w' h. h.0) (λ w' h. h.0)),
          λ starts.
              subst (λ (r : Outcome (Unit {0}) × Worker W). IsOk r.0)
                (start-launch l w.argv w.env w₁ stopped)
                (start-IsOk l w.argv w.env w₁ stopped starts),
        ),
        h,
      )

  -- Restart of a worker with a process sends SIGKILL to it if it is asked to, waits for its end and
  -- starts the worker again, and does nothing else to a process; a worker without a process is only
  -- started. It succeeds exactly if the worker has a command, no call of that Start returns an error
  -- and the new process greets: then the worker has the new process for the same command and
  -- environment and one more jobLoop than before, and otherwise no process. If SIGKILL is asked for
  -- and fails, Restart returns that error, and the worker is left as it was.
  pub restart_outcome :
      (killed : Option Error) (l : Launch W) (is_kill : Bool) (w : Worker W)
      → Restarts killed l is_kill w.cmd w (restart killed l is_kill w)
  unfolding restart end_process start reset
  restart_outcome killed l is_kill w = go killed is_kill w.cmd
    where
      go :
          (killed : Option Error) (is_kill : Bool) (cmd : Option ℕ)
          → Restarts killed l is_kill cmd w
              (next (end_process killed is_kill cmd w) λ _. do modify reset; start l w.argv w.env)
      go killed is_kill none = relaunched l w [] _ refl (sym (append-nil w.calls), refl)
      go none true (some pid) =
          relaunched l w (sigkill pid ∷ waited_for pid ∷ []) _ refl
            (append_assoc w.calls (sigkill pid ∷ []) (waited_for pid ∷ []), refl)
      go (some e) true (some pid) = refl
      go none false (some pid) = relaunched l w (waited_for pid ∷ []) _ refl (refl, refl)
      go (some e) false (some pid) = relaunched l w (waited_for pid ∷ []) _ refl (refl, refl)

  -- Restart leaves a new process or none, unless the kill that it asks for fails.
  pub restart-Ensures :
      (killed : Option Error) (l : Launch W) (w : Worker W)
      → ((e : Error) × (killed ≡ some e) × (restart killed l true w ≡ (err e, w)))
        ⊎ Ensures
            (λ _ w'. Started l w.argv w.env w.loops w')
            (λ w'. w'.cmd ≡ none)
            (restart killed l true w)
  restart-Ensures killed l w = go killed w.cmd (restart_outcome killed l true w)
    where
      r : Outcome (Unit {0}) × Worker W
      r = restart killed l true w

      weaken :
          (cs : List ProcessCall)
          → Restarted l w cs r
          → Ensures (λ _ w'. Started l w.argv w.env w.loops w') (λ w'. w'.cmd ≡ none) r
      weaken cs (_, h) = Ensures-map _ _ _ _ r h (λ _ w' h. h.0) (λ w' h. h.0)

      go :
          (k : Option Error) (cmd : Option ℕ)
          → Restarts k l true cmd w r
          → ((e : Error) × (k ≡ some e) × (r ≡ (err e, w)))
            ⊎ Ensures (λ _ w'. Started l w.argv w.env w.loops w') (λ w'. w'.cmd ≡ none) r
      go k none h = inr (weaken [] h)
      go none (some pid) h = inr (weaken (sigkill pid ∷ waited_for pid ∷ []) h)
      go (some e) (some pid) h = inl (e, refl, h)
