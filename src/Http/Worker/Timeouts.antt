-- ===== src/Http/Worker/Timeouts.antt =====
-- When the count of timeouts ends the process.
use core_runner.Common.{
  ℕ, ◌+◌, ◌%◌, ◌<◌, ◌≡◌, refl, Bool, true, false, ◌||◌, Option, none, some, List, [], ◌∷◌, Bytes,
  Error, Outcome, ok, err, panic, if◌then◌else◌, u64_mod, length, arith, Bool-cases, inl, inr,
}
use core_runner.Common.Maps.{◌==◌, nat_eq}
use core_runner.Common.Maps.Fetch.{elem}
use core_runner.Binary.Messages.{HttpResponse}
use core_runner.Binary.Parse.{parse_http_response}
use core_runner.Worker.Process.TimedSend.{WorkerResult}
use core_runner.Http.Worker.{
  WorkerHandler, Ending, returned, exited, panicked, is_timeout, handle_error, handle_result,
  parsed, respond, empty_response,
}

abbrev pub is_exited : Ending → Bool
is_exited returned = false
is_exited exited = true
is_exited (panicked p) = false

-- The requests are answered one after another, until the process ends; a panic ends its own request.
unfoldable pub handle_all : WorkerHandler → List WorkerResult → Bool
handle_all h [] = false
handle_all h (wrk ∷ wrks) =
    let (h', (effects, ending)) = handle_result h wrk in is_exited ending || handle_all h' wrks

-- How many timeouts there were since the last answer, at each timeout.
unfoldable pub streaks : ℕ → List WorkerResult → List ℕ
streaks n [] = []
streaks n (wrk ∷ wrks) = elim wrk.err_field [
  | none ↦ streaks 0 wrks
  | some e ↦ if is_timeout e then (n + 1) ∷ streaks (n + 1) wrks else streaks n wrks
]

parsed-returns : (r : Outcome (Unit {0}) × (HttpResponse × Bytes)) → is_exited (parsed r).1 ≡ false
unfolding parsed respond
parsed-returns (ok u, (res, rest)) = ground arith
parsed-returns (err e, s) = refl
parsed-returns (panic p, s) = refl

abbrev Agrees : WorkerHandler → List WorkerResult → Type 0
Agrees h wrks =
    h.timeouts_count + length wrks < u64_mod
    → handle_all h wrks ≡ elem h.max_timeouts (streaks h.timeouts_count wrks)

-- One result in front.
cons-Agrees :
    (res : Bytes) (failure : Option Error) (wrks : List WorkerResult) (h : WorkerHandler)
    → ((h' : WorkerHandler) → Agrees h' wrks)
    → Agrees h (record { res = res; err_field = failure } ∷ wrks)
unfolding handle_all streaks elem handle_result handle_error
cons-Agrees res none wrks h rest bound =
    rw (parsed-returns (parse_http_response (empty_response, res)))
      (rest (record h { timeouts_count = 0 }) (omega arith))
cons-Agrees res (some e) wrks h rest bound = elim (Bool-cases (is_timeout e)) [
  | inl p ↦
      let small : (h.timeouts_count + 1) % u64_mod ≡ h.timeouts_count + 1 = omega arith in
      let later = rest (record h { timeouts_count = h.timeouts_count + 1 }) (omega arith) in
      rw (p, small)
        (elim (Bool-cases (h.timeouts_count + 1 == h.max_timeouts)) [
          | inl q ↦ rw q refl
          | inr q ↦ rw q later
        ])
  | inr p ↦ rw p (rest h (omega arith))
]

-- The process ends in a sequence of requests exactly if, at some timeout, the number of timeouts
-- since the last answer is the maximum; errors of another kind are passed over, they neither count
-- nor interrupt the row. (The count stays below 2^64.)
pub handle_all-streaks :
    (h : WorkerHandler) (wrks : List WorkerResult)
    → h.timeouts_count + length wrks < u64_mod
    → handle_all h wrks ≡ elem h.max_timeouts (streaks h.timeouts_count wrks)
unfolding handle_all streaks elem
handle_all-streaks h [] bound = refl
handle_all-streaks h (wrk ∷ wrks) bound =
    cons-Agrees wrk.res wrk.err_field wrks h (λ h'. handle_all-streaks h' wrks) bound
