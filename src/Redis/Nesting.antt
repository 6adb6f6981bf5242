-- ===== src/Redis/Nesting.antt =====
-- readResponse calls itself on what its lines leave of the input, so that its fuel is enough.
use core_runner.Common.{
  ℕ, zero, suc, ◌≤◌, ◌<◌, ◌≡◌, refl, ap, ◌∙◌, Option, none, some, List, [], ◌∷◌, Bytes, Outcome, ok,
  err, panic, eof, ◌==◌, arith, length, ltb, Run, next, length-drop, Bool-cases, inl, inr,
}
use core_runner.Common.Decimal.{ℤ, pos, negsuc, atoi}
use core_runner.Worker.Pipe.{newline}
use core_runner.Worker.Pipe.Read.{split_after, found_after, read_string, from_outcome}
use core_runner.Binary.Parse.{make_bytes, max_alloc}
use core_runner.Redis.{
  cut_line, discard, read_once, read_bulk, read_items, read_array, read_typed, read_nested,
  read_response,
}

-- A result leaves at most `n` bytes.
abbrev pub Leaves {ℓ} : {A : Type ℓ} → ℕ → Outcome A × Bytes → Type 0
Leaves n (ok a, r) = length r ≤ n
Leaves n (err e, r) = Unit
Leaves n (panic p, r) = Unit

abbrev LeavesSplit : ℕ → Option (Bytes × Bytes) → Type 0
LeavesSplit n none = Unit
LeavesSplit n (some (line, rest)) = length rest < n

found_after-LeavesSplit :
    (c n : ℕ) (s : Option (Bytes × Bytes)) → LeavesSplit n s → LeavesSplit (suc n) (found_after c s)
found_after-LeavesSplit c n none h = tt
found_after-LeavesSplit c n (some (line, rest)) h = omega arith

split_after-LeavesSplit : (delim : ℕ) (s : Bytes) → LeavesSplit (length s) (split_after delim s)
unfolding split_after
split_after-LeavesSplit delim [] = tt
split_after-LeavesSplit delim (c ∷ s) = elim (Bool-cases (c == delim)) [
  | inl p ↦ rw p (omega arith)
  | inr p ↦
      rw p (
        found_after-LeavesSplit c (length s) (split_after delim s)
          (split_after-LeavesSplit delim s))
]

-- A line takes at least a byte.
read_string-Leaves : (delim n : ℕ) (r : Bytes) → length r ≤ suc n → Leaves n (read_string delim r)
unfolding read_string
read_string-Leaves delim n r h = go (split_after delim r) (split_after-LeavesSplit delim r)
  where
    go :
        (s : Option (Bytes × Bytes))
        → LeavesSplit (length r) s
        → Leaves {A = Bytes} n
            (elim s [ none ↦ (err eof, []) | some (line, rest) ↦ (ok line, rest) ])
    go none shorter = tt
    go (some (line, rest)) shorter = omega arith

pub next-Leaves :
    {A B : Type 0} (n : ℕ) (m : Outcome A × Bytes) (f : A → Run Bytes B)
    → Leaves n m
    → ((a : A) (r : Bytes) → length r ≤ n → Leaves n (f a r))
    → Leaves n (next m f)
next-Leaves n (ok a, r) f h later = later a r h
next-Leaves n (err e, r) f h later = tt
next-Leaves n (panic p, r) f h later = tt

from_outcome-Leaves :
    {A : Type 0} (n : ℕ) (o : Outcome A) (r : Bytes) → length r ≤ n → Leaves n (from_outcome o r)
from_outcome-Leaves n (ok a) r h = h
from_outcome-Leaves n (err e) r h = tt
from_outcome-Leaves n (panic p) r h = tt

weaken : {A : Type 0} (n : ℕ) (m : Outcome A × Bytes) → Leaves n m → Leaves (suc n) m
weaken n (ok a, r) h = omega arith
weaken n (err e, r) h = tt
weaken n (panic p, r) h = tt

-- Two readers that agree on short inputs.
abbrev Agree :
    ℕ → (List Bytes → Run Bytes (List Bytes)) → (List Bytes → Run Bytes (List Bytes)) → Type 0
Agree n f g =
    (result : List Bytes) (r : Bytes)
    → length r ≤ n
    → (f result r ≡ g result r) × Leaves n (f result r)

pub next-agree :
    {A B : Type 0} (n : ℕ) (m : Outcome A × Bytes) (f g : A → Run Bytes B)
    → Leaves n m
    → ((a : A) (r : Bytes) → length r ≤ n → f a r ≡ g a r)
    → next m f ≡ next m g
next-agree n (ok a, r) f g h later = later a r h
next-agree n (err e, r) f g h later = refl
next-agree n (panic p, r) f g h later = refl

read_items-Agree :
    (n : ℕ) (f g : List Bytes → Run Bytes (List Bytes))
    → Agree n f g
    → (k : ℕ) → Agree n (read_items f k) (read_items g k)
unfolding read_items
read_items-Agree n f g agree zero result r h = (refl, h)
read_items-Agree n f g agree (suc k) result r h =
    let (same, left) = agree result r h in
    let later = read_items-Agree n f g agree k in
    (
      next-agree n (f result r) (read_items f k) (read_items g k) left (λ a s h'. (later a s h').0)
          ∙ ap (λ m. next m (read_items g k)) same,
      next-Leaves n (f result r) (read_items f k) left (λ a s h'. (later a s h').1),
    )

discard-Leaves : (k n : ℕ) (r : Bytes) → length r ≤ n → Leaves n (discard k r)
unfolding discard
discard-Leaves k n r h = elim (Bool-cases (ltb (length r) k)) [
  | inl p ↦ rw p tt
  | inr p ↦ rw p (omega (arith, length-drop k r))
]

make_bytes-Leaves : (k n : ℕ) (r : Bytes) → length r ≤ n → Leaves n (make_bytes k r)
unfolding make_bytes
make_bytes-Leaves k n r h = elim (Bool-cases (ltb max_alloc k)) [ inl p ↦ rw p tt | inr p ↦ rw p h ]

module _ (copied : ℕ → Bytes → ℕ) where
  read_once-Leaves : (k n : ℕ) (r : Bytes) → length r ≤ n → Leaves n (read_once copied k r)
  unfolding read_once
  read_once-Leaves k n r h = elim (Bool-cases (k == 0)) [
    | inl p ↦ rw p h
    | inr p ↦ rw p (elim (Bool-cases (length r == 0)) [
      | inl q ↦ rw q tt
      | inr q ↦ rw q (omega (arith, length-drop (copied k r) r))
    ])
  ]

  read_bulk-Leaves :
      (result : List Bytes) (z : ℤ) (n : ℕ) (r : Bytes)
      → length r ≤ n
      → Leaves n (read_bulk copied result z r)
  unfolding read_bulk
  read_bulk-Leaves result (negsuc zero) n r h = h
  read_bulk-Leaves result (negsuc (suc k)) n r h = tt
  read_bulk-Leaves result (pos k) n r h =
      next-Leaves n (make_bytes k r) _ (make_bytes-Leaves k n r h) (λ u r1 h1.
        next-Leaves n (read_once copied k r1) _ (read_once-Leaves k n r1 h1)
          (λ buf r2 h2. next-Leaves n (discard 2 r2) _ (discard-Leaves 2 n r2 h2) (λ u r3 h3. h3)))

  read_array-Agree :
      (n : ℕ) (f g : List Bytes → Run Bytes (List Bytes))
      → Agree n f g
      → (z : ℤ) (result : List Bytes) (r : Bytes) → length r ≤ n
      → (read_array f result z r ≡ read_array g result z r) × Leaves n (read_array f result z r)
  unfolding read_array
  read_array-Agree n f g agree (pos k) result r h = read_items-Agree n f g agree k result r h
  read_array-Agree n f g agree (negsuc k) result r h = (refl, h)

  read_typed-Agree :
      (n : ℕ) (f g : List Bytes → Run Bytes (List Bytes))
      → Agree n f g
      → (line : Bytes) (result : List Bytes) (r : Bytes) → length r ≤ n
      → (read_typed copied f line result r ≡ read_typed copied g line result r)
        × Leaves n (read_typed copied f line result r)
  unfolding read_typed
  read_typed-Agree n f g agree [] result r h = (refl, tt)
  read_typed-Agree n f g agree (c ∷ str) result r h = elim (Bool-cases (c == b'-')) [
    | inl p ↦ rw p (refl, tt)
    | inr p ↦ rw p (elim (Bool-cases (c == b'+')) [
      | inl p ↦ rw p (refl, h)
      | inr p ↦ rw p (elim (Bool-cases (c == b':')) [
        | inl p ↦ rw p (refl, h)
        | inr p ↦ rw p (elim (Bool-cases (c == b'$')) [
          | inl p ↦ rw p (
            refl,
            next-Leaves n (from_outcome (atoi str) r) _ (from_outcome-Leaves n (atoi str) r h)
                (λ z r1 h1. read_bulk-Leaves result z n r1 h1),
          )
          | inr p ↦ rw p (elim (Bool-cases (c == b'*')) [
            | inl p ↦ rw p (
              next-agree n (from_outcome (atoi str) r) _ _ (from_outcome-Leaves n (atoi str) r h)
                  (λ z r1 h1. (read_array-Agree n f g agree z result r1 h1).0),
              next-Leaves n (from_outcome (atoi str) r) _ (from_outcome-Leaves n (atoi str) r h)
                  (λ z r1 h1. (read_array-Agree n f g agree z result r1 h1).1),
            )
            | inr p ↦ rw p (refl, tt)
          ])
        ])
      ])
    ])
  ]

  read_nested-Agree :
      (n fuel more : ℕ)
      → n < fuel
      → n < more
      → Agree n (read_nested copied fuel) (read_nested copied more)
  unfolding read_nested read_string split_after
  read_nested-Agree n zero more h h' result r short = absurd (omega arith)
  read_nested-Agree n (suc fuel) zero h h' result r short = absurd (omega arith)
  read_nested-Agree zero (suc fuel) (suc more) h h' result [] short = (refl, tt)
  read_nested-Agree zero (suc fuel) (suc more) h h' result (c ∷ r) short = absurd (omega arith)
  read_nested-Agree (suc n) (suc fuel) (suc more) h h' result r short =
      let inner = read_nested-Agree n fuel more (omega arith) (omega arith) in
      let line = read_string-Leaves newline n r short in
      let typed : (str r1 : Bytes)
          → length r1 ≤ n
          → (next (from_outcome (cut_line str) r1)
                (λ l. read_typed copied (read_nested copied fuel) l result)
              ≡ next (from_outcome (cut_line str) r1)
                  (λ l. read_typed copied (read_nested copied more) l result))
            × Leaves n (
                next (from_outcome (cut_line str) r1)
                  (λ l. read_typed copied (read_nested copied fuel) l result)) =
        λ str r1 h1. (
          next-agree n (from_outcome (cut_line str) r1) _ _
              (from_outcome-Leaves n (cut_line str) r1 h1)
              (λ l r2 h2. (read_typed-Agree n _ _ inner l result r2 h2).0),
          next-Leaves n (from_outcome (cut_line str) r1) _
              (from_outcome-Leaves n (cut_line str) r1 h1)
              (λ l r2 h2. (read_typed-Agree n _ _ inner l result r2 h2).1),
        ) in
      (
        next-agree n (read_string newline r) _ _ line (λ str r1 h1. (typed str r1 h1).0),
        weaken n _
            (next-Leaves n (read_string newline r) _ line (λ str r1 h1. (typed str r1 h1).1)),
      )

  -- The fuel of readResponse is enough: with any more of it the result is the same, so that none of
  -- its results comes from running out.
  pub read_response-fuel :
      (more : ℕ) (result : List Bytes) (r : Bytes)
      → length r < more
      → read_response copied result r ≡ read_nested copied more result r
  unfolding read_response
  read_response-fuel more result r h =
      (read_nested-Agree (length r) (suc (length r)) more (omega arith) h result r (omega arith)).0

  -- An answer that is read takes a byte at least.
  pub read_response-Leaves :
      (result : List Bytes) (n : ℕ) (r : Bytes)
      → length r ≡ suc n
      → Leaves n (read_response copied result r)
  unfolding read_response read_nested
  read_response-Leaves result n r h =
      next-Leaves n (read_string newline r) _ (read_string-Leaves newline n r (omega arith))
        λ str r₁ h₁.
          next-Leaves n (from_outcome (cut_line str) r₁) _
            (from_outcome-Leaves n (cut_line str) r₁ h₁)
            λ line r₂ h₂.
              (read_typed-Agree n _ _
                (read_nested-Agree n (length r) (length r) (omega arith) (omega arith)) line result
                r₂ h₂).1
