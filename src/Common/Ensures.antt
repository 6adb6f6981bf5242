-- ===== src/Common/Ensures.antt =====
-- Postconditions of runs: `P` of the value and the state after a success, `E` of the state after
-- an error or a panic.
use core_runner.Common.Go.{Outcome, ok, err, panic, Run, next}

module _ {S : Type 0} where
  abbrev pub Ensures {ℓ} : {A : Type 0} → (A → S → Type ℓ) → (S → Type ℓ) → Outcome A × S → Type ℓ
  Ensures P E (ok a, s) = P a s
  Ensures P E (err e, s) = E s
  Ensures P E (panic p, s) = E s

  pub next-Ensures {ℓ} :
      {A B : Type 0} (P : A → S → Type ℓ) (Q : B → S → Type ℓ) (E : S → Type ℓ) (r : Outcome A × S)
      (f : A → Run S B)
      → Ensures P E r
      → ((a : A) (s : S) → P a s → Ensures Q E (f a s))
      → Ensures Q E (next r f)
  next-Ensures P Q E (ok a, s) f h k = k a s h
  next-Ensures P Q E (err e, s) f h k = h
  next-Ensures P Q E (panic p, s) f h k = h

  pub Ensures-map {ℓ} :
      {A : Type 0} (P P' : A → S → Type ℓ) (E E' : S → Type ℓ) (r : Outcome A × S)
      → Ensures P E r
      → ((a : A) (s : S) → P a s → P' a s)
      → ((s : S) → E s → E' s)
      → Ensures P' E' r
  Ensures-map P P' E E' (ok a, s) h f g = f a s h
  Ensures-map P P' E E' (err e, s) h f g = g s h
  Ensures-map P P' E E' (panic p, s) h f g = g s h

  pub Ensures-and {ℓ} :
      {A : Type 0} (P P' : A → S → Type ℓ) (E : S → Type ℓ) (E' : S → Type ℓ) (r : Outcome A × S)
      → Ensures P E r
      → Ensures P' E' r
      → Ensures (λ a s. P a s × P' a s) E r
  Ensures-and P P' E E' (ok a, s) h h' = (h, h')
  Ensures-and P P' E E' (err e, s) h h' = h
  Ensures-and P P' E E' (panic p, s) h h' = h
