-- ===== src/Common/Go.antt =====
-- The values and errors of the Go code. A string or a []byte is a list of byte values; an `error`
-- is one of the named errors of the standard library, a text of `errors.New`, or the answer of
-- something outside the program; a run of a function returns, fails with an error, or panics.
use Prim.Native.Nat.{ℕ, ◌<◌, ◌^◌}
use Prim.Native.Char.{code}
use Prim.Native.String.{String}
use mathlib.Core.List.{List, [], ◌∷◌}

abbrev pub Bytes : Type 0
Bytes = List ℕ

abbrev pub codes : String → Bytes
codes String.[] = []
codes (String.◌∷◌ c s) = code c ∷ codes s

abbrev pub IsByte : ℕ → Type 0
IsByte b = b < 256

abbrev pub u64_mod : ℕ
u64_mod = 2 ^ 64

abbrev pub IsU64 : ℕ → Type 0
IsU64 n = n < u64_mod

pub data Error : Type 0 where
  eof unexpected_eof syntax_error range_error : Error
  -- errors.New(text)
  text : Bytes → Error
  -- an error that a pipe, a process, a file or a socket answers with
  external : ℕ → Error
  -- an error that wraps ErrWorkerTimedOut: a PID, and the timeout in nanoseconds
  worker_timed_out : ℕ → ℕ → Error
  -- fmt.Errorf with a text, and another error's text behind it
  wrapped : Bytes → Error → Error

pub data Panic : Type 0 where
  makeslice_range nil_dereference index_range closed_channel invalid_status failed_assertion
        nil_channel :
      Panic

pub data Outcome {ℓ} (A : Type ℓ) : Type ℓ where
  ok : A → Outcome A
  err : Error → Outcome A
  panic : Panic → Outcome A

-- A function that reads and changes a state `S` and returns a value, fails or panics.
abbrev pub Run {ℓ} : Type 0 → Type ℓ → Type ℓ
Run S A = S → Outcome A × S

abbrev pub next {ℓ κ} :
    {S : Type 0} {A : Type ℓ} {B : Type κ} → Outcome A × S → (A → Run S B) → Outcome B × S
next (ok a, s) f = f a s
next (err e, s) f = (err e, s)
next (panic p, s) f = (panic p, s)

abbrev pub pure {ℓ} : {S : Type 0} {A : Type ℓ} → A → Run S A
pure a s = (ok a, s)

-- `v, err := m; if err != nil { return err }; f(v)`
infixl 5 ◌>>=◌ ◌>>◌
abbrev pub ◌>>=◌ {ℓ κ} : {S : Type 0} {A : Type ℓ} {B : Type κ} → Run S A → (A → Run S B) → Run S B
◌>>=◌ m f s = next (m s) f

abbrev pub ◌>>◌ {κ} : {S : Type 0} {B : Type κ} → Run S (Unit {0}) → Run S B → Run S B
◌>>◌ m k s = next (m s) (λ _. k)
