-- ===== src/Common/Decimal/RoundTrip.antt =====
-- `Atoi` reads back what `Itoa` prints, and the print is made of digits.
use core_runner.Common.Lists.{All}
use core_runner.Common.Go.{Bytes, ok, u64_mod}
use core_runner.Common.Decimal.{pos, max_int, emit, itoa, scan, atoi, IsDigit}
use Prim.Native.Nat.{ℕ, zero, suc, ◌+◌, ◌/◌, ◌%◌, ◌≤◌, ◌<◌}
use mathlib.Core.Path.{◌≡◌, refl, ◌∙◌}
use mathlib.Core.Logic.{◌≢◌}
use mathlib.Core.List.{[], ◌∷◌, cons-ne-nil}
use native.Mathlib.Omega.{arith}

scan_last : (n : ℕ) (out : Bytes) → n < u64_mod → scan ((b'0' + n % 10) ∷ out) (n / 10) ≡ scan out n
unfolding scan
scan_last n out h = ground arith

scan_first : (n : ℕ) (out : Bytes) → n < 10 → scan ((b'0' + n) ∷ out) 0 ≡ scan out n
unfolding scan
scan_first n out h = ground arith

scan-emit :
    (fuel n : ℕ) (out : Bytes) → n < fuel → n < u64_mod → scan (emit fuel n out) 0 ≡ scan out n
unfolding emit
scan-emit zero n out lt fits = absurd (omega arith)
scan-emit (suc fuel) n out lt fits =
    ground (
      arith,
      scan_first n out,
      scan_last n out fits,
      scan-emit fuel (n / 10) ((b'0' + n % 10) ∷ out),
    )

emit-IsDigit : (fuel n : ℕ) (out : Bytes) → All IsDigit out → All IsDigit (emit fuel n out)
unfolding emit
emit-IsDigit zero n out h = h
emit-IsDigit (suc fuel) n out h =
    ground (arith, emit-IsDigit fuel (n / 10) ((b'0' + n % 10) ∷ out) (omega arith, h))

emit-ne-nil : (fuel n : ℕ) (out : Bytes) → out ≢ [] → emit fuel n out ≢ []
unfolding emit
emit-ne-nil zero n out h = h
emit-ne-nil (suc fuel) n out h =
    ground (arith, emit-ne-nil fuel (n / 10) ((b'0' + n % 10) ∷ out) (cons-ne-nil _ _))

itoa-ne-nil : (n : ℕ) → itoa n ≢ []
unfolding itoa
itoa-ne-nil n = ground (arith, emit-ne-nil n (n / 10) ((b'0' + n % 10) ∷ []) (cons-ne-nil _ _))

-- Every byte of the print is a digit.
pub itoa-IsDigit : (n : ℕ) → All IsDigit (itoa n)
unfolding itoa
itoa-IsDigit n = emit-IsDigit (suc n) n [] tt

atoi_digits :
    (s : Bytes) (n : ℕ)
    → s ≢ []
    → All IsDigit s
    → n ≤ max_int
    → scan s 0 ≡ ok n
    → atoi s ≡ ok (pos n)
unfolding atoi
atoi_digits [] n h d fits e = absurd (h refl)
atoi_digits (c ∷ s) n h d fits e = ground arith

-- Every length that an int can hold is read back from its decimal print.
pub atoi-itoa : (n : ℕ) → n ≤ max_int → atoi (itoa n) ≡ ok (pos n)
atoi-itoa n h =
    atoi_digits (itoa n) n (itoa-ne-nil n) (itoa-IsDigit n) h
      (unfold itoa in scan-emit (suc n) n [] (omega arith) (omega arith) ∙ unfold scan in refl)
