-- ===== src/Common/Decimal.antt =====
-- strconv.Itoa on the lengths that the program prints, and strconv.Atoi, whose int has 64 bits.
pub mod RoundTrip
use core_runner.Common.Tests.{ltb, ◌==◌, if◌then◌else◌}
use core_runner.Common.Lists.{All}
use core_runner.Common.Go.{
  Bytes, codes, Outcome, ok, err, panic, Error, syntax_error, range_error, u64_mod,
}
use Prim.Native.Nat.{ℕ, zero, suc, ◌+◌, ◌-◌, ◌*◌, ◌/◌, ◌%◌, ◌^◌, ◌≤◌, ◌<◌}
use mathlib.Core.Path.{◌≡◌, refl}
use mathlib.Core.Bool.{Bool, true, false, ◌||◌}
use mathlib.Core.List.{List, [], ◌∷◌}

-- `negsuc n` is -(n + 1).
pub data ℤ : Type 0 where
  pos : ℕ → ℤ
  negsuc : ℕ → ℤ

-- The largest int.
abbrev pub max_int : ℕ
max_int = 2 ^ 63 - 1

-- The digits of `n` in front of `out`, the last one first.
emit : ℕ → ℕ → Bytes → Bytes
emit zero n out = out
emit (suc fuel) n out =
    let rest = emit fuel (n / 10) ((b'0' + n % 10) ∷ out) in
    if ltb n 10 then (b'0' + n) ∷ out else rest

-- A number has no more digits than `n + 1`.
unfoldable pub itoa : ℕ → Bytes
unfolding emit
itoa n = emit (suc n) n []

-- strconv.ParseUint with base 10: it stops at the first byte that is no digit, or at which the
-- number leaves the range.
scan : Bytes → ℕ → Outcome ℕ
scan [] n = ok n
scan (c ∷ s) n =
    let m = n * 10 + (c - b'0') in
    let rest = scan s m in
    if ltb c b'0' || ltb b'9' c
    then err syntax_error
    else if ltb m u64_mod
    then rest
    else err range_error

parse_digits : Bytes → Outcome ℕ
unfolding scan
parse_digits [] = err syntax_error
parse_digits (c ∷ s) = scan (c ∷ s) 0

positive : Outcome ℕ → Outcome ℤ
positive (ok n) = if ltb max_int n then err range_error else ok (pos n)
positive (err e) = err e
positive (panic p) = panic p

negate : ℕ → ℤ
negate zero = pos 0
negate (suc n) = negsuc n

negative : Outcome ℕ → Outcome ℤ
unfolding negate
negative (ok n) = if ltb (max_int + 1) n then err range_error else ok (negate n)
negative (err e) = err e
negative (panic p) = panic p

unfoldable pub atoi : Bytes → Outcome ℤ
unfolding parse_digits positive negative
atoi [] = err syntax_error
atoi (c ∷ s) =
    if c == b'-'
    then negative (parse_digits s)
    else if c == b'+'
    then positive (parse_digits s)
    else positive (parse_digits (c ∷ s))

abbrev pub IsDigit : ℕ → Type 0
IsDigit c = (b'0' ≤ c) × (c ≤ b'9')

itoa_2048 : itoa 2048 ≡ codes "2048"
unfolding itoa
itoa_2048 = refl

atoi_runs :
    (atoi (codes "-1") ≡ ok (negsuc 0))
    × (atoi (codes "9223372036854775808") ≡ err range_error)
    × (atoi (codes "12a") ≡ err syntax_error)
unfolding atoi
atoi_runs = (refl, refl, refl)
