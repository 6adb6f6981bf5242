-- ===== src/Common/Text.antt =====
-- The functions of Go's package strings that the program uses, on byte strings.
use core_runner.Common.Tests.{leb, if◌then◌else◌}
use core_runner.Common.Lists.{
  length, length-append, take, drop, take-append_length, drop-append_length,
}
use core_runner.Common.Go.{Bytes}
use core_runner.Common.Maps.{◌==◌, ==-refl, bytes_eq}
use Prim.Native.Nat.{◌-◌}
use mathlib.Core.Path.{◌≡◌}
use mathlib.Core.Bool.{Bool, true, ◌&&◌, ◌||◌}
use mathlib.Core.List.{[], ◌∷◌, ◌++◌}
use native.Mathlib.Omega.{arith}

unfoldable pub has_prefix : Bytes → Bytes → Bool
has_prefix s prefix = take (length prefix) s == prefix

unfoldable pub has_suffix : Bytes → Bytes → Bool
has_suffix s suffix = leb (length suffix) (length s) && drop (length s - length suffix) s == suffix

unfoldable pub trim_suffix : Bytes → Bytes → Bytes
trim_suffix s suffix = if has_suffix s suffix then take (length s - length suffix) s else s

-- strings.Contains
unfoldable pub contains : Bytes → Bytes → Bool
contains [] part = part == []
contains (c ∷ s) part = has_prefix (c ∷ s) part || contains s part

length-append_sub : (s t : Bytes) → length (s ++ t) - length t ≡ length s
length-append_sub s t = omega (arith, length-append s t)

pub has_suffix-append : (s suffix : Bytes) → has_suffix (s ++ suffix) suffix ≡ true
unfolding has_suffix
has_suffix-append s suffix =
    rw (length-append_sub s suffix, drop-append_length s suffix, ==-refl suffix)
      (ground (arith, length-append s suffix))

pub trim_suffix-append : (s suffix : Bytes) → trim_suffix (s ++ suffix) suffix ≡ s
unfolding trim_suffix
trim_suffix-append s suffix =
    rw (has_suffix-append s suffix, length-append_sub s suffix) (take-append_length s suffix)
