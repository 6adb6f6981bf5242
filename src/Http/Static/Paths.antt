-- ===== src/Http/Static/Paths.antt =====
-- The components of a path, and which of them are hidden.
use core_runner.Common.{
  ℕ, suc, ◌-◌, ◌≡◌, refl, Bool, true, false, not, ◌&&◌, List, [], ◌∷◌, ◌++◌, Bytes, codes,
  if◌then◌else◌, Bool-cases, inl, inr, arith, All, length, drop,
}
use core_runner.Common.Maps.{◌==◌, nat_eq, bytes_eq}
use core_runner.Common.Text.{contains, has_prefix, has_suffix}

abbrev push : ℕ → List Bytes → List Bytes
push c [] = (c ∷ []) ∷ []
push c (part ∷ parts) = (c ∷ part) ∷ parts

-- What stands between the slashes of a path.
unfoldable pub components : Bytes → List Bytes
components [] = [] ∷ []
components (c ∷ s) = let rest = components s in if c == b'/' then [] ∷ rest else push c rest

-- A component that does not begin with a dot: neither a hidden file, nor "." or "..".
unfoldable pub IsVisible : Bytes → Type 0
IsVisible [] = Unit
IsVisible (c ∷ part) = (c == b'.') ≡ false

-- No component that begins in `s` has a dot in front; `fresh` says that one begins with `s`.
abbrev pub is_clean : Bool → Bytes → Bool
is_clean fresh [] = true
is_clean fresh (c ∷ s) = not (fresh && (c == b'.')) && is_clean (c == b'/') s

abbrev pub ends_in_slash : Bool → Bytes → Bool
ends_in_slash fresh [] = fresh
ends_in_slash fresh (c ∷ s) = ends_in_slash (c == b'/') s

pub is_clean-append :
    (fresh : Bool) (s t : Bytes)
    → is_clean fresh (s ++ t) ≡ (is_clean fresh s && is_clean (ends_in_slash fresh s) t)
is_clean-append fresh [] t = refl
is_clean-append fresh (c ∷ s) t = ground (arith, is_clean-append (c == b'/') s t)

pub ends_in_slash-append :
    (fresh : Bool) (s t : Bytes)
    → ends_in_slash fresh (s ++ t) ≡ ends_in_slash (ends_in_slash fresh s) t
ends_in_slash-append fresh [] t = refl
ends_in_slash-append fresh (c ∷ s) t = ends_in_slash-append (c == b'/') s t

-- The test of the handler is enough.
pub contains-is_clean : (s : Bytes) → contains s (codes "/.") ≡ false → is_clean false s ≡ true
unfolding contains has_prefix
contains-is_clean [] h = refl
contains-is_clean (c ∷ []) h = ground arith
contains-is_clean (c ∷ d ∷ s) h = ground (arith, contains-is_clean (d ∷ s))

pub has_suffix-ends_in_slash :
    (c : ℕ) (s : Bytes) → has_suffix (c ∷ s) (codes "/") ≡ ends_in_slash (c == b'/') s
unfolding has_suffix
has_suffix-ends_in_slash c [] = ground arith
has_suffix-ends_in_slash c (d ∷ s) =
    let shorter : suc (suc (length s)) - 1 ≡ suc (suc (length s) - 1) = omega arith in
    rw shorter (ground (arith, has_suffix-ends_in_slash d s))

All-push :
    (c : ℕ) (parts : List Bytes)
    → (c == b'.') ≡ false
    → All IsVisible (drop 1 parts)
    → All IsVisible (push c parts)
unfolding IsVisible
All-push c [] h visible = (h, tt)
All-push c (part ∷ parts) h visible = (h, visible)

drop-push : (c : ℕ) (parts : List Bytes) → drop 1 (push c parts) ≡ drop 1 parts
drop-push c [] = refl
drop-push c (part ∷ parts) = refl

-- Nothing is hidden in a clean path.
pub is_clean-components :
    (s : Bytes)
    → (is_clean true s ≡ true → All IsVisible (components s))
      × (is_clean false s ≡ true → All IsVisible (drop 1 (components s)))
unfolding components IsVisible
is_clean-components [] = (λ h. (tt, tt), λ h. tt)
is_clean-components (c ∷ s) =
    let ih = is_clean-components s in
    elim (Bool-cases (c == b'/')) [
      | inl p ↦ rw p (λ h. (tt, ih.0 (ground arith)), λ h. ih.0 h)
      | inr p ↦
          rw (p, drop-push c (components s))
            (λ h. All-push c (components s) (ground arith) (ih.1 (ground arith)), λ h. ih.1 h)
    ]
