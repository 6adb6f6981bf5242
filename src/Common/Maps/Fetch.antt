-- ===== src/Common/Maps/Fetch.antt =====
-- m[key] where a missing key reads as the empty slice or the nil map, and membership in a slice.
use core_runner.Common.Tests.{if◌then◌else◌}
use core_runner.Common.Maps.{Key, ◌==◌, Map, lookup, insert, delete}
use core_runner.Common.Maps.Laws.{lookup-insert, lookup-delete}
use mathlib.Core.Path.{◌≡◌, refl}
use mathlib.Core.Bool.{Bool, true, false, ◌||◌}
use mathlib.Core.Option.{Option, none, some}
use mathlib.Core.List.{List, [], ◌∷◌, ◌++◌}
use native.Mathlib.Omega.{arith}

abbrev pub is_some {ℓ} : {A : Type ℓ} → Option A → Bool
is_some none = false
is_some (some a) = true

abbrev pub is_nil {ℓ} : {A : Type ℓ} → List A → Bool
is_nil [] = true
is_nil (x ∷ xs) = false

abbrev pub or_nil {ℓ} : {A : Type ℓ} → Option (List A) → List A
or_nil none = []
or_nil (some xs) = xs

module _ {ℓ} {A : Type ℓ} ⦃keys : Key A⦄ where
  unfoldable pub elem : A → List A → Bool
  elem a [] = false
  elem a (x ∷ xs) = (x == a) || elem a xs

  pub elem-append : (a : A) (xs ys : List A) → elem a (xs ++ ys) ≡ (elem a xs || elem a ys)
  unfolding elem
  elem-append a [] ys = refl
  elem-append a (x ∷ xs) ys = ground (arith, elem-append a xs ys)

  -- No entry stands twice.
  abbrev pub IsOnce : List A → Type 0
  IsOnce [] = Unit
  IsOnce (x ∷ xs) = (elem x xs ≡ false) × IsOnce xs

module _ {ℓ κ} {K : Type ℓ} {V : Type κ} ⦃keys : Key K⦄ where
  unfoldable pub fetch : K → Map K (List V) → List V
  fetch key m = or_nil (lookup key m)

  -- `if _, ok := m[key]; !ok { m[key] = make(...) }`
  unfoldable pub ensure : K → Map K (List V) → Map K (List V)
  ensure key m = if is_some (lookup key m) then m else insert key [] m

  pub fetch-insert :
      (key wanted : K) (value : List V) (m : Map K (List V))
      → fetch wanted (insert key value m) ≡ (if key == wanted then value else fetch wanted m)
  unfolding fetch
  fetch-insert key wanted value m = ground (arith, lookup-insert key wanted value m)

  pub fetch-delete :
      (key wanted : K) (m : Map K (List V))
      → fetch wanted (delete key m) ≡ (if key == wanted then [] else fetch wanted m)
  unfolding fetch
  fetch-delete key wanted m = ground (arith, lookup-delete key wanted m)

  pub fetch-ensure :
      (key wanted : K) (m : Map K (List V)) → fetch wanted (ensure key m) ≡ fetch wanted m
  unfolding fetch ensure
  fetch-ensure key wanted m =
      ground (arith, lookup-insert key wanted [] m, keys.same_iff key wanted)

  pub lookup-ensure :
      (key wanted : K) (m : Map K (List V))
      → (key == wanted) ≡ false
      → lookup wanted (ensure key m) ≡ lookup wanted m
  unfolding ensure
  lookup-ensure key wanted m h = ground (arith, lookup-insert key wanted [] m)
