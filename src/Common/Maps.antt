-- ===== src/Common/Maps.antt =====
-- Go maps as association lists: a key that is there is overwritten in place, a new one goes to the
-- end, and a nil map reads as the empty one. Keys are compared through the instance `Key`.
pub mod Laws
pub mod Fetch
use core_runner.Common.Tests.{◌==◌ as nat_beq, ==_iff, if◌then◌else◌, Bool-cases}
use core_runner.Common.Lists.{length, length-append, All, Has}
use core_runner.Common.Go.{Bytes}
use Prim.Native.Nat.{ℕ, suc, ◌+◌}
use mathlib.Core.Path.{◌≡◌, refl, sym, ap, ◌∙◌}
use mathlib.Core.Logic.{◌≢◌, ◌↔◌, ◌⊎◌, inl, inr}
use mathlib.Core.Bool.{Bool, true, false, ◌&&◌, not}
use mathlib.Core.Option.{Option, none, some}
use mathlib.Core.List.{List, [], ◌∷◌, ◌++◌, map}
use native.Mathlib.Omega.{arith}

-- What a map asks of the type of its keys.
pub record Key {ℓ} (K : Type ℓ) : Type ℓ where
  pub same : K → K → Bool
  pub same_iff : (k k' : K) → (same k k' ≡ true) ↔ (k ≡ k')

infix 50 ◌==◌
abbrev pub ◌==◌ {ℓ} : {K : Type ℓ} ⦃keys : Key K⦄ → K → K → Bool
◌==◌ ⦃keys⦄ k k' = keys.same k k'

abbrev pub bytes_beq : Bytes → Bytes → Bool
bytes_beq [] [] = true
bytes_beq [] (y ∷ ys) = false
bytes_beq (x ∷ xs) [] = false
bytes_beq (x ∷ xs) (y ∷ ys) = nat_beq x y && bytes_beq xs ys

bytes_beq_sound : (xs ys : Bytes) → bytes_beq xs ys ≡ true → xs ≡ ys
bytes_beq_sound [] [] h = refl
bytes_beq_sound [] (y ∷ ys) h = cc
bytes_beq_sound (x ∷ xs) [] h = cc
bytes_beq_sound (x ∷ xs) (y ∷ ys) h = ground (arith, bytes_beq_sound xs ys)

bytes_beq_refl : (xs : Bytes) → bytes_beq xs xs ≡ true
bytes_beq_refl [] = refl
bytes_beq_refl (x ∷ xs) = ground (arith, bytes_beq_refl xs)

pub bytes_beq_iff : (xs ys : Bytes) → (bytes_beq xs ys ≡ true) ↔ (xs ≡ ys)
bytes_beq_iff xs ys = (bytes_beq_sound xs ys, λ e. rw (← e) (bytes_beq_refl xs))

instance abbrev pub nat_eq : Key ℕ
nat_eq = record { same_iff = ==_iff; same = nat_beq }

instance abbrev pub bytes_eq : Key Bytes
bytes_eq = record { same_iff = bytes_beq_iff; same = bytes_beq }

module _ {ℓ} {A : Type ℓ} ⦃keys : Key A⦄ where
  pub ==-refl : (a : A) → (a == a) ≡ true
  ==-refl a = (keys.same_iff a a).1 refl

  pub ==-false : (a b : A) → a ≢ b → (a == b) ≡ false
  ==-false a b h = elim (Bool-cases (a == b)) [
    | inl p ↦ absurd (h ((keys.same_iff a b).0 p))
    | inr p ↦ p
  ]

abbrev pub Map {ℓ κ} : Type ℓ → Type κ → Type (ℓ ⊔ κ)
Map K V = List (K × V)

module _ {ℓ κ} {K : Type ℓ} {V : Type κ} ⦃keys : Key K⦄ where
  -- v, ok := m[key]
  unfoldable pub lookup : K → Map K V → Option V
  lookup key [] = none
  lookup key ((k, value) ∷ rest) =
      let found = some value in if k == key then found else lookup key rest

  -- m[key] = value
  unfoldable pub insert : K → V → Map K V → Map K V
  insert key value [] = (key, value) ∷ []
  insert key value (entry ∷ rest) =
      if entry.0 == key then (entry.0, value) ∷ rest else entry ∷ insert key value rest

  -- delete(m, k)
  unfoldable pub delete : K → Map K V → Map K V
  delete k [] = []
  delete k ((j, w) ∷ m) = if j == k then delete k m else (j, w) ∷ delete k m

  -- The entries are stored one by one, in order.
  unfoldable pub insert_all : Map K V → List (K × V) → Map K V
  insert_all m [] = m
  insert_all m ((k, v) ∷ es) = insert_all (insert k v m) es

  -- A Go map holds each key once.
  abbrev pub IsDistinct : Map K V → Type κ
  IsDistinct [] = Unit
  IsDistinct ((k, v) ∷ m) = (lookup k m ≡ none) × IsDistinct m

abbrev pub or_else {ℓ} : {A : Type ℓ} → Option A → Option A → Option A
or_else (some a) o = some a
or_else none o = o
