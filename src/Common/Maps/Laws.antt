-- ===== src/Common/Maps/Laws.antt =====
-- The laws of maps: reads after writes, stores in sequence, and the order of iteration.
use core_runner.Common.Tests.{if◌then◌else◌}
use core_runner.Common.Maps.{
  Key, ◌==◌, Map, lookup, insert, delete, insert_all, IsDistinct, or_else,
}
use mathlib.Core.Path.{◌≡◌, refl, sym, ◌∙◌}
use mathlib.Core.Bool.{false}
use mathlib.Core.Option.{Option, none, some}
use mathlib.Core.List.{List, [], ◌∷◌, ◌++◌, append_assoc, append-nil, Permᴰ}
use native.Mathlib.Omega.{arith}

module _ {ℓ κ} {K : Type ℓ} {V : Type κ} ⦃keys : Key K⦄ where
  -- Arguments of the lemmas: the key written, the key read.
  pub lookup-insert :
      (key wanted : K) (value : V) (entries : Map K V)
      → lookup wanted (insert key value entries)
        ≡ (if key == wanted then some value else lookup wanted entries)
  unfolding insert lookup
  lookup-insert key wanted value [] = refl
  lookup-insert key wanted value ((k, w) ∷ entries) =
      let rest = lookup-insert key wanted value entries in
      ground (arith, rest, keys.same_iff k wanted, keys.same_iff key wanted, keys.same_iff k key)

  pub lookup-delete :
      (k j : K) (m : Map K V) → lookup j (delete k m) ≡ (if k == j then none else lookup j m)
  unfolding lookup delete
  lookup-delete k j [] = ground arith
  lookup-delete k j ((i, w) ∷ m) =
      ground (arith, keys.same_iff i k, keys.same_iff k j, keys.same_iff i j, lookup-delete k j m)

  pub lookup-append :
      (j : K) (m n : Map K V) → lookup j (m ++ n) ≡ or_else (lookup j m) (lookup j n)
  unfolding lookup
  lookup-append j [] n = refl
  lookup-append j ((i, w) ∷ m) n = ground (arith, lookup-append j m n)

  -- A fresh key goes to the end.
  pub insert_fresh :
      (k : K) (v : V) (m : Map K V) → lookup k m ≡ none → insert k v m ≡ m ++ (k, v) ∷ []
  unfolding lookup insert
  insert_fresh k v [] h = refl
  insert_fresh k v ((i, w) ∷ m) h = ground (arith, insert_fresh k v m)

  pub IsDistinct-middle :
      (k : K) (v : V) (m n : Map K V) → IsDistinct (m ++ (k, v) ∷ n) → lookup k m ≡ none
  unfolding lookup
  IsDistinct-middle k v [] n d = refl
  IsDistinct-middle k v ((i, w) ∷ m) n (fresh, d) = ground (
    arith,
    keys.same_iff i k,
    keys.same_iff k i,
    lookup-append i m ((k, v) ∷ n),
    IsDistinct-middle k v m n d,
  )

  -- Entries with distinct keys are stored as they come.
  pub insert_all_distinct : (m es : Map K V) → IsDistinct (m ++ es) → insert_all m es ≡ m ++ es
  unfolding insert_all
  insert_all_distinct m [] d = sym (append-nil m)
  insert_all_distinct m ((k, v) ∷ es) d = rw (insert_fresh k v m (IsDistinct-middle k v m es d)) (
      insert_all_distinct (m ++ (k, v) ∷ []) es (rw append_assoc d)
      ∙ append_assoc m ((k, v) ∷ []) es)

  -- The value of the last entry with the key.
  unfoldable pub latest : K → List (K × V) → Option V
  latest k [] = none
  latest k ((j, v) ∷ es) = or_else (latest k es) (if j == k then some v else none)

  pub lookup-insert_all :
      (k : K) (m es : Map K V) → lookup k (insert_all m es) ≡ or_else (latest k es) (lookup k m)
  unfolding insert_all latest
  lookup-insert_all k m [] = refl
  lookup-insert_all k m ((j, v) ∷ es) =
      rw (lookup-insert_all k (insert j v m) es) (ground (arith, lookup-insert j k v m))

  insert_keeps_fresh :
      (k j : K) (v : V) (m : Map K V)
      → (k == j) ≡ false
      → lookup j m ≡ none
      → lookup j (insert k v m) ≡ none
  insert_keeps_fresh k j v m h f = ground (arith, lookup-insert k j v m)

  pub insert-IsDistinct : (k : K) (v : V) (m : Map K V) → IsDistinct m → IsDistinct (insert k v m)
  unfolding insert lookup
  insert-IsDistinct k v [] d = (refl, tt)
  insert-IsDistinct k v ((i, w) ∷ m) (fresh, d) = ground (
    arith,
    keys.same_iff i k,
    keys.same_iff k i,
    insert_keeps_fresh k i v m,
    insert-IsDistinct k v m d,
  )

  pub insert_all-IsDistinct : (m es : Map K V) → IsDistinct m → IsDistinct (insert_all m es)
  unfolding insert_all
  insert_all-IsDistinct m [] d = d
  insert_all-IsDistinct m ((k, v) ∷ es) d =
      insert_all-IsDistinct (insert k v m) es (insert-IsDistinct k v m d)

  pub delete-IsDistinct : (k : K) (m : Map K V) → IsDistinct m → IsDistinct (delete k m)
  unfolding delete
  delete-IsDistinct k [] d = tt
  delete-IsDistinct k ((i, w) ∷ m) (fresh, d) =
      ground (arith, delete-IsDistinct k m d, lookup-delete k i m)

  -- Two maps with distinct keys that are read the same.
  abbrev pub SameMap : Map K V → Map K V → Type (ℓ ⊔ κ)
  SameMap m n = IsDistinct n × ((k : K) → lookup k m ≡ lookup k n)

  cons-SameMap :
      (a : K × V) (m n : Map K V) → IsDistinct (a ∷ m) → SameMap m n → SameMap (a ∷ m) (a ∷ n)
  unfolding lookup
  cons-SameMap (i, v) m n (fresh, d) (d', same) =
      ((sym (same i) ∙ fresh, d'), λ k. ground (arith, same k))

  swap-SameMap :
      (a b : K × V) (m : Map K V) → IsDistinct (a ∷ b ∷ m) → SameMap (a ∷ b ∷ m) (b ∷ a ∷ m)
  unfolding lookup
  swap-SameMap (i, v) (j, w) m (fresh, (fresh', d)) = (
    (ground (arith, keys.same_iff i j, keys.same_iff j i), (ground (arith, keys.same_iff j i), d)),
    λ k. ground (arith, keys.same_iff i j, keys.same_iff j i, keys.same_iff i k, keys.same_iff j k),
  )

  -- The order of the entries does not show: a map is read the same in every order of iteration.
  pub lookup-perm : {m n : Map K V} → Permᴰ m n → IsDistinct m → SameMap m n
  lookup-perm Permᴰ.nil d = (tt, λ k. refl)
  lookup-perm (Permᴰ.cons {a = a} {b = b} {l₁ = l} {l₂ = l'} p t) d =
      rw (← p) (cons-SameMap a l l' d (lookup-perm t d.1))
  lookup-perm (Permᴰ.swap {a = a} {b = b} {l = l} p q) d = rw (← p, ← q) (swap-SameMap a b l d)
  lookup-perm (Permᴰ.trans s t) d =
      let (d', f) = lookup-perm s d in let (d'', g) = lookup-perm t d' in (d'', λ k. f k ∙ g k)
