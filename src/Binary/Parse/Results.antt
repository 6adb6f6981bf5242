-- ===== src/Binary/Parse/Results.antt =====
-- What the parsers of binary.go return is what Go can hold, whatever bytes they read.
use core_runner.Common.{
  ℕ, zero, suc, ◌+◌, ◌≤◌, ◌<◌, ◌^◌, ◌≡◌, refl, sym, subst, [], ◌∷◌, Bytes, IsByte, IsU64, u64_mod,
  Outcome, ok, err, panic, Run, next, pure, ◌>>=◌, length, length-take, take, drop, ltb,
  take-append-drop, All, All-of_append, Bool-cases, inl, inr, arith,
}
use core_runner.Common.Ensures.{Ensures, next-Ensures}
use core_runner.Common.Maps.{Map, insert, IsDistinct, ◌==◌, nat_eq, bytes_eq}
use core_runner.Common.Maps.Laws.{insert-IsDistinct}
use core_runner.Binary.Messages.{File}
use core_runner.Binary.Wire.{le_value, le_value-lt}
use core_runner.Binary.Parse.{
  max_alloc, read_full, make_bytes, parse_uint64, parse_bytes, parse_string, parse_string_entries,
  parse_string_map, parse_file, parse_new_file, detach, carry, empty_file, parse_file_entries,
  parse_file_map,
}
use core_runner.Binary.Parse.Inverse.{IsShort, FileFits}

-- After a success `P` holds of the value, and what is left in the reader are bytes.
abbrev pub Gives : {A : Type 0} → (A → Type 0) → Outcome A × Bytes → Type 0
Gives P = Ensures (λ a r. P a × All IsByte r) (λ r. Unit {0})

-- The same of a method and its receiver.
abbrev pub Leaves : {R : Type 0} → (R → Type 0) → Outcome (Unit {0}) × (R × Bytes) → Type 0
Leaves P = Ensures (λ u (s, r). P s × All IsByte r) (λ s. Unit {0})

pub next-Gives :
    {A B : Type 0} (P : A → Type 0) (Q : B → Type 0) (m : Outcome A × Bytes) (f : A → Run Bytes B)
    → Gives P m
    → ((a : A) (r : Bytes) → P a → All IsByte r → Gives Q (f a r))
    → Gives Q (next m f)
next-Gives P Q m f h k =
    next-Ensures (λ a r. P a × All IsByte r) (λ b r. Q b × All IsByte r) (λ r. Unit {0}) m f h
      (λ a r p. k a r p.0 p.1)

weaken-Gives :
    {A : Type 0} (P Q : A → Type 0) (m : Outcome A × Bytes)
    → ((a : A) → P a → Q a)
    → Gives P m
    → Gives Q m
weaken-Gives P Q (ok a, r) k (p, h) = (k a p, h)
weaken-Gives P Q (err e, r) k h = tt
weaken-Gives P Q (panic x, r) k h = tt

All-take-drop : (n : ℕ) (r : Bytes) → All IsByte r → All IsByte (take n r) × All IsByte (drop n r)
All-take-drop n r h =
    All-of_append IsByte (take n r) (drop n r)
      (subst (λ (s : Bytes). All IsByte s) (sym (take-append-drop n r)) h)

read_full-Gives :
    (n : ℕ) (r : Bytes)
    → All IsByte r
    → Gives (λ bs. (length bs ≡ n) × All IsByte bs) (read_full n r)
unfolding read_full
read_full-Gives n r h = elim (Bool-cases (n == 0)) [
  | inl none_asked ↦ rw none_asked ((ground arith, tt), h)
  | inr some_asked ↦ elim (Bool-cases (length r == 0)) [
    | inl empty ↦ rw (some_asked, empty) tt
    | inr full ↦ elim (Bool-cases (ltb (length r) n)) [
      | inl short ↦ rw (some_asked, full, short) tt
      | inr enough ↦
          let (front, back) = All-take-drop n r h in
          rw (some_asked, full, enough) ((ground (arith, length-take n r), front), back)
    ]
  ]
]

pub parse_uint64-Gives : (r : Bytes) → All IsByte r → Gives IsU64 (parse_uint64 r)
unfolding parse_uint64
parse_uint64-Gives r h =
    next-Gives (λ bs. (length bs ≡ 8) × All IsByte bs) IsU64 (read_full 8 r) _
      (read_full-Gives 8 r h)
      λ bs r' (size, bytes) h'.
        (subst (λ (n : ℕ). le_value bs < 256 ^ n) size (le_value-lt bs bytes), h')

make_bytes-Gives : (l : ℕ) (r : Bytes) → All IsByte r → Gives (λ u. l ≤ max_alloc) (make_bytes l r)
unfolding make_bytes
make_bytes-Gives l r h = elim (Bool-cases (ltb max_alloc l)) [
  | inl p ↦ rw p tt
  | inr p ↦ rw p (ground arith, h)
]

pub parse_bytes-Gives : (r : Bytes) → All IsByte r → Gives IsShort (parse_bytes r)
unfolding parse_bytes
parse_bytes-Gives r h =
    next-Gives IsU64 IsShort (parse_uint64 r) _ (parse_uint64-Gives r h) λ l r' _ h'.
      next-Gives (λ u. l ≤ max_alloc) IsShort (make_bytes l r') _ (make_bytes-Gives l r' h')
        λ u r'' fits h''.
          weaken-Gives (λ bs. (length bs ≡ l) × All IsByte bs) IsShort (read_full l r'')
            (λ bs (size, _). omega (arith, fits)) (read_full-Gives l r'' h'')

pub parse_string-Gives : (r : Bytes) → All IsByte r → Gives IsShort (parse_string r)
unfolding parse_string
parse_string-Gives r h =
    next-Gives IsShort IsShort (parse_bytes r) pure (parse_bytes-Gives r h)
      (λ s r' fits h'. (fits, h'))

module _ {V : Type 0} (P : V → Type 0) where
  -- A map with at most `n` entries, all of which fit.
  abbrev pub Holds : ℕ → Map Bytes V → Type 0
  Holds n m = (length m ≤ n) × All (λ (k, v). IsShort k × P v) m × IsDistinct m

  abbrev pub Fits : Map Bytes V → Type 0
  Fits m = ((length m < u64_mod) × All (λ (k, v). IsShort k × P v) m) × IsDistinct m

  insert-fits :
      (k : Bytes) (v : V) (m : Map Bytes V)
      → IsShort k
      → P v
      → All (λ (k, v). IsShort k × P v) m
      → All (λ (k, v). IsShort k × P v) (insert k v m)
  unfolding insert
  insert-fits k v [] short p h = ((short, p), tt)
  insert-fits k v ((j, w) ∷ m) short p ((short', q), h) = elim (Bool-cases (j == k)) [
    | inl e ↦ rw e ((short', p), h)
    | inr e ↦ rw e ((short', q), insert-fits k v m short p h)
  ]

  length-insert : (k : Bytes) (v : V) (m : Map Bytes V) → length (insert k v m) ≤ length m + 1
  unfolding insert
  length-insert k v [] = omega arith
  length-insert k v ((j, w) ∷ m) = ground (arith, length-insert k v m)

  pub insert-Holds :
      (n : ℕ) (k : Bytes) (v : V) (m : Map Bytes V)
      → IsShort k
      → P v
      → Holds n m
      → Holds (suc n) (insert k v m)
  insert-Holds n k v m short p (few, fit, once) = (
    omega (arith, length-insert k v m),
    insert-fits k v m short p fit,
    insert-IsDistinct k v m once,
  )

-- A map is read by a loop over its entries, of values that `value` reads.
module _ {V : Type 0} (P : V → Type 0) (value : Run Bytes V)
    (entries : ℕ → Map Bytes V → Run Bytes (Map Bytes V))
    (value-Gives : (r : Bytes) → All IsByte r → Gives P (value r))
    (last : (m : Map Bytes V) (r : Bytes) → entries zero m r ≡ (ok m, r))
    (round : (n : ℕ) (m : Map Bytes V) (r : Bytes)
      → entries (suc n) m r ≡ (do k ← parse_string; v ← value; entries n (insert k v m)) r) where
  entries-Gives :
      (rounds n : ℕ) (m : Map Bytes V) (r : Bytes)
      → Holds P n m
      → All IsByte r
      → Gives (Holds P (rounds + n)) (entries rounds m r)
  entries-Gives zero n m r (few, fit, once) h = rw (last m r) ((omega arith, fit, once), h)
  entries-Gives (suc rounds) n m r holds h =
      let Q = Holds P (suc rounds + n) in
      rw (round rounds m r) (
        next-Gives IsShort Q (parse_string r) _ (parse_string-Gives r h) λ k r' short h'.
          next-Gives P Q (value r') _ (value-Gives r' h') λ v r'' p h''.
            subst (λ i. Gives (Holds P i) (entries rounds (insert k v m) r'')) (omega arith)
              (entries-Gives rounds (suc n) (insert k v m) r''
                (insert-Holds P n k v m short p holds) h''))

  -- The number of entries is read before them.
  map-Gives :
      (r : Bytes) → All IsByte r → Gives (Fits P) (next (parse_uint64 r) (λ l. entries l []))
  map-Gives r h =
      next-Gives IsU64 (Fits P) (parse_uint64 r) _ (parse_uint64-Gives r h) λ l r' small h'.
        weaken-Gives (Holds P (l + 0)) (Fits P) (entries l [] r')
          (λ m (few, fit, once). ((omega (arith, small), fit), once))
          (entries-Gives l 0 [] r' (omega arith, tt, tt) h')

pub parse_string_map-Gives : (r : Bytes) → All IsByte r → Gives (Fits IsShort) (parse_string_map r)
unfolding parse_string_map parse_string_entries
parse_string_map-Gives =
    map-Gives IsShort parse_string parse_string_entries parse_string-Gives (λ m r. refl)
      (λ n m r. refl)

-- A method that reads a value, and what it does with it.
pub field-Gives :
    {R A : Type 0} (P : A → Type 0) (Q : R → Type 0) (s : R) (m : Outcome A × Bytes)
    (f : A → Run (R × Bytes) (Unit {0}))
    → Gives P m
    → ((a : A) (r : Bytes) → P a → All IsByte r → Leaves Q (f a (s, r)))
    → Leaves Q (next (carry s m) f)
field-Gives P Q s (ok a, r) f (here, bytes) more = more a r here bytes
field-Gives P Q s (err e, r) f h more = tt
field-Gives P Q s (panic x, r) f h more = tt

parse_file-Leaves : (f : File) (r : Bytes) → All IsByte r → Leaves FileFits (parse_file (f, r))
unfolding parse_file
parse_file-Leaves f r h =
    field-Gives IsShort FileFits f _ _ (parse_string-Gives r h) λ filename r short h.
      field-Gives IsShort FileFits _ _ _ (parse_string-Gives r h) λ tmp_path r short' h.
        field-Gives IsU64 FileFits _ _ _ (parse_uint64-Gives r h)
          λ size r small h. ((short, short', small), h)

detach-Gives :
    (P : File → Type 0) (m : Outcome (Unit {0}) × (File × Bytes)) → Leaves P m → Gives P (detach m)
detach-Gives P (ok u, (f, r)) h = h
detach-Gives P (err e, s) h = tt
detach-Gives P (panic x, s) h = tt

parse_new_file-Gives : (r : Bytes) → All IsByte r → Gives FileFits (parse_new_file r)
unfolding parse_new_file
parse_new_file-Gives r h =
    detach-Gives FileFits (parse_file (empty_file, r)) (parse_file-Leaves empty_file r h)

pub parse_file_map-Gives : (r : Bytes) → All IsByte r → Gives (Fits FileFits) (parse_file_map r)
unfolding parse_file_map parse_file_entries
parse_file_map-Gives =
    map-Gives FileFits parse_new_file parse_file_entries parse_new_file-Gives (λ m r. refl)
      (λ n m r. refl)
