-- ===== src/Binary/Parse/Inverse.antt =====
-- The parsers of binary.go read back what the format says, and leave what follows it.
use core_runner.Common.{
  ℕ, ◌≤◌, ◌<◌, ◌≡◌, refl, subst, List, [], ◌∷◌, ◌++◌, append_assoc, Bytes, ok, length, ge→ltb,
  arith, length-append, take-append_length, drop-append_length, All, IsU64, u64_mod, flatten,
}
use core_runner.Common.Maps.{Map, insert, insert_all, bytes_eq}
use core_runner.Binary.Messages.{File}
use core_runner.Binary.Wire.{
  le_bytes, length-le_bytes, le_value-le_bytes, uint64_chunks, bytes_chunks, file_chunks,
  entries_chunks, map_chunks,
}
use core_runner.Binary.Parse.{
  max_alloc, read_full, make_bytes, parse_uint64, parse_bytes, parse_string, parse_string_entries,
  parse_string_map, parse_file, parse_new_file, empty_file, parse_file_entries, parse_file_map,
}

-- Lengths that the runtime can allocate.
abbrev pub IsShort : Bytes → Type 0
IsShort s = length s ≤ max_alloc

pub read_full-append : (xs rest : Bytes) → read_full (length xs) (xs ++ rest) ≡ (ok xs, rest)
unfolding read_full
read_full-append [] rest = refl
read_full-append (x ∷ xs) rest = ground (
  arith,
  length-append xs rest,
  take-append_length (x ∷ xs) rest,
  drop-append_length (x ∷ xs) rest,
)

pub parse_uint64-append :
    (v : ℕ) (rest : Bytes) → IsU64 v → parse_uint64 (le_bytes 8 v ++ rest) ≡ (ok v, rest)
unfolding parse_uint64
parse_uint64-append v rest h =
    let e =
      subst (λ (n : ℕ). read_full n (le_bytes 8 v ++ rest) ≡ (ok (le_bytes 8 v), rest))
        (length-le_bytes 8 v) (read_full-append (le_bytes 8 v) rest) in
    rw (e, le_value-le_bytes 8 v h)

pub make_bytes_fits : (l : ℕ) (r : Bytes) → l ≤ max_alloc → make_bytes l r ≡ (ok tt, r)
unfolding make_bytes
make_bytes_fits l r h = rw (ge→ltb max_alloc l h)

-- In the lemmas below `more` is the rest of the message, and `rest` what follows it.
pub parse_bytes-flatten :
    (s : Bytes) (more : List Bytes) (rest : Bytes)
    → IsShort s
    → parse_bytes (flatten (bytes_chunks s ++ more) ++ rest) ≡ (ok s, flatten more ++ rest)
unfolding parse_bytes
parse_bytes-flatten s more rest h = rw (
  append_assoc,
  append_assoc,
  parse_uint64-append (length s) _ (omega arith),
  make_bytes_fits (length s) _ h,
  read_full-append s _,
)

pub parse_string-flatten :
    (s : Bytes) (more : List Bytes) (rest : Bytes)
    → IsShort s
    → parse_string (flatten (bytes_chunks s ++ more) ++ rest) ≡ (ok s, flatten more ++ rest)
unfolding parse_string
parse_string-flatten s more rest h = rw (parse_bytes-flatten s more rest h)

pub parse_uint64-flatten :
    (v : ℕ) (more : List Bytes) (rest : Bytes)
    → IsU64 v
    → parse_uint64 (flatten (uint64_chunks v ++ more) ++ rest) ≡ (ok v, flatten more ++ rest)
parse_uint64-flatten v more rest h = rw append_assoc (parse_uint64-append v _ h)

abbrev pub StringsFit : Map Bytes Bytes → Type 0
StringsFit m = (length m < u64_mod) × All (λ (k, v). IsShort k × IsShort v) m

abbrev pub FileFits : File → Type 0
FileFits f = IsShort f.filename × IsShort f.tmp_path × IsU64 f.size

abbrev pub FilesFit : Map Bytes File → Type 0
FilesFit m = (length m < u64_mod) × All (λ (k, f). IsShort k × FileFits f) m

parse_string_entries-flatten :
    (m res : Map Bytes Bytes) (more : List Bytes) (rest : Bytes)
    → All (λ (k, v). IsShort k × IsShort v) m
    → parse_string_entries (length m) res (flatten (entries_chunks bytes_chunks m ++ more) ++ rest)
      ≡ (ok (insert_all res m), flatten more ++ rest)
unfolding parse_string_entries insert_all
parse_string_entries-flatten [] res more rest fits = refl
parse_string_entries-flatten ((k, v) ∷ m) res more rest ((hk, hv), fits) =
    rw
      (
        parse_string-flatten k (bytes_chunks v ++ (entries_chunks bytes_chunks m ++ more)) rest hk,
        parse_string-flatten v (entries_chunks bytes_chunks m ++ more) rest hv,
      )
      (parse_string_entries-flatten m (insert k v res) more rest fits)

pub parse_string_map-flatten :
    (m : Map Bytes Bytes) (more : List Bytes) (rest : Bytes)
    → StringsFit m
    → parse_string_map (flatten (map_chunks bytes_chunks m ++ more) ++ rest)
      ≡ (ok (insert_all [] m), flatten more ++ rest)
unfolding parse_string_map
parse_string_map-flatten m more rest (few, fits) =
    rw (parse_uint64-flatten (length m) (entries_chunks bytes_chunks m ++ more) rest few)
      (parse_string_entries-flatten m [] more rest fits)

-- The receiver's old fields do not show in the result.
pub parse_file-flatten :
    (old f : File) (more : List Bytes) (rest : Bytes)
    → FileFits f
    → parse_file (old, flatten (file_chunks f ++ more) ++ rest) ≡ (ok tt, (f, flatten more ++ rest))
unfolding parse_file
parse_file-flatten old f more rest (hf, ht, hs) = rw (
  parse_string-flatten f.filename (bytes_chunks f.tmp_path ++ (uint64_chunks f.size ++ more)) rest
      hf,
  parse_string-flatten f.tmp_path (uint64_chunks f.size ++ more) rest ht,
  parse_uint64-flatten f.size more rest hs,
)

parse_file_entries-flatten :
    (m res : Map Bytes File) (more : List Bytes) (rest : Bytes)
    → All (λ (k, f). IsShort k × FileFits f) m
    → parse_file_entries (length m) res (flatten (entries_chunks file_chunks m ++ more) ++ rest)
      ≡ (ok (insert_all res m), flatten more ++ rest)
unfolding parse_file_entries insert_all parse_new_file
parse_file_entries-flatten [] res more rest fits = refl
parse_file_entries-flatten ((k, f) ∷ m) res more rest ((hk, hf), fits) =
    rw
      (
        parse_string-flatten k (file_chunks f ++ (entries_chunks file_chunks m ++ more)) rest hk,
        parse_file-flatten empty_file f (entries_chunks file_chunks m ++ more) rest hf,
      )
      (parse_file_entries-flatten m (insert k f res) more rest fits)

pub parse_file_map-flatten :
    (m : Map Bytes File) (more : List Bytes) (rest : Bytes)
    → FilesFit m
    → parse_file_map (flatten (map_chunks file_chunks m ++ more) ++ rest)
      ≡ (ok (insert_all [] m), flatten more ++ rest)
unfolding parse_file_map
parse_file_map-flatten m more rest (few, fits) =
    rw (parse_uint64-flatten (length m) (entries_chunks file_chunks m ++ more) rest few)
      (parse_file_entries-flatten m [] more rest fits)
