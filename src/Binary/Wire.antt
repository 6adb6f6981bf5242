-- ===== src/Binary/Wire.antt =====
-- The format of binary.go, stated apart from its code: what a value looks like on the wire.
-- A uint64 is eight bytes, lowest first; a string is its length and its bytes; a map is the number
-- of its entries and the entries, key before value.
use core_runner.Common.{
  ℕ, zero, suc, ◌+◌, ◌*◌, ◌/◌, ◌%◌, ◌^◌, ◌<◌, ◌≡◌, refl, List, [], ◌∷◌, ◌++◌, arith, Bytes, length,
  All, IsByte,
}
use core_runner.Common.Maps.{Map}
use core_runner.Binary.Messages.{File, HttpRequest, HttpResponse, JobRequest, JobResponse}
use native.Mathlib.Nat.{pow-suc}

unfoldable pub le_bytes : ℕ → ℕ → Bytes
le_bytes zero v = []
le_bytes (suc n) v = (v % 256) ∷ le_bytes n (v / 256)

unfoldable pub le_value : Bytes → ℕ
le_value [] = 0
le_value (b ∷ bs) = b + 256 * le_value bs

pub length-le_bytes : (n v : ℕ) → length (le_bytes n v) ≡ n
unfolding le_bytes
length-le_bytes zero v = refl
length-le_bytes (suc n) v = omega (arith, length-le_bytes n (v / 256))

pub le_value-le_bytes : (n v : ℕ) → v < 256 ^ n → le_value (le_bytes n v) ≡ v
unfolding le_bytes le_value
le_value-le_bytes zero v h = omega arith
le_value-le_bytes (suc n) v h = omega (arith, le_value-le_bytes n (v / 256) (omega arith))

pub le_value-lt : (bs : Bytes) → All IsByte bs → le_value bs < 256 ^ length bs
unfolding le_value
le_value-lt [] h = omega arith
le_value-lt (b ∷ bs) h = omega (arith, le_value-lt bs h.1, pow-suc 256 (length bs))

pub le_bytes-le_value : (bs : Bytes) → All IsByte bs → le_bytes (length bs) (le_value bs) ≡ bs
unfolding le_bytes le_value
le_bytes-le_value [] h = refl
le_bytes-le_value (b ∷ bs) h = ground (arith, le_bytes-le_value bs h.1)

-- Each format is the list of the pieces that one after another make up the bytes.
abbrev pub uint64_chunks : ℕ → List Bytes
uint64_chunks v = le_bytes 8 v ∷ []

abbrev pub bytes_chunks : Bytes → List Bytes
bytes_chunks s = le_bytes 8 (length s) ∷ s ∷ []

abbrev pub file_chunks : File → List Bytes
file_chunks f = bytes_chunks f.filename ++ (bytes_chunks f.tmp_path ++ uint64_chunks f.size)

abbrev pub entries_chunks : {V : Type 0} → (V → List Bytes) → Map Bytes V → List Bytes
entries_chunks value [] = []
entries_chunks value ((k, v) ∷ m) = bytes_chunks k ++ (value v ++ entries_chunks value m)

abbrev pub map_chunks : {V : Type 0} → (V → List Bytes) → Map Bytes V → List Bytes
map_chunks value m = le_bytes 8 (length m) ∷ entries_chunks value m

abbrev pub string_map_chunks : Map Bytes Bytes → List Bytes
string_map_chunks = map_chunks bytes_chunks

abbrev pub file_map_chunks : Map Bytes File → List Bytes
file_map_chunks = map_chunks file_chunks

abbrev pub http_request_chunks : HttpRequest → List Bytes
http_request_chunks hr =
    bytes_chunks hr.method
    ++ (bytes_chunks hr.url
        ++ (string_map_chunks hr.headers
            ++ (bytes_chunks hr.body ++ (file_map_chunks hr.files ++ string_map_chunks hr.form))))

abbrev pub http_response_chunks : HttpResponse → List Bytes
http_response_chunks hr =
    uint64_chunks hr.status_code ++ (string_map_chunks hr.headers ++ bytes_chunks hr.body)

abbrev pub job_request_chunks : JobRequest → List Bytes
job_request_chunks jr =
    bytes_chunks jr.name ++ (bytes_chunks jr.payload ++ uint64_chunks jr.timeout)

abbrev pub job_response_chunks : JobResponse → List Bytes
job_response_chunks jr = bytes_chunks jr.payload
