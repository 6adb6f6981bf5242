-- ===== src/Binary/Parse.antt =====
-- The parsing half of binary.go. The `io.Reader` is the bytes that are left in a buffer, as in
-- every call of a Parse method; a method's state is its receiver and the reader.
pub mod Inverse
pub mod Results
use core_runner.Common.{
  ℕ, zero, suc, ◌^◌, [], ◌++◌, Bytes, Outcome, ok, err, panic, eof, unexpected_eof, makeslice_range,
  length, take, drop, ltb, ◌==◌, if◌then◌else◌, Run, next, pure, ◌>>=◌, ◌>>◌,
}
use core_runner.Common.Maps.{Map, insert, bytes_eq}
use core_runner.Binary.Messages.{File, HttpRequest, HttpResponse, JobRequest, JobResponse}
use core_runner.Binary.Wire.{le_value}

-- The longest []byte that the Go runtime makes on a 64-bit system: 48 bits of address space.
abbrev pub max_alloc : ℕ
max_alloc = 2 ^ 48

-- io.ReadFull, with which binary.Read fills its n bytes.
unfoldable pub read_full : ℕ → Run Bytes Bytes
read_full n r =
    if n == 0
    then (ok [], r)
    else if length r == 0
    then (err eof, r)
    else if ltb (length r) n
    then (err unexpected_eof, [])
    else (ok (take n r), drop n r)

-- make([]byte, l)
unfoldable pub make_bytes : ℕ → Run Bytes (Unit {0})
make_bytes l r = if ltb max_alloc l then (panic makeslice_range, r) else (ok tt, r)

unfoldable pub parse_uint64 : Run Bytes ℕ
parse_uint64 = do res ← read_full 8; pure (le_value res)

unfoldable pub parse_bytes : Run Bytes Bytes
parse_bytes = do l ← parse_uint64; make_bytes l; read_full l

unfoldable pub parse_string : Run Bytes Bytes
parse_string = do res ← parse_bytes; pure res

-- `for i := uint64(0); i < l; i++`: the first argument is the number of rounds left.
unfoldable pub parse_string_entries : ℕ → Map Bytes Bytes → Run Bytes (Map Bytes Bytes)
parse_string_entries zero res = pure res
parse_string_entries (suc n) res = do
  k ← parse_string
  v ← parse_string
  parse_string_entries n (insert k v res)

unfoldable pub parse_string_map : Run Bytes (Map Bytes Bytes)
parse_string_map = do l ← parse_uint64; parse_string_entries l []

abbrev pub carry {ℓ} : {R : Type 0} {A : Type ℓ} → R → Outcome A × Bytes → Outcome A × (R × Bytes)
carry s (o, r) = (o, (s, r))

-- A method reads from its reader, and assigns to fields of its receiver.
abbrev pub from_reader {ℓ} : {R : Type 0} {A : Type ℓ} → Run Bytes A → Run (R × Bytes) A
from_reader p (s, r) = carry s (p r)

abbrev pub assign : {R : Type 0} → (R → R) → Run (R × Bytes) (Unit {0})
assign f (s, r) = (ok tt, (f s, r))

unfoldable pub parse_file : Run (File × Bytes) (Unit {0})
parse_file = do
  filename ← from_reader parse_string
  assign (λ f. record f { filename = filename })
  tmp_path ← from_reader parse_string
  assign (λ f. record f { tmp_path = tmp_path })
  size ← from_reader parse_uint64
  assign (λ f. record f { size = size })

-- &File{}
abbrev pub empty_file : File
empty_file = record { filename = []; tmp_path = []; size = 0 }

abbrev pub detach : Outcome (Unit {0}) × (File × Bytes) → Outcome File × Bytes
detach (ok u, (f, r)) = (ok f, r)
detach (err e, (f, r)) = (err e, r)
detach (panic p, (f, r)) = (panic p, r)

-- `f := &File{}; err = f.Parse(r)`
unfoldable pub parse_new_file : Run Bytes File
parse_new_file r = detach (parse_file (empty_file, r))

unfoldable pub parse_file_entries : ℕ → Map Bytes File → Run Bytes (Map Bytes File)
parse_file_entries zero res = pure res
parse_file_entries (suc n) res = do
  k ← parse_string
  f ← parse_new_file
  parse_file_entries n (insert k f res)

unfoldable pub parse_file_map : Run Bytes (Map Bytes File)
parse_file_map = do l ← parse_uint64; parse_file_entries l []

unfoldable pub parse_http_request : Run (HttpRequest × Bytes) (Unit {0})
parse_http_request = do
  method ← from_reader parse_string
  assign (λ hr. record hr { method = method })
  url ← from_reader parse_string
  assign (λ hr. record hr { url = url })
  headers ← from_reader parse_string_map
  assign (λ hr. record hr { headers = headers })
  body ← from_reader parse_bytes
  assign (λ hr. record hr { body = body })
  files ← from_reader parse_file_map
  assign (λ hr. record hr { files = files })
  form ← from_reader parse_string_map
  assign (λ hr. record hr { form = form })

unfoldable pub parse_http_response : Run (HttpResponse × Bytes) (Unit {0})
parse_http_response = do
  code ← from_reader parse_uint64
  assign (λ hr. record hr { status_code = code })
  headers ← from_reader parse_string_map
  assign (λ hr. record hr { headers = headers })
  body ← from_reader parse_bytes
  assign (λ hr. record hr { body = body })

unfoldable pub parse_job_request : Run (JobRequest × Bytes) (Unit {0})
parse_job_request = do
  name ← from_reader parse_string
  assign (λ jr. record jr { name = name })
  payload ← from_reader parse_bytes
  assign (λ jr. record jr { payload = payload })
  timeout ← from_reader parse_uint64
  assign (λ jr. record jr { timeout = timeout })

unfoldable pub parse_job_response : Run (JobResponse × Bytes) (Unit {0})
parse_job_response = do
  payload ← from_reader parse_bytes
  assign (λ jr. record jr { payload = payload })
