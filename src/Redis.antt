-- ===== src/Redis.antt =====
-- redis/client.go: the commands and the answers on the connection. The bytes that the server still
-- sends are the state of a read.
pub mod Commands
pub mod Nesting
pub mod Client
pub mod Topics
pub mod Subscriptions
pub mod Pongs
pub mod Liveliness
use core_runner.Common.{
  ℕ, zero, suc, ◌+◌, ◌-◌, List, [], ◌∷◌, ◌++◌, Bytes, codes, Outcome, ok, err, panic, Error, eof,
  text, index_range, makeslice_range, Run, next, pure, ◌>>=◌, length, take, drop, replicate, ltb,
  ◌==◌, if◌then◌else◌,
}
use core_runner.Common.Decimal.{ℤ, pos, negsuc, itoa, atoi}
use core_runner.Common.Sink.{Write, ◌>>◌, if_nil, return_nil}
use core_runner.Worker.Pipe.{newline}
use core_runner.Worker.Pipe.Read.{read_string, from_outcome}
use core_runner.Binary.Parse.{make_bytes}

abbrev pub crlf : Bytes
crlf = b'\r' ∷ b'\n' ∷ []

module _ {W : Type 0} (put : Bytes → Write W) where
  -- `for _, str := range args`
  unfoldable pub write_args : List Bytes → Write W
  write_args [] = return_nil
  write_args (str ∷ args) = do
    put (b'$' ∷ (itoa (length str) ++ crlf))
    put str
    put crlf
    write_args args

  -- write, on a connection.
  unfoldable pub write_command : List Bytes → Write W
  write_command args = do put (b'*' ∷ (itoa (length args) ++ crlf)); write_args args

-- str[:len(str)-2]
unfoldable pub cut_line : Bytes → Outcome Bytes
cut_line str = if ltb (length str) 2 then panic index_range else ok (take (length str - 2) str)

-- reader.Discard
unfoldable pub discard : ℕ → Run Bytes (Unit {0})
discard n r = if ltb (length r) n then (err eof, []) else (ok tt, drop n r)

-- reader.Read into a buffer of `n` zeros: `copied` says how many bytes one call copies.
unfoldable pub read_once : (ℕ → Bytes → ℕ) → ℕ → Run Bytes Bytes
read_once copied n r =
    let k = copied n r in
    if n == 0
    then (ok [], r)
    else if length r == 0
    then (err eof, r)
    else (ok (take k r ++ replicate (n - k) 0), drop k r)

-- The case of `$`, behind Atoi.
unfoldable pub read_bulk : (ℕ → Bytes → ℕ) → List Bytes → ℤ → Run Bytes (List Bytes)
read_bulk copied result (negsuc zero) = pure (result ++ [] ∷ [])
read_bulk copied result (negsuc (suc n)) = from_outcome (panic makeslice_range)
read_bulk copied result (pos blen) = do
  made ← make_bytes blen
  buf ← read_once copied blen
  discarded ← discard 2
  pure (result ++ buf ∷ [])

-- `for i := 0; i < cmdlen; i++`, with the number of rounds that are left.
unfoldable pub read_items :
    (List Bytes → Run Bytes (List Bytes)) → ℕ → List Bytes → Run Bytes (List Bytes)
read_items read zero result = pure result
read_items read (suc n) result = do r ← read result; read_items read n r

unfoldable pub read_array :
    (List Bytes → Run Bytes (List Bytes)) → List Bytes → ℤ → Run Bytes (List Bytes)
read_array read result (pos cmdlen) = read_items read cmdlen result
read_array read result (negsuc n) = pure result

-- The cases of readResponse by the first byte of the line.
unfoldable pub read_typed :
    (ℕ → Bytes → ℕ)
    → (List Bytes → Run Bytes (List Bytes))
    → Bytes
    → List Bytes
    → Run Bytes (List Bytes)
read_typed copied read [] result r = (panic index_range, r)
read_typed copied read (c ∷ str) result r =
    if c == b'-'
    then (err (text (codes "from redis: " ++ str)), r)
    else if c == b'+'
    then (ok (result ++ str ∷ []), r)
    else if c == b':'
    then (ok (result ++ str ∷ []), r)
    else if c == b'$'
    then (from_outcome (atoi str) >>= read_bulk copied result) r
    else if c == b'*'
    then (from_outcome (atoi str) >>= read_array read result) r
    else (err (text (codes "undefined type of answer: " ++ (c ∷ str) ++ codes ".")), r)

-- readResponse: a call takes a line off the input, so that calls are nested no deeper than there
-- are bytes.
unfoldable pub read_nested : (ℕ → Bytes → ℕ) → ℕ → List Bytes → Run Bytes (List Bytes)
read_nested copied zero result = from_outcome (err eof)
read_nested copied (suc fuel) result = do
  str ← read_string newline
  line ← from_outcome (cut_line str)
  read_typed copied (read_nested copied fuel) line result

unfoldable pub read_response : (ℕ → Bytes → ℕ) → List Bytes → Run Bytes (List Bytes)
read_response copied result r = read_nested copied (suc (length r)) result r
