-- ===== src/Worker/Pipe/Read.antt =====
-- worker.go, readMsg, over the bytes that the process still writes before it closes its output.
use core_runner.Common.{
  ℕ, zero, suc, ◌+◌, ◌-◌, ◌≤◌, ◌≡◌, sym, ap, ◌∙◌, [], ◌∷◌, ◌++◌, Option, none, some, Bytes, Outcome,
  ok, err, eof, Run, next, pure, ◌>>=◌, ltb, lt→ltb, ◌==◌, if◌then◌else◌, length, length-drop, take,
  drop, arith, Bool-cases, inl, inr, append_assoc, append-nil, take_all, drop-drop,
}
use native.Mathlib.Nat.{zero-add, suc-add}
use core_runner.Common.Decimal.{ℤ, pos, negsuc, atoi}
use core_runner.Common.Text.{trim_suffix}
use core_runner.Worker.Pipe.{pipe_chunk_size, newline, min}

abbrev pub found_after : ℕ → Option (Bytes × Bytes) → Option (Bytes × Bytes)
found_after c none = none
found_after c (some (line, rest)) = some (c ∷ line, rest)

-- The bytes up to and with the first `delim`, and those behind it.
unfoldable pub split_after : ℕ → Bytes → Option (Bytes × Bytes)
split_after delim [] = none
split_after delim (c ∷ s) =
    if c == delim then some (c ∷ [], s) else found_after c (split_after delim s)

-- bufio.Reader.ReadString: io.EOF if the output ends before `delim`.
unfoldable pub read_string : ℕ → Run Bytes Bytes
read_string delim r = elim (split_after delim r) [
  | none ↦ (err eof, [])
  | some (line, rest) ↦ (ok line, rest)
]

-- io.CopyN: io.EOF if the output ends before `n` bytes.
unfoldable pub copy_n : ℕ → Run Bytes Bytes
copy_n n r = if ltb (length r) n then (err eof, []) else (ok (take n r), drop n r)

-- A result that does not depend on the state.
abbrev pub from_outcome : {S A : Type 0} → Outcome A → Run S A
from_outcome o s = (o, s)

-- `for ln > 0`: a round takes at least a byte off `ln`, so `ln` rounds are enough.
unfoldable pub read_chunks : ℕ → ℕ → Bytes → Run Bytes Bytes
read_chunks zero ln buf r = (ok buf, r)
read_chunks (suc fuel) ln buf r =
    let n = min ln pipe_chunk_size in
    let round = next (copy_n n r) (λ part. read_chunks fuel (ln - n) (buf ++ part)) in
    if ltb 0 ln then round else (ok buf, r)

-- The loop is not entered at a negative length.
unfoldable pub read_body : ℤ → Run Bytes Bytes
read_body (pos ln) = read_chunks ln ln []
read_body (negsuc n) = pure []

-- readMsg behind its test of `wrk.read`.
unfoldable pub read_frame : Run Bytes Bytes
read_frame = do
  l ← read_string newline
  ln ← from_outcome (atoi (trim_suffix l (newline ∷ [])))
  read_body ln

take_split : (m n : ℕ) (s : Bytes) → take m s ++ take n (drop m s) ≡ take (m + n) s
take_split zero n s = rw zero-add
take_split (suc m) n [] = take_all n [] (omega arith) ∙ sym (take_all (suc m + n) [] (omega arith))
take_split (suc m) n (x ∷ s) = rw suc-add (ap (◌∷◌ x) (take_split m n s))

-- What a read of just `ln` bytes behind `buf` gives.
abbrev pub exactly : ℕ → Bytes → Bytes → Outcome Bytes × Bytes
exactly ln buf r = if ltb (length r) ln then (err eof, []) else (ok (buf ++ take ln r), drop ln r)

read_round :
    (m ln : ℕ) (buf r : Bytes) (rest : Bytes → Run Bytes Bytes)
    → m ≤ ln
    → rest (take m r) (drop m r) ≡ exactly (ln - m) (buf ++ take m r) (drop m r)
    → next (copy_n m r) rest ≡ exactly ln buf r
unfolding copy_n
read_round m ln buf r rest h ih =
    let e : m + (ln - m) ≡ ln = omega arith in
    let tk : take m r ++ take (ln - m) (drop m r) ≡ take ln r =
      take_split m (ln - m) r ∙ ap (λ (n : ℕ). take n r) e in
    let dr : drop (ln - m) (drop m r) ≡ drop ln r =
      drop-drop m (ln - m) r ∙ ap (λ (n : ℕ). drop n r) e in
    elim (Bool-cases (ltb (length r) m)) [
      | inl p ↦ rw (p, lt→ltb (length r) ln (ground arith))
      | inr p ↦ rw (p, ih, dr, append_assoc, tk) (ground (arith, length-drop m r))
    ]

-- Whatever the chunks, the loop takes just `ln` bytes, or finds the end of the output.
pub read_chunks-exactly :
    (fuel ln : ℕ) (buf r : Bytes) → ln ≤ fuel → read_chunks fuel ln buf r ≡ exactly ln buf r
unfolding read_chunks
read_chunks-exactly zero zero buf r h = ground (arith, append-nil buf)
read_chunks-exactly zero (suc ln) buf r h = absurd (omega arith)
read_chunks-exactly (suc fuel) zero buf r h = ground (arith, append-nil buf)
read_chunks-exactly (suc fuel) (suc ln) buf r h =
    let m = min (suc ln) pipe_chunk_size in
    rw (lt→ltb 0 (suc ln) (omega arith)) (
      read_round m (suc ln) buf r (λ part. read_chunks fuel (suc ln - m) (buf ++ part))
        (ground arith)
        (read_chunks-exactly fuel (suc ln - m) (buf ++ take m r) (drop m r) (ground arith)))
