-- ===== src/Worker/Pipe/Write.antt =====
-- worker.go, writeMsg, over a bufio.Writer whose calls may fail.
use core_runner.Common.{
  ℕ, zero, suc, ◌+◌, ◌-◌, ◌≤◌, ◌<◌, ◌≡◌, refl, sym, ◌∙◌, List, [], ◌∷◌, ◌++◌, Bytes, ltb, ltb→lt,
  if◌then◌else◌, length, length-take, length-drop, take, drop, take_all, drop_all, drop-drop,
  take-append-drop, flatten, All, arith, Bool-cases, inl, inr,
}
use core_runner.Common.Decimal.{itoa}
use core_runner.Common.Sink.{Write, ◌>>◌, return_nil, write_all, >>_assoc}
use core_runner.Worker.Pipe.{pipe_chunk_size, newline, min}

-- data[from:to]
abbrev slice : Bytes → ℕ → ℕ → Bytes
slice s from to = take (to - from) (drop from s)

module _ {W : Type 0} (write : Bytes → Write W) (flush : Write W) where
  -- `for ptr < dlen`: `ptr` grows in every round, so `dlen` rounds are enough.
  unfoldable pub write_chunks : ℕ → Bytes → ℕ → Write W
  write_chunks zero s ptr = return_nil
  write_chunks (suc fuel) s ptr =
      let round =
        write (slice s ptr (min (ptr + pipe_chunk_size) (length s)))
        >> write_chunks fuel s (ptr + pipe_chunk_size) in
      if ltb ptr (length s) then round else return_nil

  -- writeMsg behind its test of `wrk.write`.
  unfoldable pub write_frame : Bytes → Write W
  write_frame s = do write (itoa (length s) ++ newline ∷ []); write_chunks (length s) s 0; flush

-- The chunks of a message, by what is left of it.
unfoldable pub chunks_of : ℕ → Bytes → List Bytes
chunks_of zero s = []
chunks_of (suc fuel) [] = []
chunks_of (suc fuel) (c ∷ s) =
    take pipe_chunk_size (c ∷ s) ∷ chunks_of fuel (drop pipe_chunk_size (c ∷ s))

chunk_eq :
    (s : Bytes) (ptr : ℕ)
    → ptr < length s
    → slice s ptr (min (ptr + pipe_chunk_size) (length s)) ≡ take pipe_chunk_size (drop ptr s)
chunk_eq s ptr h = elim (Bool-cases (ltb (ptr + pipe_chunk_size) (length s))) [
  | inl p ↦ let e : ptr + pipe_chunk_size - ptr ≡ pipe_chunk_size = omega arith in rw (p, e)
  | inr p ↦
      let left : length (drop ptr s) ≡ length s - ptr = length-drop ptr s in
      rw p (
        take_all (length s - ptr) (drop ptr s) (omega arith)
        ∙ sym (take_all pipe_chunk_size (drop ptr s) (ground arith)))
]

pub flatten-chunks_of : (fuel : ℕ) (s : Bytes) → length s ≤ fuel → flatten (chunks_of fuel s) ≡ s
unfolding chunks_of
flatten-chunks_of zero [] h = refl
flatten-chunks_of zero (c ∷ s) h = absurd (omega arith)
flatten-chunks_of (suc fuel) [] h = refl
flatten-chunks_of (suc fuel) (c ∷ s) h =
    rw
      (flatten-chunks_of fuel (drop pipe_chunk_size (c ∷ s))
        (omega (arith, length-drop pipe_chunk_size (c ∷ s))))
      (take-append-drop pipe_chunk_size (c ∷ s))

chunks_of_step :
    (fuel : ℕ) (s : Bytes)
    → 0 < length s
    → chunks_of (suc fuel) s ≡ take pipe_chunk_size s ∷ chunks_of fuel (drop pipe_chunk_size s)
unfolding chunks_of
chunks_of_step fuel [] h = absurd (omega arith)
chunks_of_step fuel (c ∷ s) h = refl

-- No chunk is empty or longer than PipeChunkSize.
abbrev pub IsChunk : Bytes → Type 0
IsChunk c = (0 < length c) × (length c ≤ pipe_chunk_size)

pub chunks_of-IsChunk : (fuel : ℕ) (s : Bytes) → All IsChunk (chunks_of fuel s)
unfolding chunks_of
chunks_of-IsChunk zero s = tt
chunks_of-IsChunk (suc fuel) [] = tt
chunks_of-IsChunk (suc fuel) (c ∷ s) = (
  omega (arith, length-take pipe_chunk_size (c ∷ s)),
  chunks_of-IsChunk fuel (drop pipe_chunk_size (c ∷ s)),
)

module _ {W : Type 0} (write : Bytes → Write W) (flush : Write W) where
  write_chunks-write_all :
      (fuel : ℕ) (s : Bytes) (ptr : ℕ)
      → length s ≤ ptr + fuel
      → write_chunks write flush fuel s ptr ≡ write_all write (chunks_of fuel (drop ptr s))
  unfolding write_chunks
  write_chunks-write_all zero s ptr h = unfold write_all chunks_of in refl
  write_chunks-write_all (suc fuel) s ptr h = elim (Bool-cases (ltb ptr (length s))) [
    | inl p ↦
        rw
          (
            p,
            chunk_eq s ptr (ltb→lt ptr (length s) p),
            chunks_of_step fuel (drop ptr s)
                (omega (arith, length-drop ptr s, ltb→lt ptr (length s) p)),
            drop-drop ptr pipe_chunk_size s,
            write_chunks-write_all fuel s (ptr + pipe_chunk_size) (omega arith),
          )
          (unfold write_all in refl)
    | inr p ↦ rw (p, drop_all ptr s (ground arith)) (unfold write_all chunks_of in refl)
  ]

  -- writeMsg makes one call of the writer for the header, the message's length in decimal and a
  -- line feed, then one for each of some chunks of 1 to PipeChunkSize bytes, which put together are
  -- the message, and then flushes; it stops at the first call that fails, with that call's error.
  pub write_frame-write_all :
      (s : Bytes)
      → (cs : List Bytes) × (write_frame write flush s
          ≡ (write_all write ((itoa (length s) ++ newline ∷ []) ∷ cs) >> flush))
        × (flatten cs ≡ s)
        × All IsChunk cs
  unfolding write_frame write_all
  write_frame-write_all s = (
    chunks_of (length s) s,
    rw (write_chunks-write_all (length s) s 0 (omega arith)) (
        sym (
          >>_assoc (write (itoa (length s) ++ newline ∷ []))
            (write_all write (chunks_of (length s) s)) flush)),
    flatten-chunks_of (length s) s (omega arith),
    chunks_of-IsChunk (length s) s,
  )
