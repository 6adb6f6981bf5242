-- ===== src/Worker/Pipe/Framing.antt =====
-- What writeMsg puts on a pipe and readMsg takes off it.
use core_runner.Common.{
  ℕ, ◌≤◌, ◌≡◌, sym, ap, ◌∙◌, List, [], ◌∷◌, ◌++◌, Option, none, some, Error, Bytes, ok, ge→ltb,
  length, length-append, take, drop, arith, append_assoc, append-nil, ◌≢◌, All, flatten,
  take-append-drop, take-append_length, drop-append_length,
}
use core_runner.Common.Decimal.{itoa, max_int, IsDigit}
use core_runner.Common.Decimal.RoundTrip.{itoa-IsDigit, atoi-itoa}
use core_runner.Common.Text.{trim_suffix-append}
use core_runner.Common.Sink.{Write, write_all, ◌>>◌}
use core_runner.Worker.Pipe.{newline}
use core_runner.Worker.Pipe.Write.{write_frame, write_frame-write_all}
use core_runner.Worker.Pipe.Read.{
  split_after, read_string, read_frame, read_body, read_chunks-exactly, exactly,
}

-- The bytes of a message on the pipe.
abbrev pub frame : Bytes → Bytes
frame s = (itoa (length s) ++ newline ∷ []) ++ s

split_after-append :
    (delim : ℕ) (s rest : Bytes)
    → All (λ c. c ≢ delim) s
    → split_after delim (s ++ delim ∷ rest) ≡ some (s ++ delim ∷ [], rest)
unfolding split_after
split_after-append delim [] rest h = ground arith
split_after-append delim (c ∷ s) rest h = ground (arith, split_after-append delim s rest h.1)

pub read_string-append :
    (delim : ℕ) (s rest : Bytes)
    → All (λ c. c ≢ delim) s
    → read_string delim (s ++ delim ∷ rest) ≡ (ok (s ++ delim ∷ []), rest)
unfolding read_string
read_string-append delim s rest h = rw (split_after-append delim s rest h, read_string)

pub IsDigit-ne-newline : (s : Bytes) → All IsDigit s → All (λ c. c ≢ newline) s
IsDigit-ne-newline [] h = tt
IsDigit-ne-newline (c ∷ s) h = (omega arith, IsDigit-ne-newline s h.1)

-- The header is read as the length, whatever follows.
read_frame-header :
    (n : ℕ) (r : Bytes) → n ≤ max_int → read_frame (itoa n ++ newline ∷ r) ≡ exactly n [] r
unfolding read_frame
read_frame-header n r h =
    rw
      (
        read_string-append newline (itoa n) r (IsDigit-ne-newline (itoa n) (itoa-IsDigit n)),
        trim_suffix-append (itoa n) (newline ∷ []),
        atoi-itoa n h,
      )
      (unfold read_body in read_chunks-exactly n n [] r (omega arith))

-- A message on the pipe, and more behind it.
frame_split : (s rest : Bytes) → frame s ++ rest ≡ itoa (length s) ++ newline ∷ (s ++ rest)
frame_split s rest = simp append_assoc

exactly-append : (s rest : Bytes) → exactly (length s) [] (s ++ rest) ≡ (ok s, rest)
exactly-append s rest = rw (
  take-append_length s rest,
  drop-append_length s rest,
  ge→ltb (length (s ++ rest)) (length s) (omega (arith, length-append s rest)),
)

-- bufio.Writer over a pipe that takes all it is given: the bytes on the pipe, and those that still
-- wait in the buffer.
pub record Buffered : Type 0 where
  pub sent : Bytes
  pub waiting : Bytes

-- When the buffer spills to the pipe, and how much, is left open: `spill`, by the buffer's length.
module _ (spill : ℕ → ℕ) where
  unfoldable pub buffered_write : Bytes → Write Buffered
  buffered_write p w =
      let all = w.waiting ++ p in
      let k = spill (length all) in
      (record { sent = w.sent ++ take k all; waiting = drop k all }, none)

-- Flush
unfoldable pub buffered_flush : Write Buffered
buffered_flush w = (record { sent = w.sent ++ w.waiting; waiting = [] }, none)

abbrev flushed : Bytes → Buffered × Option Error
flushed sent = (record { sent = sent; waiting = [] }, none)

module _ (spill : ℕ → ℕ) where
  buffered_write_joins :
      (p : Bytes) (w : Buffered)
      → let w' = (buffered_write spill p w).0 in w'.sent ++ w'.waiting ≡ (w.sent ++ w.waiting) ++ p
  unfolding buffered_write
  buffered_write_joins p w =
      let k = spill (length (w.waiting ++ p)) in
      append_assoc w.sent (take k (w.waiting ++ p)) (drop k (w.waiting ++ p))
      ∙ ap (◌++◌ w.sent) (take-append-drop k (w.waiting ++ p))
      ∙ sym (append_assoc w.sent w.waiting p)

  write_all-flushed :
      (cs : List Bytes) (w : Buffered)
      → (write_all (buffered_write spill) cs >> buffered_flush) w
        ≡ flushed ((w.sent ++ w.waiting) ++ flatten cs)
  unfolding write_all buffered_write buffered_flush
  write_all-flushed [] w = rw append-nil
  write_all-flushed (c ∷ cs) w =
      let w' = (buffered_write spill c w).0 in
      write_all-flushed cs w'
      ∙ ap (λ (b : Bytes). flushed (b ++ flatten cs)) (buffered_write_joins c w)
      ∙ ap flushed (append_assoc (w.sent ++ w.waiting) c (flatten cs))

-- What writeMsg puts on the pipe is its message's frame and nothing else, none of it left in the
-- buffer, whatever the buffer spills on the way; and readMsg takes the message off the pipe as it
-- was and leaves what follows it, for every message whose length is an int.
pub read-write_frame :
    (spill : ℕ → ℕ) (s sent rest : Bytes)
    → length s ≤ max_int
    → (write_frame (buffered_write spill) buffered_flush s (record { sent = sent; waiting = [] })
        ≡ (record { sent = sent ++ frame s; waiting = [] }, none))
      × (read_frame (frame s ++ rest) ≡ (ok s, rest))
read-write_frame spill s sent rest h = (
  let (cs, e, whole, _) = write_frame-write_all (buffered_write spill) buffered_flush s in
      rw (e, write_all-flushed spill, append-nil sent)
        (ap (λ (b : Bytes). flushed (sent ++ ((itoa (length s) ++ newline ∷ []) ++ b))) whole),
  rw (frame_split s rest, read_frame-header (length s) (s ++ rest) h) (exactly-append s rest),
)
