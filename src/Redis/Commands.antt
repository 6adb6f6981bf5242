-- ===== src/Redis/Commands.antt =====
-- A command as the client writes it, and as readResponse reads an array of strings.
use core_runner.Common.{
  ℕ, suc, ◌+◌, ◌-◌, ◌≤◌, ◌≡◌, ◌≢◌, refl, sym, ap, ◌∙◌, subst, none, List, [], ◌∷◌, ◌++◌, Bytes, ok,
  append_assoc, append-nil, arith, All, All-append, length, ge→ltb, flatten, length-append,
  take-append_length, drop-append_length, next, pure, ◌>>=◌,
}
use core_runner.Common.Decimal.{pos, itoa, max_int}
use core_runner.Common.Decimal.RoundTrip.{itoa-IsDigit, atoi-itoa}
use core_runner.Common.Sink.{Write, write_all, buffer_write, write_all-buffer}
use core_runner.Worker.Pipe.{newline}
use core_runner.Worker.Pipe.Read.{read_string}
use core_runner.Worker.Pipe.Framing.{read_string-append, IsDigit-ne-newline}
use core_runner.Binary.Parse.Inverse.{IsShort, make_bytes_fits}
use core_runner.Redis.{
  crlf, write_args, write_command, cut_line, discard, read_once, read_bulk, read_items, read_array,
  read_typed, read_nested, read_response,
}

-- A line with a number behind its first byte.
abbrev header : ℕ → ℕ → Bytes
header c n = c ∷ (itoa n ++ crlf)

-- The pieces of the arguments, and of a command.
unfoldable pub args_chunks : List Bytes → List Bytes
args_chunks [] = []
args_chunks (str ∷ args) = header b'$' (length str) ∷ str ∷ crlf ∷ args_chunks args

unfoldable pub command_chunks : List Bytes → List Bytes
command_chunks args = header b'*' (length args) ∷ args_chunks args

module _ {W : Type 0} (put : Bytes → Write W) where
  write_args-write_all :
      (args : List Bytes) → write_args put args ≡ write_all put (args_chunks args)
  unfolding write_args args_chunks write_all
  write_args-write_all [] = refl
  write_args-write_all (str ∷ args) = rw (write_args-write_all args) refl

  -- A command is written over any connection as its count, and the length and the bytes of each of
  -- its arguments, each behind the last, up to the first error.
  pub write_command-write_all :
      (args : List Bytes) → write_command put args ≡ write_all put (command_chunks args)
  unfolding write_command command_chunks write_all
  write_command-write_all args = rw (write_args-write_all args) refl

cut_line-append : (s : Bytes) → cut_line (s ++ crlf) ≡ ok s
unfolding cut_line
cut_line-append s =
    let long : length (s ++ crlf) ≡ length s + 2 = length-append s crlf in
    let kept : length s + 2 - 2 ≡ length s = omega arith in
    rw (long, kept, take-append_length s crlf, ge→ltb (length s + 2) 2 (omega arith)) refl

read_string-header :
    (c n : ℕ) (rest : Bytes)
    → c ≢ newline
    → read_string newline (header c n ++ rest) ≡ (ok (header c n), rest)
read_string-header c n rest h =
    let line = c ∷ (itoa n ++ b'\r' ∷ []) in
    let clean : All (λ b. b ≢ newline) line = (
      h,
      All-append (λ b. b ≢ newline) (itoa n) (b'\r' ∷ [])
          (IsDigit-ne-newline (itoa n) (itoa-IsDigit n)) (omega arith, tt),
    ) in
    let split : header c n ++ rest ≡ line ++ newline ∷ rest = simp append_assoc in
    let whole : line ++ newline ∷ [] ≡ header c n = simp append_assoc in
    rw (split, read_string-append newline line rest clean, whole) refl

discard-crlf : (rest : Bytes) → discard 2 (crlf ++ rest) ≡ (ok tt, rest)
unfolding discard
discard-crlf rest = ground arith

-- The size of the buffer that bufio.NewReader makes.
abbrev pub buffer_size : ℕ
buffer_size = 4096

-- A Read copies what it is asked for as far as that is in the buffer, where `beyond` counts the bytes
-- at the end of the input that are not in it.
abbrev pub CopiesBuffered : (ℕ → Bytes → ℕ) → ℕ → Type 0
CopiesBuffered copied beyond =
    (n : ℕ) (r : Bytes) → beyond + n ≤ length r → length r ≤ beyond + buffer_size → copied n r ≡ n

module _ (copied : ℕ → Bytes → ℕ) (beyond : ℕ) (copies : CopiesBuffered copied beyond) where
  read_once-append :
      (s rest : Bytes)
      → beyond ≤ length rest
      → length (s ++ rest) ≤ beyond + buffer_size
      → read_once copied (length s) (s ++ rest) ≡ (ok s, rest)
  unfolding read_once
  read_once-append [] rest inside fits = refl
  read_once-append (c ∷ s) rest inside fits =
      let n = suc (length s) in
      let whole : copied n (c ∷ (s ++ rest)) ≡ n =
        copies n (c ∷ (s ++ rest)) (omega (arith, length-append s rest, inside)) fits in
      let none_left : n - n ≡ 0 = omega arith in
      rw (whole, none_left, take-append_length s rest, drop-append_length s rest, append-nil)
        (ground arith)

  read_bulk-append :
      (result : List Bytes) (s rest : Bytes)
      → IsShort s
      → beyond ≤ length rest
      → length (s ++ (crlf ++ rest)) ≤ beyond + buffer_size
      → read_bulk copied result (pos (length s)) (s ++ (crlf ++ rest))
        ≡ (ok (result ++ s ∷ []), rest)
  unfolding read_bulk
  read_bulk-append result s rest short inside fits =
      rw (make_bytes_fits (length s) (s ++ (crlf ++ rest)) short) (
        ap (λ o. next o (λ buf. discard 2 >>= (λ u. pure (result ++ buf ∷ []))))
          (read_once-append s (crlf ++ rest) (omega (arith, length-append crlf rest, inside)) fits)
        ∙ ap (λ o. next o (λ u. pure (result ++ s ∷ []))) (discard-crlf rest))

  -- One string, behind its header.
  read_nested-string :
      (fuel : ℕ) (result : List Bytes) (s rest : Bytes)
      → IsShort s
      → beyond ≤ length rest
      → length (s ++ (crlf ++ rest)) ≤ beyond + buffer_size
      → read_nested copied (suc fuel) result (header b'$' (length s) ++ (s ++ (crlf ++ rest)))
        ≡ (ok (result ++ s ∷ []), rest)
  unfolding read_nested read_typed
  read_nested-string fuel result s rest short inside fits =
      rw
        (
          read_string-header b'$' (length s) (s ++ (crlf ++ rest)) (omega arith),
          cut_line-append (b'$' ∷ itoa (length s)),
          atoi-itoa (length s) (omega arith),
        )
        (read_bulk-append result s rest short inside fits)

  -- The strings of an array.
  read_items-strings :
      (fuel : ℕ) (args result : List Bytes) (rest : Bytes)
      → All IsShort args
      → beyond ≤ length rest
      → length (flatten (args_chunks args) ++ rest) ≤ beyond + buffer_size
      → read_items
          (read_nested copied (suc fuel))
          (length args)
          result
          (flatten (args_chunks args) ++ rest)
        ≡ (ok (result ++ args), rest)
  unfolding read_items args_chunks
  read_items-strings fuel [] result rest short inside fits = rw append-nil refl
  read_items-strings fuel (str ∷ args) result rest (short, all_short) inside fits =
      let more = flatten (args_chunks args) ++ rest in
      let split : (header b'$' (length str) ++ (str ++ (crlf ++ flatten (args_chunks args))))
            ++ rest
          ≡ header b'$' (length str) ++ (str ++ (crlf ++ more)) =
        simp append_assoc in
      let long : beyond ≤ length more =
        omega (arith, length-append (flatten (args_chunks args)) rest, inside) in
      let behind : length (str ++ (crlf ++ more)) ≤ beyond + buffer_size = omega (
        arith,
        ap length split,
        length-append (header b'$' (length str)) (str ++ (crlf ++ more)),
        fits,
      ) in
      let tail : length more ≤ beyond + buffer_size =
        omega (arith, length-append str (crlf ++ more), length-append crlf more, behind) in
      subst
        (λ r.
          next (read_nested copied (suc fuel) result r)
            (read_items (read_nested copied (suc fuel)) (length args))
          ≡ (ok (result ++ str ∷ args), rest))
        (sym split)
        (ap (λ o. next o (read_items (read_nested copied (suc fuel)) (length args)))
            (read_nested-string fuel result str more short long behind)
          ∙ read_items-strings fuel args (result ++ str ∷ []) rest all_short inside tail
          ∙ rw append_assoc refl)

  read_nested-array :
      (fuel : ℕ) (args result : List Bytes) (rest : Bytes)
      → All IsShort args
      → length args ≤ max_int
      → beyond ≤ length rest
      → length (header b'*' (length args) ++ (flatten (args_chunks args) ++ rest))
        ≤ beyond + buffer_size
      → read_nested copied
          (suc (suc fuel))
          result
          (header b'*' (length args) ++ (flatten (args_chunks args) ++ rest))
        ≡ (ok (result ++ args), rest)
  unfolding read_nested read_typed read_array
  read_nested-array fuel args result rest short few inside fits =
      rw
        (
          read_string-header b'*' (length args) (flatten (args_chunks args) ++ rest) (omega arith),
          cut_line-append (b'*' ∷ itoa (length args)),
          atoi-itoa (length args) few,
        )
        (read_items-strings fuel args result rest short inside (
          omega (
            arith,
            length-append (header b'*' (length args)) (flatten (args_chunks args) ++ rest),
            fits,
          )))

  -- A command that write puts into a buffer is read by readResponse as the list of its arguments,
  -- behind what was read before and with the bytes behind it left. (The arguments are of lengths
  -- that the runtime can hold, and there are at most as many as an int counts; and the command and
  -- those of the bytes behind it that the reader has taken are in its buffer of 4096 bytes together,
  -- from which a Read copies what it is asked for.)
  pub read_response-write_command :
      (args result : List Bytes) (rest : Bytes)
      → All IsShort args
      → length args ≤ max_int
      → beyond ≤ length rest
      → length ((write_command buffer_write args []).0 ++ rest) ≤ beyond + buffer_size
      → let (buf, e) = write_command buffer_write args [] in
        (e ≡ none) × (read_response copied result (buf ++ rest) ≡ (ok (result ++ args), rest))
  unfolding command_chunks read_response
  read_response-write_command args result rest short few inside fits =
      let chunks : (write_command buffer_write args []).0 ≡ flatten (command_chunks args) =
        rw (write_command-write_all buffer_write args, write_all-buffer (command_chunks args) [])
          refl in
      let whole : length (header b'*' (length args) ++ (flatten (args_chunks args) ++ rest))
          ≤ beyond + buffer_size =
        subst (λ r. length r ≤ beyond + buffer_size)
          (ap (λ l. l ++ rest) chunks
            ∙ append_assoc (header b'*' (length args)) (flatten (args_chunks args)) rest)
          fits in
      rw (write_command-write_all buffer_write args, write_all-buffer (command_chunks args) [])
        (
          refl,
          ap (read_response copied result)
                (append_assoc (header b'*' (length args)) (flatten (args_chunks args)) rest)
              ∙ read_nested-array _ args result rest short few inside whole,
        )
