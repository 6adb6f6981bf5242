-- ===== src/Common/Sink.antt =====
-- An `io.Writer` that may fail at any call, and sequences of calls that stop at the first error.
use core_runner.Common.Lists.{flatten}
use core_runner.Common.Go.{Bytes, Error}
use mathlib.Core.Path.{◌≡◌, refl, sym, ap, ◌∙◌, fun_ext}
use mathlib.Core.Option.{Option, none, some}
use mathlib.Core.List.{List, [], ◌∷◌, ◌++◌, append_assoc, append-nil}

-- A call that writes changes the writer's state and returns an error or nil.
abbrev pub Write : Type 0 → Type 0
Write W = W → W × Option Error

abbrev pub if_nil : {W : Type 0} → W × Option Error → Write W → W × Option Error
if_nil (w, none) k = k w
if_nil (w, some e) k = (w, some e)

-- `err := a; if err != nil { return err }; b`
infixl 5 ◌>>◌
abbrev pub ◌>>◌ : {W : Type 0} → Write W → Write W → Write W
◌>>◌ m k w = if_nil (m w) k

abbrev pub return_nil : {W : Type 0} → Write W
return_nil w = (w, none)

if_nil_assoc :
    {W : Type 0} (r : W × Option Error) (f g : Write W)
    → if_nil (if_nil r f) g ≡ if_nil r (λ w. if_nil (f w) g)
if_nil_assoc (w, none) f g = refl
if_nil_assoc (w, some e) f g = refl

if_nil-return_nil : {W : Type 0} (r : W × Option Error) → if_nil r return_nil ≡ r
if_nil-return_nil (w, none) = refl
if_nil-return_nil (w, some e) = refl

pub >>_assoc : {W : Type 0} (a b c : Write W) → (a >> b) >> c ≡ (a >> (b >> c))
>>_assoc a b c = fun_ext (λ w. if_nil_assoc (a w) b c)

pub >>-return_nil : {W : Type 0} (a : Write W) → (a >> return_nil) ≡ a
>>-return_nil a = fun_ext (λ w. if_nil-return_nil (a w))

module _ {W : Type 0} (write : Bytes → Write W) where
  -- One call of the writer for each piece, until one of them fails.
  unfoldable pub write_all : List Bytes → Write W
  write_all [] = return_nil
  write_all (c ∷ cs) = do write c; write_all cs

  pub write_all-append :
      (xs ys : List Bytes) → write_all (xs ++ ys) ≡ (write_all xs >> write_all ys)
  unfolding write_all
  write_all-append [] ys = refl
  write_all-append (x ∷ xs) ys =
      ap (◌>>◌ (write x)) (write_all-append xs ys)
      ∙ sym (>>_assoc (write x) (write_all xs) (write_all ys))

  pub write_all-cons :
      (c : Bytes) (cs : List Bytes) → write_all (c ∷ cs) ≡ (write_all (c ∷ []) >> write_all cs)
  write_all-cons c cs = write_all-append (c ∷ []) cs

-- bytes.Buffer: a call appends, and never fails.
unfoldable pub buffer_write : Bytes → Write Bytes
buffer_write p buf = (buf ++ p, none)

-- Into a buffer go the pieces, one behind the other.
pub write_all-buffer :
    (cs : List Bytes) (buf : Bytes) → write_all buffer_write cs buf ≡ (buf ++ flatten cs, none)
unfolding write_all buffer_write
write_all-buffer [] buf = rw append-nil
write_all-buffer (c ∷ cs) buf = rw (write_all-buffer cs (buf ++ c), append_assoc)
