-- ===== src/Uuid/Text.antt =====
-- What the text of an identifier says.
use core_runner.Common.{
  ℕ, zero, suc, ◌+◌, ◌-◌, ◌*◌, ◌/◌, ◌%◌, ◌<◌, ◌≡◌, refl, sym, ap, ◌∙◌, Bool, true, false, ◌&&◌, [],
  ◌∷◌, ◌++◌, Bytes, take, drop, ltb, if◌then◌else◌, ◌==◌, ==_iff, length, length-append,
  length-take, length-drop, take-append-drop, drop-drop, append_assoc, append-nil, All, All-append,
  All-of_append, arith,
}
use Prim.Native.Nat.{bit_and, bit_or}
use core_runner.Uuid.{hex_digit, hex, set_byte, set_version, dash, uuid4}

abbrev pub IsByte : ℕ → Type 0
IsByte b = b < 256

-- The hexadecimal digits of a text, without the dashes.
unfoldable pub digits_of : Bytes → Bytes
digits_of [] = []
digits_of (c ∷ s) = let rest = digits_of s in if c == b'-' then rest else c ∷ rest

unfoldable pub digit_value : ℕ → ℕ
digit_value c = if ltb c b'a' then c - b'0' else c - b'a' + 10

-- The bytes that pairs of digits stand for.
unfoldable pub unhex : Bytes → Bytes
unhex [] = []
unhex (c ∷ []) = []
unhex (c ∷ d ∷ s) = (digit_value c * 16 + digit_value d) ∷ unhex s

digit_value-hex_digit : (n : ℕ) → n < 16 → digit_value (hex_digit n) ≡ n
unfolding digit_value hex_digit
digit_value-hex_digit n h = ground arith

unhex-hex : (bs : Bytes) → All IsByte bs → unhex (hex bs) ≡ bs
unfolding hex unhex
unhex-hex [] all = refl
unhex-hex (b ∷ bs) (h, all) =
    let high = digit_value-hex_digit (b / 16) (omega arith) in
    let low = digit_value-hex_digit (b % 16) (omega arith) in
    let whole : b / 16 * 16 + b % 16 ≡ b = omega arith in rw (high, low, whole, unhex-hex bs all)

hex_digit_ne_dash : (n : ℕ) → (hex_digit n == b'-') ≡ false
unfolding hex_digit
hex_digit_ne_dash n = ground arith

digits_of-hex : (bs rest : Bytes) → digits_of (hex bs ++ rest) ≡ hex bs ++ digits_of rest
unfolding hex digits_of
digits_of-hex [] rest = refl
digits_of-hex (b ∷ bs) rest =
    rw (hex_digit_ne_dash (b / 16), hex_digit_ne_dash (b % 16), digits_of-hex bs rest)

hex-append : (xs ys : Bytes) → hex (xs ++ ys) ≡ hex xs ++ hex ys
unfolding hex
hex-append [] ys = refl
hex-append (x ∷ xs) ys = ap (λ s. hex_digit (x / 16) ∷ hex_digit (x % 16) ∷ s) (hex-append xs ys)

-- Whether a test holds of every number that is smaller.
abbrev holds_under : (ℕ → Bool) → ℕ → Bool
holds_under test zero = true
holds_under test (suc bound) = holds_under test bound && test bound

holds_at :
    (test : ℕ → Bool) (bound : ℕ)
    → holds_under test bound ≡ true
    → (b : ℕ) → b < bound
    → test b ≡ true
holds_at test zero tried b small = elim small [ ]
holds_at test (suc bound) tried b small =
    let both : holds_under test bound && test bound ≡ true = tried in
    let before : holds_under test bound ≡ true = ground arith in
    ground (arith, holds_at test bound before b)

version_byte : (b : ℕ) → b < 256 → bit_or 0x40 (bit_and b 0x0f) ≡ 0x40 + b % 16
version_byte b h =
    (==_iff _ _).0 (holds_at (λ b. bit_or 0x40 (bit_and b 0x0f) == 0x40 + b % 16) 256 refl b h)

variant_byte : (b : ℕ) → b < 256 → bit_or 0x80 (bit_and b 0x0f) ≡ 0x80 + b % 16
variant_byte b h =
    (==_iff _ _).0 (holds_at (λ b. bit_or 0x80 (bit_and b 0x0f) == 0x80 + b % 16) 256 refl b h)

set_byte-append :
    (n : ℕ) (f : ℕ → ℕ) (front : Bytes) (b : ℕ) (back : Bytes)
    → length front ≡ n
    → set_byte n f (front ++ b ∷ back) ≡ front ++ f b ∷ back
unfolding set_byte
set_byte-append zero f [] b back h = refl
set_byte-append (suc n) f [] b back h = absurd (omega arith)
set_byte-append zero f (a ∷ front) b back h = absurd (omega arith)
set_byte-append (suc n) f (a ∷ front) b back h =
    ap (◌∷◌ a) (set_byte-append n f front b back (omega arith))

-- The bytes in order, with the version and the variant set.
abbrev versioned : Bytes → ℕ → ℕ → ℕ → Bytes → Bytes
versioned front b6 b7 b8 back = front ++ (0x40 + b6 % 16) ∷ b7 ∷ (0x80 + b8 % 16) ∷ back

set_version-append :
    (front : Bytes) (b6 b7 b8 : ℕ) (back : Bytes)
    → length front ≡ 6
    → b6 < 256
    → b8 < 256
    → set_version (front ++ b6 ∷ b7 ∷ b8 ∷ back) ≡ versioned front b6 b7 b8 back
unfolding set_version
set_version-append front b6 b7 b8 back six small6 small8 =
    let new : ℕ = 0x40 + b6 % 16 in
    let near : length (front ++ new ∷ b7 ∷ []) ≡ 8 =
      omega (arith, length-append front (new ∷ b7 ∷ [])) in
    let split : (l : Bytes) → (front ++ new ∷ b7 ∷ []) ++ l ≡ front ++ new ∷ b7 ∷ l =
      λ l. append_assoc front (new ∷ b7 ∷ []) l in
    rw
      (
        set_byte-append 6 (λ b. bit_or 0x40 (bit_and b 0x0f)) front b6 (b7 ∷ b8 ∷ back) six,
        version_byte b6 small6,
        ← split (b8 ∷ back),
        set_byte-append 8 (λ b. bit_or 0x80 (bit_and b 0x0f)) (front ++ new ∷ b7 ∷ []) b8 back near,
        variant_byte b8 small8,
      )
      (split ((0x80 + b8 % 16) ∷ back))

-- Two pieces of a list that lie next to each other.
join : (m n : ℕ) (s : Bytes) → take n (drop m s) ++ drop (m + n) s ≡ drop m s
join m n s = ap (◌++◌ (take n (drop m s))) (sym (drop-drop m n s)) ∙ take-append-drop n (drop m s)

-- The digits of the five groups are those of the bytes.
groups :
    (buf : Bytes)
    → hex (take 4 buf)
        ++ (hex (take 2 (drop 4 buf))
            ++ (hex (take 2 (drop 6 buf)) ++ (hex (take 2 (drop 8 buf)) ++ hex (drop 10 buf))))
      ≡ hex buf
groups buf =
    rw
      (
        ← hex-append (take 2 (drop 8 buf)) (drop 10 buf),
        join 8 2 buf,
        ← hex-append (take 2 (drop 6 buf)) (drop 8 buf),
        join 6 2 buf,
        ← hex-append (take 2 (drop 4 buf)) (drop 6 buf),
        join 4 2 buf,
        ← hex-append (take 4 buf) (drop 4 buf),
      )
      (ap hex (take-append-drop 4 buf))

digits_of-dash : (bs rest : Bytes) → digits_of (hex bs ++ dash rest) ≡ hex bs ++ digits_of rest
digits_of-dash bs rest = digits_of-hex bs (dash rest) ∙ (unfold digits_of in refl)

digits_of_all : (bs : Bytes) → digits_of (hex bs) ≡ hex bs
digits_of_all bs =
    ap digits_of (sym (append-nil (hex bs)))
    ∙ digits_of-hex bs []
    ∙ (unfold digits_of in append-nil (hex bs))

digits_of-uuid4 : (random : Bytes) → digits_of (uuid4 random) ≡ hex (set_version random)
unfolding uuid4
digits_of-uuid4 random =
    let buf = set_version random in
    rw
      (
        digits_of-dash (take 4 buf) _,
        digits_of-dash (take 2 (drop 4 buf)) _,
        digits_of-dash (take 2 (drop 6 buf)) _,
        digits_of-dash (take 2 (drop 8 buf)) _,
        digits_of_all (drop 10 buf),
      )
      (groups buf)

length-hex : (bs : Bytes) → length (hex bs) ≡ 2 * length bs
unfolding hex
length-hex [] = refl
length-hex (b ∷ bs) = omega (arith, length-hex bs)

length-dash : (bs rest : Bytes) → length (hex bs ++ dash rest) ≡ 2 * length bs + suc (length rest)
length-dash bs rest = omega (arith, length-append (hex bs) (dash rest), length-hex bs)

length-uuid4 : (random : Bytes) → length (set_version random) ≡ 16 → length (uuid4 random) ≡ 36
unfolding uuid4
length-uuid4 random h =
    let buf = set_version random in
    rw
      (
        length-dash (take 4 buf) _,
        length-dash (take 2 (drop 4 buf)) _,
        length-dash (take 2 (drop 6 buf)) _,
        length-dash (take 2 (drop 8 buf)) _,
        length-hex (drop 10 buf),
        length-take 4 buf,
        length-take 2 (drop 4 buf),
        length-take 2 (drop 6 buf),
        length-take 2 (drop 8 buf),
        length-drop 4 buf,
        length-drop 6 buf,
        length-drop 8 buf,
        length-drop 10 buf,
        h,
      )
      refl

-- NewUUID4 makes a text of 36 characters, whose hexadecimal digits without the dashes stand for the
-- 16 random bytes, with the version 4 in the upper half of the seventh and 8 in the upper half of
-- the ninth, whose other bits and all other bytes are as they were drawn.
pub unhex-uuid4 :
    (front : Bytes) (b6 b7 b8 : ℕ) (back : Bytes)
    → length front ≡ 6
    → length back ≡ 7
    → All IsByte (front ++ b6 ∷ b7 ∷ b8 ∷ back)
    → let text = uuid4 (front ++ b6 ∷ b7 ∷ b8 ∷ back) in
      (unhex (digits_of text) ≡ front ++ (0x40 + b6 % 16) ∷ b7 ∷ (0x80 + b8 % 16) ∷ back)
      × (length text ≡ 36)
unhex-uuid4 front b6 b7 b8 back six seven bytes =
    let (small, (small6, (small7, (small8, rest)))) =
      All-of_append IsByte front (b6 ∷ b7 ∷ b8 ∷ back) bytes in
    let random = front ++ b6 ∷ b7 ∷ b8 ∷ back in
    let out = versioned front b6 b7 b8 back in
    let set = set_version-append front b6 b7 b8 back six small6 small8 in
    let all_small : All IsByte out =
      All-append IsByte front _ small (omega arith, (small7, (omega arith, rest))) in
    (
      ap unhex (digits_of-uuid4 random ∙ ap hex set) ∙ unhex-hex out all_small,
      length-uuid4 random (
          ap length set
          ∙ omega (arith, length-append front ((0x40 + b6 % 16) ∷ b7 ∷ (0x80 + b8 % 16) ∷ back))),
    )
