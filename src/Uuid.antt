-- ===== src/Uuid.antt =====
-- util.go, NewUUID4: an identifier made from the 16 bytes that rand.Read gives.
pub mod Text
use core_runner.Common.{
  ℕ, zero, suc, ◌+◌, ◌-◌, ◌/◌, ◌%◌, List, [], ◌∷◌, ◌++◌, Bytes, take, drop, ltb, if◌then◌else◌,
}
use Prim.Native.Nat.{bit_and, bit_or}

unfoldable pub hex_digit : ℕ → ℕ
hex_digit n = if ltb n 10 then b'0' + n else b'a' + (n - 10)

-- `%x` of a []byte
unfoldable pub hex : Bytes → Bytes
hex [] = []
hex (b ∷ bs) = hex_digit (b / 16) ∷ hex_digit (b % 16) ∷ hex bs

-- buf[i] = f(buf[i])
unfoldable pub set_byte : ℕ → (ℕ → ℕ) → Bytes → Bytes
set_byte i f [] = []
set_byte zero f (b ∷ bs) = f b ∷ bs
set_byte (suc i) f (b ∷ bs) = b ∷ set_byte i f bs

-- buf[6] = 0x40 | (buf[6] & 0x0f); buf[8] = 0x80 | (buf[8] & 0xf)
unfoldable pub set_version : Bytes → Bytes
set_version buf =
    set_byte 8 (λ b. bit_or 0x80 (bit_and b 0x0f))
      (set_byte 6 (λ b. bit_or 0x40 (bit_and b 0x0f)) buf)

abbrev pub dash : Bytes → Bytes
dash s = b'-' ∷ s

unfoldable pub uuid4 : Bytes → Bytes
uuid4 random =
    let buf = set_version random in
    hex (take 4 buf)
    ++ dash (
        hex (take 2 (drop 4 buf))
        ++ dash (
            hex (take 2 (drop 6 buf))
            ++ dash (hex (take 2 (drop 8 buf)) ++ dash (hex (drop 10 buf)))))
