-- ===== src/Tests/Uuid.antt =====
-- util.go, NewUUID4, on given random bytes.
use core_runner.Common.{◌+◌, ◌%◌, ◌≡◌, refl, [], ◌∷◌, ◌++◌, Bytes, codes, length, arith}
use core_runner.Uuid.{hex_digit, hex, set_byte, set_version, uuid4}
use core_runner.Uuid.Text.{digits_of, unhex, unhex-uuid4}

abbrev first_six : Bytes
first_six = 0 ∷ 17 ∷ 34 ∷ 51 ∷ 68 ∷ 85 ∷ []

abbrev last_seven : Bytes
last_seven = 153 ∷ 170 ∷ 187 ∷ 204 ∷ 221 ∷ 238 ∷ 255 ∷ []

text :
    uuid4 (first_six ++ 102 ∷ 119 ∷ 136 ∷ last_seven) ≡ codes "00112233-4455-4677-8899-aabbccddeeff"
unfolding uuid4 set_version set_byte hex hex_digit
text = refl

-- The two bits below the variant are lost: 0xb8 and 0x88 give the same byte.
lost_bits :
    uuid4 (first_six ++ 102 ∷ 119 ∷ 0xb8 ∷ last_seven)
    ≡ uuid4 (first_six ++ 102 ∷ 119 ∷ 0x88 ∷ last_seven)
unfolding uuid4 set_version set_byte hex hex_digit
lost_bits = refl

unhex-uuid4_example :
    (unhex (digits_of (uuid4 (first_six ++ 102 ∷ 119 ∷ 136 ∷ last_seven)))
      ≡ first_six ++ (0x40 + 102 % 16) ∷ 119 ∷ (0x80 + 136 % 16) ∷ last_seven)
    × (length (uuid4 (first_six ++ 102 ∷ 119 ∷ 136 ∷ last_seven)) ≡ 36)
unhex-uuid4_example = unhex-uuid4 first_six 102 119 136 last_seven refl refl (omega arith)
