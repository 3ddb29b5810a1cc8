-- ===== src/Crc/Tests.antt =====
-- The CRCs of the usual check string, and the theorems of the CRCs at it.
use bplib.Common.{ℕ, ◌≡◌, refl, List, [], ◌∷◌, map, arith, u16}
use bplib.Crc.{
  crc_get, crc16_x25, crc32_castagnoli, digest_crc16_x25, digest_crc32_castagnoli, crc16_x25_poly,
  crc32_c_poly,
}
use bplib.Crc.Division.{divide}
use bplib.Crc.Tables.{reversed, digest-divide}

-- "123456789" in ASCII.
abbrev check_string : List ℕ
check_string = 0x31 ∷ 0x32 ∷ 0x33 ∷ 0x34 ∷ 0x35 ∷ 0x36 ∷ 0x37 ∷ 0x38 ∷ 0x39 ∷ []

check_crc16 : crc_get check_string crc16_x25 ≡ 0x906E
unfolding crc_get digest_crc16_x25
check_crc16 = refl

check_crc32 : crc_get check_string crc32_castagnoli ≡ 0xE306_9283
unfolding crc_get digest_crc32_castagnoli
check_crc32 = refl

digest-divide_example :
    (digest_crc16_x25 0xFFFF (0x31 ∷ 0x32 ∷ [])
      ≡ divide 8 crc16_x25_poly (u16 0xFFFF) (map reversed (0x31 ∷ 0x32 ∷ [])))
    × (digest_crc32_castagnoli 0xFFFF (0x31 ∷ 0x32 ∷ [])
        ≡ divide 24 crc32_c_poly 0xFFFF (map reversed (0x31 ∷ 0x32 ∷ [])))
digest-divide_example =
    digest-divide 0xFFFF (0x31 ∷ 0x32 ∷ []) (omega arith, (omega arith, tt)) (omega arith)
