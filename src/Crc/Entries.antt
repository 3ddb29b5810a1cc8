-- ===== src/Crc/Entries.antt =====
-- common/src/crc.c: the entries of the tables are remainders of the division by the generator.
use native.Mathlib.Decide.{dec_lt}
use bplib.Common.{
  ℕ, zero, suc, ◌+◌, ◌-◌, ◌*◌, ◌/◌, ◌^◌, ◌<◌, ◌≡◌, refl, ap, ap₂, ◌∙◌, arith, u32, ◌==◌, bit_and,
  bit_xor, if_true, if_false,
}
use bplib.Common.Masks.{mask_of_add, bit_and-mask_of, bit_and_ones, mask_of}
use bplib.Common.Xor.{bit_xor_split, bit_xor_ones}
use bplib.Crc.{
  byte_round, byte_rounds, precompute_crc_byte, crc16_x25_table, crc32_c_table, crc16_x25_poly,
  crc32_c_poly,
}
use bplib.Crc.Division.{divide_bits, divide_bit, divide_bit_low, divide_bit_high, divide_bit-lt}

top_digit : (x : ℕ) → x < 2 ^ 32 → bit_and x 0x8000_0000 ≡ x / 2 ^ 31 * 2 ^ 31
top_digit x h =
    let mask : 0x8000_0000 ≡ mask_of 1 31 = omega (arith, mask_of_add 1 31) in
    ap (bit_and x) mask ∙ bit_and-mask_of 1 31 x h

byte_round_lem :
    (poly x : ℕ) → poly < 2 ^ 32 → x < 2 ^ 32 → byte_round poly x ≡ divide_bit 24 poly x
unfolding byte_round
byte_round_lem poly x p h = elim (dec_lt x (2 ^ 31)) [
  | yes low ↦
      if_true {b = bit_and x 0x8000_0000 == 0} _ (ground (arith, top_digit x h))
      ∙ omega (arith, divide_bit_low 24 poly x low)
  | no high ↦
      let whole : x * 2 ≡ 2 ^ 32 + u32 (x * 2) = omega arith in
      if_false {b = bit_and x 0x8000_0000 == 0} _ (ground (arith, top_digit x h))
      ∙ omega (
        arith,
        divide_bit_high 24 poly x (omega arith),
        ap (λ (t : ℕ). bit_xor t (2 ^ 32 + poly)) whole,
        bit_xor_ones 32 (u32 (x * 2)) poly (omega arith) p,
      )
]

byte_rounds_lem :
    (n poly x : ℕ) → poly < 2 ^ 32 → x < 2 ^ 32 → byte_rounds n poly x ≡ divide_bits 24 poly n x
unfolding byte_rounds divide_bits
byte_rounds_lem zero poly x p h = refl
byte_rounds_lem (suc n) poly x p h =
    ap (byte_rounds n poly) (byte_round_lem poly x p h)
    ∙ byte_rounds_lem n poly (divide_bit 24 poly x) p (divide_bit-lt 24 poly x p h)

divide_bits-lt :
    (k n poly x : ℕ) → poly < 2 ^ (k + 8) → x < 2 ^ (k + 8) → divide_bits k poly n x < 2 ^ (k + 8)
unfolding divide_bits
divide_bits-lt k zero poly x p h = h
divide_bits-lt k (suc n) poly x p h =
    divide_bits-lt k n poly (divide_bit k poly x) p (divide_bit-lt k poly x p h)

-- A division of width 16, in the upper half of words of width 32.
divide_bit_scaled :
    (poly x : ℕ)
    → poly < 2 ^ 16
    → x < 2 ^ 16
    → divide_bit 24 (poly * 2 ^ 16) (x * 2 ^ 16) ≡ divide_bit 8 poly x * 2 ^ 16
divide_bit_scaled poly x p h = elim (dec_lt x (2 ^ 15)) [
  | yes low ↦ omega (
    arith,
    divide_bit_low 24 (poly * 2 ^ 16) (x * 2 ^ 16) (omega arith),
    divide_bit_low 8 poly x low,
  )
  | no high ↦
      let dividend : x * 2 * 2 ^ 16 + 0 ≡ x * 2 ^ 16 * 2 = omega arith in
      let divisor : (2 ^ 16 + poly) * 2 ^ 16 + 0 ≡ 2 ^ 32 + poly * 2 ^ 16 = omega arith in
      omega (
        arith,
        divide_bit_high 24 (poly * 2 ^ 16) (x * 2 ^ 16) (omega arith),
        divide_bit_high 8 poly x (omega arith),
        bit_xor_split 16 (x * 2) (2 ^ 16 + poly) 0 0 (omega arith) (omega arith),
        ap₂ bit_xor dividend divisor,
      )
]

divide_bits_scaled :
    (n poly x : ℕ)
    → poly < 2 ^ 16
    → x < 2 ^ 16
    → divide_bits 24 (poly * 2 ^ 16) n (x * 2 ^ 16) ≡ divide_bits 8 poly n x * 2 ^ 16
unfolding divide_bits
divide_bits_scaled zero poly x p h = refl
divide_bits_scaled (suc n) poly x p h =
    ap (divide_bits 24 (poly * 2 ^ 16) n) (divide_bit_scaled poly x p h)
    ∙ divide_bits_scaled n poly (divide_bit 8 poly x) p (divide_bit-lt 8 poly x p h)

pub entry16 :
    (b : ℕ)
    → b < 2 ^ 8
    → (crc16_x25_table b < 2 ^ 16)
      × (crc16_x25_table b ≡ divide_bits 8 crc16_x25_poly 8 (b * 2 ^ 8))
unfolding crc16_x25_table precompute_crc_byte
entry16 b h =
    let d = divide_bits 8 crc16_x25_poly 8 (b * 2 ^ 8) in
    let word : d < 2 ^ 16 =
      divide_bits-lt 8 8 crc16_x25_poly (b * 2 ^ 8) (omega arith) (omega arith) in
    let start : u32 (b * 2 ^ 24) ≡ b * 2 ^ 8 * 2 ^ 16 = omega arith in
    let rounds : byte_rounds 8 (crc16_x25_poly * 2 ^ 16) (u32 (b * 2 ^ 24)) ≡ d * 2 ^ 16 =
      ap (byte_rounds 8 (crc16_x25_poly * 2 ^ 16)) start
      ∙ byte_rounds_lem 8 (crc16_x25_poly * 2 ^ 16) (b * 2 ^ 8 * 2 ^ 16) (omega arith) (omega arith)
      ∙ divide_bits_scaled 8 crc16_x25_poly (b * 2 ^ 8) (omega arith) (omega arith) in
    let aligned : d * 2 ^ 16 / 2 ^ 16 ≡ d = omega arith in
    let e : crc16_x25_table b ≡ d =
      ap (λ (t : ℕ). bit_and (t / 2 ^ 16) (2 ^ 16 - 1)) rounds
      ∙ ap (λ (t : ℕ). bit_and t (2 ^ 16 - 1)) aligned
      ∙ bit_and_ones 16 d word in
    (omega (arith, e, word), e)

pub entry32 :
    (b : ℕ)
    → b < 2 ^ 8
    → (crc32_c_table b < 2 ^ 32) × (crc32_c_table b ≡ divide_bits 24 crc32_c_poly 8 (b * 2 ^ 24))
unfolding crc32_c_table precompute_crc_byte
entry32 b h =
    let start : u32 (b * 2 ^ 24) ≡ b * 2 ^ 24 = omega arith in
    let e : crc32_c_table b ≡ divide_bits 24 crc32_c_poly 8 (b * 2 ^ 24) =
      ap (byte_rounds 8 crc32_c_poly) start
      ∙ byte_rounds_lem 8 crc32_c_poly (b * 2 ^ 24) (omega arith) (omega arith) in
    (omega (arith, e, divide_bits-lt 24 8 crc32_c_poly (b * 2 ^ 24) (omega arith) (omega arith)), e)
