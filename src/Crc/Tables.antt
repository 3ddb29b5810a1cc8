-- ===== src/Crc/Tables.antt =====
-- common/src/crc.c: the digests by table are the division by the generator, digit by digit.
use mathlib.Core.List.{reverse}
use bplib.Common.{
  ℕ, zero, suc, ◌+◌, ◌*◌, ◌/◌, ◌%◌, ◌^◌, ◌<◌, ◌≡◌, refl, sym, ap, ap₂, ◌∙◌, ◌⊎◌, inl, inr, Bool,
  true, false, ◌&&◌, List, [], ◌∷◌, map, All, arith, ltb, u16, u32, ◌==◌, ==_iff, bit_and, bit_xor,
}
use bplib.Common.Bits.{bit_and_step, bit_and-one}
use bplib.Common.Masks.{bit_xor-lt}
use bplib.Common.Xor.{bit_xor_split, bit_xor_zero}
use bplib.Crc.{
  precompute_reflection, reflect_table, crc16_x25_table, crc32_c_table, crc16_x25_poly,
  crc32_c_poly, step16, step32, generic16_impl, generic32_impl, digest_crc16_x25,
  digest_crc32_castagnoli,
}
use bplib.Crc.Entries.{entry16, entry32}
use bplib.Crc.Division.{divide_bits, divide, divide_byte}

-- Whether a test holds of all numbers below one.
all_below : ℕ → (ℕ → Bool) → Bool
all_below zero test = true
all_below (suc n) test = test n && all_below n test

both : (a b : Bool) → (a && b) ≡ true → (a ≡ true) × (b ≡ true)
both true true e = (refl, refl)
both true false e = cc
both false b e = cc

all_below-at : (n : ℕ) (test : ℕ → Bool) → all_below n test ≡ true → (i : ℕ) → i < n → test i ≡ true
unfolding all_below
all_below-at zero test e i h = absurd (omega arith)
all_below-at (suc n) test e i h = elim (last i h) [
  | inl same ↦ ap test same ∙ (both (test n) (all_below n test) e).0
  | inr below ↦ all_below-at n test (both (test n) (all_below n test) e).1 i below
]
  where
    last : (i : ℕ) → i < suc n → (i ≡ n) ⊎ (i < n)
    last i h = omega arith

-- The reflection of a byte is a byte, and reflected again it is the byte itself.
reflections :
    all_below 256 (λ b.
      ltb (precompute_reflection b) 256 && (precompute_reflection (precompute_reflection b) == b))
    ≡ true
unfolding all_below precompute_reflection
reflections = refl

-- A reflected byte is a byte, and reflecting it again gives the byte back.
precompute_reflection_involutive :
    (byte : ℕ)
    → byte < 2 ^ 8
    → (precompute_reflection byte < 2 ^ 8)
      × (precompute_reflection (precompute_reflection byte) ≡ byte)
precompute_reflection_involutive byte h =
    let (small, back) =
      both (ltb (precompute_reflection byte) 256)
        (precompute_reflection (precompute_reflection byte) == byte)
        (all_below-at 256 _ reflections byte h) in
    (ground (arith, small), (==_iff _ byte).0 back)

-- The lowest binary digits of a number, the lowest first.
pub digits : ℕ → ℕ → List ℕ
digits zero number = []
digits (suc count) number = number % 2 ∷ digits count (number / 2)

-- The number with some binary digits, the lowest first.
pub number_of : List ℕ → ℕ
number_of [] = 0
number_of (digit ∷ rest) = digit + 2 * number_of rest

-- A byte with its eight digits in reverse order.
pub reversed : ℕ → ℕ
unfolding digits number_of
reversed byte = number_of (reverse (digits 8 byte))

reversals : all_below 256 (λ b. precompute_reflection b == reversed b) ≡ true
unfolding all_below precompute_reflection reversed
reversals = refl

reflect_table-reversed : (byte : ℕ) → byte < 2 ^ 8 → reflect_table byte ≡ reversed byte
unfolding reflect_table
reflect_table-reversed byte h =
    (==_iff (precompute_reflection byte) (reversed byte)).0 (all_below-at 256 _ reversals byte h)

map-reversed :
    (bytes : List ℕ)
    → All (λ byte. byte < 2 ^ 8) bytes
    → map reflect_table bytes ≡ map reversed bytes
map-reversed [] hs = refl
map-reversed (byte ∷ rest) hs =
    ap₂ (λ (b : ℕ) (l : List ℕ). b ∷ l) (reflect_table-reversed byte hs.0) (map-reversed rest hs.1)

bit_and_byte : (a : ℕ) → a < 2 ^ 8 → bit_and a 0xFF ≡ a
bit_and_byte a h = omega (
  arith,
  bit_and_step a 255,
  bit_and_step (a / 2) 127,
  bit_and_step (a / 2 / 2) 63,
  bit_and_step (a / 2 / 2 / 2) 31,
  bit_and_step (a / 2 / 2 / 2 / 2) 15,
  bit_and_step (a / 2 / 2 / 2 / 2 / 2) 7,
  bit_and_step (a / 2 / 2 / 2 / 2 / 2 / 2) 3,
  bit_and-one (a / 2 / 2 / 2 / 2 / 2 / 2 / 2),
)

-- One step by table, on a byte that the input table makes `r`.
step16_lem :
    (input_table : ℕ → ℕ) (crc byte : ℕ)
    → crc < 2 ^ 16
    → input_table byte < 2 ^ 8
    → step16 input_table crc16_x25_table crc byte
      ≡ divide_bits 8 crc16_x25_poly 8 (bit_xor crc (input_table byte * 2 ^ 8))
unfolding step16
step16_lem input_table crc byte h h' =
    let r = input_table byte in
    let c1 = crc / 256 in
    let c0 = crc % 256 in
    let hi = bit_xor c1 r in
    let hi_byte : hi < 2 ^ 8 = bit_xor-lt 8 c1 r (omega arith) h' in
    let (word, entry) = entry16 hi hi_byte in
    let t = crc16_x25_table hi in
    let shifted : crc * 256 ≡ c1 * 2 ^ 16 + c0 * 256 = omega arith in
    let padded : 0 * 2 ^ 16 + t ≡ t = omega arith in
    let low : bit_xor t (c0 * 256) < 2 ^ 16 = bit_xor-lt 16 t (c0 * 256) word (omega arith) in
    let crc_parts : c1 * 2 ^ 8 + c0 ≡ crc = omega arith in
    let r_parts : r * 2 ^ 8 + 0 ≡ r * 2 ^ 8 = omega arith in
    let operand : bit_xor crc (r * 2 ^ 8) ≡ hi * 2 ^ 8 + c0 = omega (
      arith,
      bit_xor_split 8 c1 r c0 0 (omega arith) (omega arith),
      ap₂ bit_xor crc_parts r_parts,
      bit_xor_zero c0,
    ) in
    let by_table : u16 (bit_xor (crc16_x25_table (bit_and hi 0xFF)) (crc * 256))
        ≡ bit_xor t (c0 * 256) =
      omega (
        arith,
        ap (λ (b : ℕ). bit_xor (crc16_x25_table b) (crc * 256)) (bit_and_byte hi hi_byte),
        ap₂ bit_xor padded (sym shifted),
        bit_xor_split 16 0 c1 t (c0 * 256) word (omega arith),
        low,
      ) in
    by_table
    ∙ ap (λ (u : ℕ). bit_xor u (c0 * 256)) entry
    ∙ sym (divide_byte 8 crc16_x25_poly hi c0 (omega arith) hi_byte (omega arith))
    ∙ ap (divide_bits 8 crc16_x25_poly 8) (sym operand)

step32_lem :
    (input_table : ℕ → ℕ) (crc byte : ℕ)
    → crc < 2 ^ 32
    → input_table byte < 2 ^ 8
    → (step32 input_table crc32_c_table crc byte
        ≡ divide_bits 24 crc32_c_poly 8 (bit_xor crc (input_table byte * 2 ^ 24)))
      × (step32 input_table crc32_c_table crc byte < 2 ^ 32)
unfolding step32
step32_lem input_table crc byte h h' =
    let r = input_table byte in
    let c1 = crc / 2 ^ 24 in
    let c0 = crc % 2 ^ 24 in
    let hi = bit_xor c1 r in
    let hi_byte : hi < 2 ^ 8 = bit_xor-lt 8 c1 r (omega arith) h' in
    let (word, entry) = entry32 hi hi_byte in
    let t = crc32_c_table hi in
    let shifted : u32 (crc * 2 ^ 8) ≡ c0 * 2 ^ 8 = omega arith in
    let crc_parts : c1 * 2 ^ 24 + c0 ≡ crc = omega arith in
    let r_parts : r * 2 ^ 24 + 0 ≡ r * 2 ^ 24 = omega arith in
    let operand : bit_xor crc (r * 2 ^ 24) ≡ hi * 2 ^ 24 + c0 = omega (
      arith,
      bit_xor_split 24 c1 r c0 0 (omega arith) (omega arith),
      ap₂ bit_xor crc_parts r_parts,
      bit_xor_zero c0,
    ) in
    let by_table : bit_xor (crc32_c_table (bit_and hi 0xFF)) (u32 (crc * 2 ^ 8))
        ≡ bit_xor t (c0 * 2 ^ 8) =
      ap₂ bit_xor (ap crc32_c_table (bit_and_byte hi hi_byte)) shifted in
    (
      by_table
          ∙ ap (λ (u : ℕ). bit_xor u (c0 * 2 ^ 8)) entry
          ∙ sym (divide_byte 24 crc32_c_poly hi c0 (omega arith) hi_byte (omega arith))
          ∙ ap (divide_bits 24 crc32_c_poly 8) (sym operand),
      omega (arith, by_table, bit_xor-lt 32 t (c0 * 2 ^ 8) word (omega arith)),
    )

reflect_byte : (byte : ℕ) → byte < 2 ^ 8 → reflect_table byte < 2 ^ 8
unfolding reflect_table
reflect_byte byte h = (precompute_reflection_involutive byte h).0

generic16-divide :
    (bytes : List ℕ) (crc : ℕ)
    → All (λ byte. byte < 2 ^ 8) bytes
    → crc < 2 ^ 16
    → generic16_impl reflect_table crc16_x25_table crc bytes
      ≡ divide 8 crc16_x25_poly crc (map reflect_table bytes)
unfolding generic16_impl divide
generic16-divide [] crc hs h = refl
generic16-divide (byte ∷ rest) crc hs h =
    let next = step16 reflect_table crc16_x25_table crc byte in
    let word : next < 2 ^ 16 = unfold step16 in omega arith in
    generic16-divide rest next hs.1 word
    ∙ ap (λ (t : ℕ). divide 8 crc16_x25_poly t (map reflect_table rest))
        (step16_lem reflect_table crc byte h (reflect_byte byte hs.0))

generic32-divide :
    (bytes : List ℕ) (crc : ℕ)
    → All (λ byte. byte < 2 ^ 8) bytes
    → crc < 2 ^ 32
    → generic32_impl reflect_table crc32_c_table crc bytes
      ≡ divide 24 crc32_c_poly crc (map reflect_table bytes)
unfolding generic32_impl divide
generic32-divide [] crc hs h = refl
generic32-divide (byte ∷ rest) crc hs h =
    let (e, word) = step32_lem reflect_table crc byte h (reflect_byte byte hs.0) in
    generic32-divide rest (step32 reflect_table crc32_c_table crc byte) hs.1 word
    ∙ ap (λ (t : ℕ). divide 24 crc32_c_poly t (map reflect_table rest)) e

-- The digests by table of a buffer of bytes, from a word of their width on, are the remainders of the
-- division by the generators (0x11021 and 0x11EDC6F41), one binary digit at a time, of the bytes with
-- the eight digits of each in reverse order.
pub digest-divide :
    (crc : ℕ) (bytes : List ℕ)
    → All (λ byte. byte < 2 ^ 8) bytes
    → crc < 2 ^ 32
    → (digest_crc16_x25 crc bytes ≡ divide 8 crc16_x25_poly (u16 crc) (map reversed bytes))
      × (digest_crc32_castagnoli crc bytes ≡ divide 24 crc32_c_poly crc (map reversed bytes))
unfolding digest_crc16_x25 digest_crc32_castagnoli
digest-divide crc bytes hs h =
    let reflected = map-reversed bytes hs in
    (
      generic16-divide bytes (u16 crc) hs (omega arith)
          ∙ ap (divide 8 crc16_x25_poly (u16 crc)) reflected,
      generic32-divide bytes crc hs h ∙ ap (divide 24 crc32_c_poly crc) reflected,
    )
