-- ===== src/Crc/Division.antt =====
-- The division that a CRC stands for, one binary digit at a time: the reference for common/src/crc.c.
use native.Mathlib.Decide.{dec_lt}
use native.Mathlib.Nat.{pow-suc, add-suc, mul-le-mul_right}
use bplib.Common.{
  ℕ, zero, suc, ◌+◌, ◌-◌, ◌*◌, ◌^◌, ◌≤◌, ◌<◌, ◌≡◌, refl, sym, ap, ap₂, ◌∙◌, List, [], ◌∷◌, arith,
  ltb, bit_xor, if◌then◌else◌, if_true, if_false,
}
use bplib.Common.Masks.{bit_xor-lt}
use bplib.Common.Bits.{bit_xor_cancel}
use bplib.Common.Xor.{
  bit_xor_assoc, bit_xor_comm, bit_xor_double, bit_xor_split, bit_xor_zero, bit_xor_zero_left,
  bit_xor_both, bit_xor_swap, bit_xor_ones, scale_suc, le_scale, scale_double, pow_add,
}

-- The width is `k + 8`, and the generator is `poly` with its leading one.
module _ (k poly : ℕ) where
  abbrev generator : ℕ
  generator = 2 ^ (k + 8) + poly

  -- One more digit of the dividend, a zero, comes down.
  unfoldable pub divide_bit : ℕ → ℕ
  divide_bit x = if ltb x (2 ^ (k + 7)) then x * 2 else bit_xor (x * 2) generator

  unfoldable pub divide_bits : ℕ → ℕ → ℕ
  unfolding divide_bit
  divide_bits zero x = x
  divide_bits (suc n) x = divide_bits n (divide_bit x)

  -- The remainder after some bytes.
  unfoldable pub divide : ℕ → List ℕ → ℕ
  unfolding divide_bits
  divide x [] = x
  divide x (byte ∷ rest) = divide (divide_bits 8 (bit_xor x (byte * 2 ^ k))) rest

  full : 2 ^ (k + 8) ≡ 2 ^ (k + 7) * 2
  full = ap (λ (t : ℕ). 2 ^ t) (add-suc k 7) ∙ pow-suc 2 (k + 7)

  pub divide_bit_low : (x : ℕ) → x < 2 ^ (k + 7) → divide_bit x ≡ x * 2
  unfolding divide_bit
  divide_bit_low x low = if_true {b = ltb x (2 ^ (k + 7))} _ (ground arith)

  pub divide_bit_high : (x : ℕ) → 2 ^ (k + 7) ≤ x → divide_bit x ≡ bit_xor (x * 2) generator
  unfolding divide_bit
  divide_bit_high x high = if_false {b = ltb x (2 ^ (k + 7))} _ (ground arith)

  pub divide_bit-lt : (x : ℕ) → poly < 2 ^ (k + 8) → x < 2 ^ (k + 8) → divide_bit x < 2 ^ (k + 8)
  divide_bit-lt x p h = elim (dec_lt x (2 ^ (k + 7))) [
    | yes low ↦ omega (arith, divide_bit_low x low, full)
    | no high ↦
        let r = x * 2 - 2 ^ (k + 8) in
        let whole : x * 2 ≡ 2 ^ (k + 8) + r = omega (arith, full) in
        omega (
          arith,
          divide_bit_high x (omega arith),
          ap (λ (t : ℕ). bit_xor t generator) whole,
          bit_xor_ones (k + 8) r poly (omega (arith, full)) p,
          bit_xor-lt (k + 8) r poly (omega (arith, full)) p,
        )
  ]

  -- Of two words exactly one of which has its highest digit, so has the `^`.
  one_high : (x y : ℕ) → 2 ^ (k + 7) ≤ x → y < 2 ^ (k + 7) → 2 ^ (k + 7) ≤ bit_xor x y
  one_high x y high low = elim (dec_lt (bit_xor x y) (2 ^ (k + 7))) [
    | yes small ↦
        absurd (omega (arith, bit_xor-lt (k + 7) y (bit_xor x y) low small, bit_xor_cancel y x))
    | no large ↦ omega arith
  ]

  both_high :
      (x y : ℕ)
      → 2 ^ (k + 7) ≤ x
      → 2 ^ (k + 7) ≤ y
      → x < 2 ^ (k + 8)
      → y < 2 ^ (k + 8)
      → bit_xor x y < 2 ^ (k + 7)
  both_high x y high high' p q =
      let x' = x - 2 ^ (k + 7) in
      let y' = y - 2 ^ (k + 7) in
      let ex : x ≡ 2 ^ (k + 7) + x' = omega arith in
      let ey : y ≡ 2 ^ (k + 7) + y' = omega arith in
      omega (
        arith,
        ap₂ bit_xor ex ey,
        bit_xor_ones (k + 7) x' y' (omega (arith, full)) (omega (arith, full)),
        bit_xor-lt (k + 7) x' y' (omega (arith, full)) (omega (arith, full)),
      )

  divide_bit_linear :
      (x y : ℕ)
      → x < 2 ^ (k + 8)
      → y < 2 ^ (k + 8)
      → divide_bit (bit_xor x y) ≡ bit_xor (divide_bit x) (divide_bit y)
  divide_bit_linear x y p q = elim (dec_lt x (2 ^ (k + 7))) [
    | yes low ↦ elim (dec_lt y (2 ^ (k + 7))) [
      | yes low' ↦
          divide_bit_low (bit_xor x y) (bit_xor-lt (k + 7) x y low low')
          ∙ sym (bit_xor_double x y)
          ∙ sym (ap₂ bit_xor (divide_bit_low x low) (divide_bit_low y low'))
      | no high' ↦
          let above : 2 ^ (k + 7) ≤ bit_xor x y =
            omega (arith, one_high y x (omega arith) low, bit_xor_comm x y) in
          divide_bit_high (bit_xor x y) above
          ∙ ap (λ (t : ℕ). bit_xor t generator) (sym (bit_xor_double x y))
          ∙ sym (bit_xor_assoc (x * 2) (y * 2) generator)
          ∙ sym (ap₂ bit_xor (divide_bit_low x low) (divide_bit_high y (omega arith)))
    ]
    | no high ↦ elim (dec_lt y (2 ^ (k + 7))) [
      | yes low' ↦
          divide_bit_high (bit_xor x y) (one_high x y (omega arith) low')
          ∙ ap (λ (t : ℕ). bit_xor t generator) (sym (bit_xor_double x y))
          ∙ bit_xor_swap (x * 2) (y * 2) generator
          ∙ sym (ap₂ bit_xor (divide_bit_high x (omega arith)) (divide_bit_low y low'))
      | no high' ↦
          divide_bit_low (bit_xor x y) (both_high x y (omega arith) (omega arith) p q)
          ∙ sym (bit_xor_double x y)
          ∙ sym (bit_xor_both (x * 2) (y * 2) generator)
          ∙ sym (ap₂ bit_xor (divide_bit_high x (omega arith)) (divide_bit_high y (omega arith)))
    ]
  ]

  divide_bits_linear :
      (n x y : ℕ)
      → poly < 2 ^ (k + 8)
      → x < 2 ^ (k + 8)
      → y < 2 ^ (k + 8)
      → divide_bits n (bit_xor x y) ≡ bit_xor (divide_bits n x) (divide_bits n y)
  unfolding divide_bits
  divide_bits_linear zero x y small p q = refl
  divide_bits_linear (suc n) x y small p q =
      ap (divide_bits n) (divide_bit_linear x y p q)
      ∙ divide_bits_linear n (divide_bit x) (divide_bit y) small (divide_bit-lt x small p)
          (divide_bit-lt y small q)

  divide_bits_low : (n x : ℕ) → x * 2 ^ n < 2 ^ (k + 8) → divide_bits n x ≡ x * 2 ^ n
  unfolding divide_bits
  divide_bits_low zero x h = omega arith
  divide_bits_low (suc n) x h =
      let same : x * 2 * 2 ^ n ≡ x * 2 ^ suc n = omega (arith, scale_double x n, scale_suc x n) in
      let low : x < 2 ^ (k + 7) = omega (arith, h, same, le_scale (x * 2) n, full) in
      ap (divide_bits n) (divide_bit_low x low)
      ∙ divide_bits_low n (x * 2) (omega (arith, h, same))
      ∙ same

  -- A byte in front of `k` digits is divided by itself.
  pub divide_byte :
      (hi lo : ℕ)
      → poly < 2 ^ (k + 8)
      → hi < 2 ^ 8
      → lo < 2 ^ k
      → divide_bits 8 (hi * 2 ^ k + lo) ≡ bit_xor (divide_bits 8 (hi * 2 ^ k)) (lo * 2 ^ 8)
  divide_byte hi lo small p q =
      let width : 2 ^ (k + 8) ≡ 2 ^ k * 256 = pow_add k 8 in
      let bound : hi * 2 ^ k + 2 ^ k ≤ 2 ^ (k + 8) =
        omega (arith, mul-le-mul_right {m = hi + 1} {n = 256} (2 ^ k) (omega arith), width) in
      let left : hi * 2 ^ k + 0 ≡ hi * 2 ^ k = omega arith in
      let right : 0 * 2 ^ k + lo ≡ lo = omega arith in
      let parts : hi * 2 ^ k + lo ≡ bit_xor (hi * 2 ^ k) lo = omega (
        arith,
        bit_xor_split k hi 0 0 lo (omega arith) q,
        ap₂ bit_xor left right,
        bit_xor_zero_left lo,
        ap (λ (t : ℕ). t * 2 ^ k) (bit_xor_zero hi),
      ) in
      ap (divide_bits 8) parts
      ∙ divide_bits_linear 8 (hi * 2 ^ k) lo small (omega (arith, bound)) (omega (arith, width))
      ∙ ap (λ (t : ℕ). bit_xor (divide_bits 8 (hi * 2 ^ k)) t)
          (divide_bits_low 8 lo (omega (arith, width)))
