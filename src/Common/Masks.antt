-- ===== src/Common/Masks.antt =====
-- Prefix masks: j ones above k zeros, and what `&` and `^` do to the digits above the k low ones.
use Prim.Native.Nat.{
  ℕ, zero, suc, ◌+◌, ◌-◌, ◌*◌, ◌/◌, ◌%◌, ◌^◌, ◌≤◌, ◌<◌, bit_and, bit_xor, bit_xor-bitwise, differ,
}
use mathlib.Core.Path.{◌≡◌, refl, sym, ap, ◌∙◌}
use mathlib.Core.Logic.{◌↔◌}
use native.Mathlib.Omega.{arith}
use native.Mathlib.Nat.{
  pow-suc, pow-succ', one-le-pow, add-zero, add-suc, div-div-eq-div-mul, div-eq_of_lt-le, div-one,
}
use bplib.Common.Bits.{bit_and_step, bit_xor_step, differ_digits, bit_xor-half, bit_and_sixteen}

abbrev pub mask_of : ℕ → ℕ → ℕ
mask_of j zero = 2 ^ j - 1
mask_of j (suc k) = 2 * mask_of j k

pub mask_of_add : (j k : ℕ) → mask_of j k + 2 ^ k ≡ 2 ^ (j + k)
mask_of_add j zero = rw add-zero (omega (arith, one-le-pow j 2))
mask_of_add j (suc k) = rw add-suc (omega (arith, mask_of_add j k, pow-suc 2 k, pow-suc 2 (j + k)))

mask_of_mul : (j k : ℕ) → mask_of j k ≡ (2 ^ j - 1) * 2 ^ k
mask_of_mul j zero = omega arith
mask_of_mul j (suc k) = rw pow-suc (omega (arith, mask_of_mul j k))

-- `x & low_mask` is `x` for a word that fits.
pub bit_and_ones : (j x : ℕ) → x < 2 ^ j → bit_and x (2 ^ j - 1) ≡ x
bit_and_ones zero x h = let e : x ≡ 0 = omega arith in rw e
bit_and_ones (suc j) x h =
    let e : (2 ^ suc j - 1) / 2 ≡ 2 ^ j - 1 = omega (arith, pow-suc 2 j, one-le-pow j 2) in
    omega (
      arith,
      bit_and_step x (2 ^ suc j - 1),
      ap (λ (t : ℕ). bit_and (x / 2) t) e,
      pow-suc 2 j,
      one-le-pow j 2,
      bit_and_ones j (x / 2) (omega (arith, pow-suc 2 j)),
    )

div_pow_suc : (x k : ℕ) → x / 2 ^ suc k ≡ x / 2 / 2 ^ k
div_pow_suc x k = rw pow-succ' (sym (div-div-eq-div-mul x 2 (2 ^ k)))

pub bit_and-mask_of : (j k x : ℕ) → x < 2 ^ (j + k) → bit_and x (mask_of j k) ≡ x / 2 ^ k * 2 ^ k
bit_and-mask_of j zero x h = omega (arith, bit_and_ones j x (rw add-zero at h))
bit_and-mask_of j (suc k) x h =
    let e : 2 * mask_of j k / 2 ≡ mask_of j k = omega arith in
    let h' : x < 2 ^ (j + k) * 2 = rw (add-suc, pow-suc) at h in
    rw (div_pow_suc, pow-suc)
      (omega (
        arith,
        bit_and_step x (2 * mask_of j k),
        ap (λ (t : ℕ). bit_and (x / 2) t) e,
        bit_and-mask_of j k (x / 2) (omega arith),
      ))

-- A prefix mask that has at least the ones of another contains it.
pub bit_and_masks :
    (j k m : ℕ) → mask_of j k ≤ m → m < 2 ^ (j + k) → bit_and m (mask_of j k) ≡ mask_of j k
bit_and_masks j k m h l =
    rw (bit_and-mask_of j k m l, mask_of_mul)
      (ap (λ (t : ℕ). t * 2 ^ k)
        (div-eq_of_lt-le {k = 2 ^ j - 1} (2 ^ k) (rw (← mask_of_mul j k) h)
          (omega (arith, mask_of_mul j k, mask_of_add j k))))

-- Two words have no differing digit exactly when they are equal.
bit_xor-eq-zero_fuel : (n a b : ℕ) → a ≤ n → (bit_xor a b ≡ 0 → a ≡ b) × (bit_xor a a ≡ 0)
bit_xor-eq-zero_fuel n zero b h = (λ e. sym e ∙ bit_xor-bitwise 0 b, refl)
bit_xor-eq-zero_fuel zero (suc a) b h = absurd (omega arith)
bit_xor-eq-zero_fuel (suc n) (suc a) b h =
    let ih = bit_xor-eq-zero_fuel n (suc a / 2) (b / 2) (omega arith) in
    let d = differ_digits (suc a % 2) (b % 2) (omega arith) (omega arith) in
    (
      λ e.
          let high = ih.0 (omega (arith, bit_xor_step (suc a) b)) in
          let low = d.1 (omega (arith, bit_xor_step (suc a) b)) in omega (arith, high, low),
      omega (arith, bit_xor_step (suc a) (suc a), ih.1, d.2),
    )

pub bit_xor-eq-zero_iff : (a b : ℕ) → (bit_xor a b ≡ 0) ↔ (a ≡ b)
bit_xor-eq-zero_iff a b = (
  (bit_xor-eq-zero_fuel a a b (omega arith)).0,
  λ e. rw e (bit_xor-eq-zero_fuel b b b (omega arith)).1,
)

pub bit_xor-lt : (w a b : ℕ) → a < 2 ^ w → b < 2 ^ w → bit_xor a b < 2 ^ w
bit_xor-lt zero a b p q =
    let ea : a ≡ 0 = omega arith in let eb : b ≡ 0 = omega arith in rw (ea, eb) (omega arith)
bit_xor-lt (suc w) a b p q =
    let d = differ_digits (a % 2) (b % 2) (omega arith) (omega arith) in
    omega (
      arith,
      bit_xor_step a b,
      pow-suc 2 w,
      d.0,
      bit_xor-lt w (a / 2) (b / 2) (omega (arith, pow-suc 2 w)) (omega (arith, pow-suc 2 w)),
    )

bit_xor-div : (k a b : ℕ) → bit_xor a b / 2 ^ k ≡ bit_xor (a / 2 ^ k) (b / 2 ^ k)
bit_xor-div zero a b = rw (div-one, div-one, div-one)
bit_xor-div (suc k) a b =
    let d = differ_digits (a % 2) (b % 2) (omega arith) (omega arith) in
    let e : bit_xor a b / 2 ≡ bit_xor (a / 2) (b / 2) = omega (arith, bit_xor_step a b, d.0) in
    rw (div_pow_suc, div_pow_suc, div_pow_suc, e) (bit_xor-div k (a / 2) (b / 2))

-- Under a prefix mask two words agree exactly when the digits above its zeros are equal.
pub masked_eq_iff :
    (j k a b : ℕ)
    → a < 2 ^ (j + k)
    → b < 2 ^ (j + k)
    → (bit_and (bit_xor a b) (mask_of j k) ≡ 0) ↔ (a / 2 ^ k ≡ b / 2 ^ k)
masked_eq_iff j k a b p q =
    let and_mask = bit_and-mask_of j k (bit_xor a b) (bit_xor-lt (j + k) a b p q) in
    (
      λ e. (bit_xor-eq-zero_iff (a / 2 ^ k) (b / 2 ^ k)).0 (
          sym (bit_xor-div k a b)
          ∙ zero_of_mul _ (2 ^ k) (one-le-pow k 2 (omega arith)) (sym and_mask ∙ e)),
      λ e. and_mask ∙ rw (bit_xor-div k a b, (bit_xor-eq-zero_iff _ _).1 e) (omega arith),
    )
  where
    zero_of_mul : (x y : ℕ) → 0 < y → x * y ≡ 0 → x ≡ 0
    zero_of_mul x y h e = grind arith

-- Two words differ in the digit of weight 16 exactly if their exclusive or has it.
pub bit_xor_sixteen : (a b : ℕ) → (bit_and (bit_xor a b) 16 ≡ 0) ↔ (bit_and a 16 ≡ bit_and b 16)
bit_xor_sixteen a b =
    let div : bit_xor a b / 16 ≡ bit_xor (a / 16) (b / 16) = bit_xor-div 4 a b in
    let low = (bit_xor-half (a / 16) (b / 16)).1 in
    let digit = differ_digits (a / 16 % 2) (b / 16 % 2) (omega arith) (omega arith) in
    (
      λ e.
          let zero_digit : differ (a / 16 % 2) (b / 16 % 2) ≡ 0 =
            omega (arith, e, div, low, bit_and_sixteen (bit_xor a b)) in
          omega (arith, digit.1 zero_digit, bit_and_sixteen a, bit_and_sixteen b),
      λ e.
          let same : a / 16 % 2 ≡ b / 16 % 2 =
            omega (arith, bit_and_sixteen a, bit_and_sixteen b) in
          let zero_digit : differ (a / 16 % 2) (b / 16 % 2) ≡ 0 =
            ap (λ (t : ℕ). differ (a / 16 % 2) t) (sym same) ∙ digit.2 in
          omega (arith, div, low, zero_digit, bit_and_sixteen (bit_xor a b)),
    )
