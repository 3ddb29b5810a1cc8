-- ===== src/Common/Bits.antt =====
-- Laws of `&` and `^` on unsigned words at variables: one equation for the lowest digit, and what
-- follows from it by induction.
use Prim.Native.Nat.{
  ℕ, zero, suc, ◌+◌, ◌*◌, ◌/◌, ◌%◌, ◌^◌, ◌≤◌, ◌<◌, min, bit_and, bit_xor, digits, bitwise,
  bit_and-bitwise, bit_xor-bitwise, differ,
}
use mathlib.Core.Path.{◌≡◌, refl, ap, ◌∙◌}
use mathlib.Core.Logic.{◌⊎◌, inl, inr}
use native.Mathlib.Omega.{arith}
use native.Mathlib.Nat.{le_refl, pow-suc, one-le-pow}

-- The native operations are specified by `digits`, whose first number counts the rounds that it may
-- take. Rounds beyond the first operand make no difference.
module _ (alone : ℕ → ℕ) (join : ℕ → ℕ → ℕ) where
  one_more_round :
      (rounds x y : ℕ)
      → x < suc rounds
      → digits alone join (suc rounds) x y ≡ digits alone join rounds x y
  one_more_round zero (suc x) y few = absurd (omega arith)
  one_more_round (suc rounds) (suc x) y few =
      rw (one_more_round rounds (suc x / 2) (y / 2) (omega arith))
  one_more_round zero zero y few = refl
  one_more_round (suc rounds) zero y few = refl

  spare_rounds :
      (rounds x y : ℕ) → x ≤ rounds → digits alone join rounds x y ≡ bitwise alone join x y
  spare_rounds zero zero y few = refl
  spare_rounds zero (suc x) y few = absurd (omega arith)
  spare_rounds (suc rounds) x y few = elim (last x few) [
    | inl same ↦ rw same
    | inr below ↦ one_more_round rounds x y below ∙ spare_rounds rounds x y (omega arith)
  ]
    where
      last : (x : ℕ) → x ≤ suc rounds → (x ≡ suc rounds) ⊎ (x < suc rounds)
      last x few = omega arith

  -- The lowest digit of a positive operand, apart from the others.
  lowest :
      (x y : ℕ)
      → 0 < x
      → bitwise alone join x y ≡ bitwise alone join (x / 2) (y / 2) * 2 + join (x % 2) (y % 2)
  lowest zero y positive = absurd (omega arith)
  lowest (suc x) y positive =
      ap (λ (high : ℕ). high * 2 + join (suc x % 2) (y % 2))
        (spare_rounds x (suc x / 2) (y / 2) (omega arith))

pub bit_and_step : (x y : ℕ) → bit_and x y ≡ min (x % 2) (y % 2) + 2 * bit_and (x / 2) (y / 2)
bit_and_step zero y = omega (arith, bit_and-bitwise 0 y, bit_and-bitwise 0 (y / 2))
bit_and_step (suc x) y = omega (
  arith,
  bit_and-bitwise (suc x) y,
  bit_and-bitwise (suc x / 2) (y / 2),
  lowest (λ t. 0) min (suc x) y (omega arith),
)

pub bit_xor_step : (x y : ℕ) → bit_xor x y ≡ differ (x % 2) (y % 2) + 2 * bit_xor (x / 2) (y / 2)
bit_xor_step zero y =
    omega (arith, bit_xor-bitwise 0 y, bit_xor-bitwise 0 (y / 2), differ_zero (y % 2))
  where
    differ_zero : (t : ℕ) → differ 0 t ≡ t
    differ_zero t = refl
bit_xor_step (suc x) y = omega (
  arith,
  bit_xor-bitwise (suc x) y,
  bit_xor-bitwise (suc x / 2) (y / 2),
  lowest (λ t. t) differ (suc x) y (omega arith),
)

-- Binary digits.
pub differ_digits :
    (x y : ℕ) → x < 2 → y < 2 → (differ x y ≤ 1) × (differ x y ≡ 0 → x ≡ y) × (differ x x ≡ 0)
differ_digits zero zero p q = (omega arith, λ e. refl, refl)
differ_digits zero (suc zero) p q = (omega arith, λ e. absurd (omega arith), refl)
differ_digits zero (suc (suc y)) p q = absurd (omega arith)
differ_digits (suc zero) zero p q = (omega arith, λ e. absurd (omega arith), refl)
differ_digits (suc zero) (suc zero) p q = (omega arith, λ e. refl, refl)
differ_digits (suc zero) (suc (suc y)) p q = absurd (omega arith)
differ_digits (suc (suc x)) y p q = absurd (omega arith)

bit_and-zero_fuel : (n a : ℕ) → a ≤ n → (bit_and a 0 ≡ 0) × (bit_and a a ≡ a)
bit_and-zero_fuel n zero h = (refl, refl)
bit_and-zero_fuel zero (suc a) h = absurd (omega arith)
bit_and-zero_fuel (suc n) (suc a) h =
    let ih = bit_and-zero_fuel n (suc a / 2) (omega arith) in
    (omega (arith, bit_and_step (suc a) 0, ih), omega (arith, bit_and_step (suc a) (suc a), ih))

pub bit_and-zero : (a : ℕ) → bit_and a 0 ≡ 0
bit_and-zero a = (bit_and-zero_fuel a a (omega arith)).0

pub bit_and_self : (a : ℕ) → bit_and a a ≡ a
bit_and_self a = (bit_and-zero_fuel a a (omega arith)).1

bit_and-le_fuel : (n a b : ℕ) → a ≤ n → bit_and a b ≤ a
bit_and-le_fuel n zero b h = omega (arith, bit_and_zero_left b)
  where
    bit_and_zero_left : (b : ℕ) → bit_and 0 b ≡ 0
    bit_and_zero_left b = bit_and-bitwise 0 b
bit_and-le_fuel zero (suc a) b h = absurd (omega arith)
bit_and-le_fuel (suc n) (suc a) b h =
    omega (arith, bit_and_step (suc a) b, bit_and-le_fuel n (suc a / 2) (b / 2) (omega arith))

pub bit_and-le : (a b : ℕ) → bit_and a b ≤ a
bit_and-le a b = bit_and-le_fuel a a b (omega arith)

bit_and-le_right_fuel : (n a b : ℕ) → a ≤ n → bit_and a b ≤ b
bit_and-le_right_fuel n zero b h = omega (arith, bit_and-bitwise 0 b)
bit_and-le_right_fuel zero (suc a) b h = absurd (omega arith)
bit_and-le_right_fuel (suc n) (suc a) b h =
    omega (arith, bit_and_step (suc a) b, bit_and-le_right_fuel n (suc a / 2) (b / 2) (omega arith))

pub bit_and-le_right : (a b : ℕ) → bit_and a b ≤ b
bit_and-le_right a b = bit_and-le_right_fuel a a b (omega arith)

-- A word that shares no digit with its successor is all ones, and the other way round.
low_ones_fuel : (b n : ℕ) → n ≤ b → bit_and (n + 1) n ≡ 0 → (k : ℕ) × (n + 1 ≡ 2 ^ k)
low_ones_fuel b zero h e = (0, refl)
low_ones_fuel zero (suc n) h e = absurd (omega arith)
low_ones_fuel (suc b) (suc n) h e = elim (parity (suc n)) [
  | inl even ↦ absurd (
      omega (
        arith,
        bit_and_step (suc n + 1) (suc n),
        bit_and_self (suc n / 2),
        ap (λ (t : ℕ). bit_and t (suc n / 2)) (half_even (suc n) even),
      ))
  | inr odd ↦
      let e' : (suc n + 1) / 2 ≡ suc n / 2 + 1 = omega arith in
      let (k, p) = low_ones_fuel b (suc n / 2) (omega arith) (
        omega
          (arith, bit_and_step (suc n + 1) (suc n), ap (λ (t : ℕ). bit_and t (suc n / 2)) e')) in
      (suc k, omega (arith, pow-suc 2 k, p))
]
  where
    parity : (m : ℕ) → (m % 2 ≡ 0) ⊎ (m % 2 ≡ 1)
    parity m = omega arith

    half_even : (m : ℕ) → m % 2 ≡ 0 → (m + 1) / 2 ≡ m / 2
    half_even m p = omega arith

pub low_ones : (n : ℕ) → bit_and (n + 1) n ≡ 0 → (k : ℕ) × (n + 1 ≡ 2 ^ k)
low_ones n = low_ones_fuel n n (le_refl n)

pub low_ones_back : (k n : ℕ) → n + 1 ≡ 2 ^ k → bit_and (n + 1) n ≡ 0
low_ones_back zero n e = let e' : n ≡ 0 = omega arith in rw e'
low_ones_back (suc k) n e =
    let e' : (n + 1) / 2 ≡ n / 2 + 1 = omega (arith, pow-suc 2 k, one-le-pow k 2) in
    omega (
      arith,
      bit_and_step (n + 1) n,
      ap (λ (t : ℕ). bit_and t (n / 2)) e',
      pow-suc 2 k,
      low_ones_back k (n / 2) (omega (arith, pow-suc 2 k)),
    )

differ_cancel : (x y : ℕ) → x < 2 → y < 2 → differ x (differ y x) ≡ y
differ_cancel zero zero p q = refl
differ_cancel zero (suc zero) p q = refl
differ_cancel (suc zero) zero p q = refl
differ_cancel (suc zero) (suc zero) p q = refl
differ_cancel (suc zero) (suc (suc y)) p q = absurd (omega arith)
differ_cancel zero (suc (suc y)) p q = absurd (omega arith)
differ_cancel (suc (suc x)) y p q = absurd (omega arith)

bit_xor_cancel_fuel : (n a b : ℕ) → a ≤ n → b ≤ n → bit_xor a (bit_xor b a) ≡ b
bit_xor_cancel_fuel zero zero zero p q = refl
bit_xor_cancel_fuel zero zero (suc b) p q = absurd (omega arith)
bit_xor_cancel_fuel zero (suc a) b p q = absurd (omega arith)
bit_xor_cancel_fuel (suc n) a b p q =
    let ih = bit_xor_cancel_fuel n (a / 2) (b / 2) (omega arith) (omega arith) in
    let digit = differ_digits (b % 2) (a % 2) (omega arith) (omega arith) in
    let high : bit_xor b a / 2 ≡ bit_xor (b / 2) (a / 2) =
      omega (arith, bit_xor_step b a, digit.0) in
    let low : bit_xor b a % 2 ≡ differ (b % 2) (a % 2) = omega (arith, bit_xor_step b a, digit.0) in
    omega (
      arith,
      bit_xor_step a (bit_xor b a),
      ih,
      ap (λ (t : ℕ). bit_xor (a / 2) t) high,
      ap (λ (t : ℕ). differ (a % 2) t) low,
      differ_cancel (a % 2) (b % 2) (omega arith) (omega arith),
    )

-- What differs from `a` by the digits in which `b` does is `b`.
pub bit_xor_cancel : (a b : ℕ) → bit_xor a (bit_xor b a) ≡ b
bit_xor_cancel a b = bit_xor_cancel_fuel (a + b) a b (omega arith) (omega arith)

pub bit_and-one : (a : ℕ) → bit_and a 1 ≡ a % 2
bit_and-one a = omega (arith, bit_and_step a 1, bit_and-zero (a / 2))

pub bit_and_three : (a : ℕ) → bit_and a 3 ≡ a % 4
bit_and_three a = omega (arith, bit_and_step a 3, bit_and-one (a / 2))

pub bit_and_sixteen : (a : ℕ) → bit_and a 16 ≡ a / 16 % 2 * 16
bit_and_sixteen a = omega (
  arith,
  bit_and_step a 16,
  bit_and_step (a / 2) 8,
  bit_and_step (a / 2 / 2) 4,
  bit_and_step (a / 2 / 2 / 2) 2,
  bit_and-one (a / 2 / 2 / 2 / 2),
)

pub bit_xor-half :
    (a b : ℕ)
    → (bit_xor a b / 2 ≡ bit_xor (a / 2) (b / 2)) × (bit_xor a b % 2 ≡ differ (a % 2) (b % 2))
bit_xor-half a b =
    let digit = differ_digits (a % 2) (b % 2) (omega arith) (omega arith) in
    (omega (arith, bit_xor_step a b, digit.0), omega (arith, bit_xor_step a b, digit.0))
