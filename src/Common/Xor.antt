-- ===== src/Common/Xor.antt =====
-- Laws of `^` on unsigned words, and of `^` on two halves of a word.
use Prim.Native.Nat.{
  ℕ, zero, suc, ◌+◌, ◌*◌, ◌/◌, ◌%◌, ◌^◌, ◌≤◌, ◌<◌, bit_xor, differ, bit_xor-bitwise,
}
use mathlib.Core.Path.{◌≡◌, refl, sym, ap, ap₂, ◌∙◌}
use native.Mathlib.Omega.{arith}
use native.Mathlib.Nat.{pow-suc, mul_assoc, add-zero, add-suc}
use bplib.Common.Masks.{bit_xor-eq-zero_iff}
use bplib.Common.Bits.{bit_xor_step, bit_xor-half}

differ_assoc : (x y z : ℕ) → x < 2 → y < 2 → z < 2 → differ x (differ y z) ≡ differ (differ x y) z
differ_assoc zero zero zero p q r = refl
differ_assoc zero zero (suc zero) p q r = refl
differ_assoc zero (suc zero) zero p q r = refl
differ_assoc zero (suc zero) (suc zero) p q r = refl
differ_assoc (suc zero) zero zero p q r = refl
differ_assoc (suc zero) zero (suc zero) p q r = refl
differ_assoc (suc zero) (suc zero) zero p q r = refl
differ_assoc (suc zero) (suc zero) (suc zero) p q r = refl
differ_assoc (suc (suc x)) y z p q r = absurd (omega arith)
differ_assoc zero (suc (suc y)) z p q r = absurd (omega arith)
differ_assoc (suc zero) (suc (suc y)) z p q r = absurd (omega arith)
differ_assoc zero zero (suc (suc z)) p q r = absurd (omega arith)
differ_assoc zero (suc zero) (suc (suc z)) p q r = absurd (omega arith)
differ_assoc (suc zero) zero (suc (suc z)) p q r = absurd (omega arith)
differ_assoc (suc zero) (suc zero) (suc (suc z)) p q r = absurd (omega arith)

differ_comm : (x y : ℕ) → x < 2 → y < 2 → differ x y ≡ differ y x
differ_comm zero zero p q = refl
differ_comm zero (suc zero) p q = refl
differ_comm (suc zero) zero p q = refl
differ_comm (suc zero) (suc zero) p q = refl
differ_comm (suc (suc x)) y p q = absurd (omega arith)
differ_comm zero (suc (suc y)) p q = absurd (omega arith)
differ_comm (suc zero) (suc (suc y)) p q = absurd (omega arith)

bit_xor_assoc_fuel :
    (n a b c : ℕ) → a ≤ n → b ≤ n → c ≤ n → bit_xor a (bit_xor b c) ≡ bit_xor (bit_xor a b) c
bit_xor_assoc_fuel zero a b c p q r =
    let ea : a ≡ 0 = omega arith in
    let eb : b ≡ 0 = omega arith in let ec : c ≡ 0 = omega arith in rw (ea, eb, ec)
bit_xor_assoc_fuel (suc n) a b c p q r =
    let ab = bit_xor-half a b in
    let bc = bit_xor-half b c in
    omega (
      arith,
      bit_xor_step a (bit_xor b c),
      bit_xor_step (bit_xor a b) c,
      bit_xor_assoc_fuel n (a / 2) (b / 2) (c / 2) (omega arith) (omega arith) (omega arith),
      ap (λ (t : ℕ). bit_xor (a / 2) t) bc.0,
      ap (λ (t : ℕ). differ (a % 2) t) bc.1,
      ap (λ (t : ℕ). bit_xor t (c / 2)) ab.0,
      ap (λ (t : ℕ). differ t (c % 2)) ab.1,
      differ_assoc (a % 2) (b % 2) (c % 2) (omega arith) (omega arith) (omega arith),
    )

pub bit_xor_assoc : (a b c : ℕ) → bit_xor a (bit_xor b c) ≡ bit_xor (bit_xor a b) c
bit_xor_assoc a b c = bit_xor_assoc_fuel (a + b + c) a b c (omega arith) (omega arith) (omega arith)

bit_xor_comm_fuel : (n a b : ℕ) → a ≤ n → b ≤ n → bit_xor a b ≡ bit_xor b a
bit_xor_comm_fuel zero a b p q =
    let ea : a ≡ 0 = omega arith in let eb : b ≡ 0 = omega arith in rw (ea, eb)
bit_xor_comm_fuel (suc n) a b p q = omega (
  arith,
  bit_xor_step a b,
  bit_xor_step b a,
  bit_xor_comm_fuel n (a / 2) (b / 2) (omega arith) (omega arith),
  differ_comm (a % 2) (b % 2) (omega arith) (omega arith),
)

pub bit_xor_comm : (a b : ℕ) → bit_xor a b ≡ bit_xor b a
bit_xor_comm a b = bit_xor_comm_fuel (a + b) a b (omega arith) (omega arith)

pub bit_xor_double : (a b : ℕ) → bit_xor (a * 2) (b * 2) ≡ bit_xor a b * 2
bit_xor_double a b = omega (
  arith,
  bit_xor_step (a * 2) (b * 2),
  ap₂ bit_xor (half a) (half b),
  ap₂ differ (even a) (even b),
  differ_zero,
)
  where
    half : (t : ℕ) → t * 2 / 2 ≡ t
    half t = omega arith

    even : (t : ℕ) → t * 2 % 2 ≡ 0
    even t = omega arith

    differ_zero : differ 0 0 ≡ 0
    differ_zero = refl

pub scale_suc : (a k : ℕ) → a * 2 ^ suc k ≡ a * 2 ^ k * 2
scale_suc a k = ap (λ (t : ℕ). a * t) (pow-suc 2 k) ∙ sym (mul_assoc a (2 ^ k) 2)

-- The parts of two words before and behind a position.
pub bit_xor_split :
    (k a b c d : ℕ)
    → c < 2 ^ k
    → d < 2 ^ k
    → bit_xor (a * 2 ^ k + c) (b * 2 ^ k + d) ≡ bit_xor a b * 2 ^ k + bit_xor c d
bit_xor_split zero a b c d p q =
    let ec : c ≡ 0 = omega arith in
    let ed : d ≡ 0 = omega arith in
    rw (ec, ed) (ap₂ bit_xor (one a) (one b) ∙ sym (one (bit_xor a b)))
  where
    one : (t : ℕ) → t * 1 + 0 ≡ t
    one t = omega arith
bit_xor_split (suc k) a b c d p q =
    let x = a * 2 ^ suc k + c in
    let y = b * 2 ^ suc k + d in
    let x_half : x / 2 ≡ a * 2 ^ k + c / 2 = omega (arith, scale_suc a k) in
    let y_half : y / 2 ≡ b * 2 ^ k + d / 2 = omega (arith, scale_suc b k) in
    let x_low : x % 2 ≡ c % 2 = omega (arith, scale_suc a k) in
    let y_low : y % 2 ≡ d % 2 = omega (arith, scale_suc b k) in
    omega (
      arith,
      bit_xor_step x y,
      bit_xor_step c d,
      ap₂ bit_xor x_half y_half,
      ap₂ differ x_low y_low,
      bit_xor_split k a b (c / 2) (d / 2) (omega (arith, pow-suc 2 k)) (omega (arith, pow-suc 2 k)),
      scale_suc (bit_xor a b) k,
    )

pub bit_xor_zero_left : (a : ℕ) → bit_xor 0 a ≡ a
bit_xor_zero_left a = bit_xor-bitwise 0 a

pub bit_xor_zero : (a : ℕ) → bit_xor a 0 ≡ a
bit_xor_zero a = bit_xor_comm a 0 ∙ bit_xor_zero_left a

pub bit_xor_self : (a : ℕ) → bit_xor a a ≡ 0
bit_xor_self a = (bit_xor-eq-zero_iff a a).1 refl

-- A term on both sides drops out.
pub bit_xor_both : (a b c : ℕ) → bit_xor (bit_xor a c) (bit_xor b c) ≡ bit_xor a b
bit_xor_both a b c =
    bit_xor_assoc (bit_xor a c) b c
    ∙ ap (λ (t : ℕ). bit_xor t c) (sym (bit_xor_assoc a c b))
    ∙ ap (λ (t : ℕ). bit_xor (bit_xor a t) c) (bit_xor_comm c b)
    ∙ ap (λ (t : ℕ). bit_xor t c) (bit_xor_assoc a b c)
    ∙ sym (bit_xor_assoc (bit_xor a b) c c)
    ∙ ap (λ (t : ℕ). bit_xor (bit_xor a b) t) (bit_xor_self c)
    ∙ bit_xor_zero (bit_xor a b)

pub bit_xor_swap : (a b c : ℕ) → bit_xor (bit_xor a b) c ≡ bit_xor (bit_xor a c) b
bit_xor_swap a b c =
    sym (bit_xor_assoc a b c) ∙ ap (λ (t : ℕ). bit_xor a t) (bit_xor_comm b c) ∙ bit_xor_assoc a c b

-- Two words with a one in front of `k` digits each.
pub bit_xor_ones :
    (k a b : ℕ) → a < 2 ^ k → b < 2 ^ k → bit_xor (2 ^ k + a) (2 ^ k + b) ≡ bit_xor a b
bit_xor_ones k a b p q =
    let one : (t : ℕ) → 1 * 2 ^ k + t ≡ 2 ^ k + t = λ t. omega arith in
    omega (arith, ap₂ bit_xor (one a) (one b), bit_xor_split k 1 1 a b p q)

pub le_scale : (a k : ℕ) → a ≤ a * 2 ^ k
le_scale a zero = omega arith
le_scale a (suc k) = omega (arith, le_scale a k, scale_suc a k)

pub scale_double : (a k : ℕ) → a * 2 * 2 ^ k ≡ a * 2 ^ k * 2
scale_double a zero = omega arith
scale_double a (suc k) = omega (arith, scale_double a k, scale_suc a k, scale_suc (a * 2) k)

pub pow_add : (k n : ℕ) → 2 ^ (k + n) ≡ 2 ^ k * 2 ^ n
pow_add k zero = ap (λ (t : ℕ). 2 ^ t) (add-zero k) ∙ omega arith
pow_add k (suc n) =
    ap (λ (t : ℕ). 2 ^ t) (add-suc k n)
    ∙ omega (arith, pow-suc 2 (k + n), pow_add k n, scale_suc (2 ^ k) n)
