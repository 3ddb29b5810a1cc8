-- ===== src/Route/Table/Masks.antt =====
-- lib/src/v7_routing.c: the masks of routes are prefix masks, and what they compare.
use bplib.Common.{
  ℕ, zero, suc, ◌+◌, ◌-◌, ◌/◌, ◌^◌, ◌≤◌, ◌<◌, ◌≡◌, refl, ap, ◌↔◌, true, ==_iff, arith, bit_and,
  not64, u64,
}
use native.Mathlib.Nat.{pow-suc, one-le-pow, add-suc}
use native.Mathlib.Decide.{dec_le}
use bplib.Common.Bits.{low_ones, low_ones_back, bit_and-le}
use bplib.Common.Masks.{mask_of, mask_of_add, bit_and_masks, masked_eq_iff}
use bplib.Route.Table.{RouteEntry, mask_check, route_matches}

-- A mask of 64 - k ones above k zeros.
abbrev pub IsPrefixMask : ℕ → Type 0
IsPrefixMask mask = (k : ℕ) × (k ≤ 64) × (mask + 2 ^ k ≡ 2 ^ 64)

pow_above : (d : ℕ) → 2 ^ 64 < 2 ^ (suc (64 + d))
pow_above zero = omega arith
pow_above (suc d) =
    omega (arith, pow-suc 2 (64 + suc d), ap (λ (t : ℕ). 2 ^ t) (add-suc 64 d), pow_above d)

pow_bound : (k : ℕ) → 2 ^ k ≤ 2 ^ 64 → k ≤ 64
pow_bound k h = elim (dec_le k 64) [
  | yes p ↦ p
  | no p ↦
      let e : suc (64 + (k - 65)) ≡ k = omega arith in
      absurd (omega (arith, pow_above (k - 65), ap (λ (t : ℕ). 2 ^ t) e))
]

-- The check of `bplib_route_add` accepts exactly the 64-bit masks that have their ones in front of their
-- zeros.
pub mask_check_iff : (mask : ℕ) → mask < 2 ^ 64 → (mask_check mask ≡ true) ↔ IsPrefixMask mask
unfolding mask_check
mask_check_iff zero h = (λ e. (64, omega arith, omega arith), λ p. refl)
mask_check_iff (suc m) h =
    let n = not64 (suc m) in
    let fits : u64 (n + 1) ≡ n + 1 = omega arith in
    (
      λ e.
          let (k, p) = low_ones n (rw fits at ((==_iff _ 0).0 e)) in
          (k, pow_bound k (omega (arith, p)), omega (arith, p)),
      λ (k, k_le, p). (==_iff _ 0).1 (rw fits (low_ones_back k n (omega (arith, p)))),
    )

prefix_as_mask_of :
    {mask : ℕ} (p : IsPrefixMask mask) → (mask ≡ mask_of (64 - p.0) p.0) × (64 - p.0 + p.0 ≡ 64)
prefix_as_mask_of (k, k_le, e) =
    let whole : 64 - k + k ≡ 64 = omega arith in
    (omega (arith, mask_of_add (64 - k) k, ap (λ (t : ℕ). 2 ^ t) whole), whole)

-- One prefix mask contains another exactly if it is at least as long, which is to be at least as large.
pub contains_iff : (m n : ℕ) → IsPrefixMask m → IsPrefixMask n → (bit_and m n ≡ n) ↔ (n ≤ m)
contains_iff m n p q =
    let (as_mask, whole) = prefix_as_mask_of q in
    let below : m < 2 ^ (64 - q.0 + q.0) =
      omega (arith, p.2, one-le-pow p.0 2, ap (λ (t : ℕ). 2 ^ t) whole) in
    (
      λ e. omega (arith, bit_and-le m n),
      λ h. rw as_mask (bit_and_masks (64 - q.0) q.0 m (rw (← as_mask) h) below),
    )

-- A route whose mask is a prefix mask matches a destination (both 64-bit words) exactly if they agree
-- in front of the zeros of its mask.
pub route_matches_iff :
    (rp : RouteEntry) (dest : ℕ) (p : IsPrefixMask rp.mask)
    → rp.dest < 2 ^ 64
    → dest < 2 ^ 64
    → (route_matches rp dest ≡ true) ↔ (rp.dest / 2 ^ p.0 ≡ dest / 2 ^ p.0)
unfolding route_matches
route_matches_iff rp dest p h d =
    let (as_mask, whole) = prefix_as_mask_of p in
    let agree = masked_eq_iff (64 - p.0) p.0 rp.dest dest (rw whole h) (rw whole d) in
    (λ e. agree.0 (rw (← as_mask) ((==_iff _ 0).0 e)), λ e. (==_iff _ 0).1 (rw as_mask (agree.1 e)))
