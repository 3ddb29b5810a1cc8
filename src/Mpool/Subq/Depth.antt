-- ===== src/Mpool/Subq/Depth.antt =====
-- mpool/src/v7_mpool_flows.c: the counters of a sub-queue count its blocks, across their wrap.
use bplib.Common.{ℕ, ◌+◌, ◌<◌, ◌^◌, ◌≡◌, refl, List, [], ◌∷◌, length, length-append, arith, u32, ap}
use bplib.Mpool.Subq.{
  Subq, subq_init, get_depth, push_single, pull_single, merge_list, list_count_blocks, count_from,
  pull_from,
}

-- Both counters are 32-bit words, and differ by the number of blocks, which fits one.
pub record IsCounted {ℓ} {A : Type ℓ} (q : Subq A) : Type ℓ where
  pub push_word : q.push_count < 2 ^ 32
  pub pull_word : q.pull_count < 2 ^ 32
  pub few : length q.block_list < 2 ^ 32
  pub counted : u32 (q.pull_count + length q.block_list) ≡ q.push_count

module _ {ℓ} {A : Type ℓ} where
  pub get_depth-eq-length : (q : Subq A) → IsCounted q → get_depth q ≡ length q.block_list
  unfolding get_depth
  get_depth-eq-length q c = omega (arith, c.counted, c.few, c.push_word, c.pull_word)

  count_from-eq : (c : ℕ) (l : List A) → c < 2 ^ 32 → count_from c l ≡ u32 (c + length l)
  unfolding count_from
  count_from-eq c [] h = omega arith
  count_from-eq c (x ∷ l) h = omega (arith, count_from-eq (u32 (c + 1)) l (omega arith))

  pub list_count_blocks-eq : (l : List A) → list_count_blocks l ≡ u32 (length l)
  unfolding list_count_blocks
  list_count_blocks-eq l = omega (arith, count_from-eq 0 l (omega arith))

  pub subq_init-IsCounted : IsCounted {A = A} subq_init
  subq_init-IsCounted = omega arith

  pub push_single-IsCounted :
      (q : Subq A) (x : A)
      → length q.block_list + 1 < 2 ^ 32
      → IsCounted q
      → IsCounted (push_single q x)
  unfolding push_single
  push_single-IsCounted q x h c =
      omega (arith, length-append q.block_list (x ∷ []), c.counted, c.few, c.push_word, c.pull_word)

  pub pull_single-IsCounted : (q : Subq A) → IsCounted q → IsCounted (pull_single q).0
  unfolding pull_single
  pull_single-IsCounted q c = by_list q.block_list refl
    where
      by_list : (l : List A) → l ≡ q.block_list → IsCounted (pull_from l q).0
      by_list [] e = c
      by_list (x ∷ l) e = omega (arith, ap length e, c.counted, c.few, c.push_word, c.pull_word)

  pub merge_list-IsCounted :
      (q : Subq A) (l : List A)
      → length q.block_list + length l < 2 ^ 32
      → IsCounted q
      → IsCounted (merge_list q l).0
  unfolding merge_list
  merge_list-IsCounted q l h c = omega (
    arith,
    length-append q.block_list l,
    list_count_blocks-eq l,
    c.counted,
    c.few,
    c.push_word,
    c.pull_word,
  )
