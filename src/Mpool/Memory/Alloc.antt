-- ===== src/Mpool/Memory/Alloc.antt =====
-- mpool/src/v7_mpool.c: what an allocation takes from the pool.
use bplib.Common.{
  ℕ, suc, ◌+◌, ◌-◌, ◌*◌, ◌/◌, ◌≤◌, ◌<◌, ◌^◌, ◌≡◌, refl, ap, ◌∙◌, inl, inr, ◌⊎◌, true, false, Option,
  none, some, List, [], ◌∷◌, length, ltb, leb, ◌==◌, u32, sub32, arith, ==_iff, if◌then◌else◌,
  Bool-cases, max,
}
use bplib.Mpool.Subq.{Subq, get_depth, pull_single}
use bplib.Mpool.Subq.Depth.{IsCounted, get_depth-eq-length, pull_single-IsCounted}
use bplib.Mpool.Subq.Fifo.{pull_single-cons}
use bplib.Mpool.Memory.{
  BlockType, is_refused_type, Memory, BlockApi, Layout, alloc_threshold, content_fits, initialized,
  take_block, pulled_block, checked_block, alloc_block_internal,
}
use native.Mathlib.Nat.{mul-le-mul_left}

-- The number of blocks that an allocation has to leave free.
abbrev pub reserve : ℕ → Memory → ℕ
reserve priority pool = pool.bblock_alloc_threshold - pool.bblock_alloc_threshold * priority / 255

-- The words of the pool fit their types, and the products of the threshold too.
pub record IsMemory (pool : Memory) : Type 0 where
  pub counted : IsCounted pool.free_blocks
  pub few : length pool.free_blocks.block_list ≤ pool.num_bufs_total
  pub total_word : pool.num_bufs_total < 2 ^ 32
  pub small : pool.bblock_alloc_threshold * 255 < 2 ^ 32

threshold_eq :
    (pool : Memory) (priority : ℕ)
    → IsMemory pool
    → priority ≤ 255
    → sub32 pool.bblock_alloc_threshold (alloc_threshold pool.bblock_alloc_threshold priority)
      ≡ reserve priority pool
unfolding alloc_threshold
threshold_eq pool priority m p =
    let product : pool.bblock_alloc_threshold * priority ≤ pool.bblock_alloc_threshold * 255 =
      mul-le-mul_left pool.bblock_alloc_threshold p in
    omega (arith, m.small, product)

-- The watermark of `take_block`.
watermark_eq :
    (pool : Memory) (block_count left : ℕ)
    → block_count ≡ suc left
    → pool.num_bufs_total < 2 ^ 32
    → block_count ≤ pool.num_bufs_total
    → (if ltb pool.max_alloc_watermark (u32 (1 + sub32 pool.num_bufs_total block_count))
        then u32 (1 + sub32 pool.num_bufs_total block_count)
        else pool.max_alloc_watermark)
      ≡ max pool.max_alloc_watermark (pool.num_bufs_total - left)
watermark_eq pool block_count left e t f = ground arith

-- What an allocation makes of the pool and returns.
abbrev pub Result : Type 0
Result = Memory × Option ℕ

module _ (layout : Layout) (registry : ℕ → Option BlockApi) (blocktype : BlockType)
    (signature priority : ℕ) where
  -- The conditions under which a block is given.
  pub record MayAlloc (pool : Memory) (entry : BlockApi) : Type 0 where
    pub whole : is_refused_type blocktype ≡ false
    pub enough : reserve priority pool < length pool.free_blocks.block_list
    pub registered : registry signature ≡ some entry
    pub fitting : content_fits layout blocktype entry.user_content_size ≡ true

  -- A block is given: the first free one, constructed for its type. All other blocks are as before,
  -- and the reserve is still free.
  pub record Given (pool : Memory) (r : Result) : Type 0 where
    pub entry : BlockApi
    pub id : ℕ
    pub rest : List ℕ
    pub may : MayAlloc pool entry
    pub first : pool.free_blocks.block_list ≡ id ∷ rest
    pub given : r.1 ≡ some id
    pub free_left : r.0.free_blocks.block_list ≡ rest
    pub kept : reserve priority r.0 ≤ length r.0.free_blocks.block_list
    pub built :
        r.0.block id
        ≡ entry.construct (initialized blocktype signature entry.user_content_size (pool.block id))
    pub others : (other : ℕ) → (other == id) ≡ false → r.0.block other ≡ pool.block other
    pub watermark :
        r.0.max_alloc_watermark ≡ max pool.max_alloc_watermark (pool.num_bufs_total - length rest)
    pub still : IsMemory r.0

  -- No block is given, and nothing changes.
  pub record Refused (pool : Memory) (r : Result) : Type 0 where
    pub same : r ≡ (pool, none)
    pub forbidden : (entry : BlockApi) → MayAlloc pool entry → ⊥

  head_of :
      (l : List ℕ) (bound : ℕ) → bound < length l → (id : ℕ) × (rest : List ℕ) × (l ≡ id ∷ rest)
  head_of [] bound h = elim h [ ]
  head_of (id ∷ rest) bound h = (id, rest, refl)

  pulled_block_lem :
      (pool : Memory) (entry : BlockApi) (id : ℕ) (rest : List ℕ) (pulled : Subq ℕ × Option ℕ)
      → IsMemory pool
      → MayAlloc pool entry
      → pool.free_blocks.block_list ≡ id ∷ rest
      → pulled.1 ≡ some id
      → pulled.0.block_list ≡ rest
      → IsCounted pulled.0
      → Given pool (pulled_block blocktype signature entry (get_depth pool.free_blocks) pool pulled)
  unfolding pulled_block take_block
  pulled_block_lem pool entry id rest pulled m may e first left c =
      let depth : get_depth pool.free_blocks ≡ suc (length rest) =
        get_depth-eq-length pool.free_blocks m.counted ∙ ap length e in
      let l : length pulled.0.block_list ≡ length rest = ap length left in
      let l' : length pool.free_blocks.block_list ≡ suc (length rest) = ap length e in
      rw first (record {
        entry = entry;
        id = id;
        rest = rest;
        may = may;
        first = e;
        given = refl;
        free_left = left;
        kept = omega (arith, may.enough, l, l');
        built = rw ((==_iff id id).1 refl) refl;
        others = λ other ne. rw ne refl;
        watermark =
            watermark_eq pool (get_depth pool.free_blocks) (length rest) depth m.total_word
              (omega (arith, m.few, l'));
        still = record {
          counted = c;
          few = omega (arith, m.few, l, l');
          total_word = m.total_word;
          small = m.small;
        };
      })

  checked_block_lem :
      (pool : Memory) (entry : BlockApi) (id : ℕ) (rest : List ℕ)
      → IsMemory pool
      → MayAlloc pool entry
      → pool.free_blocks.block_list ≡ id ∷ rest
      → Given pool (
          checked_block layout registry blocktype signature
            (get_depth pool.free_blocks)
            pool
            (some entry))
  unfolding checked_block
  checked_block_lem pool entry id rest m may e =
      let pulled = pull_single-cons pool.free_blocks id rest e in
      rw may.fitting (
        pulled_block_lem pool entry id rest (pull_single pool.free_blocks) m may e pulled.0 pulled.1
          (pull_single-IsCounted pool.free_blocks m.counted))

  by_entry :
      (pool : Memory) (found : Option BlockApi)
      → IsMemory pool
      → is_refused_type blocktype ≡ false
      → reserve priority pool < length pool.free_blocks.block_list
      → registry signature ≡ found
      → let r =
          checked_block layout registry blocktype signature
            (get_depth pool.free_blocks)
            pool
            found in
        Given pool r ⊎ Refused pool r
  unfolding checked_block
  by_entry pool none m w n e = inr record { same = refl; forbidden = λ entry may. cc }
  by_entry pool (some entry) m w n e =
      elim (Bool-cases (content_fits layout blocktype entry.user_content_size)) [
        | inl f ↦
            let (id, rest, first) = head_of pool.free_blocks.block_list (reserve priority pool) n in
            inl (
              checked_block_lem pool entry id rest m
                record { whole = w; enough = n; registered = e; fitting = f } first)
        | inr f ↦ inr record { same = rw f refl; forbidden = λ entry' may. cc }
      ]

  -- For a pool with right counters, at most `num_bufs_total` free blocks and a threshold below
  -- 2 ^ 32 / 255, and a priority of one byte: `bplib_mpool_alloc_block_internal` gives a block if and
  -- only if the type is one of a whole block, more blocks are free than the priority has to leave
  -- free, the signature is registered, and its content fits. It then takes the first free block,
  -- leaves the reserve free, sets up that block alone, and the watermark is the largest number of
  -- blocks in use. If it gives none, the pool stays as it was.
  pub alloc_block_internal_lem :
      (pool : Memory)
      → IsMemory pool
      → priority ≤ 255
      → let r = alloc_block_internal layout registry blocktype signature priority pool in
        Given pool r ⊎ Refused pool r
  unfolding alloc_block_internal
  alloc_block_internal_lem pool m p =
      let depth = get_depth-eq-length pool.free_blocks m.counted in
      let threshold = threshold_eq pool priority m p in
      let few = leb (get_depth pool.free_blocks) (
        sub32 pool.bblock_alloc_threshold (alloc_threshold pool.bblock_alloc_threshold priority)) in
      elim (Bool-cases (is_refused_type blocktype)) [
        | inl u ↦ inr record { same = rw u refl; forbidden = λ entry may. cc }
        | inr u ↦ elim (Bool-cases few) [
          | inl f ↦ inr record {
            same = rw (u, f) refl;
            forbidden = λ entry may. ground (arith, depth, threshold, f, may.enough);
          }
          | inr f ↦
              rw (u, f)
                (by_entry pool (registry signature) m u (ground (arith, depth, threshold, f)) refl)
        ]
      ]
