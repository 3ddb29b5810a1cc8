-- ===== src/Mpool/Memory/Release.antt =====
-- mpool/src/v7_mpool.c and mpool/src/v7_mpool_ref.c: what a block gives to be collected, and the end of a
-- reference.
pub mod Content
use mathlib.Core.List.{append-nil, append_assoc}
use bplib.Common.{
  ℕ, ◌-◌, ◌≡◌, refl, sym, ap, ap₂, ◌∙◌, inl, inr, false, Option, none, some, List, [], ◌∷◌, ◌++◌,
  ltb, leb, ◌==◌, ==_iff, arith, Bool-cases, if◌then◌else◌, if_true, if_false, nil-of_length,
}
use bplib.Mpool.Subq.{Subq, get_depth, push_single, merge_list, move_all}
use bplib.Mpool.Subq.Depth.{IsCounted, get_depth-eq-length}
use bplib.Mpool.Memory.{
  BlockType, undefined, api, generic, primary, canonical, flow, ref, secondary_generic, list_head,
  job, admin, MemBlock, Memory, set_block, recycle_block_internal, ref_release, release_content,
}

-- The blocks that wait for collection.
abbrev pub recycled : Memory → List ℕ
recycled pool = pool.recycle_blocks.block_list

-- The blocks that a block of some type has in its lists and queues, in order.
abbrev pub held_blocks : BlockType → MemBlock → List ℕ
held_blocks canonical b = b.chunk_list
held_blocks primary b = b.cblock_list ++ b.chunk_list
held_blocks flow b = b.ingress.block_list ++ b.egress.block_list
held_blocks _ b = []

-- The block that a reference counts as its own.
abbrev pub target_of : BlockType → MemBlock → Option ℕ
target_of ref b = b.pref_target
target_of _ b = none

-- The target of a reference that ends, if that was the last one.
abbrev pub let_go : Memory → Option ℕ → List ℕ
let_go pool none = []
let_go pool (some target) = if leb (pool.block target).refcount 1 then target ∷ [] else []

-- The reference count of a block after a reference has ended.
abbrev pub count_left : Memory → Option ℕ → ℕ → ℕ
count_left pool none i = (pool.block i).refcount
count_left pool (some target) i =
    if i == target then (pool.block i).refcount - 1 else (pool.block i).refcount

-- The queues of all blocks have right counters.
abbrev pub AllCounted : Memory → Type 0
AllCounted pool = (i : ℕ) → IsCounted (pool.block i).ingress × IsCounted (pool.block i).egress

-- The content of the block `id` goes to the recycled blocks, with the target of its reference.
pub record Released (given : List ℕ) (target : Option ℕ) (id : ℕ) (pool pool' : Memory)
    : Type 0 where
  pub free_same : pool'.free_blocks ≡ pool.free_blocks
  pub appended : recycled pool' ≡ recycled pool ++ given
  pub counts : (i : ℕ) → (pool'.block i).refcount ≡ count_left pool target i
  pub others :
      (i : ℕ)
      → (i == id) ≡ false
      → pool'.block i ≡ record (pool.block i) { refcount = count_left pool target i }
  pub still : AllCounted pool'

module _ (id : ℕ) (b : MemBlock) (pool : Memory) where
  pub set_block-at : (set_block id b pool).block id ≡ b
  set_block-at = if_true _ ((==_iff id id).1 refl)

  pub set_block-other : (i : ℕ) → (i == id) ≡ false → (set_block id b pool).block i ≡ pool.block i
  set_block-other i other = if_false _ other

  -- A part of the block that is kept.
  pub set_block-field :
      {B : Type 0} (part : MemBlock → B)
      → part b ≡ part (pool.block id)
      → (i : ℕ) → part ((set_block id b pool).block i) ≡ part (pool.block i)
  set_block-field part same i = elim (Bool-cases (i == id)) [
    | inl here ↦
        ap part (if_true _ here)
        ∙ same
        ∙ ap (λ (j : ℕ). part (pool.block j)) (sym ((==_iff i id).0 here))
    | inr other ↦ ap part (if_false _ other)
  ]

  pub set_block-AllCounted :
      IsCounted b.ingress → IsCounted b.egress → AllCounted pool → AllCounted (set_block id b pool)
  set_block-AllCounted c d all i = elim (Bool-cases (i == id)) [
    | inl here ↦ rw here (c, d)
    | inr other ↦ rw other (all i)
  ]

pub idle : (id : ℕ) (pool : Memory) → AllCounted pool → Released [] none id pool pool
idle id pool all = record {
  free_same = refl;
  appended = sym (append-nil (recycled pool));
  counts = λ i. refl;
  others = λ i other. refl;
  still = all;
}

-- The blocks of a pool after a reference to `target` has ended.
released_block : ℕ → Memory → ℕ → MemBlock
released_block target pool i = record (pool.block i) { refcount = count_left pool (some target) i }

ref_release-block :
    (target : ℕ) (pool : Memory) (i : ℕ)
    → (ref_release (some target) pool).block i ≡ released_block target pool i
unfolding ref_release released_block recycle_block_internal
ref_release-block target pool i = elim (Bool-cases (leb (pool.block target).refcount 1)) [
  | inl last ↦ ap (λ (m : Memory). m.block i) (if_true _ last) ∙ by_block i
  | inr used ↦ ap (λ (m : Memory). m.block i) (if_false _ used) ∙ by_block i
]
  where
    by_block :
        (i : ℕ)
        → (if i == target
            then record (pool.block target) { refcount = (pool.block target).refcount - 1 }
            else pool.block i)
          ≡ record (pool.block i) { refcount = count_left pool (some target) i }
    by_block i = elim (Bool-cases (i == target)) [
      | inl here ↦
          if_true _ here
          ∙ ap (λ (j : ℕ). record (pool.block j) { refcount = (pool.block j).refcount - 1 })
              (sym ((==_iff i target).0 here))
          ∙ ap (λ (n : ℕ). record (pool.block i) { refcount = n }) (sym (if_true _ here))
      | inr other ↦
          if_false _ other
          ∙ ap (λ (n : ℕ). record (pool.block i) { refcount = n }) (sym (if_false _ other))
    ]

ref_release-lists :
    (target : ℕ) (pool : Memory)
    → ((ref_release (some target) pool).free_blocks ≡ pool.free_blocks)
      × (recycled (ref_release (some target) pool) ≡ recycled pool ++ let_go pool (some target))
unfolding ref_release recycle_block_internal push_single
ref_release-lists target pool = elim (Bool-cases (leb (pool.block target).refcount 1)) [
  | inl last ↦ rw last (refl, refl)
  | inr used ↦ rw used (refl, sym (append-nil (recycled pool)))
]

pub ref_release-Released :
    (target : Option ℕ) (id : ℕ) (pool : Memory)
    → AllCounted pool
    → Released (let_go pool target) target id pool (ref_release target pool)
unfolding released_block
ref_release-Released none id pool all = unfold ref_release in idle id pool all
ref_release-Released (some target) id pool all =
    let (free_same, appended) = ref_release-lists target pool in
    let block = ref_release-block target pool in
    record {
      free_same = free_same;
      appended = appended;
      counts = λ i. ap (λ (b : MemBlock). b.refcount) (block i);
      others = λ i other. block i;
      still = λ i. rw (block i) (all i);
    }
