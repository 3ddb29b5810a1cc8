-- ===== src/Mpool/Memory/Round.antt =====
-- mpool/src/v7_mpool.c: one round of the collection of recycled blocks.
use mathlib.Core.List.{append-nil, append_assoc}
use bplib.Common.{ℕ, ◌≡◌, refl, sym, ap, ◌∙◌, false, Option, none, some, List, [], ◌∷◌, ◌++◌, ◌==◌}
use bplib.Mpool.Subq.{push_single}
use bplib.Mpool.Memory.{
  BlockType, undefined, api, generic, primary, canonical, flow, ref, secondary_generic, list_head,
  job, admin, MemBlock, Memory, BlockApi, set_block, release_content, collect_block,
}
use bplib.Mpool.Memory.Release.{
  recycled, held_blocks, target_of, count_left, AllCounted, set_block-at, set_block-other,
  set_block-field, set_block-AllCounted,
}
use bplib.Mpool.Memory.Release.Content.{gives, release_content-Released, release_content-emptied}

-- The blocks that can be allocated.
abbrev pub free : Memory → List ℕ
free pool = pool.free_blocks.block_list

-- A step that leaves the free blocks alone, only adds blocks to be collected, and keeps the counters of
-- the queues right.
pub record OnlyRecycles (pool pool' : Memory) : Type 0 where
  pub free_same : pool'.free_blocks ≡ pool.free_blocks
  pub later : List ℕ
  pub appended : recycled pool' ≡ recycled pool ++ later
  pub still : AllCounted pool → AllCounted pool'

-- What is asked of the destructors of the registered types.
abbrev pub Destructs : (ℕ → Option BlockApi) → Type 0
Destructs registry =
    (signature : ℕ) (entry : BlockApi)
    → registry signature ≡ some entry
    → (id : ℕ) (pool : Memory) → OnlyRecycles pool (entry.destruct id pool)

-- The pool after the destructor of a block, if its type is registered.
abbrev pub destructed : (ℕ → Option BlockApi) → ℕ → Memory → Memory
destructed registry id pool = elim (registry (pool.block id).content_type_signature) [
  | none ↦ pool
  | some entry ↦ entry.destruct id pool
]

-- One round, on a pool from which the block was pulled: `given` are the blocks that its destructor
-- recycles, then those of its lists and queues by its type, and the target of its reference if that was
-- the last one. The target has one reference less. The block is empty and has no type any more, and
-- is the last free one. Other blocks stay as the destructor left them.
pub record Round (registry : ℕ → Option BlockApi) (id : ℕ) (pool : Memory) (given : List ℕ)
    (next : Memory) : Type 0 where
  pub own : List ℕ
  pub destroyed : recycled (destructed registry id pool) ≡ recycled pool ++ own
  pub all : let mid = destructed registry id pool in given ≡ own ++ gives (mid.block id).type id mid
  pub queued : recycled next ≡ recycled pool ++ given
  pub freed : free next ≡ free pool ++ id ∷ []
  pub counts :
      let mid = destructed registry id pool in
      (i : ℕ)
      → (next.block i).refcount ≡ count_left mid (target_of (mid.block id).type (mid.block id)) i
  pub unset :
      ((next.block id).type ≡ undefined)
      × ((next.block id).content_type_signature ≡ 0)
      × ((next.block id).user_content_length ≡ 0)
  pub emptied :
      let was = ((destructed registry id pool).block id).type in
      (held_blocks was (next.block id) ≡ []) × (target_of was (next.block id) ≡ none)
  pub others :
      let mid = destructed registry id pool in
      (i : ℕ)
      → (i == id) ≡ false
      → next.block i ≡ record (mid.block i) {
        refcount = count_left mid (target_of (mid.block id).type (mid.block id)) i;
      }

abbrev cleared : MemBlock → MemBlock
cleared b = record b { type = undefined; user_content_length = 0; content_type_signature = 0 }

-- The lists of a block and its target do not depend on what the end of a round clears.
cleared_lists :
    (t : BlockType) (b : MemBlock)
    → (held_blocks t (cleared b) ≡ held_blocks t b) × (target_of t (cleared b) ≡ target_of t b)
cleared_lists undefined b = (refl, refl)
cleared_lists api b = (refl, refl)
cleared_lists generic b = (refl, refl)
cleared_lists primary b = (refl, refl)
cleared_lists canonical b = (refl, refl)
cleared_lists flow b = (refl, refl)
cleared_lists ref b = (refl, refl)
cleared_lists secondary_generic b = (refl, refl)
cleared_lists list_head b = (refl, refl)
cleared_lists job b = (refl, refl)
cleared_lists admin b = (refl, refl)

module _ (registry : ℕ → Option BlockApi) (destructs : Destructs registry) where
  destructed-OnlyRecycles :
      (id : ℕ) (pool : Memory) → OnlyRecycles pool (destructed registry id pool)
  destructed-OnlyRecycles id pool =
      go (registry (pool.block id).content_type_signature) (pool.block id).content_type_signature
        refl
    where
      go :
          (found : Option BlockApi) (signature : ℕ)
          → registry signature ≡ found
          → OnlyRecycles pool (elim found [ none ↦ pool | some entry ↦ entry.destruct id pool ])
      go none signature e = record {
        free_same = refl;
        later = [];
        appended = sym (append-nil (recycled pool));
        still = λ all. all;
      }
      go (some entry) signature e = destructs signature entry e id pool

  pub collect_block-Round :
      (id : ℕ) (pool : Memory)
      → AllCounted pool
      → (given : List ℕ) × Round registry id pool given (collect_block registry id pool)
        × AllCounted (collect_block registry id pool)
  unfolding collect_block push_single
  collect_block-Round id pool counted =
      let mid = destructed registry id pool in
      let was = (mid.block id).type in
      let d = destructed-OnlyRecycles id pool in
      let all = d.still counted in
      let out = release_content was id mid in
      let r = release_content-Released was id mid all in
      let (no_blocks, no_target) = release_content-emptied was id mid all in
      let b = cleared (out.block id) in
      let freed : Memory = record out { free_blocks = push_single out.free_blocks id } in
      let at : (set_block id b freed).block id ≡ b = set_block-at id b freed in
      (
        d.later ++ gives was id mid,
        record {
          own = d.later;
          destroyed = d.appended;
          all = refl;
          queued =
              r.appended
              ∙ ap (λ t. t ++ gives was id mid) d.appended
              ∙ append_assoc (recycled pool) d.later (gives was id mid);
          freed = ap (λ q. q.block_list ++ id ∷ []) (r.free_same ∙ d.free_same);
          counts =
              λ i. set_block-field id b freed (λ (c : MemBlock). c.refcount) refl i ∙ r.counts i;
          unset = (
            ap (λ (c : MemBlock). c.type) at,
            ap (λ (c : MemBlock). c.content_type_signature) at,
            ap (λ (c : MemBlock). c.user_content_length) at,
          );
          emptied = (
            ap (held_blocks was) at ∙ (cleared_lists was (out.block id)).0 ∙ no_blocks,
            ap (target_of was) at ∙ (cleared_lists was (out.block id)).1 ∙ no_target,
          );
          others = λ i other. set_block-other id b freed i other ∙ r.others i other;
        },
        set_block-AllCounted id b freed (r.still id).0 (r.still id).1 r.still,
      )
