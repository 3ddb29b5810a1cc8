-- ===== src/Mpool/Memory/Release/Content.antt =====
-- mpool/src/v7_mpool.c: what the de-initialization of a block's content gives to be collected.
use mathlib.Core.List.{append-nil, append_assoc}
use bplib.Common.{
  ℕ, ◌≡◌, refl, sym, ap, ap₂, ◌∙◌, inl, inr, Option, none, List, [], ◌++◌, ltb, arith, Bool-cases,
  nil-of_length,
}
use bplib.Mpool.Subq.{Subq, get_depth, merge_list, move_all}
use bplib.Mpool.Subq.Depth.{IsCounted, get_depth-eq-length}
use bplib.Mpool.Memory.{
  BlockType, undefined, api, generic, primary, canonical, flow, ref, secondary_generic, list_head,
  job, admin, MemBlock, Memory, set_block, ref_release, release_content,
}
use bplib.Mpool.Memory.Release.{
  recycled, held_blocks, target_of, let_go, AllCounted, Released, set_block-at, set_block-other,
  set_block-field, set_block-AllCounted, idle, ref_release-Released,
}

-- What holds of a pool whose block `id` has given up its lists.
emptied :
    (given : List ℕ) (id : ℕ) (b' : MemBlock) (q : Subq ℕ) (pool : Memory)
    → b'.refcount ≡ (pool.block id).refcount
    → q.block_list ≡ recycled pool ++ given
    → IsCounted b'.ingress
    → IsCounted b'.egress
    → AllCounted pool
    → Released given none id pool (set_block id b' (record pool { recycle_blocks = q }))
emptied given id b' q pool same e c d all = record {
  free_same = refl;
  appended = e;
  counts =
      set_block-field id b' (record pool { recycle_blocks = q }) (λ (b : MemBlock). b.refcount)
        same;
  others = λ i other. set_block-other id b' (record pool { recycle_blocks = q }) i other;
  still = set_block-AllCounted id b' (record pool { recycle_blocks = q }) c d all;
}

-- A move out of a queue with right counters, whatever the destination is.
moved :
    (dst src : Subq ℕ)
    → IsCounted src
    → ((move_all dst src).0.block_list ≡ dst.block_list ++ src.block_list)
      × ((move_all dst src).1.block_list ≡ [])
      × IsCounted (move_all dst src).1
unfolding move_all
moved dst src s =
    let depth = get_depth-eq-length src s in
    elim (Bool-cases (ltb 0 (get_depth src))) [
      | inl full ↦
          rw full (refl, refl, omega (arith, depth, s.counted, s.few, s.push_word, s.pull_word))
      | inr none_in ↦
          let none_left = nil-of_length src.block_list (ground (arith, depth, none_in)) in
          rw none_in (
            sym (append-nil dst.block_list) ∙ ap (λ t. dst.block_list ++ t) (sym none_left),
            none_left,
            s,
          )
    ]

-- A reference forgets its target.
forgotten :
    (given : List ℕ) (target : Option ℕ) (id : ℕ) (pool pool' : Memory)
    → Released given target id pool pool'
    → Released given target id pool
        (set_block id (record (pool'.block id) { pref_target = none }) pool')
forgotten given target id pool pool' r =
    let b = record (pool'.block id) { pref_target = none } in
    record {
      free_same = r.free_same;
      appended = r.appended;
      counts = λ i. set_block-field id b pool' (λ (b : MemBlock). b.refcount) refl i ∙ r.counts i;
      others = λ i other. set_block-other id b pool' i other ∙ r.others i other;
      still = set_block-AllCounted id b pool' (r.still id).0 (r.still id).1 r.still;
    }

-- What a block of some type gives to be collected.
abbrev pub gives : BlockType → ℕ → Memory → List ℕ
gives blocktype id pool =
    held_blocks blocktype (pool.block id) ++ let_go pool (target_of blocktype (pool.block id))

-- The content of a type gives all its blocks, in order, and one reference to its target.
pub release_content-Released :
    (blocktype : BlockType) (id : ℕ) (pool : Memory)
    → AllCounted pool
    → Released
        (gives blocktype id pool)
        (target_of blocktype (pool.block id))
        id
        pool
        (release_content blocktype id pool)
unfolding release_content merge_list
release_content-Released undefined id pool all = idle id pool all
release_content-Released api id pool all = idle id pool all
release_content-Released generic id pool all = idle id pool all
release_content-Released secondary_generic id pool all = idle id pool all
release_content-Released list_head id pool all = idle id pool all
release_content-Released job id pool all = idle id pool all
release_content-Released admin id pool all = idle id pool all
release_content-Released primary id pool all =
    let b = pool.block id in
    let first = (merge_list pool.recycle_blocks b.cblock_list).0 in
    emptied (gives primary id pool) id (record b { cblock_list = []; chunk_list = [] })
      (merge_list first b.chunk_list).0 pool refl
      (append_assoc (recycled pool) b.cblock_list b.chunk_list
        ∙ ap (λ t. recycled pool ++ t) (sym (append-nil (b.cblock_list ++ b.chunk_list))))
      (all id).0 (all id).1 all
release_content-Released canonical id pool all =
    let b = pool.block id in
    emptied (gives canonical id pool) id (record b { chunk_list = [] })
      (merge_list pool.recycle_blocks b.chunk_list).0 pool refl
      (ap (λ t. recycled pool ++ t) (sym (append-nil b.chunk_list))) (all id).0 (all id).1 all
release_content-Released flow id pool all =
    let b = pool.block id in
    let ingress = move_all pool.recycle_blocks b.ingress in
    let egress = move_all ingress.0 b.egress in
    let first = moved pool.recycle_blocks b.ingress (all id).0 in
    let second = moved ingress.0 b.egress (all id).1 in
    let held = b.ingress.block_list ++ b.egress.block_list in
    emptied (gives flow id pool) id (record b { ingress = ingress.1; egress = egress.1 }) egress.0
      pool refl
      (second.0
        ∙ ap (λ t. t ++ b.egress.block_list) first.0
        ∙ append_assoc (recycled pool) b.ingress.block_list b.egress.block_list
        ∙ ap (λ t. recycled pool ++ t) (sym (append-nil held)))
      first.2 second.2 all
release_content-Released ref id pool all =
    let target = (pool.block id).pref_target in
    forgotten (let_go pool target) target id pool (ref_release target pool)
      (ref_release-Released target id pool all)

-- Afterwards it has none any more.
pub release_content-emptied :
    (blocktype : BlockType) (id : ℕ) (pool : Memory)
    → AllCounted pool
    → (held_blocks blocktype ((release_content blocktype id pool).block id) ≡ [])
      × (target_of blocktype ((release_content blocktype id pool).block id) ≡ none)
unfolding release_content merge_list
release_content-emptied undefined id pool all = (refl, refl)
release_content-emptied api id pool all = (refl, refl)
release_content-emptied generic id pool all = (refl, refl)
release_content-emptied secondary_generic id pool all = (refl, refl)
release_content-emptied list_head id pool all = (refl, refl)
release_content-emptied job id pool all = (refl, refl)
release_content-emptied admin id pool all = (refl, refl)
release_content-emptied primary id pool all =
    (ap (held_blocks primary) (set_block-at id _ pool), refl)
release_content-emptied canonical id pool all =
    (ap (held_blocks canonical) (set_block-at id _ pool), refl)
release_content-emptied flow id pool all =
    let b = pool.block id in
    let ingress = move_all pool.recycle_blocks b.ingress in
    let first = moved pool.recycle_blocks b.ingress (all id).0 in
    let second = moved ingress.0 b.egress (all id).1 in
    (
      ap (held_blocks flow) (set_block-at id _ pool)
          ∙ ap₂ (λ (l m : List ℕ). l ++ m) first.1 second.1,
      refl,
    )
release_content-emptied ref id pool all =
    (refl, ap (target_of ref) (set_block-at id _ (ref_release (pool.block id).pref_target pool)))
