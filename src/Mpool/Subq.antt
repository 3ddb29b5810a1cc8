-- ===== src/Mpool/Subq.antt =====
-- mpool/src/v7_mpool_flows.c and mpool/inc/v7_mpool_flows.h: the sub-queues of blocks, with their
-- two counters. The doubly linked `block_list` is the list of its blocks from the head on; `A` is
-- what a block stands for.
pub mod Depth
pub mod Fifo
use bplib.Common.{
  ℕ, ◌+◌, Bool, true, false, not, Option, none, some, List, [], ◌∷◌, ◌++◌, ◌/◌, ltb, ◌==◌, u32,
  sub32, if◌then◌else◌,
}

pub record Subq {ℓ} (A : Type ℓ) : Type ℓ where
  pub block_list : List A
  pub push_count : ℕ  -- unsigned int
  pub pull_count : ℕ  -- unsigned int

-- `handler` is the handler in the job header: the number of a function, or none for NULL.
pub record WorkItem {ℓ} (A : Type ℓ) : Type ℓ where
  pub handler : Option ℕ
  pub base_subq : Subq A
  pub current_depth_limit : ℕ  -- unsigned int

module _ {ℓ} {A : Type ℓ} where
  abbrev pub subq_init : Subq A
  subq_init = record { block_list = []; push_count = 0; pull_count = 0 }

  abbrev pub workitem_init : WorkItem A
  workitem_init = record { handler = none; base_subq = subq_init; current_depth_limit = 0 }

  unfoldable pub get_depth : Subq A → ℕ
  get_depth q = sub32 q.push_count q.pull_count

  unfoldable pub may_pull : WorkItem A → Bool
  unfolding get_depth
  may_pull w = not (get_depth w.base_subq == 0)

  unfoldable pub may_push : WorkItem A → Bool
  unfolding get_depth
  may_push w = ltb (get_depth w.base_subq) (w.current_depth_limit / 2)

  unfoldable pub push_single : Subq A → A → Subq A
  push_single q cpb = record q {
    block_list = q.block_list ++ cpb ∷ [];
    push_count = u32 (q.push_count + 1);
  }

  -- The queue that is left, and the block.
  pull_from : List A → Subq A → Subq A × Option A
  pull_from [] q = (q, none)
  pull_from (node ∷ rest) q =
      (record q { block_list = rest; pull_count = u32 (q.pull_count + 1) }, some node)

  unfoldable pub pull_single : Subq A → Subq A × Option A
  unfolding pull_from
  pull_single q = pull_from q.block_list q

  -- The walk from `node` on, with its `uint32_t` counter.
  pub count_from : ℕ → List A → ℕ
  count_from count [] = count
  count_from count (node ∷ rest) = count_from (u32 (count + 1)) rest

  unfoldable pub list_count_blocks : List A → ℕ
  unfolding count_from
  list_count_blocks l = count_from 0 l

  -- The destination, and the number of blocks merged. The list is left empty.
  unfoldable pub merge_list : Subq A → List A → Subq A × ℕ
  unfolding list_count_blocks
  merge_list dst l =
      let block_count = list_count_blocks l in
      (
        record dst {
          block_list = dst.block_list ++ l;
          push_count = u32 (dst.push_count + block_count);
        },
        block_count,
      )

  -- Destination, source and the number of blocks moved.
  unfoldable pub move_all : Subq A → Subq A → Subq A × Subq A × ℕ
  unfolding get_depth
  move_all dst src =
      let queue_depth = get_depth src in
      if ltb 0 queue_depth
      then (
        record dst {
          block_list = dst.block_list ++ src.block_list;
          push_count = u32 (dst.push_count + queue_depth);
        },
        record src { block_list = []; pull_count = u32 (src.pull_count + queue_depth) },
        queue_depth,
      )
      else (dst, src, queue_depth)

  -- The recycle queue of the pool, the queue, and the number of blocks dropped.
  unfoldable pub drop_all : Subq A → Subq A → Subq A × Subq A × ℕ
  unfolding get_depth merge_list
  drop_all recycle q =
      let queue_depth = get_depth q in
      if ltb 0 queue_depth
      then (
        (merge_list recycle q.block_list).0,
        record q { block_list = []; pull_count = u32 (q.pull_count + queue_depth) },
        queue_depth,
      )
      else (recycle, q, queue_depth)
