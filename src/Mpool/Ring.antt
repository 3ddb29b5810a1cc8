-- ===== src/Mpool/Ring.antt =====
-- mpool/src/v7_mpool.c: the doubly linked lists of blocks. A link is named by a number, and the store
-- gives the fields of all of them; a list is the ring of its head and its nodes.
pub mod Chain
pub mod Lists
pub mod Merge
pub mod Iterate
mod Tests
use bplib.Common.{ℕ, zero, suc, Bool, true, false, Option, none, some, ◌==◌, if◌then◌else◌}

pub record Links : Type 0 where
  pub next : ℕ → ℕ
  pub prev : ℕ → ℕ

abbrev pub set_next : ℕ → ℕ → Links → Links
set_next node target m = record m { next = λ i. if i == node then target else m.next i }

abbrev pub set_prev : ℕ → ℕ → Links → Links
set_prev node target m = record m { prev = λ i. if i == node then target else m.prev i }

-- `bplib_mpool_insert_after`, of a link that is in no list.
unfoldable pub insert_after : ℕ → ℕ → Links → Links
insert_after list node m =
    let m1 = set_next node (m.next list) m in
    let m2 = set_prev node list m1 in
    let m3 = set_next list node m2 in set_prev (m3.next node) node m3

-- `bplib_mpool_insert_before`, of a link that is in no list.
unfoldable pub insert_before : ℕ → ℕ → Links → Links
insert_before list node m =
    let m1 = set_prev node (m.prev list) m in
    let m2 = set_next node list m1 in
    let m3 = set_prev list node m2 in set_next (m3.prev node) node m3

unfoldable pub extract_link : ℕ → Links → Links
extract_link node m =
    let m1 = set_next (m.prev node) (m.next node) m in
    let m2 = set_prev (m1.next node) (m1.prev node) m1 in set_prev node node (set_next node node m2)

unfoldable pub merge_rings : ℕ → ℕ → Links → Links
merge_rings dest src m =
    let dlast = m.prev dest in
    let slast = m.prev src in
    set_prev src dlast (set_prev dest slast (set_next slast dest (set_next dlast src m)))

-- The links of `bplib_mpool_subq_merge_list`: the rings are joined, and the head of the source is taken
-- out.
unfoldable pub merge_all : ℕ → ℕ → Links → Links
unfolding merge_rings extract_link
merge_all dest src m = extract_link src (merge_rings dest src m)

pub record ListIter : Type 0 where
  pub position : Option ℕ
  pub pending_entry : Option ℕ

-- `is_list_head` looks at the type of a link, and `match_fn` says whether the callback gives 0. An
-- iterator is followed by whether the status is BP_SUCCESS.
module _ (is_list_head : ℕ → Bool) (m : Links) where
  unfoldable pub list_iter_forward : ListIter → ListIter × Bool
  list_iter_forward iter = elim iter.pending_entry [
    | none ↦ (record iter { position = none }, false)
    | some entry ↦
        if is_list_head entry
        then (record iter { position = none }, false)
        else (record { position = some entry; pending_entry = some (m.next entry) }, true)
  ]

  unfoldable pub list_iter_goto_first : ℕ → ListIter → ListIter × Bool
  unfolding list_iter_forward
  list_iter_goto_first list iter =
      if is_list_head list
      then list_iter_forward (record iter { pending_entry = some (m.next list) })
      else (iter, false)

  -- The loop of `bplib_mpool_search_list` on fuel.
  unfoldable pub search_list_loop : (ℕ → Bool) → ℕ → ListIter × Bool → ListIter
  unfolding list_iter_forward
  search_list_loop match_fn zero (iter, status) = iter
  search_list_loop match_fn (suc fuel) (iter, status) =
      let rest = search_list_loop match_fn fuel (list_iter_forward iter) in
      elim iter.position [
        | none ↦ iter
        | some node ↦ if status then (if match_fn node then iter else rest) else iter
      ]

  -- One round more than there are nodes is enough.
  unfoldable pub search_list : (ℕ → Bool) → ℕ → ℕ → Option ℕ
  unfolding list_iter_goto_first search_list_loop
  search_list match_fn fuel list =
      (search_list_loop match_fn fuel
        (list_iter_goto_first list (record { position = none; pending_entry = none }))).position

-- The callback may change the links and what it keeps itself. The loop of
-- `bplib_mpool_foreach_item_in_list` on fuel: the state, and the count.
module _ {S : Type 0} (callback_fn : ℕ → Links × S → Links × S) (always_remove : Bool)
    (list : ℕ) where
  unfoldable pub foreach_loop : ℕ → ℕ → Links × S → (Links × S) × ℕ
  unfolding extract_link
  foreach_loop zero next_node (m, s) = ((m, s), 0)
  foreach_loop (suc fuel) next_node (m, s) =
      let m' = if always_remove then extract_link next_node m else m in
      let rest = foreach_loop fuel (m.next next_node) (callback_fn next_node (m', s)) in
      if next_node == list then ((m, s), 0) else (rest.0, suc rest.1)

  -- One round more than there are nodes is enough.
  unfoldable pub foreach_item_in_list : ℕ → Links × S → (Links × S) × ℕ
  unfolding foreach_loop
  foreach_item_in_list fuel (m, s) = foreach_loop fuel (m.next list) (m, s)
