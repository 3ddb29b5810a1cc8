-- ===== src/Mpool/Ring/Tests.antt =====
-- mpool/src/v7_mpool.c: rings of two nodes and of one.
use bplib.Common.{List, ◌≡◌, refl, [], ◌∷◌, arith, ℕ, Bool, true, ◌||◌, some, ◌==◌, if◌then◌else◌}
use bplib.Mpool.Ring.{
  search_list, foreach_item_in_list, Links, insert_before, insert_after, merge_all,
}
use bplib.Mpool.Ring.Chain.{Different}
use bplib.Mpool.Ring.Lists.{IsRing}
use bplib.Mpool.Ring.Iterate.{first_match, visit_all, search_list_lem, foreach_item_in_list_lem}
use bplib.Mpool.Ring.Merge.{merge_all-IsRing}

-- The ring of 0 with the nodes 1 and 2, and the ring of 5 with the node 6.
abbrev two_rings : Links
two_rings = record {
  next = λ i.
      if i == 0
      then 1
      else if i == 1
      then 2
      else if i == 2
      then 0
      else if i == 5
      then 6
      else if i == 6
      then 5
      else i;
  prev = λ i.
      if i == 0
      then 2
      else if i == 1
      then 0
      else if i == 2
      then 1
      else if i == 5
      then 6
      else if i == 6
      then 5
      else i;
}

first-IsRing : IsRing two_rings 0 (1 ∷ 2 ∷ [])
first-IsRing = record {
  chain = (refl, refl, (refl, refl, tt));
  ends = refl;
  starts = refl;
  different = ((omega arith, (omega arith, tt)), ((omega arith, tt), (tt, tt)));
}

second-IsRing : IsRing two_rings 5 (6 ∷ [])
second-IsRing = record {
  chain = (refl, refl, tt);
  ends = refl;
  starts = refl;
  different = ((omega arith, tt), (tt, tt));
}

apart : Different (0 ∷ 1 ∷ 2 ∷ 5 ∷ 6 ∷ [])
apart = (
  (omega arith, (omega arith, (omega arith, (omega arith, tt)))),
  (
    (omega arith, (omega arith, (omega arith, tt))),
    ((omega arith, (omega arith, tt)), ((omega arith, tt), (tt, tt))),
  ),
)

merge_all-IsRing_example :
    IsRing (merge_all 0 5 two_rings) 0 (1 ∷ 2 ∷ 6 ∷ []) × IsRing (merge_all 0 5 two_rings) 5 []
merge_all-IsRing_example =
    merge_all-IsRing 0 5 (1 ∷ 2 ∷ []) (6 ∷ []) two_rings first-IsRing second-IsRing apart

next_of_merged : (merge_all 0 5 two_rings).next 2 ≡ 6
unfolding merge_all
next_of_merged = refl

inserted_at_end : (insert_before 0 3 two_rings).prev 0 ≡ 3
unfolding insert_before
inserted_at_end = refl

inserted_at_front : (insert_after 0 3 two_rings).next 3 ≡ 1
unfolding insert_after
inserted_at_front = refl

-- A callback that notes the nodes.
abbrev note : ℕ → Links × List ℕ → Links × List ℕ
note node (m, seen) = (m, node ∷ seen)

abbrev NoCondition : List ℕ → Links → List ℕ → Type 0
NoCondition nodes m seen = Unit

foreach_item_in_list_lem_example :
    let r = foreach_item_in_list note true 0 3 (two_rings, []) in
    IsRing r.0.0 0 []
    × NoCondition [] r.0.0 r.0.1
    × (r.0.1 ≡ visit_all (λ node seen. node ∷ seen) [] (1 ∷ 2 ∷ []))
    × (r.1 ≡ 2)
foreach_item_in_list_lem_example =
    foreach_item_in_list_lem note (λ node seen. node ∷ seen) 0 (λ node m s. refl) NoCondition
      (λ node m s rest r h. tt) (λ node m s rest r alone apart h. (r, tt)) 3 (1 ∷ 2 ∷ []) two_rings
      [] (omega arith) first-IsRing tt

seen_in_order : (foreach_item_in_list note true 0 3 (two_rings, [])).0.1 ≡ 2 ∷ 1 ∷ []
unfolding foreach_item_in_list
seen_in_order = refl

abbrev is_head : ℕ → Bool
is_head i = i == 0 || i == 5

search_list_lem_example :
    search_list is_head two_rings (λ i. i == 2) 3 0
    ≡ first_match is_head (λ i. i == 2) two_rings (1 ∷ 2 ∷ [])
search_list_lem_example =
    search_list_lem is_head (λ i. i == 2) two_rings 3 0 (1 ∷ 2 ∷ []) (omega arith) refl
      (refl, (refl, tt)) first-IsRing

second_is_found : search_list is_head two_rings (λ i. i == 2) 3 0 ≡ some 2
unfolding search_list
second_is_found = refl
