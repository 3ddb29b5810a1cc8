-- ===== src/Mpool/Ring/Iterate.antt =====
-- mpool/src/v7_mpool.c: loops over the nodes of a ring.
use mathlib.Core.Path.{subst}
use bplib.Common.{
  ℕ, zero, suc, ◌<◌, ◌≡◌, refl, sym, ap, ◌∙◌, Bool, true, false, Option, none, some, List, [], ◌∷◌,
  length, ◌==◌, arith, Bool-cases, inl, inr, if◌then◌else◌,
}
use bplib.Mpool.Ring.{
  Links, ListIter, extract_link, list_iter_forward, list_iter_goto_first, search_list_loop,
  search_list, foreach_loop, foreach_item_in_list,
}
use bplib.Mpool.Ring.Chain.{Chain, last, NotIn}
use bplib.Mpool.Ring.Lists.{IsRing}
use bplib.Mpool.Ring.Merge.{extract_link-IsRing}

-- The first node, or the head of an empty list.
abbrev first : ℕ → List ℕ → ℕ
first head [] = head
first head (x ∷ xs) = x

next-first : (m : Links) (head : ℕ) (xs : List ℕ) → IsRing m head xs → m.next head ≡ first head xs
next-first m head [] r = r.ends
next-first m head (x ∷ xs) r = r.chain.0

next_of_first :
    (m : Links) (head x : ℕ) (xs : List ℕ) → IsRing m head (x ∷ xs) → m.next x ≡ first head xs
next_of_first m head x [] r = r.ends
next_of_first m head x (y ∷ xs) r = r.chain.2.0

-- From every node, the next is the one after it, and the head after the last.
abbrev Leads : Links → ℕ → List ℕ → Type 0
Leads m head [] = Unit
Leads m head (x ∷ xs) = (m.next x ≡ first head xs) × Leads m head xs

Chain-Leads :
    (m : Links) (head a : ℕ) (xs : List ℕ)
    → Chain m a xs
    → m.next (last a xs) ≡ head
    → (m.next a ≡ first head xs) × Leads m head xs
Chain-Leads m head a [] c e = (e, tt)
Chain-Leads m head a (x ∷ xs) c e = (c.0, Chain-Leads m head x xs c.2 e)

IsRing-Leads : (m : Links) (head : ℕ) (xs : List ℕ) → IsRing m head xs → Leads m head xs
IsRing-Leads m head xs r = (Chain-Leads m head head xs r.chain r.ends).1

-- What a callback makes of what it keeps, node by node.
abbrev pub visit_all : {S : Type 0} → (ℕ → S → S) → S → List ℕ → S
visit_all visit s [] = s
visit_all visit s (x ∷ xs) = visit_all visit (visit x s) xs

module _ {S : Type 0} (callback_fn : ℕ → Links × S → Links × S) (visit : ℕ → S → S) (list : ℕ)
    (visits : (node : ℕ) (m : Links) (s : S) → (callback_fn node (m, s)).1 ≡ visit node s)
    (Holds : List ℕ → Links → S → Type 0)
    (extracts : (node : ℕ) (m : Links) (s : S) (rest : List ℕ)
      → IsRing m list (node ∷ rest)
      → Holds (node ∷ rest) m s
      → Holds (node ∷ rest) (extract_link node m) s)
    (keeps : (node : ℕ) (m : Links) (s : S) (rest : List ℕ)
      → IsRing m list rest
      → IsRing m node []
      → NotIn node (list ∷ rest)
      → Holds (node ∷ rest) m s
      → IsRing (callback_fn node (m, s)).0 list rest
        × Holds rest (callback_fn node (m, s)).0 (callback_fn node (m, s)).1) where
  one_round :
      (fuel x following : ℕ) (m : Links) (s : S)
      → (x == list) ≡ false
      → m.next x ≡ following
      → foreach_loop callback_fn true list (suc fuel) x (m, s) ≡ (
        (foreach_loop callback_fn true list fuel following (callback_fn x (extract_link x m, s))).0,
        suc
            (foreach_loop callback_fn true list fuel following
              (callback_fn x (extract_link x m, s))).1,
      )
  unfolding foreach_loop
  one_round fuel x following m s there e = rw there (
      ap
        (λ (n : ℕ). (
          (foreach_loop callback_fn true list fuel n (callback_fn x (extract_link x m, s))).0,
          suc (foreach_loop callback_fn true list fuel n (callback_fn x (extract_link x m, s))).1,
        ))
        e)

  removing_loop :
      (fuel : ℕ) (xs : List ℕ) (m : Links) (s : S)
      → length xs < fuel
      → IsRing m list xs
      → Holds xs m s
      → let r = foreach_loop callback_fn true list fuel (first list xs) (m, s) in
        IsRing r.0.0 list []
        × Holds [] r.0.0 r.0.1
        × (r.0.1 ≡ visit_all visit s xs)
        × (r.1 ≡ length xs)
  unfolding foreach_loop
  removing_loop zero xs m s enough r h = absurd (omega arith)
  removing_loop (suc fuel) [] m s enough r h =
      let here : (list == list) ≡ true = ground arith in rw here (r, h, refl, refl)
  removing_loop (suc fuel) (x ∷ xs) m s enough r h =
      let there : (x == list) ≡ false = ground (arith, r.different.0.0) in
      let m' = extract_link x m in
      let out = extract_link-IsRing list x [] m xs r in
      let called = callback_fn x (m', s) in
      let apart : NotIn x (list ∷ xs) = ((λ e. r.different.0.0 (sym e)), r.different.1.0) in
      let kept = keeps x m' s xs out.0 out.1 apart (extracts x m s xs r h) in
      let rest = removing_loop fuel xs called.0 called.1 (omega arith) kept.0 kept.1 in
      subst
        (λ t.
          IsRing t.0.0 list []
          × Holds [] t.0.0 t.0.1
          × (t.0.1 ≡ visit_all visit s (x ∷ xs))
          × (t.1 ≡ suc (length xs)))
        (sym (one_round fuel x (first list xs) m s there (next_of_first m list x xs r)))
        (rest.0, rest.1, rest.2 ∙ ap (λ t. visit_all visit t xs) (visits x m' s), ap suc rest.3)

  -- The visit of a list with `always_remove`, by a callback that works on what it keeps in the same way
  -- for all links, and that, given a node that was taken out, leaves the list of the nodes to come as
  -- it is, as long as some condition of its own holds. The loop ends, with as many rounds as there
  -- are nodes and one more, and visits every node once and in order, also if the callback puts the node
  -- into another list. The count is the number of nodes, and the list is empty afterwards.
  pub foreach_item_in_list_lem :
      (fuel : ℕ) (xs : List ℕ) (m : Links) (s : S)
      → length xs < fuel
      → IsRing m list xs
      → Holds xs m s
      → let r = foreach_item_in_list callback_fn true list fuel (m, s) in
        IsRing r.0.0 list []
        × Holds [] r.0.0 r.0.1
        × (r.0.1 ≡ visit_all visit s xs)
        × (r.1 ≡ length xs)
  unfolding foreach_item_in_list
  foreach_item_in_list_lem fuel xs m s enough r h =
      rw (next-first m list xs r) (removing_loop fuel xs m s enough r h)

module _ (is_list_head match_fn : ℕ → Bool) (m : Links) where
  -- The first node that matches.
  abbrev pub first_match : List ℕ → Option ℕ
  first_match [] = none
  first_match (x ∷ xs) = if match_fn x then some x else first_match xs

  abbrev pub NoHeads : List ℕ → Type 0
  NoHeads [] = Unit
  NoHeads (x ∷ xs) = (is_list_head x ≡ false) × NoHeads xs

  abbrev pending : Option ℕ → ℕ → ListIter
  pending position entry = record { position = position; pending_entry = some entry }

  search_loop_lem :
      (fuel : ℕ) (head : ℕ) (xs : List ℕ) (position : Option ℕ)
      → length xs < fuel
      → is_list_head head ≡ true
      → NoHeads xs
      → Leads m head xs
      → (search_list_loop is_list_head m match_fn fuel
          (list_iter_forward is_list_head m (pending position (first head xs)))).position
        ≡ first_match xs
  unfolding search_list_loop list_iter_forward
  search_loop_lem zero head xs position enough h n r = absurd (omega arith)
  search_loop_lem (suc fuel) head [] position enough h n r = rw h refl
  search_loop_lem (suc fuel) head (x ∷ xs) position enough h n r =
      let rest = search_loop_lem fuel head xs (some x) (omega arith) h n.1 r.1 in
      elim (Bool-cases (match_fn x)) [
        | inl hit ↦ rw (n.0, hit) refl
        | inr miss ↦ rw (n.0, miss, r.0) rest
      ]

  goto_first :
      (head following : ℕ)
      → is_list_head head ≡ true
      → m.next head ≡ following
      → list_iter_goto_first is_list_head m head (record { position = none; pending_entry = none })
        ≡ list_iter_forward is_list_head m (pending none following)
  unfolding list_iter_goto_first
  goto_first head following h e =
      rw h (ap (λ n. list_iter_forward is_list_head m (pending none n)) e)

  -- The search of a list whose head is a list head and whose nodes are not, with as many rounds as there
  -- are nodes and one more: it returns the first node that matches, or NULL if none does.
  pub search_list_lem :
      (fuel head : ℕ) (xs : List ℕ)
      → length xs < fuel
      → is_list_head head ≡ true
      → NoHeads xs
      → IsRing m head xs
      → search_list is_list_head m match_fn fuel head ≡ first_match xs
  unfolding search_list
  search_list_lem fuel head xs enough h n r =
      ap (λ t. (search_list_loop is_list_head m match_fn fuel t).position)
        (goto_first head (first head xs) h (next-first m head xs r))
      ∙ search_loop_lem fuel head xs none enough h n (IsRing-Leads m head xs r)
