-- ===== src/Rbtree/Tests.antt =====
-- common/src/v7_rbtree.c: a concrete tree with three links, and the theorems of the trees at it.
use bplib.Common.{ℕ, ◌≡◌, refl, false, some, [], ◌∷◌, ◌++◌, ◌==◌, arith, if◌then◌else◌}
use bplib.Rbtree.{
  red, black, Link, leaf, node, in_left, Root, init_root, no_compare, search_generic,
  insert_value_generic, stored_key, bp_success, plug,
}
use bplib.Rbtree.Order.{inorder}
use bplib.Rbtree.Keys.{IsSorted}
use bplib.Rbtree.Balance.{IsBalanced, insert_value_generic-IsBalanced}
use bplib.Rbtree.Insert.{search_generic-insert}
use bplib.Rbtree.Iter.{Position, Moved, goto_max, goto_min, iter_next, iter_prev, moved_to}
use bplib.Rbtree.Iter.Step.{links_before, links_after, Forward, Back, iter_step}
use bplib.Rbtree.Iter.Goto.{StartsBy, goto_max_lem, goto_overshoots}
use bplib.Rbtree.Extract.{extract_node}
use bplib.Rbtree.Extract.Node.{extract_node_lem}

abbrev link : ℕ → ℕ → Link
link key block = record { key = key; block = block }

abbrev three_links : Root
three_links = record {
  root = node black (link 20 2) (node red (link 10 1) leaf leaf) (node red (link 30 3) leaf leaf);
  black_height = 1;
}

abbrev grown : ℕ → ℕ → Root → Root
grown value block tree = (insert_value_generic value tree false block no_compare).tree

grown-three_links : grown 20 2 (grown 10 1 (grown 30 3 init_root)) ≡ three_links
unfolding insert_value_generic stored_key
grown-three_links = refl

three_links-IsBalanced : IsBalanced three_links
three_links-IsBalanced = (omega arith, (refl, refl, refl), (refl, refl, refl))

three_links-IsSorted : IsSorted (inorder three_links.root)
unfolding inorder
three_links-IsSorted = omega arith

insert_value_generic-IsBalanced_example :
    IsBalanced (insert_value_generic 25 three_links false 4 no_compare).tree
insert_value_generic-IsBalanced_example =
    insert_value_generic-IsBalanced 25 three_links false 4 no_compare three_links-IsBalanced

inserted : (insert_value_generic 25 three_links false 4 no_compare).status ≡ bp_success
unfolding insert_value_generic stored_key
inserted = refl

search_generic-insert_example :
    let i = insert_value_generic 25 three_links false 4 no_compare in
    (search_generic 25 i.tree no_compare
      ≡ (if 25 == 25 then some (link 25 4) else search_generic 25 three_links no_compare))
    × IsSorted (inorder i.tree.root)
search_generic-insert_example =
    search_generic-insert 25 three_links 4 25 (omega arith) three_links-IsSorted inserted

-- The position of the link with the smallest key.
abbrev lowest : Position
lowest = record {
  color = red;
  link = link 10 1;
  left = leaf;
  right = leaf;
  path = in_left black (link 20 2) (node red (link 30 3) leaf leaf) ∷ [];
}

iter_step_example :
    Forward three_links.root
      (links_before lowest ++ link 10 1 ∷ [])
      (links_after lowest)
      (iter_next (some lowest)).position
    × Back three_links.root
        (links_before lowest)
        (link 10 1 ∷ links_after lowest)
        (iter_prev (some lowest)).position
unfolding plug
iter_step_example = iter_step three_links.root lowest refl

goto_max_lem_example :
    (m : Moved) × (goto_max 25 three_links ≡ some m) × StartsBy three_links.root 25 m
goto_max_lem_example = goto_max_lem three_links 25 three_links-IsSorted

goto_overshoots_example :
    (goto_max 5 (record {
      root = node black (link 10 1) leaf (node red (link 20 2) leaf leaf);
      black_height = 1;
    })
      ≡ some (
          moved_to (
            some (record {
              color = black;
              link = link 10 1;
              left = leaf;
              right = node red (link 20 2) leaf leaf;
              path = [];
            }))))
    × (goto_min 25 (record {
      root = node black (link 20 2) (node red (link 10 1) leaf leaf) leaf;
      black_height = 1;
    })
        ≡ some (
            moved_to (
              some (record {
                color = black;
                link = link 20 2;
                left = node red (link 10 1) leaf leaf;
                right = leaf;
                path = [];
              }))))
goto_overshoots_example = goto_overshoots 10 20 5 25 1 2 (omega arith) (omega arith) (omega arith)

extract_node_lem_example :
    (tree' : Root) × (extract_node three_links (some lowest)
      ≡ some (record { status = bp_success; tree = tree' }))
    × IsBalanced tree'
    × (inorder tree'.root ≡ links_before lowest ++ links_after lowest)
unfolding plug
extract_node_lem_example = extract_node_lem three_links lowest three_links-IsBalanced refl
