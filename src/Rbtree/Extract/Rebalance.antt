-- ===== src/Rbtree/Extract/Rebalance.antt =====
-- common/src/v7_rbtree.c: the rounds of `do_delete_rebalance` end with a balanced tree.
use bplib.Common.{ℕ, suc, ◌-◌, ◌≡◌, refl, some, List, [], ◌∷◌, arith}
use mathlib.Core.Path.{subst}
use bplib.Rbtree.{red, black, Tree, leaf, node, Frame, in_left, in_right, Root}
use bplib.Rbtree.Balance.{IsBalanced}
use bplib.Rbtree.Height.{RedBlack, Fits, RedBlack-weaken, RedBlack-under_red}
use bplib.Rbtree.Extract.{delete_rebalance, rounds, rounds_up}
use bplib.Rbtree.Extract.Left.{red_left, black_left}
use bplib.Rbtree.Extract.Right.{red_right, black_right}

module _ (total : ℕ) where
  -- A black node that counts for nothing, in a tree that is balanced but for that: with the rounds
  -- for its path, the loop ends.
  pub delete_rebalance-ends :
      (n : ℕ) (t : Tree) (path : List Frame)
      → RedBlack red n t
      → Fits (suc n) path total
      → (tree : Root) × (delete_rebalance (rounds path) total t path ≡ some tree) × IsBalanced tree
  unfolding delete_rebalance
  delete_rebalance-ends n t [] ht f = (
    record { root = t; black_height = total - 1 },
    refl,
    subst (λ k. RedBlack black k t) (omega (arith, f)) (RedBlack-weaken black n t ht),
  )
  delete_rebalance-ends n t (in_left red p sibling ∷ path) ht f =
      red_left total n t p sibling path (suc (rounds_up path)) ht f
  delete_rebalance-ends n t (in_left black p leaf ∷ path) ht f = absurd (omega (arith, f.0))
  delete_rebalance-ends n t (in_left black p (node red s close distant) ∷ path) ht f =
      red_left total n t p close (in_left black s distant ∷ path) (rounds_up path) ht
        (f.0.1, refl, (RedBlack-weaken black (suc n) distant f.0.2, f.1))
  delete_rebalance-ends n t (in_left black p (node black s close distant) ∷ path) ht f =
      black_left total n t black p s path ht f.1 (suc (rounds_up path)) close distant f.0.1 f.0.2
        (λ _ other other'.
          delete_rebalance-ends (suc n) (node black p t (node red s close distant)) path
            (
              omega arith,
              RedBlack-weaken black n t ht,
              (
                refl,
                RedBlack-under_red n close f.0.1 other,
                RedBlack-under_red n distant f.0.2 other',
              ),
            )
            f.1)
  delete_rebalance-ends n t (in_right red p sibling ∷ path) ht f =
      red_right total n t p sibling path (suc (rounds_up path)) ht f
  delete_rebalance-ends n t (in_right black p leaf ∷ path) ht f = absurd (omega (arith, f.0))
  delete_rebalance-ends n t (in_right black p (node red s distant close) ∷ path) ht f =
      red_right total n t p close (in_right black s distant ∷ path) (rounds_up path) ht
        (f.0.2, refl, (RedBlack-weaken black (suc n) distant f.0.1, f.1))
  delete_rebalance-ends n t (in_right black p (node black s distant close) ∷ path) ht f =
      black_right total n t black p s path ht f.1 (suc (rounds_up path)) close distant f.0.2 f.0.1
        (λ _ other other'.
          delete_rebalance-ends (suc n) (node black p (node red s distant close) t) path
            (
              omega arith,
              (
                refl,
                RedBlack-under_red n distant f.0.1 other',
                RedBlack-under_red n close f.0.2 other,
              ),
              RedBlack-weaken black n t ht,
            )
            f.1)
