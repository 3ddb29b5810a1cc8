-- ===== src/Rbtree/Extract/Ends.antt =====
-- common/src/v7_rbtree.c: how the rounds of `do_delete_rebalance` end.
use bplib.Common.{ℕ, suc, ◌≡◌, refl, Bool, true, false, none, some, List, arith}
use bplib.Rbtree.{Color, red, black, Link, Tree, leaf, node, Frame, Root, is_red, plug}
use bplib.Rbtree.Balance.{IsBalanced}
use bplib.Rbtree.Height.{RedBlack, color_above, Fits, RedBlack-weaken, plug-RedBlack}
use bplib.Rbtree.Extract.{Round, done, again, faulted, is_red_color, delete_rebalance}

-- What `Fits` says of the first frame beside its sibling.
abbrev pub OfFrame : Color → ℕ → List Frame → ℕ → Type 0
OfFrame red m path total = (color_above path ≡ black) × Fits m path total
OfFrame black m path total = Fits (suc m) path total

pub of_red_frame :
    (c : Color) (m : ℕ) (path : List Frame) (total : ℕ)
    → is_red_color c ≡ true
    → OfFrame c m path total
    → Fits m path total
of_red_frame red m path total e h = h.1
of_red_frame black m path total e h = cc

pub plug-node :
    (c : Color) (m : ℕ) (x : Link) (a b : Tree) (path : List Frame) (total : ℕ)
    → RedBlack red m a
    → RedBlack red m b
    → OfFrame c m path total
    → RedBlack black total (plug (node c x a b) path)
plug-node red m x a b path total ha hb h =
    plug-RedBlack m (node red x a b) path total (h.0, ha, hb) h.1
plug-node black m x a b path total ha hb h =
    plug-RedBlack (suc m) (node black x a b) path total
      (omega arith, RedBlack-weaken black m a ha, RedBlack-weaken black m b hb) h

pub RedBlack-not_red : (n : ℕ) (t : Tree) → RedBlack red n t → is_red t ≡ false
RedBlack-not_red n leaf h = refl
RedBlack-not_red n (node red x l r) h = cc
RedBlack-not_red n (node black x l r) h = refl

pub red_and_black : {b : Bool} → b ≡ true → b ≡ false → ⊥
red_and_black e e' = cc

module _ (total : ℕ) where
  -- The loop ends after a round, on a balanced tree.
  abbrev pub Ends : ℕ → Round → Type 0
  Ends fuel r =
      (tree : Root) × ((elim r [
        | done tree' ↦ some tree'
        | again t path ↦ delete_rebalance fuel total t path
        | faulted ↦ none
      ])
        ≡ some tree)
      × IsBalanced tree
