-- ===== src/Rbtree/Order.antt =====
-- common/src/v7_rbtree.c: the links of a tree in order, and what insertion does to them.
use mathlib.Core.List.{append_assoc, append-nil}
use bplib.Common.{ℕ, ◌≡◌, refl, ap, ◌∙◌, Bool, true, false, List, [], ◌∷◌, ◌++◌, if◌then◌else◌}
use bplib.Rbtree.{
  red, black, Link, Tree, leaf, node, Frame, in_left, in_right, Root, is_red, set_black, plug,
  rotate_inner, insert_rebalance,
}

unfoldable pub inorder : Tree → List Link
inorder leaf = []
inorder (node c x l r) = inorder l ++ x ∷ inorder r

-- The links before and after the place that a path leads to.
unfoldable pub before : List Frame → List Link
unfolding inorder
before [] = []
before (in_left c x s ∷ path) = before path
before (in_right c x s ∷ path) = before path ++ (inorder s ++ x ∷ [])

unfoldable pub after : List Frame → List Link
unfolding inorder
after [] = []
after (in_left c x s ∷ path) = x ∷ (inorder s ++ after path)
after (in_right c x s ∷ path) = after path

ruleset joins = (append_assoc, append-nil)

pub inorder-plug :
    (t : Tree) (path : List Frame)
    → inorder (plug t path) ≡ before path ++ (inorder t ++ after path)
unfolding plug inorder before after
inorder-plug t [] = simp joins
inorder-plug t (in_left c x s ∷ path) = inorder-plug (node c x t s) path ∙ simp joins
inorder-plug t (in_right c x s ∷ path) = inorder-plug (node c x s t) path ∙ simp joins

pub inorder-set_black : (t : Tree) → inorder (set_black t) ≡ inorder t
unfolding inorder
inorder-set_black leaf = refl
inorder-set_black (node c x l r) = refl

module _ (height : ℕ) where
  -- A node with the links of its tree in order, put back at a path.
  abbrev Keeps : List Link → List Frame → Root → Type 0
  Keeps links path tree = inorder tree.root ≡ before path ++ (links ++ after path)

  Keeps-settled :
      (b : Bool) (up : Root) (t : Tree) (path : List Frame) (links : List Link)
      → Keeps links path up
      → inorder t ≡ links
      → Keeps links path (if b then up else record { root = plug t path; black_height = height })
  Keeps-settled true up t path links on_red on_black = on_red
  Keeps-settled false up t path links on_red on_black =
      inorder-plug t path ∙ ap (λ ls. before path ++ (ls ++ after path)) on_black

  -- Recoloring and rotations keep the links in order.
  pub inorder-insert_rebalance :
      (x : Link) (l r : Tree) (path : List Frame)
      → Keeps (inorder l ++ x ∷ inorder r) path (insert_rebalance height (node red x l r) path)
  unfolding insert_rebalance plug rotate_inner inorder before after
  inorder-insert_rebalance x l r [] = simp joins
  inorder-insert_rebalance x l r (in_left black p s ∷ path) =
      inorder-plug (node red x l r) (in_left black p s ∷ path)
  inorder-insert_rebalance x l r (in_left red p s ∷ []) = simp joins
  inorder-insert_rebalance x l r (in_right black p s ∷ path) =
      inorder-plug (node red x l r) (in_right black p s ∷ path)
  inorder-insert_rebalance x l r (in_right red p s ∷ []) = simp joins
  inorder-insert_rebalance x l r (in_left red p s ∷ in_left gc g u ∷ path) =
      Keeps-settled (is_red u)
        (insert_rebalance height (node red g (node black p (node red x l r) s) (set_black u)) path)
        (node gc p (node red x l r) (node red g s u)) path
        (inorder (node red g (node black p (node red x l r) s) (set_black u)))
        (inorder-insert_rebalance g (node black p (node red x l r) s) (set_black u) path)
        (rw (inorder-set_black u) (simp joins))
      ∙ rw (inorder-set_black u) (simp joins)
  inorder-insert_rebalance x l r (in_left red p s ∷ in_right gc g u ∷ path) =
      Keeps-settled (is_red u)
        (insert_rebalance height (node red g (set_black u) (node black p (node red x l r) s)) path)
        (node gc x (node red g u l) (node red p r s)) path
        (inorder (node red g (set_black u) (node black p (node red x l r) s)))
        (inorder-insert_rebalance g (set_black u) (node black p (node red x l r) s) path)
        (rw (inorder-set_black u) (simp joins))
      ∙ rw (inorder-set_black u) (simp joins)
  inorder-insert_rebalance x l r (in_right red p s ∷ in_left gc g u ∷ path) =
      Keeps-settled (is_red u)
        (insert_rebalance height (node red g (node black p s (node red x l r)) (set_black u)) path)
        (node gc x (node red p s l) (node red g r u)) path
        (inorder (node red g (node black p s (node red x l r)) (set_black u)))
        (inorder-insert_rebalance g (node black p s (node red x l r)) (set_black u) path)
        (rw (inorder-set_black u) (simp joins))
      ∙ rw (inorder-set_black u) (simp joins)
  inorder-insert_rebalance x l r (in_right red p s ∷ in_right gc g u ∷ path) =
      Keeps-settled (is_red u)
        (insert_rebalance height (node red g (set_black u) (node black p s (node red x l r))) path)
        (node gc p (node red g u s) (node red x l r)) path
        (inorder (node red g (set_black u) (node black p s (node red x l r))))
        (inorder-insert_rebalance g (set_black u) (node black p s (node red x l r)) path)
        (rw (inorder-set_black u) (simp joins))
      ∙ rw (inorder-set_black u) (simp joins)
