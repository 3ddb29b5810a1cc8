-- ===== src/Rbtree/Height.antt =====
-- common/src/v7_rbtree.c: the balance of the trees and of a place in one.
use bplib.Common.{ℕ, zero, suc, ◌≤◌, ◌≡◌, true, false, List, [], ◌∷◌, arith}
use mathlib.Core.Path.{subst}
use bplib.Rbtree.{
  Color, red, black, Tree, leaf, node, Frame, in_left, in_right, is_red, set_black, plug,
}

abbrev pub pred : ℕ → ℕ
pred zero = 0
pred (suc n) = n

-- A tree under a parent of a color, with as many black nodes on every path down to NULL: no red node
-- has a red child.
abbrev pub RedBlack : Color → ℕ → Tree → Type 0
RedBlack c n leaf = n ≡ 0
RedBlack c n (node red x l r) = (c ≡ black) × RedBlack red n l × RedBlack red n r
RedBlack c n (node black x l r) = (1 ≤ n) × RedBlack black (pred n) l × RedBlack black (pred n) r

abbrev pub color_above : List Frame → Color
color_above [] = black
color_above (in_left c x s ∷ path) = c
color_above (in_right c x s ∷ path) = c

-- A path whose tree is balanced, of one black height, once a tree of another one is put at its end.
abbrev pub Fits : ℕ → List Frame → ℕ → Type 0
Fits n [] total = n ≡ total
Fits n (in_left red x s ∷ path) total =
    RedBlack red n s × (color_above path ≡ black) × Fits n path total
Fits n (in_left black x s ∷ path) total = RedBlack black n s × Fits (suc n) path total
Fits n (in_right red x s ∷ path) total =
    RedBlack red n s × (color_above path ≡ black) × Fits n path total
Fits n (in_right black x s ∷ path) total = RedBlack black n s × Fits (suc n) path total

-- A tree that stands under a red parent may stand under any.
pub RedBlack-weaken : (c : Color) (n : ℕ) (t : Tree) → RedBlack red n t → RedBlack c n t
RedBlack-weaken c n leaf h = h
RedBlack-weaken c n (node red x l r) h = cc
RedBlack-weaken c n (node black x l r) h = h

pub RedBlack-under_red :
    (n : ℕ) (t : Tree) → RedBlack black n t → is_red t ≡ false → RedBlack red n t
RedBlack-under_red n leaf h e = h
RedBlack-under_red n (node red x l r) h e = cc
RedBlack-under_red n (node black x l r) h e = h

-- A tree painted black gains a level if it was red.
pub RedBlack-set_black :
    (n : ℕ) (t : Tree) → RedBlack black n t → is_red t ≡ true → RedBlack red (suc n) (set_black t)
RedBlack-set_black n leaf h e = cc
RedBlack-set_black n (node black x l r) h e = cc
RedBlack-set_black n (node red x l r) h e =
    (omega arith, RedBlack-weaken black n l h.1, RedBlack-weaken black n r h.2)

pub plug-RedBlack :
    (n : ℕ) (t : Tree) (path : List Frame) (total : ℕ)
    → RedBlack (color_above path) n t
    → Fits n path total
    → RedBlack black total (plug t path)
unfolding plug
plug-RedBlack n t [] total h f = subst (λ k. RedBlack black k t) f h
plug-RedBlack n t (in_left red x s ∷ path) total h f =
    plug-RedBlack n (node red x t s) path total (f.1, h, f.0) f.2
plug-RedBlack n t (in_left black x s ∷ path) total h f =
    plug-RedBlack (suc n) (node black x t s) path total (omega arith, h, f.0) f.1
plug-RedBlack n t (in_right red x s ∷ path) total h f =
    plug-RedBlack n (node red x s t) path total (f.1, f.0, h) f.2
plug-RedBlack n t (in_right black x s ∷ path) total h f =
    plug-RedBlack (suc n) (node black x s t) path total (omega arith, f.0, h) f.1
