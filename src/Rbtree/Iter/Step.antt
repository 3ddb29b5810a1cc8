-- ===== src/Rbtree/Iter/Step.antt =====
-- common/src/v7_rbtree.c: a step of an iterator goes to the next link in order, or to the one before.
use mathlib.Core.List.{append_assoc, append-nil}
use mathlib.Core.Path.{subst}
use bplib.Common.{◌≡◌, refl, sym, ◌∙◌, Option, none, some, List, [], ◌∷◌, ◌++◌}
use bplib.Rbtree.{Color, Link, Tree, leaf, node, Frame, in_left, in_right, plug}
use bplib.Rbtree.Order.{inorder, before, after}
use bplib.Rbtree.Iter.{
  Position, tree_of, leftmost, rightmost, up_next, up_prev, next_position, prev_position, moved_to,
  iter_next, iter_prev,
}

-- The links before and after the one at a position.
abbrev pub links_before : Position → List Link
links_before p = before p.path ++ inorder p.left

abbrev pub links_after : Position → List Link
links_after p = inorder p.right ++ after p.path

-- The position is one of a node of the tree.
abbrev pub IsIn : Tree → Position → Type 0
IsIn t p = plug (tree_of p) p.path ≡ t

-- What a step forward from a place in a tree comes to, with the links before and after the place.
abbrev pub Forward : Tree → List Link → List Link → Option Position → Type 0
Forward t links links' none = links' ≡ []
Forward t links links' (some p) =
    IsIn t p × (links_before p ≡ links) × (p.link ∷ links_after p ≡ links')

abbrev pub Back : Tree → List Link → List Link → Option Position → Type 0
Back t links links' none = links ≡ []
Back t links links' (some p) =
    IsIn t p × (links_before p ++ p.link ∷ [] ≡ links) × (links_after p ≡ links')

Forward-cong :
    (t : Tree) {l m l' m' : List Link} (o : Option Position)
    → l ≡ m
    → l' ≡ m'
    → Forward t l l' o
    → Forward t m m' o
Forward-cong t none e e' h = sym e' ∙ h
Forward-cong t (some p) e e' h = (h.0, h.1 ∙ e, h.2 ∙ e')

Back-cong :
    (t : Tree) {l m l' m' : List Link} (o : Option Position)
    → l ≡ m
    → l' ≡ m'
    → Back t l l' o
    → Back t m m' o
Back-cong t none e e' h = sym e ∙ h
Back-cong t (some p) e e' h = (h.0, h.1 ∙ e, h.2 ∙ e')

up_next-Forward :
    (t : Tree) (path : List Frame)
    → Forward (plug t path) (before path ++ inorder t) (after path) (up_next t path)
unfolding up_next plug inorder before after
up_next-Forward t [] = refl
up_next-Forward t (in_left c x s ∷ path) = (refl, refl, refl)
up_next-Forward t (in_right c x s ∷ path) =
    Forward-cong (plug (node c x s t) path) (up_next (node c x s t) path) (simp append_assoc) refl
      (up_next-Forward (node c x s t) path)

up_prev-Back :
    (t : Tree) (path : List Frame)
    → Back (plug t path) (before path) (inorder t ++ after path) (up_prev t path)
unfolding up_prev plug inorder before after
up_prev-Back t [] = refl
up_prev-Back t (in_right c x s ∷ path) = (refl, simp append_assoc, refl)
up_prev-Back t (in_left c x s ∷ path) =
    Back-cong (plug (node c x t s) path) (up_prev (node c x t s) path) refl (simp append_assoc)
      (up_prev-Back (node c x t s) path)

leftmost-Forward :
    (c : Color) (x : Link) (l r : Tree) (path : List Frame)
    → Forward
        (plug (node c x l r) path)
        (before path)
        (inorder (node c x l r) ++ after path)
        (some (leftmost c x l r path))
unfolding leftmost plug inorder before after
leftmost-Forward c x leaf r path = (refl, simp append-nil, refl)
leftmost-Forward c x (node c' x' l' r') r path =
    let (at, b, a) = leftmost-Forward c' x' l' r' (in_left c x r ∷ path) in
    (at, b, a ∙ simp append_assoc)

pub rightmost-Back :
    (c : Color) (x : Link) (l r : Tree) (path : List Frame)
    → Back
        (plug (node c x l r) path)
        (before path ++ inorder (node c x l r))
        (after path)
        (some (rightmost c x l r path))
unfolding rightmost plug inorder before after
rightmost-Back c x l leaf path = (refl, simp append_assoc, refl)
rightmost-Back c x l (node c' x' l' r') path =
    let (at, b, a) = rightmost-Back c' x' l' r' (in_right c x l ∷ path) in
    (at, b ∙ simp append_assoc, a)

next_from :
    (c : Color) (x : Link) (l r : Tree) (path : List Frame)
    → let p : Position = record { color = c; link = x; left = l; right = r; path = path } in
      Forward
        (plug (node c x l r) path)
        (links_before p ++ x ∷ [])
        (links_after p)
        (next_position p)
unfolding next_position plug before after inorder
next_from c x l leaf path =
    Forward-cong (plug (node c x l leaf) path) (up_next (node c x l leaf) path) (simp append_assoc)
      refl (up_next-Forward (node c x l leaf) path)
next_from c x l (node c' x' l' r') path =
    Forward-cong (plug (node c x l (node c' x' l' r')) path)
      (some (leftmost c' x' l' r' (in_right c x l ∷ path))) (simp append_assoc) refl
      (leftmost-Forward c' x' l' r' (in_right c x l ∷ path))

prev_from :
    (c : Color) (x : Link) (l r : Tree) (path : List Frame)
    → let p : Position = record { color = c; link = x; left = l; right = r; path = path } in
      Back (plug (node c x l r) path) (links_before p) (x ∷ links_after p) (prev_position p)
unfolding prev_position plug before after inorder
prev_from c x leaf r path =
    Back-cong (plug (node c x leaf r) path) (up_prev (node c x leaf r) path) (simp append-nil) refl
      (up_prev-Back (node c x leaf r) path)
prev_from c x (node c' x' l' r') r path =
    Back-cong (plug (node c x (node c' x' l' r') r) path)
      (some (rightmost c' x' l' r' (in_left c x r ∷ path))) refl refl
      (rightmost-Back c' x' l' r' (in_left c x r ∷ path))

pub step_lem :
    (t : Tree) (p : Position)
    → IsIn t p
    → Forward t (links_before p ++ p.link ∷ []) (links_after p) (next_position p)
      × Back t (links_before p) (p.link ∷ links_after p) (prev_position p)
step_lem t p at = (
  subst (λ t'. Forward t' (links_before p ++ p.link ∷ []) (links_after p) (next_position p)) at
      (next_from p.color p.link p.left p.right p.path),
  subst (λ t'. Back t' (links_before p) (p.link ∷ links_after p) (prev_position p)) at
      (prev_from p.color p.link p.left p.right p.path),
)

position-moved_to : (o : Option Position) → (moved_to o).position ≡ o
position-moved_to none = refl
position-moved_to (some p) = refl

-- From a node of a tree, a step forward goes to the node with the next link in order, and there is
-- none exactly when the node has the last link. A step back goes to the node with the link before,
-- and there is none when the node has the first one.
pub iter_step :
    (t : Tree) (p : Position)
    → IsIn t p
    → Forward t (links_before p ++ p.link ∷ []) (links_after p) (iter_next (some p)).position
      × Back t (links_before p) (p.link ∷ links_after p) (iter_prev (some p)).position
unfolding iter_next iter_prev
iter_step t p at =
    let (f, b) = step_lem t p at in
    (
      subst (Forward t (links_before p ++ p.link ∷ []) (links_after p))
          (sym (position-moved_to (next_position p))) f,
      subst (Back t (links_before p) (p.link ∷ links_after p))
          (sym (position-moved_to (prev_position p))) b,
    )
