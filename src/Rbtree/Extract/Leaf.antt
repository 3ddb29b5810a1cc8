-- ===== src/Rbtree/Extract/Leaf.antt =====
-- common/src/v7_rbtree.c: making a node a leaf keeps the tree balanced and the other links in order.
use mathlib.Core.List.{append_assoc, append-nil}
use bplib.Common.{
  ℕ, zero, suc, ◌+◌, ◌<◌, ◌≡◌, refl, sym, ap, ◌∙◌, Option, none, some, List, [], ◌∷◌, ◌++◌, arith,
}
use bplib.Rbtree.{Color, red, black, Link, Tree, leaf, node, Frame, in_left, in_right, plug}
use bplib.Rbtree.Height.{RedBlack, pred, color_above, Fits}
use bplib.Rbtree.Order.{inorder, before, after}
use bplib.Rbtree.Iter.{Position, rightmost, size, tree_of}
use bplib.Rbtree.Iter.Step.{links_before, links_after, Back, rightmost-Back}
use bplib.Rbtree.Extract.{swap_down, make_leaf}

-- The node stands in a balanced tree of a black height, and these are the other links.
pub record Placed (total : ℕ) (links : List Link) (p : Position) : Type 0 where
  pub height : ℕ
  pub balanced : RedBlack (color_above p.path) height (tree_of p)
  pub fits : Fits height p.path total
  pub others : links_before p ++ links_after p ≡ links

relink :
    (d : Color) (n : ℕ) (c : Color) (x y : Link) (l r : Tree)
    → RedBlack d n (node c x l r)
    → RedBlack d n (node c y l r)
relink d n red x y l r h = h
relink d n black x y l r h = h

-- Down from a node to one of its children.
abbrev pub Down : ℕ → Color → Tree → List Frame → Type 0
Down total c t path = (m : ℕ) × RedBlack c m t × Fits m path total

pub into_left :
    (total n : ℕ) (c : Color) (x y : Link) (l r : Tree) (path : List Frame)
    → RedBlack (color_above path) n (node c x l r)
    → Fits n path total
    → Down total c l (in_left c y r ∷ path)
into_left total n red x y l r path h f = (n, h.1, (h.2, h.0, f))
into_left total zero black x y l r path h f = absurd (omega (arith, h.0))
into_left total (suc n) black x y l r path h f = (n, h.1, (h.2, f))

pub into_right :
    (total n : ℕ) (c : Color) (x y : Link) (l r : Tree) (path : List Frame)
    → RedBlack (color_above path) n (node c x l r)
    → Fits n path total
    → Down total c r (in_right c y l ∷ path)
into_right total n red x y l r path h f = (n, h.2, (h.1, h.0, f))
into_right total zero black x y l r path h f = absurd (omega (arith, h.0))
into_right total (suc n) black x y l r path h f = (n, h.2, (h.1, f))

rightmost-Down :
    (total n : ℕ) (c : Color) (x : Link) (l r : Tree) (path : List Frame)
    → RedBlack (color_above path) n (node c x l r)
    → Fits n path total
    → let q = rightmost c x l r path in Down total (color_above q.path) (tree_of q) q.path
unfolding rightmost
rightmost-Down total n c x l leaf path h f = (n, h, f)
rightmost-Down total n c x l (node c' x' l' r') path h f =
    let (m, h', f') = into_right total n c x x l (node c' x' l' r') path h f in
    rightmost-Down total m c' x' l' r' (in_right c x l ∷ path) h' f'

rightmost-link :
    (c : Color) (x : Link) (l r : Tree) (path path' : List Frame)
    → (rightmost c x l r path).link ≡ (rightmost c x l r path').link
unfolding rightmost
rightmost-link c x l leaf path path' = refl
rightmost-link c x l (node c' x' l' r') path path' =
    rightmost-link c' x' l' r' (in_right c x l ∷ path) (in_right c x l ∷ path')

rightmost-size :
    (c : Color) (x : Link) (l r : Tree) (path : List Frame)
    → size (rightmost c x l r path).left + size (rightmost c x l r path).right < size (node c x l r)
unfolding rightmost size
rightmost-size c x l leaf path = omega arith
rightmost-size c x l (node c' x' l' r') path =
    omega (arith, rightmost-size c' x' l' r' (in_right c x l ∷ path))

-- What is so after one round: the node is a leaf, or it is lower and keeps its place.
abbrev Lower : ℕ → List Link → ℕ → Position → Option Position → Type 0
Lower total links bound p none = (p.left ≡ leaf) × (p.right ≡ leaf)
Lower total links bound p (some q) = Placed total links q × (size q.left + size q.right < bound)

zero-leaf : (n : ℕ) (t : Tree) → RedBlack red n t → n ≡ 0 → t ≡ leaf
zero-leaf n leaf h e = refl
zero-leaf n (node red x l r) h e = cc
zero-leaf n (node black x l r) h e = absurd (omega (arith, h.0))

-- An only child on the right has no child on its left.
only_child :
    (d : Color) (n : ℕ) (c : Color) (x : Link) (c' : Color) (x' : Link) (l' r' : Tree)
    → RedBlack d n (node c x leaf (node c' x' l' r'))
    → l' ≡ leaf
only_child d n red x red x' l' r' h = cc
only_child d n red x black x' l' r' h = absurd (omega (arith, h.1, h.2.0))
only_child d n black x red x' l' r' h = zero-leaf (pred n) l' h.2.1 h.1
only_child d n black x black x' l' r' h = absurd (omega (arith, h.1, h.2.0))

-- The links around the target, which takes the place of the node.
swapped :
    (front : List Link) (z y : Link) (low high back : List Link)
    → z ≡ y
    → front ++ z ∷ [] ≡ low
    → back ≡ y ∷ high
    → front ++ back ≡ low ++ high
swapped front z y low high back e e' e'' =
    ap (λ ls. front ++ ls) (e'' ∙ ap (λ v. v ∷ high) (sym e))
    ∙ sym (append_assoc front (z ∷ []) high)
    ∙ ap (λ ls. ls ++ high) e'

module _ (total : ℕ) (links : List Link) where
  swap_down-Lower :
      (c : Color) (x : Link) (l r : Tree) (path : List Frame)
      → let p : Position = record { color = c; link = x; left = l; right = r; path = path } in
        Placed total links p → Lower total links (size l + size r) p (swap_down p)
  unfolding swap_down size before after inorder
  swap_down-Lower c x leaf leaf path w = (refl, refl)
  swap_down-Lower c x leaf (node c' x' l' r') path w = (
    record {
      height = down.0;
      balanced = relink c down.0 c' x' x l' r' down.1;
      fits = down.2;
      others = same ∙ w.others;
    },
    omega arith,
  )
    where
      down : Down total c (node c' x' l' r') (in_right c x' leaf ∷ path)
      down = into_right total w.height c x x' leaf (node c' x' l' r') path w.balanced w.fits

      no_left : l' ≡ leaf
      no_left = only_child (color_above path) w.height c x c' x' l' r' w.balanced

      same :
          (before path ++ (x' ∷ [])) ++ inorder l' ++ (inorder r' ++ after path)
          ≡ (before path ++ []) ++ ((inorder l' ++ x' ∷ inorder r') ++ after path)
      same = rw no_left (simp (append_assoc, append-nil))
  swap_down-Lower c x (node c' x' l' r') r path w =
      let (m, h, f) =
        rightmost-Down total down.0 c' x' l' r' (in_left c y r ∷ path) down.1 down.2 in
      (
        record {
          height = m;
          balanced = relink (color_above q.path) m q.color q.link x q.left q.right h;
          fits = f;
          others =
              swapped (links_before q) q.link y (before path ++ inorder (node c' x' l' r'))
                (inorder r ++ after path) (links_after q)
                (rightmost-link c' x' l' r' (in_left c y r ∷ path) (in_left c x r ∷ path)) ends.1
                ends.2
              ∙ w.others;
        },
        omega (arith, rightmost-size c' x' l' r' (in_left c y r ∷ path)),
      )
    where
      y : Link
      y = (rightmost c' x' l' r' (in_left c x r ∷ path)).link

      ends :
          Back
            (plug (node c' x' l' r') (in_left c y r ∷ path))
            (before (in_left c y r ∷ path) ++ inorder (node c' x' l' r'))
            (after (in_left c y r ∷ path))
            (some (rightmost c' x' l' r' (in_left c y r ∷ path)))
      ends = rightmost-Back c' x' l' r' (in_left c y r ∷ path)

      q : Position
      q = rightmost c' x' l' r' (in_left c y r ∷ path)

      down : Down total c (node c' x' l' r') (in_left c y r ∷ path)
      down = into_left total w.height c x y (node c' x' l' r') r path w.balanced w.fits

  -- A place of a leaf.
  abbrev pub LeafPlace : Position → Type 0
  LeafPlace q = Placed total links q × (q.left ≡ leaf) × (q.right ≡ leaf)

  -- With more rounds than there are nodes below the node, it becomes a leaf.
  pub make_leaf_lem :
      (fuel : ℕ) (p : Position)
      → size p.left + size p.right < fuel
      → Placed total links p
      → (q : Position) × (make_leaf fuel p ≡ some q) × LeafPlace q
  unfolding make_leaf
  make_leaf_lem zero p b w = absurd (omega arith)
  make_leaf_lem (suc fuel) p b w =
      by_round (swap_down p) (swap_down-Lower p.color p.link p.left p.right p.path w)
        (λ q. make_leaf_lem fuel q)
    where
      by_round :
          (o : Option Position)
          → Lower total links (size p.left + size p.right) p o
          → ((q : Position)
              → size q.left + size q.right < fuel
              → Placed total links q
              → (q' : Position) × (make_leaf fuel q ≡ some q') × LeafPlace q')
          → (q' : Position) × ((elim o [ none ↦ some p | some q ↦ make_leaf fuel q ]) ≡ some q')
            × LeafPlace q'
      by_round none (l, r) ih = (p, refl, (w, l, r))
      by_round (some q) (w', b') ih = ih q (omega (arith, b, b')) w'
