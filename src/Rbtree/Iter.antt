-- ===== src/Rbtree/Iter.antt =====
-- common/src/v7_rbtree.c: the iterators over the trees.
pub mod Step
pub mod Closest
pub mod Goto
use Prim.Native.Nat.{compare, Ordering}
use bplib.Common.{ℕ, zero, suc, ◌+◌, Option, none, some, List, [], ◌∷◌, leb, ◌>>=◌, if◌then◌else◌}
use bplib.Rbtree.{
  Color, Link, Tree, leaf, node, Frame, in_left, in_right, Root, Status, bp_success, bp_error,
}

-- A node of a tree that is not NULL, with the path to it.
pub record Position : Type 0 where
  pub color : Color
  pub link : Link
  pub left : Tree
  pub right : Tree
  pub path : List Frame

-- The status that a function returns, and the position that the iterator has then, if it is not NULL.
pub record Moved : Type 0 where
  pub status : Status
  pub position : Option Position

-- Down the left children from a node whose left child is given, and down the right ones.
unfoldable pub leftmost : Color → Link → Tree → Tree → List Frame → Position
leftmost c x leaf r path = record { color = c; link = x; left = leaf; right = r; path = path }
leftmost c x (node c' x' l' r') r path = leftmost c' x' l' r' (in_left c x r ∷ path)

unfoldable pub rightmost : Color → Link → Tree → Tree → List Frame → Position
rightmost c x l leaf path = record { color = c; link = x; left = l; right = leaf; path = path }
rightmost c x l (node c' x' l' r') path = rightmost c' x' l' r' (in_right c x l ∷ path)

-- Up from a node, until that comes from a left child, or from a right one.
unfoldable pub up_next : Tree → List Frame → Option Position
up_next t [] = none
up_next t (in_left c x s ∷ path) =
    some (record { color = c; link = x; left = t; right = s; path = path })
up_next t (in_right c x s ∷ path) = up_next (node c x s t) path

unfoldable pub up_prev : Tree → List Frame → Option Position
up_prev t [] = none
up_prev t (in_right c x s ∷ path) =
    some (record { color = c; link = x; left = s; right = t; path = path })
up_prev t (in_left c x s ∷ path) = up_prev (node c x t s) path

abbrev pub tree_of : Position → Tree
tree_of p = node p.color p.link p.left p.right

unfoldable pub next_position : Position → Option Position
unfolding leftmost up_next
next_position p = elim p.right [
  | node c x l r ↦ some (leftmost c x l r (in_right p.color p.link p.left ∷ p.path))
  | leaf ↦ up_next (tree_of p) p.path
]

unfoldable pub prev_position : Position → Option Position
unfolding rightmost up_prev
prev_position p = elim p.left [
  | node c x l r ↦ some (rightmost c x l r (in_left p.color p.link p.right ∷ p.path))
  | leaf ↦ up_prev (tree_of p) p.path
]

-- The end of `bplib_rbt_iter_next` and of `bplib_rbt_iter_prev`.
abbrev pub moved_to : Option Position → Moved
moved_to none = record { status = bp_error; position = none }
moved_to (some p) = record { status = bp_success; position = some p }

unfoldable pub iter_next : Option Position → Moved
unfolding next_position
iter_next iter = moved_to (iter >>= next_position)

unfoldable pub iter_prev : Option Position → Moved
unfolding prev_position
iter_prev iter = moved_to (iter >>= prev_position)

-- `bplib_rbt_iter_find_closest`, from a start given with its path on, where the last valid node is known.
unfoldable pub find_closest : ℕ → Tree → List Frame → Option Position → Option Position
find_closest target leaf path prev = prev
find_closest target (node c x l r) path prev =
    let here : Option Position =
      some (record { color = c; link = x; left = l; right = r; path = path }) in
    elim (compare x.key target) [
      | Ordering.eq ↦ here
      | Ordering.gt ↦ find_closest target l (in_left c x r ∷ path) here
      | Ordering.lt ↦ find_closest target r (in_right c x l ∷ path) here
    ]

unfoldable pub size : Tree → ℕ
size leaf = 0
size (node c x l r) = suc (size l + size r)

-- The loops of `bplib_rbt_iter_goto_min` and `bplib_rbt_iter_goto_max` on fuel, none when it runs out.
unfoldable pub min_loop : ℕ → ℕ → Position → Option Position
unfolding find_closest
min_loop zero target p = none
min_loop (suc fuel) target p = elim p.left [
  | leaf ↦ some p
  | node c x l r ↦
      find_closest target (node c x l r) (in_left p.color p.link p.right ∷ p.path) none
      >>= min_loop fuel target
]

unfoldable pub max_loop : ℕ → ℕ → Position → Option Position
unfolding find_closest
max_loop zero target p = none
max_loop (suc fuel) target p = elim p.right [
  | leaf ↦ some p
  | node c x l r ↦
      find_closest target (node c x l r) (in_right p.color p.link p.left ∷ p.path) none
      >>= max_loop fuel target
]

unfoldable pub goto_min : ℕ → Root → Option Moved
unfolding min_loop iter_next size
goto_min minimum tree = elim (find_closest minimum tree.root [] none) [
  | none ↦ some (moved_to none)
  | some p ↦ do
    q ← min_loop (size tree.root) minimum p
    some (if leb minimum q.link.key then moved_to (some q) else iter_next (some q))
]

unfoldable pub goto_max : ℕ → Root → Option Moved
unfolding max_loop iter_prev size
goto_max maximum tree = elim (find_closest maximum tree.root [] none) [
  | none ↦ some (moved_to none)
  | some p ↦ do
    q ← max_loop (size tree.root) maximum p
    some (if leb q.link.key maximum then moved_to (some q) else iter_prev (some q))
]
