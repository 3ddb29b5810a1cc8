-- ===== src/Rbtree/Extract.antt =====
-- common/src/v7_rbtree.c: taking a link out of a tree.
pub mod Leaf
pub mod Links
pub mod Ends
pub mod Left
pub mod Right
pub mod Rebalance
pub mod Node
use bplib.Common.{
  ℕ, zero, suc, ◌+◌, ◌-◌, Bool, true, false, Option, none, some, List, [], ◌∷◌, ◌>>=◌,
  if◌then◌else◌,
}
use bplib.Rbtree.{
  Color, red, black, Link, Tree, leaf, node, Frame, in_left, in_right, Root, is_red, set_black,
  plug, Status, bp_success, bp_error,
}
use bplib.Rbtree.Iter.{Position, rightmost, size}

-- One round of `do_delete_make_leaf`: the node changes places with the largest node on its left, or
-- else with its right child. The colors stay where they are.
unfoldable pub swap_down : Position → Option Position
unfolding rightmost
swap_down p = elim p.left [
  | node c x l r ↦
      let target = rightmost c x l r (in_left p.color p.link p.right ∷ p.path) in
      some (record (rightmost c x l r (in_left p.color target.link p.right ∷ p.path)) {
        link = p.link;
      })
  | leaf ↦ elim p.right [
    | node c x l r ↦ some (record {
      color = c;
      link = p.link;
      left = l;
      right = r;
      path = in_right p.color x leaf ∷ p.path;
    })
    | leaf ↦ none
  ]
]

-- `do_delete_make_leaf` on fuel, none when it runs out.
unfoldable pub make_leaf : ℕ → Position → Option Position
unfolding swap_down
make_leaf zero p = none
make_leaf (suc fuel) p = elim (swap_down p) [ none ↦ some p | some q ↦ make_leaf fuel q ]

-- What a round of `do_delete_rebalance` comes to: an end, a node for the next round with the path to
-- it, or a NULL pointer that is followed.
pub data Round : Type 0 where
  done : Root → Round
  again : Tree → List Frame → Round
  faulted : Round

-- The rotation for a red close nephew, in which the sibling and the nephew swap their colors: for a
-- node on the left, and for one on the right.
abbrev pub rotate_close_left : Color → Link → Tree → Tree → Tree
rotate_close_left sc s leaf distant = leaf
rotate_close_left sc s (node cc x l r) distant = node sc x l (node cc s r distant)

abbrev pub rotate_close_right : Color → Link → Tree → Tree → Tree
rotate_close_right sc s leaf distant = leaf
rotate_close_right sc s (node cc x l r) distant = node sc x (node cc s distant l) r

abbrev pub is_red_color : Color → Bool
is_red_color red = true
is_red_color black = false

-- The cases of a black sibling: a red close nephew, a red distant nephew, a red parent, all black.
unfoldable pub by_case : Bool → Bool → Bool → Round → Round → Round → Round → Round
by_case red_close red_distant red_parent on_close on_distant on_parent on_black =
    if red_close
    then on_close
    else if red_distant
    then on_distant
    else if red_parent
    then on_parent
    else on_black

-- One round, for a black node whose tree is given with the path to it.
unfoldable pub delete_round : ℕ → Tree → List Frame → Round
unfolding plug
delete_round height t [] = done (record { root = t; black_height = height - 1 })
delete_round height t (in_left pc p leaf ∷ path) = faulted
delete_round height t (in_left pc p (node red s close distant) ∷ path) =
    again t (in_left red p close ∷ in_left pc s distant ∷ path)
delete_round height t (in_left pc p (node black s close distant) ∷ path) =
    by_case (is_red close) (is_red distant) (is_red_color pc)
      (again t (in_left pc p (rotate_close_left black s close distant) ∷ path))
      (done (record {
        root = plug (node pc s (node black p t close) (set_black distant)) path;
        black_height = height;
      }))
      (done (record {
        root = plug (node black p t (node red s close distant)) path;
        black_height = height;
      }))
      (again (node pc p t (node red s close distant)) path)
delete_round height t (in_right pc p leaf ∷ path) = faulted
delete_round height t (in_right pc p (node red s distant close) ∷ path) =
    again t (in_right red p close ∷ in_right pc s distant ∷ path)
delete_round height t (in_right pc p (node black s distant close) ∷ path) =
    by_case (is_red close) (is_red distant) (is_red_color pc)
      (again t (in_right pc p (rotate_close_right black s close distant) ∷ path))
      (done (record {
        root = plug (node pc s (set_black distant) (node black p close t)) path;
        black_height = height;
      }))
      (done (record {
        root = plug (node black p (node red s distant close) t) path;
        black_height = height;
      }))
      (again (node pc p (node red s distant close) t) path)

-- The loop of `do_delete_rebalance` on fuel, none when it runs out or follows a NULL pointer.
unfoldable pub delete_rebalance : ℕ → ℕ → Tree → List Frame → Option Root
unfolding delete_round by_case
delete_rebalance zero height t path = none
delete_rebalance (suc fuel) height t path = elim (delete_round height t path) [
  | done tree ↦ some tree
  | again t' path' ↦ delete_rebalance fuel height t' path'
  | faulted ↦ none
]

-- Enough rounds for a path: one for each frame, and three more.
abbrev pub rounds_up : List Frame → ℕ
rounds_up [] = 1
rounds_up (f ∷ path) = suc (rounds_up path)

abbrev pub rounds : List Frame → ℕ
rounds path = suc (suc (rounds_up path))

-- A leaf is disconnected. The rounds do not look into the node, which is a leaf of the tree and stays
-- one, so the tree afterwards is the one that they give with NULL in its place.
unfoldable pub delete_leaf : Root → Position → Option Root
unfolding delete_rebalance
delete_leaf tree q =
    if is_red_color q.color
    then some (record tree { root = plug leaf q.path })
    else delete_rebalance (rounds q.path) tree.black_height leaf q.path

pub record Extracted : Type 0 where
  pub status : Status
  pub tree : Root

-- The link stands at a position, or in no tree: then it is not the root, and its pointers are NULL.
unfoldable pub extract_node : Root → Option Position → Option Extracted
unfolding make_leaf delete_leaf size
extract_node tree none = some (record { status = bp_error; tree = tree })
extract_node tree (some p) = do
  q ← make_leaf (suc (size p.left + size p.right)) p
  tree' ← delete_leaf tree q
  some (record { status = bp_success; tree = tree' })
