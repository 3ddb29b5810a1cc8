-- ===== src/Rbtree.antt =====
-- common/src/v7_rbtree.c: the red-black trees, their search and their insertion.
pub mod Iter
pub mod Order
pub mod Search
pub mod Walk
pub mod Keys
pub mod Insert
pub mod Extract
mod Tests
pub mod Height
pub mod Balance
use Prim.Native.Nat.{compare, Ordering}
use bplib.Common.{
  ℕ, suc, ◌+◌, ◌*◌, ◌/◌, Bool, true, false, Option, none, some, List, [], ◌∷◌, u64, if◌then◌else◌,
}

pub data Color : Type 0 where
  red black : Color

-- A link of a tree, with its key and the number of the block that it stands in.
pub record Link : Type 0 where
  pub key : ℕ
  pub block : ℕ

-- `leaf` is NULL. The parent pointers of a tree are its frames, below.
pub data Tree : Type 0 where
  leaf : Tree
  node : Color → Link → Tree → Tree → Tree

-- A node seen from one of its children, with the tree on its other side. The path from a node up to
-- the root is the list of the frames that its parent pointers lead through.
pub data Frame : Type 0 where
  in_left : Color → Link → Tree → Frame
  in_right : Color → Link → Tree → Frame

-- `black_height` is an int for debugging, which stays at 0 or above in a balanced tree.
pub record Root : Type 0 where
  pub root : Tree
  pub black_height : ℕ

-- `is_red` takes NULL as black.
abbrev pub is_red : Tree → Bool
is_red leaf = false
is_red (node red x l r) = true
is_red (node black x l r) = false

abbrev pub set_black : Tree → Tree
set_black leaf = leaf
set_black (node c x l r) = node black x l r

-- A subtree put back into the place that its path comes from.
unfoldable pub plug : Tree → List Frame → Tree
plug t [] = t
plug t (in_left c x sibling ∷ path) = plug (node c x t sibling) path
plug t (in_right c x sibling ∷ path) = plug (node c x sibling t) path

-- The key that a link holds once a value is stored in one 64-bit word with the color, which takes the
-- lowest bit.
unfoldable pub stored_key : ℕ → ℕ
stored_key value = (u64 (value * 2) + 1) / 2

-- `bplib_rbt_compare_key` and then the comparison function of the caller, for equal keys.
abbrev pub compare_link : ℕ → (ℕ → Ordering) → Link → Ordering
compare_link key compare_func x = elim (compare key x.key) [
  | Ordering.eq ↦ compare_func x.block
  | o ↦ o
]

-- For NULL, the comparison function that never tells links apart.
abbrev pub no_compare : ℕ → Ordering
no_compare block = Ordering.eq

unfoldable pub search_from : ℕ → (ℕ → Ordering) → Tree → Option Link
search_from key compare_func leaf = none
search_from key compare_func (node c x l r) = elim (compare_link key compare_func x) [
  | Ordering.eq ↦ some x
  | Ordering.gt ↦ search_from key compare_func r
  | Ordering.lt ↦ search_from key compare_func l
]

unfoldable pub search_generic : ℕ → Root → (ℕ → Ordering) → Option Link
unfolding search_from
search_generic key tree compare_func = search_from key compare_func tree.root

-- The walk of `do_insert_as_leaf` to the place of a new leaf, or none at a duplicate.
unfoldable pub find_leaf : ℕ → (ℕ → Ordering) → Tree → List Frame → Option (List Frame)
find_leaf key compare_func leaf path = some path
find_leaf key compare_func (node c x l r) path = elim (compare_link key compare_func x) [
  | Ordering.eq ↦ none
  | Ordering.gt ↦ find_leaf key compare_func r (in_right c x l ∷ path)
  | Ordering.lt ↦ find_leaf key compare_func l (in_left c x r ∷ path)
]

-- The rotation for an outer grandchild, where the parent and the grandparent swap their colors. `t` is
-- the node, `p` its parent and `g` its grandparent.
abbrev pub rotate_outer : Bool → Tree → Color → Link → Tree → Color → Link → Tree → Tree
rotate_outer true t pc p sibling gc g uncle = node gc p t (node pc g sibling uncle)
rotate_outer false t pc p sibling gc g uncle = node gc p (node pc g uncle sibling) t

-- The rotation for an inner grandchild, and the one for an outer grandchild in the next round, in
-- which the parent is the node.
unfoldable pub rotate_inner : Bool → Tree → Color → Link → Tree → Color → Link → Tree → Tree
rotate_inner side leaf pc p sibling gc g uncle = leaf
rotate_inner true (node nc n l r) pc p sibling gc g uncle =
    rotate_outer true (node pc p sibling l) nc n r gc g uncle
rotate_inner false (node nc n l r) pc p sibling gc g uncle =
    rotate_outer false (node pc p r sibling) nc n l gc g uncle

-- `do_insert_rebalance`, from a red node whose tree is given with the path to it.
unfoldable pub insert_rebalance : ℕ → Tree → List Frame → Root
unfolding plug rotate_inner
insert_rebalance height t [] = record { root = t; black_height = height }
insert_rebalance height t (in_left black p sibling ∷ path) = record {
  root = plug t (in_left black p sibling ∷ path);
  black_height = height;
}
insert_rebalance height t (in_right black p sibling ∷ path) = record {
  root = plug t (in_right black p sibling ∷ path);
  black_height = height;
}
insert_rebalance height t (in_left red p sibling ∷ []) = record {
  root = node black p t sibling;
  black_height = height + 1;
}
insert_rebalance height t (in_right red p sibling ∷ []) = record {
  root = node black p sibling t;
  black_height = height + 1;
}
insert_rebalance height t (in_left red p sibling ∷ in_left gc g uncle ∷ path) =
    let up = insert_rebalance height (node red g (node black p t sibling) (set_black uncle)) path in
    if is_red uncle then up else record {
      root = plug (rotate_outer true t red p sibling gc g uncle) path;
      black_height = height;
    }
insert_rebalance height t (in_right red p sibling ∷ in_right gc g uncle ∷ path) =
    let up = insert_rebalance height (node red g (set_black uncle) (node black p sibling t)) path in
    if is_red uncle then up else record {
      root = plug (rotate_outer false t red p sibling gc g uncle) path;
      black_height = height;
    }
insert_rebalance height t (in_right red p sibling ∷ in_left gc g uncle ∷ path) =
    let up = insert_rebalance height (node red g (node black p sibling t) (set_black uncle)) path in
    if is_red uncle then up else record {
      root = plug (rotate_inner true t red p sibling gc g uncle) path;
      black_height = height;
    }
insert_rebalance height t (in_left red p sibling ∷ in_right gc g uncle ∷ path) =
    let up = insert_rebalance height (node red g (set_black uncle) (node black p t sibling)) path in
    if is_red uncle then up else record {
      root = plug (rotate_inner false t red p sibling gc g uncle) path;
      black_height = height;
    }

pub data Status : Type 0 where
  bp_success bp_error bp_duplicate : Status

-- The status, the tree, and the key that the inserted link has after it: none if it is untouched.
pub record Inserted : Type 0 where
  pub status : Status
  pub tree : Root
  pub link_key : Option ℕ

-- What follows `do_insert_as_leaf`, which gives the path to the new leaf, or none at a duplicate.
unfoldable pub insert_found : Option (List Frame) → ℕ → ℕ → Root → Inserted
unfolding insert_rebalance
insert_found none key block tree = record { status = bp_duplicate; tree = tree; link_key = some 0 }
insert_found (some path) key block tree = record {
  status = bp_success;
  tree =
      insert_rebalance tree.black_height (node red (record { key = key; block = block }) leaf leaf)
        path;
  link_key = some key;
}

-- `attached` says whether the link of the block is the root or has a parent or a child.
unfoldable pub insert_value_generic : ℕ → Root → Bool → ℕ → (ℕ → Ordering) → Inserted
unfolding find_leaf insert_found
insert_value_generic value tree attached block compare_func =
    let key = stored_key value in
    if attached
    then record { status = bp_error; tree = tree; link_key = none }
    else insert_found (find_leaf key compare_func tree.root []) key block tree

-- `bplib_rbt_init_root`.
abbrev pub init_root : Root
init_root = record { root = leaf; black_height = 0 }
