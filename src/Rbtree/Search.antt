-- ===== src/Rbtree/Search.antt =====
-- common/src/v7_rbtree.c: what a search finds.
use Prim.Native.Nat.{compare, Ordering}
use bplib.Common.{ℕ, ◌≡◌, refl, some, List, ◌∷◌, ◌++◌, arith}
use bplib.Rbtree.{Link, Tree, leaf, node, no_compare, search_from}
use bplib.Rbtree.Order.{inorder}
use bplib.Rbtree.Keys.{IsSorted, IsSorted-split, find, find-Below, find-Above, find_skip, find_keep}

-- The way on from a node, as a test of the keys.
find_node :
    (k : ℕ) (xs : List Link) (x : Link) (ys : List Link)
    → IsSorted (xs ++ x ∷ ys)
    → (elim (compare k x.key) [
      | Ordering.eq ↦ some x
      | Ordering.gt ↦ find k ys
      | Ordering.lt ↦ find k xs
    ])
      ≡ find k (xs ++ x ∷ ys)
unfolding find
find_node k xs x ys s =
    let (b, a, _, _) = IsSorted-split xs x ys s in
    ground (
      arith,
      find_skip k xs (x ∷ ys),
      find_keep k xs (x ∷ ys),
      find-Below x.key k xs,
      find-Above x.key k ys,
      b,
      a,
    )

-- A search of an ordered tree is a look-up in the list of its links.
pub search_from-find :
    (k : ℕ) (t : Tree) → IsSorted (inorder t) → search_from k no_compare t ≡ find k (inorder t)
unfolding search_from inorder find
search_from-find k leaf s = refl
search_from-find k (node c x l r) s =
    let (b, a, sl, sr) = IsSorted-split (inorder l) x (inorder r) s in
    let hl = search_from-find k l sl in
    let hr = search_from-find k r sr in
    ground (arith, find_node k (inorder l) x (inorder r) s, hl, hr)
