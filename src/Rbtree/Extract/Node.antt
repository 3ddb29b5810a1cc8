-- ===== src/Rbtree/Extract/Node.antt =====
-- common/src/v7_rbtree.c: taking a link out of a tree.
use mathlib.Core.List.{append-nil}
use mathlib.Core.Path.{subst}
use bplib.Common.{
  ℕ, suc, ◌+◌, ◌≡◌, refl, sym, ◌∙◌, some, List, [], ◌∷◌, ◌++◌, arith, ◌>>=◌, bind_some,
}
use bplib.Rbtree.{
  Color, red, black, Link, Tree, leaf, node, Frame, in_left, in_right, plug, Root, bp_success,
}
use bplib.Rbtree.Balance.{IsBalanced}
use bplib.Rbtree.Height.{RedBlack, color_above, Fits, plug-RedBlack}
use bplib.Rbtree.Order.{inorder, before, after, inorder-plug}
use bplib.Rbtree.Iter.{Position, size, tree_of}
use bplib.Rbtree.Iter.Step.{links_before, links_after, IsIn}
use bplib.Rbtree.Extract.{rounds, delete_leaf, extract_node}
use bplib.Rbtree.Extract.Leaf.{Down, into_left, into_right, Placed, LeafPlace, make_leaf_lem}
use bplib.Rbtree.Extract.Links.{delete_rebalance-links}
use bplib.Rbtree.Extract.Rebalance.{delete_rebalance-ends}

-- The part of a balanced tree at a place.
unplug :
    (total : ℕ) (t : Tree) (path : List Frame)
    → RedBlack black total (plug t path)
    → Down total (color_above path) t path
unfolding plug
unplug total t [] h = (total, h, refl)
unplug total t (in_left c x s ∷ path) h =
    let (n, h', f) = unplug total (node c x t s) path h in into_left total n c x x t s path h' f
unplug total t (in_right c x s ∷ path) h =
    let (n, h', f) = unplug total (node c x s t) path h in into_right total n c x x s t path h' f

-- What is left of a tree when one link goes.
abbrev Left : List Link → Root → Type 0
Left links tree = IsBalanced tree × (inorder tree.root ≡ links)

none_left : (links front back : List Link) → (front ++ []) ++ back ≡ links → front ++ back ≡ links
none_left links front back e = simp append-nil at e

delete_leaf_lem :
    (tree : Root) (links : List Link) (c : Color) (x : Link) (path : List Frame)
    → Placed tree.black_height links
        (record { color = c; link = x; left = leaf; right = leaf; path = path })
    → (tree' : Root) × (delete_leaf tree
          (record { color = c; link = x; left = leaf; right = leaf; path = path })
        ≡ some tree')
      × Left links tree'
unfolding delete_leaf inorder
delete_leaf_lem tree links red x path w = (
  record tree { root = plug leaf path },
  refl,
  (
    plug-RedBlack 0 leaf path tree.black_height refl
        (subst (λ k. Fits k path tree.black_height) w.balanced.1 w.fits),
    inorder-plug leaf path ∙ none_left links (before path) (after path) w.others,
  ),
)
delete_leaf_lem tree links black x path w =
    let one : w.height ≡ 1 = ground (arith, w.balanced.0, w.balanced.1) in
    let (tree', e, b) =
      delete_rebalance-ends tree.black_height 0 leaf path refl
        (subst (λ k. Fits k path tree.black_height) one w.fits) in
    (
      tree',
      e,
      (
        b,
        delete_rebalance-links (rounds path) tree.black_height leaf path tree' e
            ∙ none_left links (before path) (after path) w.others,
      ),
    )

-- A leaf is deleted, wherever it stands.
delete_place :
    (tree : Root) (links : List Link) (q : Position)
    → LeafPlace tree.black_height links q
    → (tree' : Root) × (delete_leaf tree q ≡ some tree') × Left links tree'
delete_place tree links q (w, l, r) = from_leaf q.left q.right w l r
  where
    from_leaf :
        (a b : Tree)
        → let q' : Position = record q { left = a; right = b } in
          Placed tree.black_height links q'
          → a ≡ leaf
          → b ≡ leaf
          → (tree' : Root) × (delete_leaf tree q' ≡ some tree') × Left links tree'
    from_leaf leaf leaf w' e e' = delete_leaf_lem tree links q.color q.link q.path w'
    from_leaf (node c x a' b') b w' e e' = cc
    from_leaf leaf (node c x a' b') w' e e' = cc

-- A link that stands in a balanced tree is taken out: the code follows no NULL pointer, its loops
-- end, the tree is balanced afterwards, and its links are the others, in the same order.
pub extract_node_lem :
    (tree : Root) (p : Position)
    → IsBalanced tree
    → IsIn tree.root p
    → (tree' : Root) × (extract_node tree (some p)
        ≡ some (record { status = bp_success; tree = tree' }))
      × IsBalanced tree'
      × (inorder tree'.root ≡ links_before p ++ links_after p)
unfolding extract_node
extract_node_lem tree p b at =
    let (n, h, f) =
      unplug tree.black_height (tree_of p) p.path
        (subst (RedBlack black tree.black_height) (sym at) b) in
    let (q, e, w) =
      make_leaf_lem tree.black_height (links_before p ++ links_after p)
        (suc (size p.left + size p.right)) p (omega arith)
        (record { height = n; balanced = h; fits = f; others = refl }) in
    let (tree', e', (b', l')) = delete_place tree (links_before p ++ links_after p) q w in
    (
      tree',
      bind_some (λ q'. delete_leaf tree q' >>= λ t. some (record { status = bp_success; tree = t }))
            e
          ∙ bind_some (λ t. some (record { status = bp_success; tree = t })) e',
      b',
      l',
    )
