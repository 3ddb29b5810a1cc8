-- ===== src/Rbtree/Iter/Goto.antt =====
-- common/src/v7_rbtree.c: where the iterators start for a maximum.
use mathlib.Core.List.{append_assoc}
use mathlib.Core.Path.{subst}
use bplib.Common.{
  ℕ, zero, suc, ◌<◌, ◌≡◌, refl, sym, ap, ◌∙◌, inl, inr, ◌⊎◌, Option, none, some, List, [], ◌∷◌,
  ◌++◌, arith, leb, ◌>>=◌, if◌then◌else◌, Bool-cases, if_true, if_false,
}
use bplib.Rbtree.{
  Color, red, black, Link, Tree, leaf, node, Frame, in_right, plug, Root, bp_success, bp_error,
}
use bplib.Rbtree.Order.{inorder, after, inorder-plug}
use bplib.Rbtree.Keys.{Above, IsSorted}
use bplib.Rbtree.Iter.{
  Position, Moved, tree_of, find_closest, size, max_loop, goto_min, goto_max, prev_position,
  iter_prev, moved_to,
}
use bplib.Rbtree.Iter.Step.{links_before, links_after, IsIn, Back, step_lem}
use bplib.Rbtree.Iter.Closest.{below_node}

module _ (T : Tree) (v : ℕ) where
  -- The loop ends on a node without a right child.
  abbrev Stopped : Option Position → Type 0
  Stopped none = ⊥
  Stopped (some q) = IsIn T q × (q.right ≡ leaf) × Above v (after q.path)

  max_loop-Stopped :
      (fuel : ℕ) (c : Color) (x : Link) (l r : Tree) (path : List Frame)
      → size r < fuel
      → plug (node c x l r) path ≡ T
      → Above v (after path)
      → IsSorted (inorder r)
      → Stopped (max_loop fuel v (record { color = c; link = x; left = l; right = r; path = path }))
  unfolding max_loop plug after
  max_loop-Stopped zero c x l r path f e a s = absurd (omega arith)
  max_loop-Stopped (suc fuel) c x l leaf path f e a s = (e, refl, a)
  max_loop-Stopped (suc fuel) c x l (node c' x' l' r') path f e a s =
      let (q, found, w) =
        below_node T v fuel c' x' l' r' (in_right c x l ∷ path) e s (omega arith) a in
      subst (λ o. Stopped (o >>= max_loop fuel v)) (sym found)
        (max_loop-Stopped fuel q.color q.link q.left q.right q.path w.bounded w.at w.above w.sorted)

-- Where the iterator stands for a maximum: no link after it has a key up to the maximum.
abbrev pub StartsBy : Tree → ℕ → Moved → Type 0
StartsBy t v m =
    ((m.status ≡ bp_error) × (m.position ≡ none) × Above v (inorder t))
    ⊎ ((p : Position) × (m.status ≡ bp_success)
        × (m.position ≡ some p)
        × IsIn t p
        × Above v (links_after p))

plug-nil : (t : Tree) → plug t [] ≡ t
unfolding plug
plug-nil t = refl

module _ (tree : Root) (v : ℕ) where
  links_at :
      (p : Position)
      → IsIn tree.root p
      → inorder tree.root ≡ links_before p ++ p.link ∷ links_after p
  unfolding inorder
  links_at p at = ap inorder (sym at) ∙ inorder-plug (tree_of p) p.path ∙ simp append_assoc

  StartsBy-moved_to :
      (p : Position) (o : Option Position)
      → IsIn tree.root p
      → Above v (p.link ∷ links_after p)
      → Back tree.root (links_before p) (p.link ∷ links_after p) o
      → StartsBy tree.root v (moved_to o)
  StartsBy-moved_to p none at a b = inl (
    refl,
    refl,
    subst (Above v) (ap (λ ls. ls ++ p.link ∷ links_after p) (sym b) ∙ sym (links_at p at)) a,
  )
  StartsBy-moved_to p (some q) at a b = inr (q, refl, refl, b.0, subst (Above v) (sym b.2) a)

  -- The end of `goto_max`, from the node that the loop ends on.
  abbrev ended : Position → Moved
  ended q = if leb q.link.key v then moved_to (some q) else iter_prev (some q)

  ended-StartsBy :
      (q : Position)
      → IsIn tree.root q
      → q.right ≡ leaf
      → Above v (after q.path)
      → StartsBy tree.root v (ended q)
  unfolding iter_prev inorder
  ended-StartsBy q at e a = elim (Bool-cases (leb q.link.key v)) [
    | inl low ↦
        subst (StartsBy tree.root v) (sym (if_true (iter_prev (some q)) low))
          (inr (q, refl, refl, at, none_right))
    | inr high ↦ subst (StartsBy tree.root v) (sym (if_false (moved_to (some q)) high)) (
        StartsBy-moved_to q (prev_position q) at (ground (arith, high), none_right)
          (step_lem tree.root q at).1)
  ]
    where
      none_right : Above v (links_after q)
      none_right = subst (λ t. Above v (inorder t ++ after q.path)) (sym e) a

  finished :
      (o : Option Position)
      → Stopped tree.root v o
      → (m : Moved) × ((o >>= λ q. some (ended q)) ≡ some m) × StartsBy tree.root v m
  finished none h = absurd h
  finished (some q) (at, e, a) = (ended q, refl, ended-StartsBy q at e a)

goto_max_from :
    (height : ℕ) (t : Tree) (v : ℕ)
    → IsSorted (inorder t)
    → let tree : Root = record { root = t; black_height = height } in
      (m : Moved) × (goto_max v tree ≡ some m) × StartsBy t v m
unfolding goto_max find_closest inorder after
goto_max_from height leaf v s = (moved_to none, refl, inl (refl, refl, tt))
goto_max_from height (node c x l r) v s =
    let tree : Root = record { root = node c x l r; black_height = height } in
    let (p, found, w) =
      below_node (node c x l r) v (size (node c x l r)) c x l r [] at_root s (omega arith) tt in
    subst
      (λ o.
        (m : Moved) × ((elim o [
          | none ↦ some (moved_to none)
          | some p' ↦ max_loop (size (node c x l r)) v p' >>= λ q. some (ended tree v q)
        ])
          ≡ some m)
        × StartsBy (node c x l r) v m)
      (sym found)
      (finished tree v (max_loop (size (node c x l r)) v p) (
        max_loop-Stopped (node c x l r) v (size (node c x l r)) p.color p.link p.left p.right p.path
          w.bounded w.at w.above w.sorted))
  where
    at_root : plug (node c x l r) [] ≡ node c x l r
    at_root = plug-nil (node c x l r)

-- In a tree whose keys are in order, an iterator that is sent to a maximum finds its place within as
-- many rounds as the tree has links. No link after that place has a key up to the maximum, and it
-- fails only when all keys are larger: an iteration backwards from it meets every link up to the
-- maximum.
pub goto_max_lem :
    (tree : Root) (v : ℕ)
    → IsSorted (inorder tree.root)
    → (m : Moved) × (goto_max v tree ≡ some m) × StartsBy tree.root v m
goto_max_lem tree v s = goto_max_from tree.black_height tree.root v s

-- The iterator can stop at a key beyond its bound, and says success: on two links that are both
-- above a maximum, the larger one the right child of the other, it stands on the smaller one, and
-- on two links below a minimum, the smaller one the left child of the other, on the larger one.
pub goto_overshoots :
    (k k' v w b b' : ℕ)
    → v < k
    → k < k'
    → k' < w
    → let x : Link = record { key = k; block = b } in
      let x' : Link = record { key = k'; block = b' } in
      (goto_max v (record { root = node black x leaf (node red x' leaf leaf); black_height = 1 })
        ≡ some (
            moved_to (
              some (record {
                color = black;
                link = x;
                left = leaf;
                right = node red x' leaf leaf;
                path = [];
              }))))
      × (goto_min w (record { root = node black x' (node red x leaf leaf) leaf; black_height = 1 })
          ≡ some (
              moved_to (
                some (record {
                  color = black;
                  link = x';
                  left = node red x leaf leaf;
                  right = leaf;
                  path = [];
                }))))
unfolding goto_max goto_min find_closest
goto_overshoots k k' v w b b' lo mid hi = (ground arith, ground arith)
