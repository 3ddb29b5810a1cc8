-- ===== src/Rbtree/Balance.antt =====
-- common/src/v7_rbtree.c: insertion keeps a tree balanced.
use bplib.Common.{
  ℕ, zero, suc, ◌+◌, ◌≡◌, refl, sym, ◌∙◌, inl, inr, ◌⊎◌, Bool, true, false, Option, none, some,
  List, [], ◌∷◌, arith, if◌then◌else◌,
}
use Prim.Native.Nat.{Ordering}
use mathlib.Core.Path.{subst}
use bplib.Rbtree.Walk.{went_on}
use bplib.Rbtree.{
  compare_link, red, black, Link, Tree, leaf, node, Frame, in_left, in_right, Root, is_red,
  set_black, plug, rotate_inner, insert_rebalance, find_leaf, insert_found, stored_key,
  insert_value_generic,
}
use bplib.Rbtree.Height.{
  RedBlack, color_above, Fits, RedBlack-weaken, RedBlack-under_red, RedBlack-set_black,
  plug-RedBlack,
}

-- A new leaf fits where its path ends.
find_leaf-Fits :
    (key : ℕ) (cmp : ℕ → Ordering) (n : ℕ) (t : Tree) (path : List Frame) (total : ℕ)
    → RedBlack (color_above path) n t
    → Fits n path total
    → (path' : List Frame) → find_leaf key cmp t path ≡ some path'
    → Fits 0 path' total
unfolding find_leaf
find_leaf-Fits key cmp n leaf path total h f path' e =
    subst (λ q. Fits 0 q total) (cc) (subst (λ k. Fits k path total) h f)
find_leaf-Fits key cmp n (node red x l r) path total h f path' e =
    went_on (compare_link key cmp x) (find_leaf key cmp r (in_right red x l ∷ path))
      (find_leaf key cmp l (in_left red x r ∷ path)) path' e
      (λ o. find_leaf-Fits key cmp n r (in_right red x l ∷ path) total h.2 (h.1, at_black, f) path')
      (λ o. find_leaf-Fits key cmp n l (in_left red x r ∷ path) total h.1 (h.2, at_black, f) path')
  where
    at_black : color_above path ≡ black
    at_black = h.0
find_leaf-Fits key cmp zero (node black x l r) path total h f path' e = absurd (omega (arith, h.0))
find_leaf-Fits key cmp (suc n) (node black x l r) path total h f path' e =
    went_on (compare_link key cmp x) (find_leaf key cmp r (in_right black x l ∷ path))
      (find_leaf key cmp l (in_left black x r ∷ path)) path' e
      (λ o. find_leaf-Fits key cmp n r (in_right black x l ∷ path) total h.2 (h.1, f) path')
      (λ o. find_leaf-Fits key cmp n l (in_left black x r ∷ path) total h.1 (h.2, f) path')

-- A tree after a rebalance: as high as before, or one level higher, and counted so.
abbrev Rebalanced : ℕ → ℕ → Root → Type 0
Rebalanced height total tree =
    (RedBlack black total tree.root × (tree.black_height ≡ height))
    ⊎ (RedBlack black (suc total) tree.root × (tree.black_height ≡ height + 1))

module _ (height : ℕ) where
  settle :
      (b : Bool) (up : Root) (t : Tree) (path : List Frame) (total : ℕ)
      → (b ≡ true → Rebalanced height total up)
      → (b ≡ false → RedBlack black total (plug t path))
      → Rebalanced height total
          (if b then up else record { root = plug t path; black_height = height })
  settle true up t path total on_red on_black = on_red refl
  settle false up t path total on_red on_black = inl (on_black refl, refl)

  -- The subject is red, and its two subtrees may stand under it.
  abbrev Subject : ℕ → Link → Tree → Tree → List Frame → ℕ → Type 0
  Subject n x l r path total = RedBlack red n l × RedBlack red n r × Fits n path total

  at_new_height :
      (n total : ℕ) (t : Tree) → RedBlack black (suc n) t → n ≡ total → RedBlack black (suc total) t
  at_new_height n total t h e = subst (λ k. RedBlack black (suc k) t) e h

  insert_rebalance-RedBlack :
      (n : ℕ) (x : Link) (l r : Tree) (path : List Frame) (total : ℕ)
      → Subject n x l r path total
      → Rebalanced height total (insert_rebalance height (node red x l r) path)
  unfolding insert_rebalance plug rotate_inner
  insert_rebalance-RedBlack n x l r [] total (hl, hr, f) =
      inl (plug-RedBlack n (node red x l r) [] total (refl, hl, hr) f, refl)
  insert_rebalance-RedBlack n x l r (in_left black p s ∷ path) total (hl, hr, f) =
      inl (plug-RedBlack n (node red x l r) (in_left black p s ∷ path) total (refl, hl, hr) f, refl)
  insert_rebalance-RedBlack n x l r (in_right black p s ∷ path) total (hl, hr, f) =
      inl
        (plug-RedBlack n (node red x l r) (in_right black p s ∷ path) total (refl, hl, hr) f, refl)
  insert_rebalance-RedBlack n x l r (in_left red p s ∷ []) total (hl, hr, f) =
      let at_root = RedBlack-weaken black n s f.0 in
      inr (
        at_new_height n total (node black p (node red x l r) s)
            (omega arith, (refl, hl, hr), at_root) f.2,
        refl,
      )
  insert_rebalance-RedBlack n x l r (in_right red p s ∷ []) total (hl, hr, f) =
      let at_root = RedBlack-weaken black n s f.0 in
      inr (
        at_new_height n total (node black p s (node red x l r))
            (omega arith, at_root, (refl, hl, hr)) f.2,
        refl,
      )
  insert_rebalance-RedBlack n x l r (in_left red p s ∷ in_left red g u ∷ path) total (hl, hr, f) =
      cc
  insert_rebalance-RedBlack n x l r (in_left red p s ∷ in_left black g u ∷ path) total (hl, hr, f) =
      settle (is_red u)
        (insert_rebalance height (node red g (node black p (node red x l r) s) (set_black u)) path)
        (node black p (node red x l r) (node red g s u)) path total
        (λ reds.
          insert_rebalance-RedBlack (suc n) g (node black p (node red x l r) s) (set_black u) path
            total
            (
              (omega arith, (refl, hl, hr), RedBlack-weaken black n s f.0),
              (RedBlack-set_black n u f.2.0 reds),
              f.2.1,
            ))
        (λ other.
          plug-RedBlack (suc n) (node black p (node red x l r) (node red g s u)) path total
            (omega arith, (refl, hl, hr), (refl, f.0, RedBlack-under_red n u f.2.0 other)) f.2.1)
  insert_rebalance-RedBlack n x l r (in_left red p s ∷ in_right red g u ∷ path) total (hl, hr, f) =
      cc
  insert_rebalance-RedBlack n x l r (in_left red p s ∷ in_right black g u ∷ path) total
        (hl, hr, f) =
      settle (is_red u)
        (insert_rebalance height (node red g (set_black u) (node black p (node red x l r) s)) path)
        (node black x (node red g u l) (node red p r s)) path total
        (λ reds.
          insert_rebalance-RedBlack (suc n) g (set_black u) (node black p (node red x l r) s) path
            total
            (
              (RedBlack-set_black n u f.2.0 reds),
              (omega arith, (refl, hl, hr), RedBlack-weaken black n s f.0),
              f.2.1,
            ))
        (λ other.
          plug-RedBlack (suc n) (node black x (node red g u l) (node red p r s)) path total
            (omega arith, (refl, RedBlack-under_red n u f.2.0 other, hl), (refl, hr, f.0)) f.2.1)
  insert_rebalance-RedBlack n x l r (in_right red p s ∷ in_left red g u ∷ path) total (hl, hr, f) =
      cc
  insert_rebalance-RedBlack n x l r (in_right red p s ∷ in_left black g u ∷ path) total
        (hl, hr, f) =
      settle (is_red u)
        (insert_rebalance height (node red g (node black p s (node red x l r)) (set_black u)) path)
        (node black x (node red p s l) (node red g r u)) path total
        (λ reds.
          insert_rebalance-RedBlack (suc n) g (node black p s (node red x l r)) (set_black u) path
            total
            (
              (omega arith, RedBlack-weaken black n s f.0, (refl, hl, hr)),
              (RedBlack-set_black n u f.2.0 reds),
              f.2.1,
            ))
        (λ other.
          plug-RedBlack (suc n) (node black x (node red p s l) (node red g r u)) path total
            (omega arith, (refl, f.0, hl), (refl, hr, RedBlack-under_red n u f.2.0 other)) f.2.1)
  insert_rebalance-RedBlack n x l r (in_right red p s ∷ in_right red g u ∷ path) total (hl, hr, f) =
      cc
  insert_rebalance-RedBlack n x l r (in_right red p s ∷ in_right black g u ∷ path) total
        (hl, hr, f) =
      settle (is_red u)
        (insert_rebalance height (node red g (set_black u) (node black p s (node red x l r))) path)
        (node black p (node red g u s) (node red x l r)) path total
        (λ reds.
          insert_rebalance-RedBlack (suc n) g (set_black u) (node black p s (node red x l r)) path
            total
            (
              (RedBlack-set_black n u f.2.0 reds),
              (omega arith, RedBlack-weaken black n s f.0, (refl, hl, hr)),
              f.2.1,
            ))
        (λ other.
          plug-RedBlack (suc n) (node black p (node red g u s) (node red x l r)) path total
            (omega arith, (refl, RedBlack-under_red n u f.2.0 other, f.0), (refl, hl, hr)) f.2.1)

-- A tree whose counter of black levels is right: no red node has a red child, and every path from
-- the root to NULL has as many black nodes as the counter says.
abbrev pub IsBalanced : Root → Type 0
IsBalanced tree = RedBlack black tree.black_height tree.root

insert_found-IsBalanced :
    (found : Option (List Frame)) (key block : ℕ) (tree : Root)
    → IsBalanced tree
    → ((path : List Frame) → found ≡ some path → Fits 0 path tree.black_height)
    → IsBalanced (insert_found found key block tree).tree
unfolding insert_found
insert_found-IsBalanced none key block tree b fits = b
insert_found-IsBalanced (some path) key block tree b fits =
    elim (insert_rebalance-RedBlack tree.black_height 0 (record { key = key; block = block }) leaf
      leaf path tree.black_height (refl, refl, fits path refl)) [
        | inl (same, e) ↦ subst (λ k. RedBlack black k new.root) (sym e) same
        | inr (higher, e) ↦ subst (λ k. RedBlack black k new.root) (sym (e ∙ omega arith)) higher
      ]
  where
    new : Root
    new =
        insert_rebalance tree.black_height
          (node red (record { key = key; block = block }) leaf leaf) path

-- Whether an insertion goes through, finds a duplicate or refuses a link that is in a tree already:
-- a balanced tree stays balanced. No red node has a red child, and the paths from the root to NULL
-- all have as many black nodes as the counter of the tree says.
pub insert_value_generic-IsBalanced :
    (value : ℕ) (tree : Root) (attached : Bool) (block : ℕ) (compare_func : ℕ → Ordering)
    → IsBalanced tree
    → IsBalanced (insert_value_generic value tree attached block compare_func).tree
unfolding insert_value_generic
insert_value_generic-IsBalanced value tree true block cmp b = b
insert_value_generic-IsBalanced value tree false block cmp b =
    insert_found-IsBalanced (find_leaf (stored_key value) cmp tree.root []) (stored_key value) block
      tree b
      (λ path.
        find_leaf-Fits (stored_key value) cmp tree.black_height tree.root [] tree.black_height b
          refl path)
