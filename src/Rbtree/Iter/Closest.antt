-- ===== src/Rbtree/Iter/Closest.antt =====
-- common/src/v7_rbtree.c: where `bplib_rbt_iter_find_closest` ends.
use Prim.Native.Nat.{compare, Ordering}
use mathlib.Core.Path.{subst}
use bplib.Common.{ℕ, ◌≤◌, ◌<◌, ◌≡◌, refl, ◌∙◌, Option, none, some, List, ◌∷◌, ◌++◌, arith}
use bplib.Rbtree.{Color, Link, Tree, leaf, node, Frame, in_left, in_right, plug}
use bplib.Rbtree.Order.{inorder, after}
use bplib.Rbtree.Keys.{Above, IsSorted, IsSorted-split, Above-append, Above-mono}
use bplib.Rbtree.Iter.{Position, find_closest, size}
use bplib.Rbtree.Iter.Step.{IsIn}

-- A position in a tree with only larger keys than a maximum on the path after it, and fewer links
-- to its right than a bound.
pub record Closest (t : Tree) (v bound : ℕ) (p : Position) : Type 0 where
  pub at : IsIn t p
  pub above : Above v (after p.path)
  pub sorted : IsSorted (inorder p.right)
  pub bounded : size p.right < bound

-- What is so of a position, if there is one.
abbrev Maybe : (Position → Type 0) → Option Position → Type 0
Maybe P none = Unit
Maybe P (some p) = P p

module _ (T : Tree) (v bound : ℕ) where
  find_closest-Closest :
      (t : Tree) (path : List Frame) (prev : Option Position)
      → plug t path ≡ T
      → IsSorted (inorder t)
      → size t ≤ bound
      → Above v (after path)
      → Maybe (Closest T v bound) prev
      → Maybe (Closest T v bound) (find_closest v t path prev)
  unfolding find_closest plug inorder size after
  find_closest-Closest leaf path prev e s b a h = h
  find_closest-Closest (node c x l r) path prev e s b a h =
      let (_, ax, sl, sr) = IsSorted-split (inorder l) x (inorder r) s in
      by_order (compare x.key v) refl sl sr ax
        (record { at = e; above = a; sorted = sr; bounded = omega (arith, b) })
        (find_closest-Closest l (in_left c x r ∷ path))
        (find_closest-Closest r (in_right c x l ∷ path))
    where
      here : Option Position
      here = some (record { color = c; link = x; left = l; right = r; path = path })

      by_order :
          (o : Ordering)
          → compare x.key v ≡ o
          → IsSorted (inorder l)
          → IsSorted (inorder r)
          → Above x.key (inorder r)
          → Maybe (Closest T v bound) here
          → ((prev' : Option Position)
              → plug (node c x l r) path ≡ T
              → IsSorted (inorder l)
              → size l ≤ bound
              → Above v (x ∷ (inorder r ++ after path))
              → Maybe (Closest T v bound) prev'
              → Maybe (Closest T v bound) (find_closest v l (in_left c x r ∷ path) prev'))
          → ((prev' : Option Position)
              → plug (node c x l r) path ≡ T
              → IsSorted (inorder r)
              → size r ≤ bound
              → Above v (after path)
              → Maybe (Closest T v bound) prev'
              → Maybe (Closest T v bound) (find_closest v r (in_right c x l ∷ path) prev'))
          → Maybe (Closest T v bound) (elim o [
            | Ordering.eq ↦ here
            | Ordering.gt ↦ find_closest v l (in_left c x r ∷ path) here
            | Ordering.lt ↦ find_closest v r (in_right c x l ∷ path) here
          ])
      by_order Ordering.eq k sl sr ax now on_left on_right = now
      by_order Ordering.gt k sl sr ax now on_left on_right =
          let more : v < x.key = ground arith in
          on_left here e sl (omega (arith, b))
            (
              more,
              Above-append v (inorder r) (after path)
                  (Above-mono v x.key (inorder r) (omega (arith, more)) ax) a,
            )
            now
      by_order Ordering.lt k sl sr ax now on_left on_right =
          on_right here e sr (omega (arith, b)) a now

-- With a last valid node to go back to, there is a closest one.
find_closest-some :
    (v : ℕ) (t : Tree) (path : List Frame) (p : Position)
    → (q : Position) × (find_closest v t path (some p) ≡ some q)
unfolding find_closest
find_closest-some v leaf path p = (p, refl)
find_closest-some v (node c x l r) path p =
    by_order (compare x.key v) (find_closest-some v l (in_left c x r ∷ path) here)
      (find_closest-some v r (in_right c x l ∷ path) here)
  where
    here : Position
    here = record { color = c; link = x; left = l; right = r; path = path }

    by_order :
        (o : Ordering)
        → (q : Position) × (find_closest v l (in_left c x r ∷ path) (some here) ≡ some q)
        → (q : Position) × (find_closest v r (in_right c x l ∷ path) (some here) ≡ some q)
        → (q : Position) × ((elim o [
          | Ordering.eq ↦ some here
          | Ordering.gt ↦ find_closest v l (in_left c x r ∷ path) (some here)
          | Ordering.lt ↦ find_closest v r (in_right c x l ∷ path) (some here)
        ])
            ≡ some q)
    by_order Ordering.eq a b = (here, refl)
    by_order Ordering.gt a b = a
    by_order Ordering.lt a b = b

-- The last valid node does not matter below a node.
find_closest-node :
    (v : ℕ) (c : Color) (x : Link) (l r : Tree) (path : List Frame) (prev prev' : Option Position)
    → find_closest v (node c x l r) path prev ≡ find_closest v (node c x l r) path prev'
unfolding find_closest
find_closest-node v c x l r path prev prev' = refl

module _ (T : Tree) (v : ℕ) where
  -- A closest node below a node: there is one, and it has what is said of closest ones.
  pub below_node :
      (bound : ℕ) (c : Color) (x : Link) (l r : Tree) (path : List Frame)
      → plug (node c x l r) path ≡ T
      → IsSorted (inorder (node c x l r))
      → size (node c x l r) ≤ bound
      → Above v (after path)
      → (q : Position) × (find_closest v (node c x l r) path none ≡ some q) × Closest T v bound q
  below_node bound c x l r path e s b a =
      let here : Position = record { color = c; link = x; left = l; right = r; path = path } in
      let (q, found) = find_closest-some v (node c x l r) path here in
      let found' = find_closest-node v c x l r path none (some here) ∙ found in
      (
        q,
        found',
        subst (Maybe (Closest T v bound)) found'
            (find_closest-Closest T v bound (node c x l r) path none e s b a tt),
      )
