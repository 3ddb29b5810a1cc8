-- ===== src/Rbtree/Insert.antt =====
-- common/src/v7_rbtree.c: the links that insertion leaves, and what a search then finds.
use Prim.Native.Nat.{Ordering}
use mathlib.Core.List.{append_assoc, append-nil}
use mathlib.Core.Path.{subst}
use bplib.Common.{
  ℕ, ◌<◌, ◌^◌, ◌≡◌, refl, sym, ap, ◌∙◌, inl, inr, ◌⊎◌, false, Option, none, some, List, [], ◌∷◌,
  ◌++◌, ◌==◌, arith, if◌then◌else◌,
}
use bplib.Rbtree.{
  Link, Tree, leaf, node, Frame, in_left, in_right, Root, no_compare, compare_link, find_leaf,
  insert_found, stored_key, insert_value_generic, search_from, search_generic, Status, bp_success,
  bp_duplicate,
}
use bplib.Rbtree.Walk.{went_on}
use bplib.Rbtree.Order.{inorder, before, after, inorder-insert_rebalance}
use bplib.Rbtree.Keys.{
  Below, Above, IsSorted, IsSorted-split, IsSorted-insert, Has, find, find-insert, Below-append,
  Above-append, Below-mono, Above-mono,
}
use bplib.Rbtree.Search.{search_from-find}

-- A place for a key: the links before it are below the key, those after it above.
abbrev Place : ℕ → List Frame → List Link → Type 0
Place k path links =
    (before path ++ after path ≡ links) × Below k (before path) × Above k (after path)

greater : (k : ℕ) (x : Link) → compare_link k no_compare x ≡ Ordering.gt → x.key < k
greater k x e = ground arith

less : (k : ℕ) (x : Link) → compare_link k no_compare x ≡ Ordering.lt → k < x.key
less k x e = ground arith

same_path : {p q : List Frame} → some p ≡ some q → p ≡ q
same_path e = cc

module _ (k : ℕ) (path' : List Frame) where
  find_leaf-Place :
      (t : Tree) (path : List Frame)
      → find_leaf k no_compare t path ≡ some path'
      → IsSorted (inorder t)
      → Below k (before path)
      → Above k (after path)
      → Place k path' (before path ++ (inorder t ++ after path))
  unfolding find_leaf inorder before after
  find_leaf-Place leaf path e s b a =
      subst (λ p. Place k p (before path ++ after path)) (same_path e) (refl, b, a)
  find_leaf-Place (node c x l r) path e s b a =
      let (bx, ax, sl, sr) = IsSorted-split (inorder l) x (inorder r) s in
      went_on (compare_link k no_compare x) (find_leaf k no_compare r (in_right c x l ∷ path))
        (find_leaf k no_compare l (in_left c x r ∷ path)) path' e
        (λ o e'.
          let gt = greater k x o in
          let (same, b', a') =
            find_leaf-Place r (in_right c x l ∷ path) e' sr
              (Below-append k (before path) (inorder l ++ x ∷ []) b (
                Below-append k (inorder l) (x ∷ [])
                  (Below-mono x.key k (inorder l) (omega (arith, gt)) bx) (gt, tt)))
              a in
          (same ∙ simp append_assoc, b', a'))
        (λ o e'.
          let lt = less k x o in
          let (same, b', a') = find_leaf-Place l (in_left c x r ∷ path) e' sl b (
            lt,
            Above-append k (inorder r) (after path)
                (Above-mono k x.key (inorder r) (omega (arith, lt)) ax) a,
          ) in
          (same ∙ simp append_assoc, b', a'))

Has-right : (k : ℕ) (xs ys : List Link) → Has k ys → Has k (xs ++ ys)
Has-right k [] ys h = h
Has-right k (x ∷ xs) ys h = inr (Has-right k xs ys h)

Has-left : (k : ℕ) (xs ys : List Link) → Has k xs → Has k (xs ++ ys)
Has-left k [] ys h = absurd h
Has-left k (x ∷ xs) ys (inl e) = inl e
Has-left k (x ∷ xs) ys (inr h) = inr (Has-left k xs ys h)

-- A walk that finds no place has met the key.
stopped :
    (k : ℕ) (x : Link) (right left : Option (List Frame)) (xs ys : List Link)
    → (elim (compare_link k no_compare x) [
      | Ordering.eq ↦ none
      | Ordering.gt ↦ right
      | Ordering.lt ↦ left
    ])
      ≡ none
    → (right ≡ none → Has k ys)
    → (left ≡ none → Has k xs)
    → Has k (xs ++ x ∷ ys)
stopped k x right left xs ys e on_right on_left = by_order (compare_link k no_compare x) refl e
  where
    by_order :
        (o : Ordering)
        → compare_link k no_compare x ≡ o
        → (elim o [ Ordering.eq ↦ none | Ordering.gt ↦ right | Ordering.lt ↦ left ]) ≡ none
        → Has k (xs ++ x ∷ ys)
    by_order Ordering.eq c e' = Has-right k xs (x ∷ ys) (inl (ground arith))
    by_order Ordering.gt c e' = Has-right k xs (x ∷ ys) (inr (on_right e'))
    by_order Ordering.lt c e' = Has-left k xs (x ∷ ys) (on_left e')

find_leaf-Has :
    (k : ℕ) (t : Tree) (path : List Frame)
    → find_leaf k no_compare t path ≡ none
    → Has k (inorder t)
unfolding find_leaf inorder
find_leaf-Has k leaf path e = cc
find_leaf-Has k (node c x l r) path e =
    stopped k x (find_leaf k no_compare r (in_right c x l ∷ path))
      (find_leaf k no_compare l (in_left c x r ∷ path)) (inorder l) (inorder r) e
      (find_leaf-Has k r (in_right c x l ∷ path)) (find_leaf-Has k l (in_left c x r ∷ path))

-- The links of a tree after a link was put in at its place among the links before.
abbrev pub PutIn : Link → List Link → List Link → Type 0
PutIn x links links' =
    (xs : List Link) × (ys : List Link) × (links ≡ xs ++ ys)
    × (links' ≡ xs ++ x ∷ ys)
    × Below x.key xs
    × Above x.key ys

-- What an insertion promises.
abbrev pub InsertedLinks : Link → Root → Status → Root → Type 0
InsertedLinks x tree status tree' =
    ((status ≡ bp_duplicate) × (tree' ≡ tree) × Has x.key (inorder tree.root))
    ⊎ ((status ≡ bp_success) × PutIn x (inorder tree.root) (inorder tree'.root))

insert_found_lem :
    (found : Option (List Frame)) (k block : ℕ) (tree : Root)
    → find_leaf k no_compare tree.root [] ≡ found
    → IsSorted (inorder tree.root)
    → let i = insert_found found k block tree in
      InsertedLinks (record { key = k; block = block }) tree i.status i.tree
unfolding insert_found before after inorder
insert_found_lem none k block tree e s = inl (refl, refl, find_leaf-Has k tree.root [] e)
insert_found_lem (some path) k block tree e s =
    let x : Link = record { key = k; block = block } in
    let (same, b, a) = find_leaf-Place k path tree.root [] e s tt tt in
    inr (
      refl,
      (
        before path,
        after path,
        sym (same ∙ append-nil (inorder tree.root)),
        inorder-insert_rebalance tree.black_height x leaf leaf path,
        b,
        a,
      ),
    )

-- The insertion of a free link under a 64-bit value, with no comparison function, into a tree whose
-- keys are in order and all different. Either a link has its key: then the status says duplicate
-- and the tree stays as it is. Or the links of the tree afterwards are those before, in the same
-- order, with the new link between the smaller keys and the larger ones.
pub insert_value_generic_lem :
    (value : ℕ) (tree : Root) (block : ℕ)
    → IsSorted (inorder tree.root)
    → let i = insert_value_generic value tree false block no_compare in
      InsertedLinks (record { key = stored_key value; block = block }) tree i.status i.tree
unfolding insert_value_generic
insert_value_generic_lem value tree block s =
    insert_found_lem (find_leaf (stored_key value) no_compare tree.root []) (stored_key value) block
      tree refl s

pub stored_key-small : (value : ℕ) → value < 2 ^ 63 → stored_key value ≡ value
unfolding stored_key
stored_key-small value h = omega arith

PutIn-find :
    (k : ℕ) (x : Link) (links links' : List Link)
    → PutIn x links links'
    → find k links' ≡ (if x.key == k then some x else find k links)
PutIn-find k x links links' (xs, ys, e, e', b, a) =
    ap (find k) e'
    ∙ find-insert k xs x ys b
    ∙ ap (λ ls. if x.key == k then some x else find k ls) (sym e)

PutIn-IsSorted :
    (x : Link) (links links' : List Link) → PutIn x links links' → IsSorted links → IsSorted links'
PutIn-IsSorted x links links' (xs, ys, e, e', b, a) s =
    subst IsSorted (sym e') (IsSorted-insert xs x ys (subst IsSorted e s) b a)

-- After an insertion that goes through, under a value below 2 ^ 63, a search under that value finds
-- the new link, and a search under any other key finds what it found before. The keys stay in order.
pub search_generic-insert :
    (value : ℕ) (tree : Root) (block key : ℕ)
    → value < 2 ^ 63
    → IsSorted (inorder tree.root)
    → let i = insert_value_generic value tree false block no_compare in
      i.status ≡ bp_success
      → (search_generic key i.tree no_compare ≡ (
          if value == key
          then some (record { key = value; block = block })
          else search_generic key tree no_compare))
        × IsSorted (inorder i.tree.root)
unfolding search_generic
search_generic-insert value tree block key small s done =
    elim (insert_value_generic_lem value tree block s) [
      | inl (dup, _, _) ↦ absurd (apart (sym dup ∙ done))
      | inr (_, put) ↦
          let x : Link = record { key = stored_key value; block = block } in
          let i = insert_value_generic value tree false block no_compare in
          let s' = PutIn-IsSorted x (inorder tree.root) (inorder i.tree.root) put s in
          (
            search_from-find key i.tree.root s'
                ∙ PutIn-find key x (inorder tree.root) (inorder i.tree.root) put
                ∙ ap (λ old. if stored_key value == key then some x else old)
                    (sym (search_from-find key tree.root s))
                ∙ ap
                    (λ (v : ℕ).
                      if v == key
                      then some (record { key = v; block = block })
                      else search_from key no_compare tree.root)
                    (stored_key-small value small),
            s',
          )
    ]
  where
    apart : bp_duplicate ≡ bp_success → ⊥
    apart e = cc
