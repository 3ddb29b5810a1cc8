-- ===== src/Rbtree/Keys.antt =====
-- common/src/v7_rbtree.c: lists of links by their keys.
use bplib.Common.{
  ℕ, ◌≤◌, ◌<◌, ◌≡◌, refl, ◌⊎◌, Option, none, some, List, [], ◌∷◌, ◌++◌, ◌==◌, arith, if◌then◌else◌,
}
use bplib.Rbtree.{Link}

-- All keys are below a key, or above it.
abbrev pub Below : ℕ → List Link → Type 0
Below k [] = Unit
Below k (x ∷ xs) = (x.key < k) × Below k xs

abbrev pub Above : ℕ → List Link → Type 0
Above k [] = Unit
Above k (x ∷ xs) = (k < x.key) × Above k xs

-- The keys are in order, and no key is there twice.
abbrev pub IsSorted : List Link → Type 0
IsSorted [] = Unit
IsSorted (x ∷ xs) = Above x.key xs × IsSorted xs

abbrev pub Has : ℕ → List Link → Type 0
Has k [] = ⊥
Has k (x ∷ xs) = (x.key ≡ k) ⊎ Has k xs

-- The link with a key.
unfoldable pub find : ℕ → List Link → Option Link
find k [] = none
find k (x ∷ xs) = if x.key == k then some x else find k xs

pub Below-append : (k : ℕ) (xs ys : List Link) → Below k xs → Below k ys → Below k (xs ++ ys)
Below-append k [] ys h h' = h'
Below-append k (x ∷ xs) ys h h' = (h.0, Below-append k xs ys h.1 h')

pub Below-split : (k : ℕ) (xs ys : List Link) → Below k (xs ++ ys) → Below k xs × Below k ys
Below-split k [] ys h = (tt, h)
Below-split k (x ∷ xs) ys h = let (a, b) = Below-split k xs ys h.1 in ((h.0, a), b)

pub Above-append : (k : ℕ) (xs ys : List Link) → Above k xs → Above k ys → Above k (xs ++ ys)
Above-append k [] ys h h' = h'
Above-append k (x ∷ xs) ys h h' = (h.0, Above-append k xs ys h.1 h')

pub Above-split : (k : ℕ) (xs ys : List Link) → Above k (xs ++ ys) → Above k xs × Above k ys
Above-split k [] ys h = (tt, h)
Above-split k (x ∷ xs) ys h = let (a, b) = Above-split k xs ys h.1 in ((h.0, a), b)

pub Below-mono : (j k : ℕ) (xs : List Link) → j ≤ k → Below j xs → Below k xs
Below-mono j k [] le h = tt
Below-mono j k (x ∷ xs) le h = (omega (arith, h.0), Below-mono j k xs le h.1)

pub Above-mono : (j k : ℕ) (xs : List Link) → j ≤ k → Above k xs → Above j xs
Above-mono j k [] le h = tt
Above-mono j k (x ∷ xs) le h = (omega (arith, h.0), Above-mono j k xs le h.1)

-- What order says around one link.
pub IsSorted-split :
    (xs : List Link) (x : Link) (ys : List Link)
    → IsSorted (xs ++ x ∷ ys)
    → Below x.key xs × Above x.key ys × IsSorted xs × IsSorted ys
IsSorted-split [] x ys h = (tt, h.0, tt, h.1)
IsSorted-split (w ∷ xs) x ys h =
    let (b, a, s, s') = IsSorted-split xs x ys h.1 in
    let (low, high) = Above-split w.key xs (x ∷ ys) h.0 in ((high.0, b), a, (low, s), s')

pub IsSorted-insert :
    (xs : List Link) (x : Link) (ys : List Link)
    → IsSorted (xs ++ ys)
    → Below x.key xs
    → Above x.key ys
    → IsSorted (xs ++ x ∷ ys)
IsSorted-insert [] x ys s b a = (a, s)
IsSorted-insert (w ∷ xs) x ys s b a =
    let (low, high) = Above-split w.key xs ys s.0 in
    (Above-append w.key xs (x ∷ ys) low (b.0, high), IsSorted-insert xs x ys s.1 b.1 a)

pub find-Below : (j k : ℕ) (xs : List Link) → j ≤ k → Below j xs → find k xs ≡ none
unfolding find
find-Below j k [] le h = refl
find-Below j k (x ∷ xs) le h = ground (arith, find-Below j k xs le h.1, h.0)

pub find-Above : (j k : ℕ) (xs : List Link) → k ≤ j → Above j xs → find k xs ≡ none
unfolding find
find-Above j k [] le h = refl
find-Above j k (x ∷ xs) le h = ground (arith, find-Above j k xs le h.1, h.0)

pub find_skip : (k : ℕ) (xs ys : List Link) → find k xs ≡ none → find k (xs ++ ys) ≡ find k ys
unfolding find
find_skip k [] ys h = refl
find_skip k (x ∷ xs) ys h = ground (arith, find_skip k xs ys)

pub find_keep : (k : ℕ) (xs ys : List Link) → find k ys ≡ none → find k (xs ++ ys) ≡ find k xs
unfolding find
find_keep k [] ys h = h
find_keep k (x ∷ xs) ys h = ground (arith, find_keep k xs ys h)

pub find-insert :
    (k : ℕ) (xs : List Link) (x : Link) (ys : List Link)
    → Below x.key xs
    → find k (xs ++ x ∷ ys) ≡ (if x.key == k then some x else find k (xs ++ ys))
unfolding find
find-insert k [] x ys h = refl
find-insert k (w ∷ xs) x ys h = ground (arith, find-insert k xs x ys h.1, h.0)
