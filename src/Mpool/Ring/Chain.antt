-- ===== src/Mpool/Ring/Chain.antt =====
-- mpool/src/v7_mpool.c: chains of links, and what a change of two fields keeps of them.
use bplib.Common.{ℕ, ◌≡◌, ◌≢◌, refl, sym, List, [], ◌∷◌, ◌++◌, arith}
use bplib.Mpool.Ring.{Links, set_next, set_prev}

-- From `a` on, every node of the list is the next of the one before.
abbrev pub Chain : Links → ℕ → List ℕ → Type 0
Chain m a [] = Unit
Chain m a (x ∷ xs) = (m.next a ≡ x) × (m.prev x ≡ a) × Chain m x xs

abbrev pub last : ℕ → List ℕ → ℕ
last a [] = a
last a (x ∷ xs) = last x xs

abbrev pub NotIn : ℕ → List ℕ → Type 0
NotIn i [] = Unit
NotIn i (x ∷ xs) = (i ≢ x) × NotIn i xs

abbrev pub Different : List ℕ → Type 0
Different [] = Unit
Different (x ∷ xs) = NotIn x xs × Different xs

-- The two fields between two links.
abbrev pub link : ℕ → ℕ → Links → Links
link i j m = set_prev j i (set_next i j m)

-- No next field of the chain is that of `i`.
abbrev pub Avoids : ℕ → ℕ → List ℕ → Type 0
Avoids i a [] = Unit
Avoids i a (x ∷ xs) = (i ≢ a) × Avoids i x xs

pub NotIn-Avoids : (i a : ℕ) (xs : List ℕ) → NotIn i (a ∷ xs) → Avoids i a xs
NotIn-Avoids i a [] h = tt
NotIn-Avoids i a (x ∷ xs) (ne, h) = (ne, NotIn-Avoids i x xs h)

-- The end of a chain is not met before.
pub last-NotIn : (i a : ℕ) (xs : List ℕ) → NotIn i (a ∷ xs) → last a xs ≢ i
last-NotIn i a [] h = λ e. h.0 (sym e)
last-NotIn i a (x ∷ xs) (ne, h) = last-NotIn i x xs h

pub last-Avoids : (a : ℕ) (xs : List ℕ) → Different (a ∷ xs) → Avoids (last a xs) a xs
last-Avoids a [] h = tt
last-Avoids a (x ∷ xs) (apart, h) = (last-NotIn a x xs apart, last-Avoids x xs h)

pub Chain-link :
    (i j : ℕ) (m : Links) (a : ℕ) (xs : List ℕ)
    → Avoids i a xs
    → NotIn j xs
    → Chain m a xs
    → Chain (link i j m) a xs
Chain-link i j m a [] av ni c = tt
Chain-link i j m a (x ∷ xs) (ne, av) (ne', ni) (n, p, c) =
    (ground (arith, ne, n), ground (arith, ne', p), Chain-link i j m x xs av ni c)

pub Chain-append :
    (m : Links) (a : ℕ) (xs : List ℕ) (y : ℕ) (ys : List ℕ)
    → Chain m a xs
    → m.next (last a xs) ≡ y
    → m.prev y ≡ last a xs
    → Chain m y ys
    → Chain m a (xs ++ y ∷ ys)
Chain-append m a [] y ys c n p d = (n, p, d)
Chain-append m a (x ∷ xs) y ys (n', p', c) n p d = (n', p', Chain-append m x xs y ys c n p d)

pub Chain-split :
    (m : Links) (a : ℕ) (xs : List ℕ) (y : ℕ) (ys : List ℕ)
    → Chain m a (xs ++ y ∷ ys)
    → Chain m a xs × (m.next (last a xs) ≡ y) × (m.prev y ≡ last a xs) × Chain m y ys
Chain-split m a [] y ys (n, p, d) = (tt, n, p, d)
Chain-split m a (x ∷ xs) y ys (n, p, c) =
    let (c', n', p', d) = Chain-split m x xs y ys c in ((n, p, c'), n', p', d)

pub last-append : (a : ℕ) (xs : List ℕ) (y : ℕ) (ys : List ℕ) → last a (xs ++ y ∷ ys) ≡ last y ys
last-append a [] y ys = refl
last-append a (x ∷ xs) y ys = last-append x xs y ys

pub NotIn-append : (i : ℕ) (xs ys : List ℕ) → NotIn i (xs ++ ys) → NotIn i xs × NotIn i ys
NotIn-append i [] ys h = (tt, h)
NotIn-append i (x ∷ xs) ys (ne, h) = let (l, r) = NotIn-append i xs ys h in ((ne, l), r)

pub NotIn-both : (i : ℕ) (xs ys : List ℕ) → NotIn i xs → NotIn i ys → NotIn i (xs ++ ys)
NotIn-both i [] ys h h' = h'
NotIn-both i (x ∷ xs) ys (ne, h) h' = (ne, NotIn-both i xs ys h h')

-- What differing links around one of them say.
pub Different-split :
    (xs : List ℕ) (y : ℕ) (ys : List ℕ)
    → Different (xs ++ y ∷ ys)
    → Different xs × NotIn y xs × NotIn y ys × Different ys × Different (xs ++ ys)
Different-split [] y ys (apart, h) = (tt, tt, apart, h, h)
Different-split (x ∷ xs) y ys (apart, h) =
    let (d, n, n', d', w) = Different-split xs y ys h in
    let (left, right) = NotIn-append x xs (y ∷ ys) apart in
    ((left, d), (λ e. right.0 (sym e), n), n', d', (NotIn-both x xs ys left right.1, w))
