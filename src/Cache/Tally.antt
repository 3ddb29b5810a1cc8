-- ===== src/Cache/Tally.antt =====
-- Counting in lists of numbers, and what removing one of them does to the counts.
use bplib.Common.{
  ℕ, ◌+◌, ◌≤◌, ◌≡◌, refl, ap, inl, inr, Bool, true, false, List, [], ◌∷◌, ◌++◌, ◌==◌, ==_iff,
  Bool-cases, arith, if_true,
}
use bplib.Cache.Fsm.{list_extract}

abbrev pub bit : Bool → ℕ
bit true = 1
bit false = 0

unfoldable pub tally : (ℕ → Bool) → List ℕ → ℕ
tally p [] = 0
tally p (i ∷ rest) = bit (p i) + tally p rest

abbrev pub occurrences : ℕ → List ℕ → ℕ
occurrences id l = tally (λ i. i == id) l

pub tally-append : (p : ℕ → Bool) (l k : List ℕ) → tally p (l ++ k) ≡ tally p l + tally p k
unfolding tally
tally-append p [] k = omega arith
tally-append p (i ∷ rest) k = omega (arith, tally-append p rest k)

-- Two tests that agree apart from a number that is not there.
pub tally_cong :
    (p q : ℕ → Bool) (id : ℕ) (l : List ℕ)
    → ((i : ℕ) → (i == id) ≡ false → p i ≡ q i)
    → occurrences id l ≡ 0
    → tally p l ≡ tally q l
unfolding tally
tally_cong p q id [] agree away = refl
tally_cong p q id (i ∷ rest) agree away = elim (Bool-cases (i == id)) [
  | inl same ↦ absurd (omega (arith, ap bit same, away))
  | inr other ↦
      omega (arith, ap bit (agree i other), tally_cong p q id rest agree (omega (arith, away)))
]

pub tally-list_extract :
    (p : ℕ → Bool) (id : ℕ) (l : List ℕ)
    → 1 ≤ occurrences id l
    → tally p l ≡ tally p (list_extract id l) + bit (p id)
unfolding tally list_extract
tally-list_extract p id [] there = absurd (omega arith)
tally-list_extract p id (i ∷ rest) there = elim (Bool-cases (i == id)) [
  | inl same ↦ rw same (omega (arith, ap (λ (j : ℕ). bit (p j)) ((==_iff i id).0 same)))
  | inr other ↦ rw other (
      omega
        (arith, ap bit other, tally-list_extract p id rest (omega (arith, there, ap bit other))))
]

pub list_extract-away : (id : ℕ) (l : List ℕ) → occurrences id l ≡ 0 → list_extract id l ≡ l
unfolding tally list_extract
list_extract-away id [] away = refl
list_extract-away id (i ∷ rest) away = elim (Bool-cases (i == id)) [
  | inl same ↦ absurd (omega (arith, ap bit same, away))
  | inr other ↦ rw other (ap (◌∷◌ i) (list_extract-away id rest (omega (arith, away))))
]

pub tally-snoc :
    (p : ℕ → Bool) (l : List ℕ) (id : ℕ) → tally p (l ++ id ∷ []) ≡ tally p l + bit (p id)
unfolding tally
tally-snoc p l id = omega (arith, tally-append p l (id ∷ []))

pub tally_ext : (p q : ℕ → Bool) (l : List ℕ) → ((i : ℕ) → p i ≡ q i) → tally p l ≡ tally q l
unfolding tally
tally_ext p q [] agree = refl
tally_ext p q (i ∷ rest) agree = omega (arith, ap bit (agree i), tally_ext p q rest agree)

-- A number that one of two lists has once, moved to the end of the first.
pub tally_moved :
    (p : ℕ → Bool) (id : ℕ) (l k : List ℕ)
    → occurrences id l + occurrences id k ≡ 1
    → tally p (list_extract id l ++ id ∷ []) + tally p (list_extract id k) ≡ tally p l + tally p k
tally_moved p id l k one = elim (Bool-cases (occurrences id l == 0)) [
  | inl away ↦
      let none_left : occurrences id l ≡ 0 = (==_iff (occurrences id l) 0).0 away in
      omega (
        arith,
        tally-snoc p (list_extract id l) id,
        ap (tally p) (list_extract-away id l none_left),
        tally-list_extract p id k (omega (arith, one, none_left)),
      )
  | inr there ↦
      let some_left : 1 ≤ occurrences id l = ground (arith, there) in
      omega (
        arith,
        tally-snoc p (list_extract id l) id,
        tally-list_extract p id l some_left,
        ap (tally p) (list_extract-away id k (omega (arith, one, some_left))),
      )
]

pub tally-cons :
    (p : ℕ → Bool) (i : ℕ) (rest : List ℕ) → tally p (i ∷ rest) ≡ bit (p i) + tally p rest
unfolding tally
tally-cons p i rest = refl

pub tally-nil : (p : ℕ → Bool) → tally p [] ≡ 0
unfolding tally
tally-nil p = refl

pub list_extract-head : (id : ℕ) (rest : List ℕ) → list_extract id (id ∷ rest) ≡ rest
unfolding list_extract
list_extract-head id rest = if_true _ ((==_iff id id).1 refl)
