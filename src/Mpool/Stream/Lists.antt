-- ===== src/Mpool/Stream/Lists.antt =====
-- Beginnings and ends of lists, for the bytes of mpool/src/v7_mpstream.c.
use bplib.Common.{
  ℕ, zero, suc, ◌+◌, ◌-◌, ◌≤◌, ◌≡◌, refl, sym, ap, ◌∙◌, List, [], ◌∷◌, ◌++◌, length, take, drop,
  arith,
}

module _ {ℓ} {A : Type ℓ} where
  pub take_all : (n : ℕ) (xs : List A) → length xs ≤ n → take n xs ≡ xs
  take_all zero [] h = refl
  take_all zero (x ∷ xs) h = absurd (omega arith)
  take_all (suc n) [] h = refl
  take_all (suc n) (x ∷ xs) h = ap (◌∷◌ x) (take_all n xs (omega arith))

  take-nil : (n : ℕ) → take {A = A} n [] ≡ []
  take-nil zero = refl
  take-nil (suc n) = refl

  pub take-add : (m n : ℕ) (xs : List A) → take (m + n) xs ≡ take m xs ++ take n (drop m xs)
  take-add zero n xs = ap (λ k. take k xs) (omega arith)
  take-add (suc m) n [] = take-nil (suc m + n) ∙ sym (take-nil n)
  take-add (suc m) n (x ∷ xs) =
      ap (λ k. take k (x ∷ xs)) (suc_sum m n) ∙ ap (◌∷◌ x) (take-add m n xs)
    where
      suc_sum : (a b : ℕ) → suc a + b ≡ suc (a + b)
      suc_sum a b = omega arith

pub drop-append_far :
    (n : ℕ) (xs ys : List ℕ) → length xs ≤ n → drop n (xs ++ ys) ≡ drop (n - length xs) ys
drop-append_far n [] ys h = ap (λ k. drop k ys) (omega arith)
drop-append_far zero (x ∷ xs) ys h = absurd (omega arith)
drop-append_far (suc n) (x ∷ xs) ys h =
    drop-append_far n xs ys (omega arith) ∙ ap (λ k. drop k ys) (omega arith)

pub drop-append_near :
    (n : ℕ) (xs ys : List ℕ) → n ≤ length xs → drop n (xs ++ ys) ≡ drop n xs ++ ys
drop-append_near zero xs ys h = refl
drop-append_near (suc n) [] ys h = absurd (omega arith)
drop-append_near (suc n) (x ∷ xs) ys h = drop-append_near n xs ys (omega arith)

pub take-append :
    (n : ℕ) (xs ys : List ℕ) → take n (xs ++ ys) ≡ take n xs ++ take (n - length (take n xs)) ys
take-append zero xs ys = refl
take-append (suc n) [] ys = ap (λ k. take k ys) all_left
  where
    all_left : suc n ≡ suc n - 0
    all_left = omega arith
take-append (suc n) (x ∷ xs) ys =
    ap (◌∷◌ x)
      (take-append n xs ys ∙ ap (λ k. take n xs ++ take k ys) (one_less (length (take n xs))))
  where
    one_less : (k : ℕ) → n - k ≡ suc n - suc k
    one_less k = omega arith
