-- ===== src/Mpool/Ring/Lists.antt =====
-- mpool/src/v7_mpool.c: insertion, extraction and merging of rings are those of lists.
use mathlib.Core.Path.{subst, fun_ext}
use bplib.Common.{ℕ, ◌≡◌, ◌≢◌, sym, ap, ◌∙◌, List, [], ◌∷◌, ◌++◌, arith}
use bplib.Mpool.Ring.{Links, insert_before, insert_after}
use bplib.Mpool.Ring.Chain.{
  Chain, last, NotIn, Different, link, NotIn-Avoids, last-NotIn, last-Avoids, Chain-link,
  Chain-append, last-append, NotIn-append, NotIn-both,
}

-- The ring of a head and of the nodes of a list, all of them different.
pub record IsRing (m : Links) (head : ℕ) (xs : List ℕ) : Type 0 where
  pub chain : Chain m head xs
  pub ends : m.next (last head xs) ≡ head
  pub starts : m.prev head ≡ last head xs
  pub different : Different (head ∷ xs)

pub same_links :
    (m m' : Links) → ((i : ℕ) → m.next i ≡ m'.next i) → ((i : ℕ) → m.prev i ≡ m'.prev i) → m ≡ m'
same_links m m' n p = cong_links (fun_ext n) (fun_ext p)
  where
    cong_links :
        {n n' p p' : ℕ → ℕ}
        → n ≡ n'
        → p ≡ p'
        → Path Links (record { next = n; prev = p }) (record { next = n'; prev = p' })
    cong_links e e' = λ i. record { next = e i; prev = e' i }

Different-snoc : (xs : List ℕ) (y : ℕ) → Different xs → NotIn y xs → Different (xs ++ y ∷ [])
Different-snoc [] y d n = (tt, tt)
Different-snoc (x ∷ xs) y (apart, d) (ne, n) =
    (NotIn-both x xs (y ∷ []) apart (λ e. ne (sym e), tt), Different-snoc xs y d n)

-- The ends of two chains one after the other.
pub last_left-NotIn : (a : ℕ) (xs zs : List ℕ) → Different (a ∷ (xs ++ zs)) → NotIn (last a xs) zs
last_left-NotIn a [] zs (apart, d) = apart
last_left-NotIn a (x ∷ xs) zs (apart, d) = last_left-NotIn x xs zs d

pub last_right-NotIn :
    (us : List ℕ) (s : ℕ) (ys : List ℕ) → Different (us ++ s ∷ ys) → NotIn (last s ys) us
last_right-NotIn [] s ys d = tt
last_right-NotIn (x ∷ us) s ys (apart, d) =
    (last-NotIn x s ys (NotIn-append x us (s ∷ ys) apart).1, last_right-NotIn us s ys d)

insert_before-link :
    (h node : ℕ) (m : Links)
    → node ≢ h
    → m.prev h ≢ node
    → insert_before h node m ≡ link node h (link (m.prev h) node m)
unfolding insert_before
insert_before-link h node m ne ne' =
    same_links (insert_before h node m) (link node h (link (m.prev h) node m))
      (λ i. ground (arith, ne, ne')) (λ i. ground (arith, ne, ne'))

append_link :
    (h node : ℕ) (xs : List ℕ) (m : Links)
    → IsRing m h xs
    → NotIn node (h ∷ xs)
    → IsRing (link node h (link (last h xs) node m)) h (xs ++ node ∷ [])
append_link h node xs m r (ne, apart) =
    let l = last h xs in
    let m1 = link l node m in
    let m2 = link node h m1 in
    let away : l ≢ node = last-NotIn node h xs (ne, apart) in
    let c1 : Chain m1 h xs =
      Chain-link l node m h xs (last-Avoids h xs r.different) apart r.chain in
    let c2 : Chain m2 h xs =
      Chain-link node h m1 h xs (NotIn-Avoids node h xs (ne, apart)) r.different.0 c1 in
    record {
      chain = Chain-append m2 h xs node [] c2 (ground (arith, away)) (ground (arith, ne)) tt;
      ends = ap m2.next (last-append h xs node []) ∙ ground arith;
      starts = (ground arith) ∙ sym (last-append h xs node []);
      different = Different-snoc (h ∷ xs) node r.different (ne, apart);
    }

pub insert_before-IsRing :
    (head node : ℕ) (xs : List ℕ) (m : Links)
    → IsRing m head xs
    → NotIn node (head ∷ xs)
    → IsRing (insert_before head node m) head (xs ++ node ∷ [])
insert_before-IsRing h node xs m r apart =
    let away : m.prev h ≢ node = λ e. last-NotIn node h xs apart (sym r.starts ∙ e) in
    subst (λ m'. IsRing m' h (xs ++ node ∷ []))
      (ap (λ l. link node h (link l node m)) (sym r.starts)
        ∙ sym (insert_before-link h node m apart.0 away))
      (append_link h node xs m r apart)

insert_after-link :
    (h node : ℕ) (m : Links)
    → node ≢ h
    → insert_after h node m ≡ link node (m.next h) (link h node m)
unfolding insert_after
insert_after-link h node m ne =
    same_links (insert_after h node m) (link node (m.next h) (link h node m))
      (λ i. ground (arith, ne)) (λ i. ground (arith, ne))

after_link :
    (h node : ℕ) (xs : List ℕ) (m : Links)
    → IsRing m h xs
    → NotIn node (h ∷ xs)
    → IsRing (link node (m.next h) (link h node m)) h (node ∷ xs)
after_link h node [] m r (ne, apart) = rw r.ends record {
  chain = (ground (arith, ne), ground (arith, ne), tt);
  ends = ground arith;
  starts = ground arith;
  different = ((λ e. ne (sym e), tt), (tt, tt));
}
after_link h node (x ∷ xs) m r (ne, apart) =
    let (n, p, c) = r.chain in
    let m1 = link h node m in
    let c2 : Chain (link node x m1) x xs =
      Chain-link node x m1 x xs (NotIn-Avoids node x xs apart) r.different.1.0
        (Chain-link h node m x xs (NotIn-Avoids h x xs r.different.0) apart.1 c) in
    let l_h : last x xs ≢ h = last-NotIn h x xs r.different.0 in
    let l_node : last x xs ≢ node = last-NotIn node x xs apart in
    rw n record {
      chain = (ground (arith, ne), ground (arith, ne, apart.0), (ground arith, ground arith, c2));
      ends = ground (arith, l_h, l_node, r.ends);
      starts = ground (arith, ne, r.different.0.0, r.starts);
      different = ((λ e. ne (sym e), r.different.0), (apart, r.different.1));
    }

pub insert_after-IsRing :
    (head node : ℕ) (xs : List ℕ) (m : Links)
    → IsRing m head xs
    → NotIn node (head ∷ xs)
    → IsRing (insert_after head node m) head (node ∷ xs)
insert_after-IsRing h node xs m r apart =
    subst (λ m'. IsRing m' h (node ∷ xs)) (sym (insert_after-link h node m apart.0))
      (after_link h node xs m r apart)
