-- ===== src/Mpool/Ring/Merge.antt =====
-- mpool/src/v7_mpool.c: what extraction and merging make of rings.
use mathlib.Core.Path.{subst}
use mathlib.Core.List.{append-nil}
use bplib.Common.{ℕ, ◌≡◌, ◌≢◌, sym, ap, ◌∙◌, List, [], ◌∷◌, ◌++◌, arith}
use bplib.Mpool.Ring.{Links, extract_link, merge_rings, merge_all}
use bplib.Mpool.Ring.Chain.{
  Chain, last, NotIn, Different, link, NotIn-Avoids, last-NotIn, last-Avoids, Chain-link,
  Chain-append, Chain-split, last-append, NotIn-append, Different-split,
}
use bplib.Mpool.Ring.Lists.{IsRing, same_links, last_left-NotIn, last_right-NotIn}

extract_link-link : (x : ℕ) (m : Links) → extract_link x m ≡ link x x (link (m.prev x) (m.next x) m)
unfolding extract_link
extract_link-link x m =
    same_links (extract_link x m) (link x x (link (m.prev x) (m.next x) m)) (λ i. ground arith)
      (λ i. ground arith)

merge_rings-link :
    (d s : ℕ) (m : Links) → s ≢ d → merge_rings d s m ≡ link (m.prev s) d (link (m.prev d) s m)
unfolding merge_rings
merge_rings-link d s m ne =
    same_links (merge_rings d s m) (link (m.prev s) d (link (m.prev d) s m)) (λ i. ground arith)
      (λ i. ground (arith, ne))

module _ (h x : ℕ) (xs : List ℕ) (m : Links) where
  -- What an extraction leaves, for the nodes after `x`.
  closed_up :
      (ys : List ℕ)
      → IsRing m h (xs ++ x ∷ ys)
      → IsRing (link x x (link (last h xs) (m.next x) m)) h (xs ++ ys)
  closed_up [] r =
      let (d, apart, _, _, _) = Different-split (h ∷ xs) x [] r.different in
      let p = last h xs in
      let (c, n, p', _) = Chain-split m h xs x [] r.chain in
      let next_x : m.next x ≡ h = ap m.next (sym (last-append h xs x [])) ∙ r.ends in
      let away : p ≢ x = last-NotIn x h xs apart in
      let m1 = link p h m in
      let c1 : Chain m1 h xs = Chain-link p h m h xs (last-Avoids h xs d) d.0 c in
      let c2 : Chain (link x x m1) h xs =
        Chain-link x x m1 h xs (NotIn-Avoids x h xs apart) apart.1 c1 in
      subst (λ l. IsRing (link x x (link p (m.next x) m)) h l) (sym (append-nil xs))
        (rw next_x record {
          chain = c2;
          ends = ground (arith, away);
          starts = ground (arith, apart.0);
          different = d;
        })
  closed_up (y ∷ ys) r =
      let (d, apart, apart', d', rest) = Different-split (h ∷ xs) x (y ∷ ys) r.different in
      let p = last h xs in
      let (c, n, p', (next_x, prev_y, c')) = Chain-split m h xs x (y ∷ ys) r.chain in
      let away : p ≢ x = last-NotIn x h xs apart in
      let (_, y_apart, _, _, _) = Different-split (h ∷ xs) y ys rest in
      let p_apart : NotIn p (y ∷ ys) = last_left-NotIn h xs (y ∷ ys) rest in
      let m1 = link p y m in
      let m2 = link x x m1 in
      let c1 : Chain m2 h xs =
        Chain-link x x m1 h xs (NotIn-Avoids x h xs apart) apart.1
          (Chain-link p y m h xs (last-Avoids h xs d) y_apart.1 c) in
      let c2 : Chain m2 y ys =
        Chain-link x x m1 y ys (NotIn-Avoids x y ys apart') apart'.1
          (Chain-link p y m y ys (NotIn-Avoids p y ys p_apart) d'.0 c') in
      let l = last y ys in
      let whole : last h (xs ++ y ∷ ys) ≡ l = last-append h xs y ys in
      let ends : m.next l ≡ h = ap m.next (sym (last-append h xs x (y ∷ ys))) ∙ r.ends in
      let starts : m.prev h ≡ l = r.starts ∙ last-append h xs x (y ∷ ys) in
      let l_p : l ≢ p = last-NotIn p y ys p_apart in
      let l_x : l ≢ x = last-NotIn x y ys apart' in
      rw next_x record {
        chain = Chain-append m2 h xs y ys c1 (ground (arith, away)) (ground (arith, apart'.0)) c2;
        ends = ap m2.next whole ∙ ground (arith, l_p, l_x, ends);
        starts = ground (arith, y_apart.0, apart.0, starts) ∙ sym whole;
        different = rest;
      }

  -- The extraction of a node from a ring takes it out of the list, keeps the others in order, and leaves
  -- it as a ring of its own.
  pub extract_link-IsRing :
      (ys : List ℕ)
      → IsRing m h (xs ++ x ∷ ys)
      → IsRing (extract_link x m) h (xs ++ ys) × IsRing (extract_link x m) x []
  extract_link-IsRing ys r =
      let (_, _, prev_x, _) = Chain-split m h xs x ys r.chain in
      subst (λ m'. IsRing m' h (xs ++ ys) × IsRing m' x [])
        (ap (λ p. link x x (link p (m.next x) m)) (sym prev_x) ∙ sym (extract_link-link x m))
        (
          closed_up ys r,
          record { chain = tt; ends = ground arith; starts = ground arith; different = (tt, tt) },
        )

module _ (d s : ℕ) (xs ys : List ℕ) (m : Links) where
  joined_up :
      IsRing m d xs
      → IsRing m s ys
      → Different (d ∷ xs ++ s ∷ ys)
      → IsRing (link (last s ys) d (link (last d xs) s m)) d (xs ++ s ∷ ys)
  joined_up r r' all =
      let (dx, s_apart, s_apart', dy, _) = Different-split (d ∷ xs) s ys all in
      let (d_xs, d_ys) = NotIn-append d xs (s ∷ ys) all.0 in
      let p = last d xs in
      let q = last s ys in
      let p_apart : NotIn p (s ∷ ys) = last_left-NotIn d xs (s ∷ ys) all in
      let q_apart : NotIn q (d ∷ xs) = last_right-NotIn (d ∷ xs) s ys all in
      let q_p : q ≢ p = last-NotIn p s ys p_apart in
      let m1 = link p s m in
      let m2 = link q d m1 in
      let c1 : Chain m2 d xs =
        Chain-link q d m1 d xs (NotIn-Avoids q d xs q_apart) d_xs
          (Chain-link p s m d xs (last-Avoids d xs dx) s_apart.1 r.chain) in
      let c2 : Chain m2 s ys =
        Chain-link q d m1 s ys (last-Avoids s ys r'.different) d_ys.1
          (Chain-link p s m s ys (NotIn-Avoids p s ys p_apart) s_apart' r'.chain) in
      record {
        chain = Chain-append m2 d xs s ys c1 (ground (arith, q_p)) (ground (arith, s_apart.0)) c2;
        ends = ap m2.next (last-append d xs s ys) ∙ ground arith;
        starts = (ground arith) ∙ sym (last-append d xs s ys);
        different = all;
      }

  merge_rings-IsRing :
      IsRing m d xs
      → IsRing m s ys
      → Different (d ∷ xs ++ s ∷ ys)
      → IsRing (merge_rings d s m) d (xs ++ s ∷ ys)
  merge_rings-IsRing r r' all =
      let (_, s_apart, _, _, _) = Different-split (d ∷ xs) s ys all in
      let pointers : link (last s ys) d (link (last d xs) s m) ≡ merge_rings d s m =
        ap (λ q. link q d (link (last d xs) s m)) (sym r'.starts)
        ∙ ap (λ p. link (m.prev s) d (link p s m)) (sym r.starts)
        ∙ sym (merge_rings-link d s m s_apart.0) in
      subst (λ m'. IsRing m' d (xs ++ s ∷ ys)) pointers (joined_up r r' all)

  -- Two rings that share no link are merged by `bplib_mpool_merge_list`, and the head of the source is
  -- then extracted, as `bplib_mpool_subq_merge_list` does: the destination has its own nodes and then
  -- those of the source, both in order, and the source is an empty list.
  pub merge_all-IsRing :
      IsRing m d xs
      → IsRing m s ys
      → Different (d ∷ xs ++ s ∷ ys)
      → IsRing (merge_all d s m) d (xs ++ ys) × IsRing (merge_all d s m) s []
  unfolding merge_all
  merge_all-IsRing r r' all =
      extract_link-IsRing d s xs (merge_rings d s m) ys (merge_rings-IsRing r r' all)
