-- ===== src/Rbtree/Extract/Right.antt =====
-- common/src/v7_rbtree.c: the rounds of `do_delete_rebalance` for a node on the right.
use bplib.Common.{ℕ, suc, ◌≡◌, refl, true, false, some, List, ◌∷◌, arith}
use bplib.Rbtree.{
  Color, red, black, Link, Tree, leaf, node, Frame, in_right, Root, is_red, set_black, plug,
}
use bplib.Rbtree.Balance.{IsBalanced}
use bplib.Rbtree.Height.{
  RedBlack, Fits, RedBlack-weaken, RedBlack-under_red, RedBlack-set_black, plug-RedBlack,
}
use bplib.Rbtree.Extract.{
  done, again, rotate_close_right, is_red_color, delete_round, delete_rebalance,
}
use bplib.Rbtree.Extract.Links.{by_case_lem}
use bplib.Rbtree.Extract.Ends.{
  OfFrame, of_red_frame, plug-node, RedBlack-not_red, red_and_black, Ends,
}

module _ (total : ℕ) where
  -- A black sibling of a node on the right.
  module _ (n : ℕ) (t : Tree) (pc : Color) (p s : Link) (path : List Frame) (ht : RedBlack red n t)
      (above : OfFrame pc (suc n) path total) where
    close_right :
        (fuel : ℕ) (close distant : Tree)
        → RedBlack black n close
        → RedBlack black n distant
        → is_red close ≡ true
        → Ends total
            (suc fuel)
            (again t (in_right pc p (rotate_close_right black s close distant) ∷ path))
    unfolding delete_rebalance delete_round
    close_right fuel leaf distant hc hd e = cc
    close_right fuel (node black x l' r') distant hc hd e = cc
    close_right fuel (node red x r l) distant hc hd e =
        by_case_lem (Ends total fuel) (is_red l) true (is_red_color pc)
          (again t (in_right pc p (rotate_close_right black x l (node red s distant r)) ∷ path))
          (done (record {
            root = plug (node pc x (node black s distant r) (node black p l t)) path;
            black_height = total;
          }))
          (done (record {
            root = plug (node black p (node red x (node red s distant r) l) t) path;
            black_height = total;
          }))
          (again (node pc p (node red x (node red s distant r) l) t) path)
          (λ reds. absurd (red_and_black reds (RedBlack-not_red n l hc.2)))
          (λ _ _. (
            record {
              root = plug (node pc x (node black s distant r) (node black p l t)) path;
              black_height = total;
            },
            refl,
            plug-node pc (suc n) x (node black s distant r) (node black p l t) path total
                (omega arith, hd, RedBlack-weaken black n r hc.1)
                (omega arith, RedBlack-weaken black n l hc.2, RedBlack-weaken black n t ht) above,
          ))
          (λ _ e' _. absurd (red_and_black refl e')) (λ _ e' _. absurd (red_and_black refl e'))

    pub black_right :
        (fuel : ℕ) (close distant : Tree)
        → RedBlack black n close
        → RedBlack black n distant
        → (is_red_color pc ≡ false
            → is_red close ≡ false
            → is_red distant ≡ false
            → Ends total (suc fuel) (again (node pc p (node red s distant close) t) path))
        → Ends total
            (suc fuel)
            (delete_round total t (in_right pc p (node black s distant close) ∷ path))
    unfolding delete_round
    black_right fuel close distant hc hd up =
        by_case_lem (Ends total (suc fuel)) (is_red close) (is_red distant) (is_red_color pc)
          (again t (in_right pc p (rotate_close_right black s close distant) ∷ path))
          (done (record {
            root = plug (node pc s (set_black distant) (node black p close t)) path;
            black_height = total;
          }))
          (done (record {
            root = plug (node black p (node red s distant close) t) path;
            black_height = total;
          }))
          (again (node pc p (node red s distant close) t) path)
          (close_right fuel close distant hc hd)
          (λ _ reds. (
            record {
              root = plug (node pc s (set_black distant) (node black p close t)) path;
              black_height = total;
            },
            refl,
            plug-node pc (suc n) s (set_black distant) (node black p close t) path total
                (RedBlack-set_black n distant hd reds)
                (omega arith, hc, RedBlack-weaken black n t ht) above,
          ))
          (λ other other' reds. (
            record {
              root = plug (node black p (node red s distant close) t) path;
              black_height = total;
            },
            refl,
            plug-RedBlack (suc n) (node black p (node red s distant close) t) path total
                (
                  omega arith,
                  (
                    refl,
                    RedBlack-under_red n distant hd other',
                    RedBlack-under_red n close hc other,
                  ),
                  RedBlack-weaken black n t ht,
                )
                (of_red_frame pc (suc n) path total reds above),
          ))
          (λ other other' blacks. up blacks other other')

  pub red_right :
      (n : ℕ) (t : Tree) (p : Link) (sibling : Tree) (path : List Frame) (k : ℕ)
      → RedBlack red n t
      → Fits (suc n) (in_right red p sibling ∷ path) total
      → (tree : Root) × (delete_rebalance (suc (suc k)) total t (in_right red p sibling ∷ path)
          ≡ some tree)
        × IsBalanced tree
  unfolding delete_rebalance
  red_right n t p leaf path k ht f = absurd (omega (arith, f.0))
  red_right n t p (node red s distant close) path k ht f = cc
  red_right n t p (node black s distant close) path k ht (hs, above, f) =
      black_right n t red p s path ht (above, f) k close distant hs.2 hs.1
        (λ e _ _. absurd (red_and_black refl e))
