-- ===== src/Rbtree/Extract/Left.antt =====
-- common/src/v7_rbtree.c: the rounds of `do_delete_rebalance` for a node on the left.
use bplib.Common.{ℕ, suc, ◌≡◌, refl, true, false, some, List, ◌∷◌, arith}
use bplib.Rbtree.{
  Color, red, black, Link, Tree, leaf, node, Frame, in_left, Root, is_red, set_black, plug,
}
use bplib.Rbtree.Balance.{IsBalanced}
use bplib.Rbtree.Height.{
  RedBlack, Fits, RedBlack-weaken, RedBlack-under_red, RedBlack-set_black, plug-RedBlack,
}
use bplib.Rbtree.Extract.{
  done, again, rotate_close_left, is_red_color, delete_round, delete_rebalance,
}
use bplib.Rbtree.Extract.Links.{by_case_lem}
use bplib.Rbtree.Extract.Ends.{
  OfFrame, of_red_frame, plug-node, RedBlack-not_red, red_and_black, Ends,
}

module _ (total : ℕ) where
  -- A black sibling of a node on the left.
  module _ (n : ℕ) (t : Tree) (pc : Color) (p s : Link) (path : List Frame) (ht : RedBlack red n t)
      (above : OfFrame pc (suc n) path total) where
    close_left :
        (fuel : ℕ) (close distant : Tree)
        → RedBlack black n close
        → RedBlack black n distant
        → is_red close ≡ true
        → Ends total
            (suc fuel)
            (again t (in_left pc p (rotate_close_left black s close distant) ∷ path))
    unfolding delete_rebalance delete_round
    close_left fuel leaf distant hc hd e = cc
    close_left fuel (node black x l' r') distant hc hd e = cc
    close_left fuel (node red x l r) distant hc hd e =
        by_case_lem (Ends total fuel) (is_red l) true (is_red_color pc)
          (again t (in_left pc p (rotate_close_left black x l (node red s r distant)) ∷ path))
          (done (record {
            root = plug (node pc x (node black p t l) (node black s r distant)) path;
            black_height = total;
          }))
          (done (record {
            root = plug (node black p t (node red x l (node red s r distant))) path;
            black_height = total;
          }))
          (again (node pc p t (node red x l (node red s r distant))) path)
          (λ reds. absurd (red_and_black reds (RedBlack-not_red n l hc.1)))
          (λ _ _. (
            record {
              root = plug (node pc x (node black p t l) (node black s r distant)) path;
              black_height = total;
            },
            refl,
            plug-node pc (suc n) x (node black p t l) (node black s r distant) path total
                (omega arith, RedBlack-weaken black n t ht, RedBlack-weaken black n l hc.1)
                (omega arith, RedBlack-weaken black n r hc.2, hd) above,
          ))
          (λ _ e' _. absurd (red_and_black refl e')) (λ _ e' _. absurd (red_and_black refl e'))

    pub black_left :
        (fuel : ℕ) (close distant : Tree)
        → RedBlack black n close
        → RedBlack black n distant
        → (is_red_color pc ≡ false
            → is_red close ≡ false
            → is_red distant ≡ false
            → Ends total (suc fuel) (again (node pc p t (node red s close distant)) path))
        → Ends total
            (suc fuel)
            (delete_round total t (in_left pc p (node black s close distant) ∷ path))
    unfolding delete_round
    black_left fuel close distant hc hd up =
        by_case_lem (Ends total (suc fuel)) (is_red close) (is_red distant) (is_red_color pc)
          (again t (in_left pc p (rotate_close_left black s close distant) ∷ path))
          (done (record {
            root = plug (node pc s (node black p t close) (set_black distant)) path;
            black_height = total;
          }))
          (done (record {
            root = plug (node black p t (node red s close distant)) path;
            black_height = total;
          }))
          (again (node pc p t (node red s close distant)) path)
          (close_left fuel close distant hc hd)
          (λ _ reds. (
            record {
              root = plug (node pc s (node black p t close) (set_black distant)) path;
              black_height = total;
            },
            refl,
            plug-node pc (suc n) s (node black p t close) (set_black distant) path total
                (omega arith, RedBlack-weaken black n t ht, hc)
                (RedBlack-set_black n distant hd reds) above,
          ))
          (λ other other' reds. (
            record {
              root = plug (node black p t (node red s close distant)) path;
              black_height = total;
            },
            refl,
            plug-RedBlack (suc n) (node black p t (node red s close distant)) path total
                (
                  omega arith,
                  RedBlack-weaken black n t ht,
                  (
                    refl,
                    RedBlack-under_red n close hc other,
                    RedBlack-under_red n distant hd other',
                  ),
                )
                (of_red_frame pc (suc n) path total reds above),
          ))
          (λ other other' blacks. up blacks other other')

  pub red_left :
      (n : ℕ) (t : Tree) (p : Link) (sibling : Tree) (path : List Frame) (k : ℕ)
      → RedBlack red n t
      → Fits (suc n) (in_left red p sibling ∷ path) total
      → (tree : Root) × (delete_rebalance (suc (suc k)) total t (in_left red p sibling ∷ path)
          ≡ some tree)
        × IsBalanced tree
  unfolding delete_rebalance
  red_left n t p leaf path k ht f = absurd (omega (arith, f.0))
  red_left n t p (node red s close distant) path k ht f = cc
  red_left n t p (node black s close distant) path k ht (hs, above, f) =
      black_left n t red p s path ht (above, f) k close distant hs.1 hs.2
        (λ e _ _. absurd (red_and_black refl e))
