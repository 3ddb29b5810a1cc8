-- ===== src/Rbtree/Extract/Links.antt =====
-- common/src/v7_rbtree.c: the rounds of `do_delete_rebalance` keep the links in order.
use mathlib.Core.List.{append_assoc, append-nil}
use mathlib.Core.Path.{subst}
use bplib.Common.{
  ℕ, zero, suc, ◌≡◌, refl, ◌∙◌, Bool, true, false, Option, none, some, List, [], ◌∷◌, ◌++◌,
}
use bplib.Rbtree.{
  red, black, Link, Tree, leaf, node, Frame, in_left, in_right, Root, is_red, set_black, plug,
}
use bplib.Rbtree.Order.{inorder, before, after, inorder-plug, inorder-set_black}
use bplib.Rbtree.Extract.{
  Round, done, again, faulted, rotate_close_left, rotate_close_right, is_red_color, by_case,
  delete_round, delete_rebalance,
}

-- The links of a tree that has a node at a path.
abbrev pub links_of : Tree → List Frame → List Link
links_of t path = before path ++ (inorder t ++ after path)

abbrev RoundLinks : List Link → Round → Type 0
RoundLinks links (done tree) = inorder tree.root ≡ links
RoundLinks links (again t path) = links_of t path ≡ links
RoundLinks links faulted = Unit

-- What holds in each case.
pub by_case_lem :
    (P : Round → Type 0) (close distant parent : Bool) (a b c d : Round)
    → (close ≡ true → P a)
    → (close ≡ false → distant ≡ true → P b)
    → (close ≡ false → distant ≡ false → parent ≡ true → P c)
    → (close ≡ false → distant ≡ false → parent ≡ false → P d)
    → P (by_case close distant parent a b c d)
unfolding by_case
by_case_lem P true distant parent a b c d ha hb hc hd = ha refl
by_case_lem P false true parent a b c d ha hb hc hd = hb refl refl
by_case_lem P false false true a b c d ha hb hc hd = hc refl refl refl
by_case_lem P false false false a b c d ha hb hc hd = hd refl refl refl

inorder-rotate_close_left :
    (s : Link) (close distant : Tree)
    → is_red close ≡ true
    → inorder (rotate_close_left black s close distant) ≡ inorder close ++ s ∷ inorder distant
unfolding inorder
inorder-rotate_close_left s leaf distant e = cc
inorder-rotate_close_left s (node c x l r) distant e = simp append_assoc

inorder-rotate_close_right :
    (s : Link) (close distant : Tree)
    → is_red close ≡ true
    → inorder (rotate_close_right black s close distant) ≡ inorder distant ++ s ∷ inorder close
unfolding inorder
inorder-rotate_close_right s leaf distant e = cc
inorder-rotate_close_right s (node c x l r) distant e = simp append_assoc

-- The links of a tree, if there is one.
roots : Option Root → List Link
roots none = []
roots (some tree) = inorder tree.root

same_links : {l m n : List Link} → l ≡ m → m ≡ n → l ≡ n
same_links e e' = e ∙ e'

delete_round-links :
    (height : ℕ) (t : Tree) (path : List Frame)
    → RoundLinks (links_of t path) (delete_round height t path)
unfolding delete_round before after inorder
delete_round-links height t [] = simp append-nil
delete_round-links height t (in_left pc p leaf ∷ path) = tt
delete_round-links height t (in_left pc p (node red s close distant) ∷ path) = simp append_assoc
delete_round-links height t (in_left pc p (node black s close distant) ∷ path) =
    by_case_lem (RoundLinks (links_of t (in_left pc p (node black s close distant) ∷ path)))
      (is_red close) (is_red distant) (is_red_color pc)
      (again t (in_left pc p (rotate_close_left black s close distant) ∷ path))
      (done (record {
        root = plug (node pc s (node black p t close) (set_black distant)) path;
        black_height = height;
      }))
      (done (record {
        root = plug (node black p t (node red s close distant)) path;
        black_height = height;
      }))
      (again (node pc p t (node red s close distant)) path)
      (λ reds. rw (inorder-rotate_close_left s close distant reds) refl)
      (λ _ reds.
        same_links (inorder-plug (node pc s (node black p t close) (set_black distant)) path)
          (rw (inorder-set_black distant) (simp append_assoc)))
      (λ _ _ reds.
        same_links (inorder-plug (node black p t (node red s close distant)) path)
          (simp append_assoc))
      (λ _ _ _. simp append_assoc)
delete_round-links height t (in_right pc p leaf ∷ path) = tt
delete_round-links height t (in_right pc p (node red s distant close) ∷ path) = simp append_assoc
delete_round-links height t (in_right pc p (node black s distant close) ∷ path) =
    by_case_lem (RoundLinks (links_of t (in_right pc p (node black s distant close) ∷ path)))
      (is_red close) (is_red distant) (is_red_color pc)
      (again t (in_right pc p (rotate_close_right black s close distant) ∷ path))
      (done (record {
        root = plug (node pc s (set_black distant) (node black p close t)) path;
        black_height = height;
      }))
      (done (record {
        root = plug (node black p (node red s distant close) t) path;
        black_height = height;
      }))
      (again (node pc p (node red s distant close) t) path)
      (λ reds. rw (inorder-rotate_close_right s close distant reds) refl)
      (λ _ reds.
        same_links (inorder-plug (node pc s (set_black distant) (node black p close t)) path)
          (rw (inorder-set_black distant) (simp append_assoc)))
      (λ _ _ reds.
        same_links (inorder-plug (node black p (node red s distant close) t) path)
          (simp append_assoc))
      (λ _ _ _. simp append_assoc)

-- The links after the loop, if it ends.
pub delete_rebalance-links :
    (fuel height : ℕ) (t : Tree) (path : List Frame) (tree : Root)
    → delete_rebalance fuel height t path ≡ some tree
    → inorder tree.root ≡ links_of t path
unfolding delete_rebalance roots
delete_rebalance-links zero height t path tree e = cc
delete_rebalance-links (suc fuel) height t path tree e =
    by_round (delete_round height t path) (delete_round-links height t path) e
      (λ t' path'. delete_rebalance-links fuel height t' path' tree)
  where
    by_round :
        (r : Round)
        → RoundLinks (links_of t path) r
        → (elim r [
          | done tree' ↦ some tree'
          | again t' path' ↦ delete_rebalance fuel height t' path'
          | faulted ↦ none
        ])
          ≡ some tree
        → ((t' : Tree) (path' : List Frame)
            → delete_rebalance fuel height t' path' ≡ some tree
            → inorder tree.root ≡ links_of t' path')
        → inorder tree.root ≡ links_of t path
    by_round (done tree') h e' ih = subst (λ o. roots o ≡ links_of t path) e' h
    by_round (again t' path') h e' ih = ih t' path' e' ∙ h
    by_round faulted h e' ih = cc
