-- ===== src/Rbtree/Walk.antt =====
-- common/src/v7_rbtree.c: what the three ways on from a node come to.
use Prim.Native.Nat.{Ordering}
use bplib.Common.{◌≡◌, refl, Option, none, some}

-- A walk that ends at a found place went right or left.
pub went_on {ℓ} :
    {A : Type 0} {P : Type ℓ} (o : Ordering) (right left : Option A) (a : A)
    → (elim o [ Ordering.eq ↦ none | Ordering.gt ↦ right | Ordering.lt ↦ left ]) ≡ some a
    → (o ≡ Ordering.gt → right ≡ some a → P)
    → (o ≡ Ordering.lt → left ≡ some a → P)
    → P
went_on Ordering.eq right left a e on_right on_left = cc
went_on Ordering.gt right left a e on_right on_left = on_right refl e
went_on Ordering.lt right left a e on_right on_left = on_left refl e
