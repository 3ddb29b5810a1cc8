-- ===== src/Route/Table/Valid.antt =====
-- lib/src/v7_routing.c: what `bplib_route_add`, `bplib_route_del` and the deletion of an interface
-- promise about the route table.
use bplib.Common.{
  ℕ, zero, suc, ◌≤◌, ◌<◌, ◌^◌, ◌≡◌, refl, ap, ◌↔◌, ◌⊎◌, inl, inr, Bool, false, ◌==◌, leb, Option,
  none, some, List, [], ◌∷◌, length, All, arith, Bool-cases, Option-cases,
}
use native.Mathlib.Nat.{zero-add}
use bplib.Route.Table.{
  RouteEntry, RouteTable, Status, success, failure, registered_routes, same_route, mask_check,
  find_insert_pos, insert_at, remove_first, route_add, route_del, del_intf_routes,
  get_intf_controlblock, del_flow, del_controlblock, del_intf,
}
use bplib.Mpool.Flow.{Flow}
use bplib.Mpool.Pool.{Pool, flow_cast}
use bplib.Route.Table.Masks.{IsPrefixMask, mask_check_iff}
use bplib.Route.Table.Order.{
  IsValid, count_above, find_insert_pos-new, find_insert_pos-some, All-insert_at, All-remove_first,
  insert_at-IsOrdered, insert_at-IsDistinct, length-insert_at, remove_first-IsOrdered,
  remove_first-IsDistinct, length-remove_first, same_route_self, count_above-le,
}

abbrev route : ℕ → ℕ → ℕ → RouteEntry
route dest mask intf_id = record { dest = dest; mask = mask; intf_id = intf_id }

-- Whether an add goes through: there is room, the mask is a prefix mask, and the route is new.
abbrev pub CanAdd : RouteTable → ℕ → ℕ → ℕ → Type 0
CanAdd tbl dest mask intf_id =
    (registered_routes tbl < tbl.max_routes)
    × IsPrefixMask mask
    × All (λ rp. same_route rp (route dest mask intf_id) ≡ false) tbl.route_tbl

-- What an add that goes through leaves.
abbrev pub added : RouteTable → ℕ → ℕ → ℕ → RouteTable
added tbl dest mask intf_id =
    let r = route dest mask intf_id in
    record tbl { route_tbl = insert_at (count_above r tbl.route_tbl) r tbl.route_tbl }

pub route_add-success :
    (tbl : RouteTable) (dest mask intf_id : ℕ)
    → mask < 2 ^ 64
    → CanAdd tbl dest mask intf_id
    → route_add tbl dest mask intf_id ≡ (added tbl dest mask intf_id, success)
unfolding route_add
route_add-success tbl dest mask intf_id fits (room, prefix, new) =
    let has_room : leb tbl.max_routes (registered_routes tbl) ≡ false = ground arith in
    let checked = (mask_check_iff mask fits).1 prefix in
    rw (
      has_room,
      checked,
      find_insert_pos-new (route dest mask intf_id) 0 tbl.route_tbl new,
      zero-add,
    )

route_add-CanAdd :
    (tbl : RouteTable) (dest mask intf_id : ℕ)
    → mask < 2 ^ 64
    → (route_add tbl dest mask intf_id).1 ≡ success
    → CanAdd tbl dest mask intf_id
unfolding route_add
route_add-CanAdd tbl dest mask intf_id fits ok =
    elim (Bool-cases (leb tbl.max_routes (registered_routes tbl))) [
      | inl full ↦ absurd (failed (rw (full, route_add) at ok))
      | inr room ↦ elim (Bool-cases (mask_check mask)) [
        | inr bad ↦ absurd (failed (rw (room, bad, route_add) at ok))
        | inl good ↦
            elim (Option-cases (find_insert_pos (route dest mask intf_id) 0 tbl.route_tbl)) [
              | inl duplicate ↦ absurd (failed (rw (room, good, duplicate, route_add) at ok))
              | inr (pos, found) ↦ (
                ground (arith, room),
                (mask_check_iff mask fits).0 good,
                find_insert_pos-some (route dest mask intf_id) 0 tbl.route_tbl found,
              )
            ]
      ]
    ]
  where
    failed : failure ≡ success → ⊥
    failed e = cc

-- For a 64-bit mask: a route is added exactly if there is room, its mask is a prefix mask and it is not yet there; else
-- the table stays as it is.
pub route_add_lem :
    (tbl : RouteTable) (dest mask intf_id : ℕ)
    → mask < 2 ^ 64
    → (((route_add tbl dest mask intf_id).1 ≡ success) ↔ CanAdd tbl dest mask intf_id)
      × ((route_add tbl dest mask intf_id).1 ≡ failure → (route_add tbl dest mask intf_id).0 ≡ tbl)
route_add_lem tbl dest mask intf_id fits = (
  (
    route_add-CanAdd tbl dest mask intf_id fits,
    λ can. ap (λ (r : RouteTable × Status). r.1) (route_add-success tbl dest mask intf_id fits can),
  ),
  unfold route_add in λ e. ground arith,
)

Status-cases : (s : Status) → (s ≡ success) ⊎ (s ≡ failure)
Status-cases success = inl refl
Status-cases failure = inr refl

added-IsValid :
    (tbl : RouteTable) (dest mask intf_id : ℕ)
    → CanAdd tbl dest mask intf_id
    → IsValid tbl
    → IsValid (added tbl dest mask intf_id)
added-IsValid tbl dest mask intf_id (room, prefix, new) v =
    let r = route dest mask intf_id in
    let pos = count_above r tbl.route_tbl in
    record {
      within = omega (arith, length-insert_at pos r tbl.route_tbl);
      prefixes = All-insert_at (λ rp. IsPrefixMask rp.mask) pos r tbl.route_tbl prefix v.prefixes;
      ordered = insert_at-IsOrdered r tbl.route_tbl prefix v.prefixes v.ordered;
      distinct = insert_at-IsDistinct pos r tbl.route_tbl new v.distinct;
    }

removed-IsValid :
    (tbl : RouteTable) (test : RouteEntry → Bool) (left : List RouteEntry)
    → remove_first test tbl.route_tbl ≡ some left
    → IsValid tbl
    → IsValid (record tbl { route_tbl = left })
removed-IsValid tbl test left e v = record {
  within = omega (arith, length-remove_first test tbl.route_tbl e, v.within);
  prefixes = All-remove_first (λ rp. IsPrefixMask rp.mask) test tbl.route_tbl e v.prefixes;
  ordered = remove_first-IsOrdered test tbl.route_tbl e v.ordered;
  distinct = remove_first-IsDistinct test tbl.route_tbl e v.distinct;
}

-- An add with any 64-bit mask, whether it goes through or not, keeps a valid table within its size,
-- its masks prefix masks, its entries ordered from the most to the least specific mask, and no entry
-- there twice.
pub route_add-IsValid :
    (tbl : RouteTable) (dest mask intf_id : ℕ)
    → mask < 2 ^ 64
    → IsValid tbl
    → IsValid (route_add tbl dest mask intf_id).0
route_add-IsValid tbl dest mask intf_id fits v =
    elim (Status-cases (route_add tbl dest mask intf_id).1) [
      | inl ok ↦
          let can = route_add-CanAdd tbl dest mask intf_id fits ok in
          rw (route_add-success tbl dest mask intf_id fits can)
            (added-IsValid tbl dest mask intf_id can v)
      | inr failed ↦ rw ((route_add_lem tbl dest mask intf_id fits).1 failed) v
    ]

del_intf_routes-IsValid :
    (tbl : RouteTable) (intf_id : ℕ) → IsValid tbl → IsValid (del_intf_routes tbl intf_id)
unfolding del_intf_routes
del_intf_routes-IsValid tbl intf_id v =
    elim (Option-cases (remove_first (λ rp. rp.intf_id == intf_id) tbl.route_tbl)) [
      | inl missing ↦ rw (missing, del_intf_routes) v
      | inr (left, found) ↦ rw (found, del_intf_routes) (removed-IsValid tbl _ left found v)
    ]

-- What is true of the table that a deletion leaves, where it does not fail on NULL.
abbrev pub Leaves : (RouteTable → Type 0) → Option (RouteTable × Status) → Type 0
Leaves P none = Unit
Leaves P (some r) = P r.0

-- A valid table (within its size, with prefix masks, ordered from the most to the least specific mask,
-- no entry twice) stays valid when a route is deleted, and when an interface is, whether the handle
-- is one of an interface or not (if the deletion does not end at a NULL flow).
pub route_del-IsValid :
    {A : Type 0} (pool : Pool A) (tbl : RouteTable) (dest mask intf_id : ℕ)
    → IsValid tbl
    → IsValid (route_del tbl dest mask intf_id).0 × Leaves IsValid (del_intf pool tbl intf_id)
unfolding route_del del_intf del_controlblock del_flow
route_del-IsValid {A = A} pool tbl dest mask intf_id v = (
  elim (Bool-cases (registered_routes tbl == 0)) [
    | inl none_left ↦ rw none_left v
    | inr more ↦
        elim (Option-cases
          (remove_first (λ rp. same_route rp (route dest mask intf_id)) tbl.route_tbl)) [
            | inl missing ↦ rw (more, missing) v
            | inr (left, found) ↦ rw (more, found) (removed-IsValid tbl _ left found v)
          ]
  ],
  by_block (get_intf_controlblock pool intf_id),
)
  where
    by_flow : (found : Option (Flow A)) → Leaves IsValid (del_flow pool tbl intf_id found)
    by_flow none = tt
    by_flow (some ifp) = del_intf_routes-IsValid tbl intf_id v

    by_block : (found : Option ℕ) → Leaves IsValid (del_controlblock pool tbl intf_id found)
    by_block none = v
    by_block (some ref) = by_flow (flow_cast pool (some ref))

remove_first-insert_at :
    (r : RouteEntry) (pos : ℕ) (routes : List RouteEntry)
    → pos ≤ length routes
    → All (λ rp. same_route rp r ≡ false) routes
    → remove_first (λ rp. same_route rp r) (insert_at pos r routes) ≡ some routes
unfolding remove_first insert_at
remove_first-insert_at r zero routes h new = rw (same_route_self r)
remove_first-insert_at r (suc pos) [] h new = absurd (omega arith)
remove_first-insert_at r (suc pos) (rp ∷ rest) h new =
    rw (new.0, remove_first-insert_at r pos rest (omega arith) new.1)

-- If an add goes through, then deleting the same route succeeds and gives the table back as it was.
pub route_del-add :
    (tbl : RouteTable) (dest mask intf_id : ℕ)
    → mask < 2 ^ 64
    → CanAdd tbl dest mask intf_id
    → route_del (route_add tbl dest mask intf_id).0 dest mask intf_id ≡ (tbl, success)
unfolding route_del
route_del-add tbl dest mask intf_id fits can =
    let r = route dest mask intf_id in
    let pos = count_above r tbl.route_tbl in
    let some_left : (length (insert_at pos r tbl.route_tbl) == 0) ≡ false =
      ground (arith, length-insert_at pos r tbl.route_tbl) in
    rw
      (
        route_add-success tbl dest mask intf_id fits can,
        some_left,
        remove_first-insert_at r pos tbl.route_tbl (count_above-le r tbl.route_tbl) can.2,
      )
      (rw (route_add-success tbl dest mask intf_id fits can))
