-- ===== src/Route/Tests.antt =====
-- A concrete route table over a concrete pool, and the theorems of the routes at them.
use mathlib.Core.List.{Memᴰ}
use bplib.Common.{
  ℕ, ◌/◌, ◌≤◌, ◌<◌, ◌^◌, ◌≡◌, refl, ap, ◌↔◌, Bool, true, false, some, [], ◌∷◌, arith, ◌==◌,
}
use bplib.Mpool.Flow.{Flow, flow_init}
use bplib.Mpool.Pool.{
  Pool, Block, flow, bp_invalid_handle, block_from_external_id, flow_cast, dereference_content,
}
use bplib.Route.Table.{
  RouteEntry, RouteTable, success, failure, same_route, route_add, route_del, del_intf_routes,
  get_intf_controlblock, del_intf, route_matches, lookup_intf, route_usable, intf_flags,
  get_next_intf_with_flags, get_next_avail_intf, next_intf_from,
}
use bplib.Route.Table.Masks.{IsPrefixMask, route_matches_iff}
use bplib.Route.Table.Order.{IsValid}
use bplib.Route.Table.Valid.{
  CanAdd, Leaves, route_add_lem, route_add-IsValid, route_del-IsValid, route_del-add,
}
use bplib.Route.Table.Lookup.{IsUp, FlagWords, get_next_avail_intf_lem}

-- Masks with 8 and 16 zeros.
abbrev narrow : ℕ
narrow = 0xffff_ffff_ffff_ff00

abbrev wide : ℕ
wide = 0xffff_ffff_ffff_0000

abbrev narrow_prefix : IsPrefixMask narrow
narrow_prefix = (8, omega arith, refl)

abbrev wide_prefix : IsPrefixMask wide
wide_prefix = (16, omega arith, refl)

-- The handles of the blocks 1 and 2.
abbrev intf_1 : ℕ
intf_1 = 0x6000001

abbrev intf_2 : ℕ
intf_2 = 0x6000002

abbrev narrow_route : RouteEntry
narrow_route = record { dest = 0x1100; mask = narrow; intf_id = intf_1 }

abbrev wide_route : RouteEntry
wide_route = record { dest = 0; mask = wide; intf_id = intf_2 }

abbrev table : RouteTable
table = record { max_routes = 3; route_tbl = narrow_route ∷ wide_route ∷ [] }

table-IsValid : IsValid table
unfolding same_route
table-IsValid = record {
  within = omega arith;
  prefixes = (narrow_prefix, (wide_prefix, tt));
  ordered = ((omega arith, tt), (tt, tt));
  distinct = ((refl, tt), (tt, tt));
}

-- The interface in block 1 is down and that in block 2 is up.
abbrev pool : Pool ℕ
pool = record {
  num_bufs_total = 8;
  block = λ serial. elim (serial == 2) [
    | true ↦ flow (record flow_init { current_state_flags = 3 })
    | false ↦ flow flow_init
  ];
}

route_matches_iff_example :
    (route_matches narrow_route 0x1122 ≡ true) ↔ (0x1100 / 2 ^ 8 ≡ 0x1122 / 2 ^ 8)
route_matches_iff_example =
    route_matches_iff narrow_route 0x1122 narrow_prefix (omega arith) (omega arith)

route_add_run : route_add table 0x2200 narrow intf_2 ≡ (
  record table {
    route_tbl =
        narrow_route ∷ record { dest = 0x2200; mask = narrow; intf_id = intf_2 } ∷ wide_route ∷ [];
  },
  success,
)
unfolding route_add
route_add_run = refl

route_add_lem_example :
    (((route_add table 0x2200 narrow intf_2).1 ≡ success) ↔ CanAdd table 0x2200 narrow intf_2)
    × ((route_add table 0x2200 narrow intf_2).1 ≡ failure
        → (route_add table 0x2200 narrow intf_2).0 ≡ table)
route_add_lem_example = route_add_lem table 0x2200 narrow intf_2 (omega arith)

route_add-IsValid_example : IsValid (route_add table 0x2200 narrow intf_2).0
route_add-IsValid_example = route_add-IsValid table 0x2200 narrow intf_2 (omega arith) table-IsValid

route_del-IsValid_example :
    IsValid (route_del table 0 wide intf_2).0 × Leaves IsValid (del_intf pool table intf_2)
route_del-IsValid_example = route_del-IsValid pool table 0 wide intf_2 table-IsValid

can_add : CanAdd table 0x2200 narrow intf_2
unfolding same_route
can_add = (omega arith, narrow_prefix, (refl, (refl, tt)))

route_del-add_example :
    route_del (route_add table 0x2200 narrow intf_2).0 0x2200 narrow intf_2 ≡ (table, success)
route_del-add_example = route_del-add table 0x2200 narrow intf_2 (omega arith) can_add

del_intf_run :
    del_intf pool table intf_2 ≡ some (record table { route_tbl = narrow_route ∷ [] }, success)
unfolding del_intf get_intf_controlblock flow_cast block_from_external_id dereference_content
    del_intf_routes
del_intf_run = refl

-- The handle of the last block is one past those that are found.
del_intf_last : del_intf pool table 0x6000008 ≡ some (table, failure)
unfolding del_intf get_intf_controlblock flow_cast block_from_external_id dereference_content
del_intf_last = refl

-- The narrow route leads to an interface that is down, so the wide one is taken.
get_next_avail_intf_run : get_next_avail_intf pool table 0x1122 ≡ intf_2
unfolding get_next_avail_intf get_next_intf_with_flags next_intf_from route_matches route_usable
    intf_flags lookup_intf flow_cast block_from_external_id dereference_content
get_next_avail_intf_run = refl

abbrev flags_of : Block ℕ → ℕ
flags_of (flow f) = f.current_state_flags
flags_of _ = 0

flags_of_bound : (serial : ℕ) → flags_of (pool.block serial) < 2 ^ 32
flags_of_bound serial = go (serial == 2)
  where
    go :
        (second : Bool)
        → flags_of (elim second [
          | true ↦ flow (record flow_init { current_state_flags = 3 })
          | false ↦ flow flow_init
        ])
          < 2 ^ 32
    go true = omega arith
    go false = omega arith

pool-FlagWords : FlagWords pool
pool-FlagWords serial f e = omega (arith, ap flags_of e, flags_of_bound serial)

get_next_avail_intf_lem_example :
    ((rp : RouteEntry)
      → Memᴰ rp table.route_tbl
      → route_matches rp 0x1122 ≡ true
      → IsUp pool rp.intf_id
      → (best : RouteEntry) × Memᴰ best table.route_tbl
        × (route_matches best 0x1122 ≡ true)
        × IsUp pool best.intf_id
        × (get_next_avail_intf pool table 0x1122 ≡ best.intf_id)
        × (rp.mask ≤ best.mask))
    × (((rp : RouteEntry)
          → Memᴰ rp table.route_tbl
          → route_matches rp 0x1122 ≡ true
          → IsUp pool rp.intf_id
          → ⊥)
        → get_next_avail_intf pool table 0x1122 ≡ bp_invalid_handle)
get_next_avail_intf_lem_example =
    get_next_avail_intf_lem pool table 0x1122 table-IsValid pool-FlagWords
