-- ===== src/Route/Table.antt =====
-- lib/src/v7_routing.c: the route table. The registered routes are the list of the first
-- `registered_routes` entries of the array `route_tbl`, and `memmove` on it is insertion into and
-- removal from that list.
pub mod Masks
pub mod Order
pub mod Valid
pub mod Interface
pub mod Lookup
use bplib.Common.{
  ℕ, zero, suc, ◌+◌, ◌-◌, Bool, true, false, ◌&&◌, not, Option, none, some, List, [], ◌∷◌, ◌==◌,
  leb, length, ◌>>=◌, bit_and, bit_or, bit_xor, not32, not64, u64, if◌then◌else◌,
}
use bplib.Mpool.Flow.{Flow, flag_admin_up, flag_oper_up}
use bplib.Mpool.Pool.{
  Pool, block_from_external_id, dereference_content, flow_cast, bp_invalid_handle, bp_handle_equal,
}

pub record RouteEntry : Type 0 where
  pub dest : ℕ  -- bp_ipn_t, 64 bits
  pub mask : ℕ  -- bp_ipn_t
  pub intf_id : ℕ  -- bp_handle_t

pub record RouteTable : Type 0 where
  pub max_routes : ℕ
  pub route_tbl : List RouteEntry

abbrev pub registered_routes : RouteTable → ℕ
registered_routes tbl = length tbl.route_tbl

-- The results 0 and -1 of the functions that return an `int`.
pub data Status : Type 0 where
  success failure : Status

unfoldable pub same_route : RouteEntry → RouteEntry → Bool
same_route rp r = rp.mask == r.mask && rp.dest == r.dest && bp_handle_equal rp.intf_id r.intf_id

-- The mask check of `bplib_route_add`: `~mask + 1` shares no digit with `~mask`.
unfoldable pub mask_check : ℕ → Bool
mask_check mask = bit_and (u64 (not64 mask + 1)) (not64 mask) == 0

-- The loop that finds the position, from the current `insert_pos` on; none for a duplicate route.
unfoldable pub find_insert_pos : RouteEntry → ℕ → List RouteEntry → Option ℕ
find_insert_pos r insert_pos [] = some insert_pos
find_insert_pos r insert_pos (rp ∷ rest) =
    let next =
      find_insert_pos r (if bit_and rp.mask r.mask == r.mask then insert_pos + 1 else insert_pos)
        rest in
    if same_route rp r then none else next

-- Shift the entries from a position on back by one, and write an entry there.
unfoldable pub insert_at : ℕ → RouteEntry → List RouteEntry → List RouteEntry
insert_at zero r routes = r ∷ routes
insert_at (suc pos) r [] = r ∷ []
insert_at (suc pos) r (rp ∷ rest) = rp ∷ insert_at pos r rest

unfoldable pub route_add : RouteTable → ℕ → ℕ → ℕ → RouteTable × Status
unfolding mask_check find_insert_pos insert_at same_route
route_add tbl dest mask intf_id =
    let r : RouteEntry = record { dest = dest; mask = mask; intf_id = intf_id } in
    if leb tbl.max_routes (registered_routes tbl)
    then (tbl, failure)
    else if not (mask_check mask)
    then (tbl, failure)
    else elim (find_insert_pos r 0 tbl.route_tbl) [
      | none ↦ (tbl, failure)
      | some insert_pos ↦ (record tbl { route_tbl = insert_at insert_pos r tbl.route_tbl }, success)
    ]

-- Close the gap of the first entry that passes a test; none if there is no such entry.
unfoldable pub remove_first : (RouteEntry → Bool) → List RouteEntry → Option (List RouteEntry)
remove_first test [] = none
remove_first test (rp ∷ rest) =
    let next = remove_first test rest in
    if test rp then some rest else elim next [ none ↦ none | some routes ↦ some (rp ∷ routes) ]

unfoldable pub route_del : RouteTable → ℕ → ℕ → ℕ → RouteTable × Status
unfolding remove_first same_route
route_del tbl dest mask intf_id =
    let r : RouteEntry = record { dest = dest; mask = mask; intf_id = intf_id } in
    if registered_routes tbl == 0
    then (tbl, failure)
    else elim (remove_first (λ rp. same_route rp r) tbl.route_tbl) [
      | none ↦ (tbl, failure)
      | some routes ↦ (record tbl { route_tbl = routes }, success)
    ]

-- The loop of `bplib_route_del_intf` up to its `break`.
unfoldable pub del_intf_routes : RouteTable → ℕ → RouteTable
unfolding remove_first
del_intf_routes tbl intf_id =
    elim (remove_first (λ rp. bp_handle_equal rp.intf_id intf_id) tbl.route_tbl) [
      | none ↦ tbl
      | some routes ↦ record tbl { route_tbl = routes }
    ]

unfoldable pub route_matches : RouteEntry → ℕ → Bool
route_matches rp dest = bit_and (bit_xor rp.dest dest) rp.mask == 0

module _ {A : Type 0} (pool : Pool A) where
  unfoldable pub lookup_intf : ℕ → Option (Flow A)
  lookup_intf intf_id = flow_cast pool (block_from_external_id pool intf_id)

  -- `bplib_route_get_intf_controlblock`: the content that a reference to the block of the handle
  -- leads to, none for NULL. The reference that it makes is not counted here.
  unfoldable pub get_intf_controlblock : ℕ → Option ℕ
  unfolding block_from_external_id dereference_content
  get_intf_controlblock intf_id = do
    serial ← block_from_external_id pool intf_id
    dereference_content pool (suc pool.num_bufs_total) serial

  -- `bplib_route_del_intf` on the route table, with the flow that the reference is cast to, and with
  -- the reference. The flow list, the reference counts and the bytes of the flow are left out. `none`
  -- stands for the `memset` of a flow that is NULL.
  unfoldable pub del_flow : RouteTable → ℕ → Option (Flow A) → Option (RouteTable × Status)
  del_flow tbl intf_id none = none
  del_flow tbl intf_id (some ifp) = some (del_intf_routes tbl intf_id, success)

  unfoldable pub del_controlblock : RouteTable → ℕ → Option ℕ → Option (RouteTable × Status)
  unfolding del_flow
  del_controlblock tbl intf_id none = some (tbl, failure)
  del_controlblock tbl intf_id (some ref) = del_flow tbl intf_id (flow_cast pool (some ref))

  unfoldable pub del_intf : RouteTable → ℕ → Option (RouteTable × Status)
  unfolding del_controlblock
  del_intf tbl intf_id = del_controlblock tbl intf_id (get_intf_controlblock intf_id)

  -- The flags that are compared: of the interface, if there is a mask and an interface.
  unfoldable pub intf_flags : RouteEntry → ℕ → ℕ → ℕ
  intf_flags rp req_flags flag_mask =
      if flag_mask == 0 then not32 req_flags else elim (lookup_intf rp.intf_id) [
        | none ↦ not32 req_flags
        | some ifp ↦ ifp.current_state_flags
      ]

  unfoldable pub route_usable : RouteEntry → ℕ → ℕ → Bool
  route_usable rp req_flags flag_mask =
      bit_and (intf_flags rp req_flags flag_mask) flag_mask == req_flags

  -- The loop over the entries from one position on.
  unfoldable pub next_intf_from : List RouteEntry → ℕ → ℕ → ℕ → ℕ
  next_intf_from [] dest req_flags flag_mask = bp_invalid_handle
  next_intf_from (rp ∷ rest) dest req_flags flag_mask =
      let next = next_intf_from rest dest req_flags flag_mask in
      if route_matches rp dest && route_usable rp req_flags flag_mask then rp.intf_id else next

  unfoldable pub get_next_intf_with_flags : RouteTable → ℕ → ℕ → ℕ → ℕ
  unfolding next_intf_from route_matches route_usable
  get_next_intf_with_flags tbl dest req_flags flag_mask =
      next_intf_from tbl.route_tbl dest req_flags flag_mask

  unfoldable pub get_next_avail_intf : RouteTable → ℕ → ℕ
  get_next_avail_intf tbl dest =
      let available = bit_or flag_oper_up flag_admin_up in
      get_next_intf_with_flags tbl dest available available
