-- ===== src/Route/Table/Interface.antt =====
-- lib/src/v7_routing.c: what the deletion of an interface, `bplib_route_del_intf`, does to the route table.
use bplib.Common.{ℕ, suc, true, false, ◌==◌, List, [], ◌∷◌}
use bplib.Route.Table.{RouteEntry}
use bplib.Mpool.Flow.{Flow}
use bplib.Mpool.Pool.{Pool}

-- The number of routes to an interface.
abbrev pub routes_to : ℕ → List RouteEntry → ℕ
routes_to intf_id [] = 0
routes_to intf_id (rp ∷ rest) =
    let more = routes_to intf_id rest in
    elim (rp.intf_id == intf_id) [ true ↦ suc more | false ↦ more ]
