-- ===== src/Route/Table/Lookup.antt =====
-- lib/src/v7_routing.c: the lookup of the next interface finds the most specific usable route.
use mathlib.Core.List.{Memᴰ}
use native.Mathlib.Nat.{le_refl}
use bplib.Common.{
  ℕ, ◌≤◌, ◌<◌, ◌^◌, ◌≡◌, refl, sym, ◌∙◌, inl, inr, Bool, true, false, ◌&&◌, ◌==◌, ==_iff, none,
  some, List, [], ◌∷◌, All, bit_and, Bool-cases, Option-cases,
}
use bplib.Mpool.Flow.{Flow, flow_is_up}
use bplib.Mpool.Flow.Event.{flow_is_up_iff}
use bplib.Mpool.Pool.{Pool, flow, block_from_external_id, bp_invalid_handle}
use bplib.Mpool.Pool.Handle.{flow_cast-block}
use bplib.Route.Table.{
  RouteEntry, RouteTable, route_matches, route_usable, intf_flags, lookup_intf, next_intf_from,
  get_next_intf_with_flags, get_next_avail_intf,
}
use bplib.Route.Table.Order.{IsOrdered, IsValid}

All-mem {ℓ} :
    (P : RouteEntry → Type ℓ) {rp : RouteEntry} {routes : List RouteEntry}
    → All P routes
    → Memᴰ rp routes
    → P rp
All-mem P {routes = []} h m = elim m [ ]
All-mem P {routes = first ∷ rest} h (Memᴰ.head e) = rw e h.0
All-mem P {routes = first ∷ rest} h (Memᴰ.tail m) = All-mem P h.1 m

and_both : {a b : Bool} → (a && b) ≡ true → (a ≡ true) × (b ≡ true)
and_both {a = true} {b = true} e = (refl, refl)
and_both {a = true} {b = false} e = cc
and_both {a = false} {b = b} e = cc

module _ {A : Type 0} (pool : Pool A) (dest req_flags flag_mask : ℕ) where
  -- A route that leads to the destination over an interface with the flags.
  abbrev pub Fits : RouteEntry → Type 0
  Fits rp = (route_matches rp dest ≡ true) × (route_usable pool rp req_flags flag_mask ≡ true)

  next_intf_from-best :
      (routes : List RouteEntry) (rp : RouteEntry)
      → IsOrdered routes
      → Memᴰ rp routes
      → Fits rp
      → (best : RouteEntry) × Memᴰ best routes
        × Fits best
        × (next_intf_from pool routes dest req_flags flag_mask ≡ best.intf_id)
        × (rp.mask ≤ best.mask)
  unfolding next_intf_from
  next_intf_from-best [] rp o m f = elim m [ ]
  next_intf_from-best (first ∷ rest) rp o (Memᴰ.head e) f =
      let hit : Fits first = rw e at f in
      (first, Memᴰ.head refl, hit, rw (hit.0, hit.1), rw e (le_refl _))
  next_intf_from-best (first ∷ rest) rp o (Memᴰ.tail m) f =
      elim (Bool-cases (route_matches first dest && route_usable pool first req_flags flag_mask)) [
        | inl hit ↦ (
          first,
          Memᴰ.head refl,
          and_both hit,
          rw hit,
          All-mem (λ later. later.mask ≤ first.mask) o.0 m,
        )
        | inr miss ↦
            let (best, m', f', e', longer) = next_intf_from-best rest rp o.1 m f in
            (best, Memᴰ.tail m', f', rw miss e', longer)
      ]

  next_intf_from-none :
      (routes : List RouteEntry)
      → ((rp : RouteEntry) → Memᴰ rp routes → Fits rp → ⊥)
      → next_intf_from pool routes dest req_flags flag_mask ≡ bp_invalid_handle
  unfolding next_intf_from
  next_intf_from-none [] h = refl
  next_intf_from-none (first ∷ rest) h =
      elim (Bool-cases (route_matches first dest && route_usable pool first req_flags flag_mask)) [
        | inl hit ↦ absurd (h first (Memᴰ.head refl) (and_both hit))
        | inr miss ↦ rw miss (next_intf_from-none rest (λ rp m. h rp (Memᴰ.tail m)))
      ]

  -- Whenever some route of a valid table matches the destination over an interface with the required
  -- flags, the lookup returns the interface of such a route, and none of them has a longer mask. If
  -- there is no such route it returns the invalid handle.
  get_next_intf-best :
      (tbl : RouteTable)
      → IsValid tbl
      → ((rp : RouteEntry)
          → Memᴰ rp tbl.route_tbl
          → Fits rp
          → (best : RouteEntry) × Memᴰ best tbl.route_tbl
            × Fits best
            × (get_next_intf_with_flags pool tbl dest req_flags flag_mask ≡ best.intf_id)
            × (rp.mask ≤ best.mask))
        × (((rp : RouteEntry) → Memᴰ rp tbl.route_tbl → Fits rp → ⊥)
            → get_next_intf_with_flags pool tbl dest req_flags flag_mask ≡ bp_invalid_handle)
  unfolding get_next_intf_with_flags
  get_next_intf-best tbl v =
      (λ rp. next_intf_from-best tbl.route_tbl rp v.ordered, next_intf_from-none tbl.route_tbl)

module _ {A : Type 0} (pool : Pool A) where
  usable-none :
      (rp : RouteEntry) → lookup_intf pool rp.intf_id ≡ none → route_usable pool rp 3 3 ≡ false
  unfolding route_usable intf_flags
  usable-none rp missing = rw missing

  usable-some :
      (rp : RouteEntry) {f : Flow A}
      → lookup_intf pool rp.intf_id ≡ some f
      → route_usable pool rp 3 3 ≡ (bit_and f.current_state_flags 3 == 3)
  unfolding route_usable intf_flags
  usable-some rp found = rw found

  -- The interface exists and is up.
  abbrev pub IsUp : ℕ → Type 0
  IsUp intf_id = (f : Flow A) × (lookup_intf pool intf_id ≡ some f) × (flow_is_up f ≡ true)

  -- The flags of every flow of the pool are 32-bit words.
  abbrev pub FlagWords : Type 0
  FlagWords =
      (serial : ℕ) (f : Flow A) → pool.block serial ≡ flow f → f.current_state_flags < 2 ^ 32

  flags-bound :
      (intf_id : ℕ) (f : Flow A)
      → FlagWords
      → lookup_intf pool intf_id ≡ some f
      → f.current_state_flags < 2 ^ 32
  unfolding lookup_intf
  flags-bound intf_id f words found =
      let (serial, e) = flow_cast-block pool (block_from_external_id pool intf_id) found in
      words serial f e

  usable-IsUp : (rp : RouteEntry) → FlagWords → route_usable pool rp 3 3 ≡ true → IsUp rp.intf_id
  usable-IsUp rp words usable = elim (Option-cases (lookup_intf pool rp.intf_id)) [
    | inl missing ↦ absurd (true_not_false (sym usable ∙ usable-none rp missing))
    | inr (f, found) ↦
        let set =
          (==_iff (bit_and f.current_state_flags 3) 3).0 (sym (usable-some rp found) ∙ usable) in
        (f, found, (flow_is_up_iff f (flags-bound rp.intf_id f words found)).1 set)
  ]
    where
      true_not_false : true ≡ false → ⊥
      true_not_false e = cc

  IsUp-usable : (rp : RouteEntry) → FlagWords → IsUp rp.intf_id → route_usable pool rp 3 3 ≡ true
  IsUp-usable rp words (f, found, up) =
      usable-some rp found
      ∙ (==_iff (bit_and f.current_state_flags 3) 3).1
          ((flow_is_up_iff f (flags-bound rp.intf_id f words found)).0 up)

  -- A destination to which a valid table has a matching route over an interface that is up gets the
  -- interface of such a route, whose mask is at least as long as that of any other. A destination
  -- without gets the invalid handle.
  pub get_next_avail_intf_lem :
      (tbl : RouteTable) (dest : ℕ)
      → IsValid tbl
      → FlagWords
      → ((rp : RouteEntry)
          → Memᴰ rp tbl.route_tbl
          → route_matches rp dest ≡ true
          → IsUp rp.intf_id
          → (best : RouteEntry) × Memᴰ best tbl.route_tbl
            × (route_matches best dest ≡ true)
            × IsUp best.intf_id
            × (get_next_avail_intf pool tbl dest ≡ best.intf_id)
            × (rp.mask ≤ best.mask))
        × (((rp : RouteEntry)
              → Memᴰ rp tbl.route_tbl
              → route_matches rp dest ≡ true
              → IsUp rp.intf_id
              → ⊥)
            → get_next_avail_intf pool tbl dest ≡ bp_invalid_handle)
  unfolding get_next_avail_intf
  get_next_avail_intf_lem tbl dest v words =
      let lookup = get_next_intf-best pool dest 3 3 tbl v in
      (
        λ rp m matches up.
            let (best, m', f, e, longer) = lookup.0 rp m (matches, IsUp-usable rp words up) in
            (best, m', f.0, usable-IsUp best words f.1, e, longer),
        λ hopeless. lookup.1 (λ rp m f. hopeless rp m f.0 (usable-IsUp rp words f.1)),
      )
