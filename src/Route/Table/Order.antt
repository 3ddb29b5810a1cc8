-- ===== src/Route/Table/Order.antt =====
-- lib/src/v7_routing.c: adding and deleting keeps the routes from the most to the least specific mask.
use bplib.Common.{
  ℕ, zero, suc, ◌+◌, ◌≤◌, ◌<◌, ◌≡◌, refl, sym, ap, ◌∙◌, ◌⊎◌, inl, inr, Bool, true, false, ◌==◌,
  ==_iff, none, some, List, [], ◌∷◌, length, All, arith, bit_and, Bool-cases, Option-cases,
  if◌then◌else◌,
}
use bplib.Route.Table.{
  RouteEntry, RouteTable, registered_routes, same_route, find_insert_pos, insert_at, remove_first,
}
use bplib.Route.Table.Masks.{IsPrefixMask, contains_iff}

-- No entry behind another has a longer mask.
abbrev pub IsOrdered : List RouteEntry → Type 0
IsOrdered [] = Unit
IsOrdered (rp ∷ rest) = All (λ later. later.mask ≤ rp.mask) rest × IsOrdered rest

-- No entry is there twice.
abbrev pub IsDistinct : List RouteEntry → Type 0
IsDistinct [] = Unit
IsDistinct (rp ∷ rest) = All (λ later. same_route later rp ≡ false) rest × IsDistinct rest

pub record IsValid (tbl : RouteTable) : Type 0 where
  pub within : registered_routes tbl ≤ tbl.max_routes
  pub prefixes : All (λ rp. IsPrefixMask rp.mask) tbl.route_tbl
  pub ordered : IsOrdered tbl.route_tbl
  pub distinct : IsDistinct tbl.route_tbl

-- The number of entries whose mask contains the mask of a route.
pub count_above : RouteEntry → List RouteEntry → ℕ
count_above r [] = 0
count_above r (rp ∷ rest) =
    let more = count_above r rest in
    elim (bit_and rp.mask r.mask == r.mask) [ true ↦ suc more | false ↦ more ]

-- One step of the count.
count_above-cons :
    (r rp : RouteEntry) (rest : List RouteEntry)
    → ((bit_and rp.mask r.mask == r.mask) ≡ true
        → count_above r (rp ∷ rest) ≡ suc (count_above r rest))
      × ((bit_and rp.mask r.mask == r.mask) ≡ false
          → count_above r (rp ∷ rest) ≡ count_above r rest)
unfolding count_above
count_above-cons r rp rest = (λ h. rw (h, count_above), λ h. rw (h, count_above))

pub find_insert_pos-new :
    (r : RouteEntry) (pos : ℕ) (routes : List RouteEntry)
    → All (λ rp. same_route rp r ≡ false) routes
    → find_insert_pos r pos routes ≡ some (pos + count_above r routes)
unfolding find_insert_pos
find_insert_pos-new r pos [] h = ap some (unfold count_above in omega arith)
find_insert_pos-new r pos (rp ∷ rest) h = elim (Bool-cases (bit_and rp.mask r.mask == r.mask)) [
  | inl above ↦
      rw (h.0, above)
        (find_insert_pos-new r (pos + 1) rest h.1
          ∙ ap some (omega (arith, (count_above-cons r rp rest).0 above)))
  | inr below ↦
      rw (h.0, below)
        (find_insert_pos-new r pos rest h.1
          ∙ ap some (omega (arith, (count_above-cons r rp rest).1 below)))
]

pub find_insert_pos-some :
    (r : RouteEntry) (pos : ℕ) (routes : List RouteEntry) {p : ℕ}
    → find_insert_pos r pos routes ≡ some p
    → All (λ rp. same_route rp r ≡ false) routes
unfolding find_insert_pos
find_insert_pos-some r pos [] e = tt
find_insert_pos-some r pos (rp ∷ rest) e = elim (Bool-cases (same_route rp r)) [
  | inl same ↦ absurd (none_not_some (rw (same, find_insert_pos) at e))
  | inr other ↦ (
    other,
    find_insert_pos-some r (if bit_and rp.mask r.mask == r.mask then pos + 1 else pos) rest
        (rw (other, find_insert_pos) at e),
  )
]
  where
    none_not_some : {p : ℕ} → none ≡ some p → ⊥
    none_not_some e = cc

abbrev pub Removed : (RouteEntry → Bool) → RouteEntry → List RouteEntry → List RouteEntry → Type 0
Removed test rp rest left =
    ((test rp ≡ true) × (left ≡ rest))
    ⊎ ((tail : List RouteEntry) × (test rp ≡ false)
        × (remove_first test rest ≡ some tail)
        × (left ≡ rp ∷ tail))

some_inj : {l m : List RouteEntry} → some l ≡ some m → m ≡ l
some_inj e = cc

none_not_some : {l : List RouteEntry} → none ≡ some l → ⊥
none_not_some e = cc

pub remove_first-cons :
    (test : RouteEntry → Bool) (rp : RouteEntry) (rest : List RouteEntry) {left : List RouteEntry}
    → remove_first test (rp ∷ rest) ≡ some left
    → Removed test rp rest left
unfolding remove_first
remove_first-cons test rp rest e = elim (Bool-cases (test rp)) [
  | inl hit ↦ inl (hit, some_inj (rw hit at e))
  | inr miss ↦ elim (Option-cases (remove_first test rest)) [
    | inl missing ↦ absurd (none_not_some (rw (miss, missing) at e))
    | inr (tail, found) ↦ inr (tail, miss, found, some_inj (rw (miss, found) at e))
  ]
]

module _ {ℓ} (P : RouteEntry → Type ℓ) where
  pub All-insert_at :
      (pos : ℕ) (r : RouteEntry) (routes : List RouteEntry)
      → P r
      → All P routes
      → All P (insert_at pos r routes)
  unfolding insert_at
  All-insert_at zero r routes p h = (p, h)
  All-insert_at (suc pos) r [] p h = (p, h)
  All-insert_at (suc pos) r (rp ∷ rest) p h = (h.0, All-insert_at pos r rest p h.1)

  pub All-map {κ} :
      (Q : RouteEntry → Type κ) (routes : List RouteEntry)
      → ((rp : RouteEntry) → P rp → Q rp)
      → All P routes
      → All Q routes
  All-map Q [] f h = tt
  All-map Q (rp ∷ rest) f h = (f rp h.0, All-map Q rest f h.1)

  pub All-remove_first :
      (test : RouteEntry → Bool) (routes : List RouteEntry) {left : List RouteEntry}
      → remove_first test routes ≡ some left
      → All P routes
      → All P left
  unfolding remove_first
  All-remove_first test [] e h = cc
  All-remove_first test (rp ∷ rest) e h = elim (remove_first-cons test rp rest e) [
    | inl (hit, same) ↦ rw same h.1
    | inr (tail, miss, found, same) ↦ rw same (h.0, All-remove_first test rest found h.1)
  ]

count_above-none :
    (r : RouteEntry) (routes : List RouteEntry)
    → IsPrefixMask r.mask
    → All (λ rp. IsPrefixMask rp.mask) routes
    → All (λ rp. rp.mask < r.mask) routes
    → count_above r routes ≡ 0
unfolding count_above
count_above-none r [] p ps h = refl
count_above-none r (rp ∷ rest) p ps h =
    ground (arith, count_above-none r rest p ps.1 h.1, (contains_iff rp.mask r.mask ps.0 p).0)

pub insert_at-IsOrdered :
    (r : RouteEntry) (routes : List RouteEntry)
    → IsPrefixMask r.mask
    → All (λ rp. IsPrefixMask rp.mask) routes
    → IsOrdered routes
    → IsOrdered (insert_at (count_above r routes) r routes)
unfolding insert_at
insert_at-IsOrdered r [] p ps h = unfold count_above in (tt, tt)
insert_at-IsOrdered r (rp ∷ rest) p ps h = elim (Bool-cases (bit_and rp.mask r.mask == r.mask)) [
  | inl above ↦ rw ((count_above-cons r rp rest).0 above) (
    All-insert_at (λ later. later.mask ≤ rp.mask) (count_above r rest) r rest
        ((contains_iff rp.mask r.mask ps.0 p).0 ((==_iff _ r.mask).0 above)) h.0,
    insert_at-IsOrdered r rest p ps.1 h.1,
  )
  | inr below ↦
      let shorter : rp.mask < r.mask = ground (arith, (contains_iff rp.mask r.mask ps.0 p).1) in
      let rest_shorter =
        All-map (λ later. later.mask ≤ rp.mask) (λ later. later.mask < r.mask) rest
          (λ later q. omega arith) h.0 in
      let none_above = count_above-none r rest p ps.1 rest_shorter in
      rw ((count_above-cons r rp rest).1 below, none_above)
        (
          (
            omega (arith, shorter),
            All-map (λ later. later.mask < r.mask) (λ later. later.mask ≤ r.mask) rest
                (λ later q. omega arith) rest_shorter,
          ),
          h,
        )
]

pub remove_first-IsOrdered :
    (test : RouteEntry → Bool) (routes : List RouteEntry) {left : List RouteEntry}
    → remove_first test routes ≡ some left
    → IsOrdered routes
    → IsOrdered left
unfolding remove_first
remove_first-IsOrdered test [] e h = cc
remove_first-IsOrdered test (rp ∷ rest) e h = elim (remove_first-cons test rp rest e) [
  | inl (hit, same) ↦ rw same h.1
  | inr (tail, miss, found, same) ↦ rw same (
    All-remove_first (λ later. later.mask ≤ rp.mask) test rest found h.0,
    remove_first-IsOrdered test rest found h.1,
  )
]

pub remove_first-IsDistinct :
    (test : RouteEntry → Bool) (routes : List RouteEntry) {left : List RouteEntry}
    → remove_first test routes ≡ some left
    → IsDistinct routes
    → IsDistinct left
unfolding remove_first
remove_first-IsDistinct test [] e h = cc
remove_first-IsDistinct test (rp ∷ rest) e h = elim (remove_first-cons test rp rest e) [
  | inl (hit, same) ↦ rw same h.1
  | inr (tail, miss, found, same) ↦ rw same (
    All-remove_first (λ later. same_route later rp ≡ false) test rest found h.0,
    remove_first-IsDistinct test rest found h.1,
  )
]

pub length-remove_first :
    (test : RouteEntry → Bool) (routes : List RouteEntry) {left : List RouteEntry}
    → remove_first test routes ≡ some left
    → length routes ≡ suc (length left)
unfolding remove_first
length-remove_first test [] e = cc
length-remove_first test (rp ∷ rest) e = elim (remove_first-cons test rp rest e) [
  | inl (hit, same) ↦ ap suc (ap length (sym same))
  | inr (tail, miss, found, same) ↦
      ap suc (length-remove_first test rest found) ∙ ap suc (ap length (sym same))
]

pub length-insert_at :
    (pos : ℕ) (r : RouteEntry) (routes : List RouteEntry)
    → length (insert_at pos r routes) ≡ suc (length routes)
unfolding insert_at
length-insert_at zero r routes = refl
length-insert_at (suc pos) r [] = refl
length-insert_at (suc pos) r (rp ∷ rest) = ap suc (length-insert_at pos r rest)

same_route_sym : (a b : RouteEntry) → same_route a b ≡ false → same_route b a ≡ false
unfolding same_route
same_route_sym a b h = ground arith

pub insert_at-IsDistinct :
    (pos : ℕ) (r : RouteEntry) (routes : List RouteEntry)
    → All (λ rp. same_route rp r ≡ false) routes
    → IsDistinct routes
    → IsDistinct (insert_at pos r routes)
unfolding insert_at
insert_at-IsDistinct zero r routes n h = (n, h)
insert_at-IsDistinct (suc pos) r [] n h = (tt, tt)
insert_at-IsDistinct (suc pos) r (rp ∷ rest) n h = (
  All-insert_at (λ later. same_route later rp ≡ false) pos r rest (same_route_sym rp r n.0) h.0,
  insert_at-IsDistinct pos r rest n.1 h.1,
)

pub same_route_self : (r : RouteEntry) → same_route r r ≡ true
unfolding same_route
same_route_self r = ground arith

pub count_above-le :
    (r : RouteEntry) (routes : List RouteEntry) → count_above r routes ≤ length routes
unfolding count_above
count_above-le r [] = omega arith
count_above-le r (rp ∷ rest) = ground (arith, count_above-le r rest)
