-- ===== src/Mpool/Memory/Create/Fresh.antt =====
-- mpool/src/v7_mpool.c: a fresh pool is well formed, and all its blocks are free.
use native.Mathlib.Nat.{mul-le-mul_left}
use mathlib.Core.List.{append-nil, append_assoc}
use mathlib.Core.Path.{subst}
use bplib.Common.{
  ℕ, zero, suc, ◌+◌, ◌-◌, ◌*◌, ◌≤◌, ◌<◌, ◌^◌, ◌≡◌, ◌≢◌, refl, sym, ap, ◌∙◌, Option, none, some,
  List, [], ◌∷◌, ◌++◌, length, length-append, arith, ltb, leb, ◌==◌, u32, inl, inr, Bool-cases,
  if◌then◌else◌, true, false,
}
use bplib.Rbtree.Order.{inorder}
use bplib.Rbtree.Keys.{IsSorted, find}
use bplib.Rbtree.Search.{search_from-find}
use bplib.Rbtree.{insert_value_generic, stored_key, Link, no_compare, search_generic}
use bplib.Mpool.Subq.{Subq, subq_init, push_single}
use bplib.Mpool.Subq.Depth.{IsCounted, push_single-IsCounted, subq_init-IsCounted}
use bplib.Mpool.Memory.Alloc.{IsMemory}
use bplib.Mpool.Memory.Registry.{TypedPool, find_api}
use bplib.Mpool.Memory.Registry.Register.{Unused, AllDifferent, IsRegistry, known}
use bplib.Mpool.Memory.Create.{chunk_loop, first_registry, create, cbor_data_signature}

-- The serial numbers of `count` blocks, from one on.
abbrev pub serials : ℕ → ℕ → List ℕ
serials next zero = []
serials next (suc count) = next ∷ serials (suc next) count

length-serials : (next count : ℕ) → length (serials next count) ≡ count
length-serials next zero = refl
length-serials next (suc count) = ap suc (length-serials (suc next) count)

serials-Unused : (number next count : ℕ) → number ≤ next → Unused number (serials next count)
serials-Unused number next zero h = tt
serials-Unused number next (suc count) h =
    (omega arith, serials-Unused number (suc next) count (omega arith))

serials-AllDifferent : (next count : ℕ) → AllDifferent (serials next count)
serials-AllDifferent next zero = tt
serials-AllDifferent next (suc count) = (
  serials-Unused (suc next) (suc next) count (omega arith),
  serials-AllDifferent (suc next) count,
)

-- The two links of a fresh registry are those of the admin block.
abbrev basic_link : Link
basic_link = record { key = 0; block = 0 }

abbrev cbor_link : Link
cbor_link = record { key = cbor_data_signature; block = 1 }

inorder-first_registry : inorder first_registry.root ≡ basic_link ∷ cbor_link ∷ []
unfolding first_registry insert_value_generic stored_key inorder
inorder-first_registry = refl

first_registry-IsSorted : IsSorted (inorder first_registry.root)
first_registry-IsSorted = subst IsSorted (sym inorder-first_registry) ((omega arith, tt), (tt, tt))

search_generic-first_registry :
    (key : ℕ)
    → search_generic key first_registry no_compare ≡ (
        if 0 == key
        then some basic_link
        else if cbor_data_signature == key
        then some cbor_link
        else none)
unfolding search_generic find
search_generic-first_registry key =
    search_from-find key first_registry.root first_registry-IsSorted
    ∙ ap (find key) inorder-first_registry

block_of : Option Link → ℕ
block_of none = 0
block_of (some link) = link.block

small_block :
    (key : ℕ)
    → block_of (
        if 0 == key
        then some basic_link
        else if cbor_data_signature == key
        then some cbor_link
        else none)
      ≤ 1
unfolding block_of
small_block key = elim (Bool-cases (0 == key)) [
  | inl b ↦ rw b (omega arith)
  | inr b ↦ elim (Bool-cases (cbor_data_signature == key)) [
    | inl c ↦ rw (b, c) (omega arith)
    | inr c ↦ rw (b, c) (omega arith)
  ]
]

first_registry-Unused :
    (key : ℕ) (link : Link) (count : ℕ)
    → search_generic key first_registry no_compare ≡ some link
    → Unused link.block (serials 1 count)
unfolding block_of
first_registry-Unused key link count e =
    let same : block_of (
          if 0 == key
          then some basic_link
          else if cbor_data_signature == key
          then some cbor_link
          else none)
        ≡ link.block =
      ap block_of (sym (search_generic-first_registry key) ∙ e) in
    serials-Unused link.block 1 count (omega (arith, same, small_block key))

module _ (content_size spare : ℕ) (smaller : spare < content_size) where
  chunk_loop_lem :
      (fuel count serial : ℕ) (free : Subq ℕ) (total : ℕ)
      → count ≤ fuel
      → IsCounted free
      → length free.block_list + count < 2 ^ 32
      → total + count < 2 ^ 32
      → let r = chunk_loop fuel content_size (count * content_size + spare) serial free total in
        (r.0.block_list ≡ free.block_list ++ serials serial count)
        × IsCounted r.0
        × (r.1 ≡ total + count)
  unfolding chunk_loop push_single
  chunk_loop_lem zero zero serial free total e c few t =
      (sym (append-nil free.block_list), c, omega arith)
  chunk_loop_lem zero (suc count) serial free total e c few t = absurd (omega arith)
  chunk_loop_lem (suc fuel) zero serial free total e c few t =
      let full : leb content_size (0 * content_size + spare) ≡ false = ground arith in
      rw full (sym (append-nil free.block_list), c, omega arith)
  chunk_loop_lem (suc fuel) (suc count) serial free total e c few t =
      let fits : leb content_size (suc count * content_size + spare) ≡ true = ground arith in
      let left : (suc count * content_size + spare) - content_size ≡ count * content_size + spare =
        omega arith in
      let rest =
        chunk_loop_lem fuel count (suc serial) (push_single free serial) (u32 (total + 1))
          (omega arith) (push_single-IsCounted free serial (omega arith) c)
          (omega (arith, length-append free.block_list (serial ∷ []))) (omega arith) in
      rw (fits, left)
        (
          rest.0 ∙ append_assoc free.block_list (serial ∷ []) (serials (suc serial) count),
          rest.1,
          omega (arith, rest.2),
        )

  -- A pool that was created with so many blocks.
  pub record IsFresh (count : ℕ) (pool : TypedPool) : Type 0 where
    pub free : pool.memory.free_blocks.block_list ≡ serials 1 count
    pub total : pool.memory.num_bufs_total ≡ count
    pub memory : IsMemory pool.memory
    pub registry : IsRegistry pool
    pub basic : find_api pool 0 ≢ none
    pub cbor : find_api pool cbor_data_signature ≢ none

  -- For blocks of `content_size` bytes and memory for the admin block, `count` more blocks, fewer than
  -- 2 ^ 24, and some spare bytes: `bplib_mpool_create` gives a pool of `count` blocks, all of them free
  -- and in the order of their serial numbers from 1 on, whose memory and whose registry are well
  -- formed, and which knows the type 0 and the one of CBOR data.
  pub create_lem :
      (count : ℕ)
      → count < 2 ^ 24
      → (pool : TypedPool) × (create content_size (suc count * content_size + spare) ≡ some pool)
        × IsFresh count pool
  unfolding create
  create_lem count few =
      let large : ltb (suc count * content_size + spare) content_size ≡ false = ground arith in
      let remain : (suc count * content_size + spare) - content_size
          ≡ count * content_size + spare =
        omega arith in
      let much : count * 1 ≤ count * content_size = mul-le-mul_left count (omega arith) in
      let (free, counted, total) =
        chunk_loop_lem (count * content_size + spare) count 1 subq_init 0 (omega (arith, much))
          subq_init-IsCounted (omega arith) (omega arith) in
      let l : length
            (chunk_loop (count * content_size + spare) content_size (count * content_size + spare) 1
              subq_init 0).0.block_list
          ≡ count =
        ap length free ∙ length-serials 1 count in
      rw (large, remain)
        (
          _,
          refl,
          record {
            free = free;
            total = omega (arith, total);
            memory = record {
              counted = counted;
              few = omega (arith, l, total);
              total_word = omega (arith, total);
              small = omega (arith, total);
            };
            registry = record {
              sorted = first_registry-IsSorted;
              unshared = λ key link e.
                  subst (Unused link.block) (sym free) (first_registry-Unused key link count e);
              distinct = subst AllDifferent (sym free) (serials-AllDifferent 1 count);
            };
            basic = known _ 0 basic_link (search_generic-first_registry 0);
            cbor =
                known _ cbor_data_signature cbor_link
                  (search_generic-first_registry cbor_data_signature);
          },
        )
