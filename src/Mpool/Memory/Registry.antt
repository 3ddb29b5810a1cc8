-- ===== src/Mpool/Memory/Registry.antt =====
-- mpool/src/v7_mpool.c: the registry of block types, a red-black tree whose links stand in blocks of the
-- pool.
pub mod Register
use bplib.Common.{ℕ, suc, false, Option, none, some, ◌==◌, if◌then◌else◌}
use bplib.Rbtree.{
  Link, Root, no_compare, Status, bp_success, bp_duplicate, bp_error, search_generic,
  insert_value_generic,
}
use bplib.Mpool.Memory.{api, Memory, BlockApi, Layout, alloc_block_internal, recycle_block_internal}

-- `apis` is the content of the api blocks by the number that the links carry: 0 for
-- `blocktype_basic`, 1 for `blocktype_cbor`, which are both part of the admin block, and one more than
-- the serial number for all others.
pub record TypedPool : Type 0 where
  pub memory : Memory
  pub blocktype_registry : Root
  pub apis : ℕ → BlockApi

unfoldable pub find_api : TypedPool → ℕ → Option BlockApi
unfolding search_generic
find_api pool signature = elim (search_generic signature pool.blocktype_registry no_compare) [
  | none ↦ none
  | some link ↦ some (pool.apis link.block)
]

abbrev pub set_api : ℕ → BlockApi → TypedPool → TypedPool
set_api number entry pool = record pool { apis = λ i. if i == number then entry else pool.apis i }

-- The end of `bplib_mpool_register_blocktype_internal`, with the block for the entry.
insert_api : ℕ → BlockApi → ℕ → TypedPool → TypedPool × Status
unfolding insert_value_generic recycle_block_internal
insert_api magic_number entry id pool =
    let i = insert_value_generic magic_number pool.blocktype_registry false (suc id) no_compare in
    let inserted = set_api (suc id) entry (record pool { blocktype_registry = i.tree }) in
    elim i.status [
      | bp_success ↦ (inserted, bp_success)
      | status ↦ (record inserted { memory = recycle_block_internal id inserted.memory }, status)
    ]

register_allocated : ℕ → BlockApi → TypedPool → Memory × Option ℕ → TypedPool × Status
unfolding insert_api
register_allocated magic_number entry pool (memory, none) =
    (record pool { memory = memory }, bp_error)
register_allocated magic_number entry pool (memory, some id) =
    insert_api magic_number entry id (record pool { memory = memory })

-- `bplib_mpool_register_blocktype_internal`. `BPLIB_MPOOL_ALLOC_PRI_LO` is 0.
unfoldable pub register_blocktype_internal : Layout → ℕ → BlockApi → TypedPool → TypedPool × Status
unfolding search_generic register_allocated find_api alloc_block_internal
register_blocktype_internal layout magic_number entry pool =
    elim (search_generic magic_number pool.blocktype_registry no_compare) [
      | some link ↦ (pool, bp_duplicate)
      | none ↦
          register_allocated magic_number entry pool
            (alloc_block_internal layout (find_api pool) api 0 0 pool.memory)
    ]
