-- ===== src/Mpool/Pool.antt =====
-- mpool/src/v7_mpool.c, mpool/inc/v7_mpool.h and inc/bplib_api_types.h: handles, the blocks that
-- they name, and references from block to block. A block is named by its serial number, which is its
-- position after the admin block (serial 0) in the pool's memory.
pub mod Handle
use bplib.Common.{
  ℕ, zero, suc, ◌+◌, Bool, true, false, not, Option, none, some, ◌==◌, ltb, u32, sub32,
  if◌then◌else◌,
}
use bplib.Mpool.Flow.{Flow}

-- The content of a block by its type. Only flows and references matter here; `unlisted` stands for
-- admin blocks and for blocks that are no content (free ones).
pub data Block (A : Type 0) : Type 0 where
  flow : Flow A → Block A
  ref : ℕ → Block A
  content : Block A
  unlisted : Block A

pub record Pool (A : Type 0) : Type 0 where
  pub num_bufs_total : ℕ  -- uint32_t, without the admin block
  pub block : ℕ → Block A

-- `BPLIB_HANDLE_MPOOL_BASE` and `BP_INVALID_HANDLE`.
abbrev pub handle_mpool_base : ℕ
handle_mpool_base = 0x6000000

abbrev pub bp_invalid_handle : ℕ
bp_invalid_handle = 0

abbrev pub bp_handle_is_valid : ℕ → Bool
bp_handle_is_valid h = not (h == 0)

abbrev pub bp_handle_equal : ℕ → ℕ → Bool
bp_handle_equal h1 h2 = h1 == h2

abbrev pub bp_handle_to_serial : ℕ → ℕ → ℕ
bp_handle_to_serial h base = sub32 h base

abbrev pub bp_handle_from_serial : ℕ → ℕ → ℕ
bp_handle_from_serial hv base = u32 (hv + base)

-- `bplib_mpool_get_external_id` of a content block, whose `parent_offset` is its serial number.
unfoldable pub get_external_id : ℕ → ℕ
get_external_id serial = bp_handle_from_serial serial handle_mpool_base

module _ {A : Type 0} where
  -- The comparison is of unsigned numbers, since `num_bufs_total` is one.
  unfoldable pub block_from_external_id : Pool A → ℕ → Option ℕ
  block_from_external_id pool handle =
      let serial = bp_handle_to_serial handle handle_mpool_base in
      if ltb serial pool.num_bufs_total then some serial else none

  -- `bplib_mpool_block_dereference_content`: along references to the block itself. The fuel bounds
  -- the length of the chain; a reference to a block that is no content fails an assertion.
  unfoldable pub dereference_content : Pool A → ℕ → ℕ → Option ℕ
  dereference_content pool zero serial = none
  dereference_content pool (suc fuel) serial = elim (pool.block serial) [
    | ref target ↦ dereference_content pool fuel target
    | unlisted ↦ none
    | _ ↦ some serial
  ]

  -- A chain of references has at most as many blocks as the pool has, and the admin block.
  unfoldable pub flow_cast : Pool A → Option ℕ → Option (Flow A)
  unfolding dereference_content
  flow_cast pool none = none
  flow_cast pool (some serial) = elim (dereference_content pool (suc pool.num_bufs_total) serial) [
    | none ↦ none
    | some target ↦ elim (pool.block target) [ flow f ↦ some f | _ ↦ none ]
  ]
