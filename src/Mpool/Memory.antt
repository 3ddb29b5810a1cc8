-- ===== src/Mpool/Memory.antt =====
-- mpool/src/v7_mpool.c: the memory of the pool, that is the free blocks, the recycled ones, and how
-- blocks go from one to the other. A block is named by its serial number.
-- The assertions of the code are left out: a block that is collected has no references.
pub mod Alloc
pub mod Release
pub mod Round
pub mod Collect
pub mod Registry
pub mod Create
mod Tests
use bplib.Common.{
  ℕ, zero, suc, ◌+◌, ◌-◌, ◌*◌, ◌/◌, Bool, true, false, ◌&&◌, ◌||◌, Option, none, some, List, [],
  ◌∷◌, ◌++◌, ltb, leb, ◌==◌, u16, u32, sub32, ◌>>=◌, if◌then◌else◌,
}
use bplib.Mpool.Subq.{Subq, subq_init, get_depth, push_single, pull_single, merge_list, move_all}

-- The types of whole blocks, and from `secondary_generic` on those of parts of a block and of the
-- admin block, whose numbers are not below `bplib_mpool_blocktype_max`.
pub data BlockType : Type 0 where
  undefined api generic primary canonical flow ref : BlockType
  secondary_generic list_head job admin : BlockType

-- Whether a type is undefined or not below `bplib_mpool_blocktype_max`.
abbrev pub is_refused_type : BlockType → Bool
is_refused_type undefined = true
is_refused_type secondary_generic = true
is_refused_type list_head = true
is_refused_type job = true
is_refused_type admin = true
is_refused_type _ = false

-- What the pool itself keeps in a block: the lists and queues of its content, and the target of a
-- reference.
pub record MemBlock : Type 0 where
  pub type : BlockType
  pub content_type_signature : ℕ  -- uint32_t
  pub user_content_length : ℕ  -- uint16_t
  pub refcount : ℕ  -- uint16_t
  pub cblock_list : List ℕ
  pub chunk_list : List ℕ
  pub ingress : Subq ℕ
  pub egress : Subq ℕ
  pub pref_target : Option ℕ

pub record Memory : Type 0 where
  pub num_bufs_total : ℕ  -- uint32_t
  pub bblock_alloc_threshold : ℕ  -- uint32_t
  pub max_alloc_watermark : ℕ  -- uint32_t
  pub free_blocks : Subq ℕ
  pub recycle_blocks : Subq ℕ
  pub block : ℕ → MemBlock

-- An entry of the registry. The constructor works on the new block only; its status is not looked at
-- but for a message. NULL is a function that changes nothing.
pub record BlockApi : Type 0 where
  pub user_content_size : ℕ
  pub construct : MemBlock → MemBlock
  pub destruct : ℕ → Memory → Memory

-- The sizes that the compiler gives to the content of the blocks.
pub record Layout : Type 0 where
  pub buffer_size : ℕ  -- `sizeof(bplib_mpool_block_buffer_t)`
  pub user_data_offset : BlockType → ℕ  -- `bplib_mpool_get_user_data_offset_by_blocktype`

abbrev pub set_block : ℕ → MemBlock → Memory → Memory
set_block id b pool = record pool { block = λ i. if i == id then b else pool.block i }

-- The part of the threshold that a priority may use.
unfoldable pub alloc_threshold : ℕ → ℕ → ℕ
alloc_threshold threshold priority = u32 (threshold * priority) / 255

-- Zeroed, with a type, a signature and a length, and with the lists of its type empty.
abbrev pub initialized : BlockType → ℕ → ℕ → MemBlock → MemBlock
initialized blocktype signature size b = record b {
  type = blocktype;
  content_type_signature = signature;
  user_content_length = u16 size;
  cblock_list = [];
  chunk_list = [];
  ingress = subq_init;
  egress = subq_init;
  pref_target = none;
}

abbrev pub content_fits : Layout → BlockType → ℕ → Bool
content_fits layout blocktype size =
    leb (layout.user_data_offset blocktype) layout.buffer_size
    && leb (layout.user_data_offset blocktype + size) layout.buffer_size

-- The end of `bplib_mpool_alloc_block_internal`, with the block that was pulled.
unfoldable pub take_block : BlockType → ℕ → BlockApi → ℕ → Memory → ℕ → Memory
take_block blocktype signature entry block_count pool id =
    let used = u32 (1 + sub32 pool.num_bufs_total block_count) in
    set_block id
      (entry.construct (initialized blocktype signature entry.user_content_size (pool.block id)))
      (record pool {
        max_alloc_watermark =
            if ltb pool.max_alloc_watermark used then used else pool.max_alloc_watermark;
      })

pulled_block : BlockType → ℕ → BlockApi → ℕ → Memory → Subq ℕ × Option ℕ → Memory × Option ℕ
unfolding take_block
pulled_block blocktype signature entry block_count pool (free, none) =
    (record pool { free_blocks = free }, none)
pulled_block blocktype signature entry block_count pool (free, some id) = (
  take_block blocktype signature entry block_count (record pool { free_blocks = free }) id,
  some id,
)

-- `registry` is `bplib_rbt_search_unique` in `blocktype_registry`.
module _ (layout : Layout) (registry : ℕ → Option BlockApi) where
  checked_block : BlockType → ℕ → ℕ → Memory → Option BlockApi → Memory × Option ℕ
  unfolding pulled_block
  checked_block blocktype signature block_count pool none = (pool, none)
  checked_block blocktype signature block_count pool (some entry) =
      if content_fits layout blocktype entry.user_content_size
      then pulled_block blocktype signature entry block_count pool (pull_single pool.free_blocks)
      else (pool, none)

  -- `bplib_mpool_alloc_block_internal`: the pool and the block.
  unfoldable pub alloc_block_internal : BlockType → ℕ → ℕ → Memory → Memory × Option ℕ
  unfolding checked_block get_depth alloc_threshold
  alloc_block_internal blocktype signature priority pool =
      let threshold = alloc_threshold pool.bblock_alloc_threshold priority in
      let block_count = get_depth pool.free_blocks in
      if is_refused_type blocktype || leb block_count (sub32 pool.bblock_alloc_threshold threshold)
      then (pool, none)
      else checked_block blocktype signature block_count pool (registry signature)

-- `bplib_mpool_recycle_block_internal` of a block that is in no list.
unfoldable pub recycle_block_internal : ℕ → Memory → Memory
unfolding push_single
recycle_block_internal id pool = record pool { recycle_blocks = push_single pool.recycle_blocks id }

-- `bplib_mpool_ref_release`.
unfoldable pub ref_release : Option ℕ → Memory → Memory
unfolding recycle_block_internal
ref_release none pool = pool
ref_release (some id) pool =
    let b = pool.block id in
    let released = set_block id (record b { refcount = b.refcount - 1 }) pool in
    if leb b.refcount 1 then recycle_block_internal id released else released

-- The content of a block is de-initialized by its type.
unfoldable pub release_content : BlockType → ℕ → Memory → Memory
unfolding merge_list move_all ref_release
release_content canonical id pool =
    let b = pool.block id in
    set_block id (record b { chunk_list = [] })
      (record pool { recycle_blocks = (merge_list pool.recycle_blocks b.chunk_list).0 })
release_content primary id pool =
    let b = pool.block id in
    let first = (merge_list pool.recycle_blocks b.cblock_list).0 in
    set_block id (record b { cblock_list = []; chunk_list = [] })
      (record pool { recycle_blocks = (merge_list first b.chunk_list).0 })
release_content flow id pool =
    let b = pool.block id in
    let ingress = move_all pool.recycle_blocks b.ingress in
    let egress = move_all ingress.0 b.egress in
    set_block id (record b { ingress = ingress.1; egress = egress.1 })
      (record pool { recycle_blocks = egress.0 })
release_content ref id pool =
    let released = ref_release (pool.block id).pref_target pool in
    set_block id (record (released.block id) { pref_target = none }) released
release_content _ id pool = pool

module _ (registry : ℕ → Option BlockApi) where
  -- One round of `bplib_mpool_collect_blocks`, with the block that was pulled: its destructor, if it
  -- is registered, the lists of its content, and its way to the free blocks.
  unfoldable pub collect_block : ℕ → Memory → Memory
  unfolding release_content push_single
  collect_block id pool =
      let destructed : Memory = elim (registry (pool.block id).content_type_signature) [
        | none ↦ pool
        | some entry ↦ entry.destruct id pool
      ] in
      let released = release_content (destructed.block id).type id destructed in
      set_block id
        (record (released.block id) {
          type = undefined;
          user_content_length = 0;
          content_type_signature = 0;
        })
        (record released { free_blocks = push_single released.free_blocks id })

  -- The pool and the number of blocks collected.
  unfoldable pub collect_blocks : ℕ → Memory → Memory × ℕ
  unfolding collect_block
  collect_blocks zero pool = (pool, 0)
  collect_blocks (suc limit) pool =
      let pulled = pull_single pool.recycle_blocks in
      elim pulled.1 [
        | none ↦ (pool, 0)
        | some id ↦
            let rest =
              collect_blocks limit (collect_block id (record pool { recycle_blocks = pulled.0 })) in
            (rest.0, suc rest.1)
      ]

  -- `BPLIB_MPOOL_MAINTENCE_COLLECT_LIMIT` is 20.
  unfoldable pub maintain : Memory → Memory
  unfolding collect_blocks get_depth
  maintain pool = if get_depth pool.recycle_blocks == 0 then pool else (collect_blocks 20 pool).0
