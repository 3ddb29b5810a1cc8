-- ===== src/Mpool/Memory/Create.antt =====
-- mpool/src/v7_mpool.c: the creation of a pool in some memory.
pub mod Fresh
use bplib.Common.{
  ℕ, zero, suc, ◌+◌, ◌-◌, ◌*◌, ◌/◌, Bool, false, Option, none, some, List, [], ◌∷◌, ltb, leb, u32,
  if◌then◌else◌,
}
use bplib.Rbtree.{Root, Inserted, init_root, no_compare, insert_value_generic}
use bplib.Mpool.Subq.{Subq, subq_init, push_single}
use bplib.Mpool.Memory.{undefined, MemBlock, Memory, BlockApi}
use bplib.Mpool.Memory.Registry.{TypedPool}

-- Zeroed memory.
abbrev pub zero_block : MemBlock
zero_block = record {
  type = undefined;
  content_type_signature = 0;
  user_content_length = 0;
  refcount = 0;
  cblock_list = [];
  chunk_list = [];
  ingress = subq_init;
  egress = subq_init;
  pref_target = none;
}

abbrev pub zero_api : BlockApi
zero_api = record { user_content_size = 0; construct = λ b. b; destruct = λ id pool. pool }

-- The loop over the chunks, on fuel: `remain` bytes are left, and the next chunk has the serial number
-- `serial`. The free blocks, and the number of blocks.
unfoldable pub chunk_loop : ℕ → ℕ → ℕ → ℕ → Subq ℕ → ℕ → Subq ℕ × ℕ
unfolding push_single
chunk_loop zero content_size remain serial free_blocks num_bufs_total =
    (free_blocks, num_bufs_total)
chunk_loop (suc fuel) content_size remain serial free_blocks num_bufs_total =
    let rest =
      chunk_loop fuel content_size (remain - content_size) (suc serial)
        (push_single free_blocks serial) (u32 (num_bufs_total + 1)) in
    if leb content_size remain then rest else (free_blocks, num_bufs_total)

-- `MPOOL_CACHE_CBOR_DATA_SIGNATURE`.
abbrev pub cbor_data_signature : ℕ
cbor_data_signature = 0x6b243e33

unfoldable pub first_registry : Root
unfolding insert_value_generic
first_registry =
    let basic = insert_value_generic 0 init_root false 0 no_compare in
    (insert_value_generic cbor_data_signature basic.tree false 1 no_compare).tree

-- `bplib_mpool_create` in memory that is there. The admin block, which is the whole of a
-- `bplib_mpool_t`, has the size `content_size`, as any other block.
unfoldable pub create : ℕ → ℕ → Option TypedPool
unfolding chunk_loop first_registry
create content_size pool_size =
    let remain = pool_size - content_size in
    let (free_blocks, num_bufs_total) = chunk_loop remain content_size remain 1 subq_init 0 in
    if ltb pool_size content_size
    then none
    else some (record {
      memory = record {
        num_bufs_total = num_bufs_total;
        bblock_alloc_threshold = u32 (num_bufs_total * 30) / 100;
        max_alloc_watermark = 0;
        free_blocks = free_blocks;
        recycle_blocks = subq_init;
        block = λ id. zero_block;
      };
      blocktype_registry = first_registry;
      apis = λ number. zero_api;
    })
