-- ===== src/Lib.antt =====
-- A Bundle Protocol node (bplib): bundles are kept in blocks of a memory pool and moved between
-- interfaces through queues, and a route table says which interface a bundle leaves by.
--
-- Common: the tests, wrapping arithmetic, lists and bitwise operations that the parts share.
-- Common/Bits and Common/Masks have the lemmas on `bit_and` and `bit_xor` of native numbers.
--
-- Mpool/Subq: mpool/src/v7_mpool_flows.c, the sub-queues (bplib_mpool_subq_*). A queue is the list of
-- its blocks with the two 32-bit counters, and its depth is their difference modulo 2 ^ 32.
-- Mpool/Job: mpool/src/v7_mpool_job.c, the list of active jobs (bplib_mpool_job_*).
-- Mpool/Wait: the waits on the pool lock (bplib_mpool_subq_workitem_wait_for_*). What the other
-- tasks do during a wait is an argument: the list of the states that the wake-ups find.
-- Mpool/Flow: the flow operations (bplib_mpool_flow_*), over a record of operations and laws `Queue`
-- that stands for a pointer to a work item in the state under the pool lock.
-- Mpool/Pool: mpool/src/v7_mpool.c, handles and references between blocks.
-- Cache: cache/src/v7_cache_internal.h, the cache state, its entries, and a record `Outside` of the calls
-- out of the cache. Cache/Fsm: cache/src/v7_cache_fsm.c, the state machine of the entries. A function
-- that takes a `store_entry` works on a pair of the entry and the cache state. Cache/Events:
-- cache/src/v7_cache.c, what makes entries pending and runs the state machine on them. The trees
-- of the cache are lists in the order of their keys, and where an iterator of Rbtree starts in one is
-- an argument of the poll.
-- Crc: common/src/crc.c, the tables, the digests and the finalization (bplib_crc_*).
-- Mpool/Memory: mpool/src/v7_mpool.c and mpool/src/v7_mpool_ref.c, the memory of the pool:
-- bplib_mpool_alloc_block_internal, bplib_mpool_collect_blocks, bplib_mpool_maintain,
-- bplib_mpool_ref_release; Mpool/Memory/Registry: bplib_mpool_register_blocktype_internal on the
-- trees of Rbtree; Mpool/Memory/Create: bplib_mpool_create. The sizes that a compiler gives are
-- parameters, as are the constructors and destructors of the registered types: a constructor works on
-- its block alone, and a destructor keeps the free blocks, may only add blocks to be collected, and
-- keeps the counters of the queues right. Mpool/Memory/Release says what a block of each
-- type holds, and Mpool/Memory/Round what a round of the collection does.
-- Mpool/Ring: mpool/src/v7_mpool.c, the doubly linked lists (bplib_mpool_insert_after,
-- bplib_mpool_insert_before, bplib_mpool_extract_node, bplib_mpool_merge_list, the forward iterator,
-- bplib_mpool_search_list, bplib_mpool_foreach_item_in_list) on a store of links. The other modules
-- take a ring for the list of its nodes. A loop over a ring runs on fuel, one round more than it has
-- nodes.
-- Mpool/Stream: mpool/src/v7_mpstream.c and the export in mpool/src/v7_mpool_bblocks.c. The
-- capacity of a block is a parameter, and the pool is the number of blocks that it still gives.
-- Every round of the write takes a byte at least, so as many rounds as there are bytes are enough.
-- Mpool/Stream/Room says how many bytes a write gets in.
-- Codec: v7/src/v7_codec_common.c and v7/src/v7_decode_api.c: v7_save_and_verify_block on the streams
-- of Mpool/Stream and the CRCs of Crc; v7_compute_full_bundle_size and v7_copy_full_bundle_out, with
-- the encoders of single blocks as parameters, which are asked to report the size of what they encode.
-- Rbtree: common/src/v7_rbtree.c, the red-black trees (bplib_rbt_*). A tree of links with its parent
-- pointers is a tree with, for a place in it, the path of frames up to the root; Rbtree/Iter has the
-- iterators, Rbtree/Extract the deletion.
-- Route/Table: lib/src/v7_routing.c, the route table (bplib_route_add, _del, _get_next_*, and
-- bplib_route_del_intf on the table, without the flow list and the reference counts).
--
-- Words of 32 and 64 bits are native numbers with their wrap-around written out, and lists stand for
-- the doubly linked lists and for the first `registered_routes` entries of the route array. The loop
-- of bplib_mpool_flow_try_move_all runs on fuel: one round more than there are wake-ups is enough.
-- bplib_mpool_job_run_all runs on fuel, since handlers can mark jobs as active again without end.
-- Chains of references are followed for at most as many steps as the pool has blocks.
--
-- Not modelled: locks and clocks of the operating system, the encoding of the fields of
-- bundle blocks, the data service
-- and convergence layer interfaces, file storage, the command line program and the Lua binding.
pub mod Cache
pub mod Codec
pub mod Common
pub mod Crc
pub mod Mpool
pub mod Rbtree
pub mod Route
