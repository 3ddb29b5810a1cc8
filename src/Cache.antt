-- ===== src/Cache.antt =====
-- cache/src/v7_cache_internal.h: the state of the bundle cache and of its entries.
pub mod Fsm
pub mod Tally
pub mod Valid
pub mod Events
mod Tests
use bplib.Common.{ℕ, Bool, true, false, ◌||◌, Option, List}
use bplib.Mpool.Flow.{Flow}

-- The five bits of `flags`, `BPLIB_STORE_FLAG_*`.
pub record Flags : Type 0 where
  pub activity : Bool
  pub local_custody : Bool
  pub action_time_wait : Bool
  pub locally_queued : Bool
  pub pending_forward : Bool

-- Whether one of the bits of `BPLIB_STORE_FLAGS_ACTION_WAIT_STATE` is set.
abbrev pub action_wait_state : Flags → Bool
action_wait_state flags = flags.action_time_wait || flags.locally_queued

pub data EntryState : Type 0 where
  undefined idle queue delete generate_dacs : EntryState

abbrev pub same_state : EntryState → EntryState → Bool
same_state undefined undefined = true
same_state idle idle = true
same_state queue queue = true
same_state delete delete = true
same_state generate_dacs generate_dacs = true
same_state _ _ = false

pub data DeliveryPolicy : Type 0 where
  delivery_none local_ack custody_tracking : DeliveryPolicy

-- `bplib_mpool_bblock_tracking_t`, what a primary block says about its delivery.
pub record Tracking : Type 0 where
  pub delivery_policy : DeliveryPolicy
  pub ingress_intf_id : ℕ
  pub ingress_time : ℕ
  pub egress_intf_id : ℕ
  pub egress_time : ℕ
  pub storage_intf_id : ℕ
  pub committed_storage_id : ℕ
  pub local_retx_interval : ℕ

pub record IpnAddr : Type 0 where
  pub node_number : ℕ
  pub service_number : ℕ

-- `refptr` is the number of a primary block, or none for NULL. A key is the one in the link of the
-- entry, 0 for a link that is in no tree.
pub record Entry : Type 0 where
  pub state : EntryState
  pub flags : Flags
  pub flow_id_copy : IpnAddr
  pub flow_seq_copy : ℕ
  pub refptr : Option ℕ
  pub offload_sid : ℕ
  pub action_time : ℕ  -- uint64_t
  pub expire_time : ℕ  -- uint64_t
  pub time_key : ℕ
  pub dest_eid_key : ℕ

-- Entries are named by numbers. An index is the list of its entries in the order of their keys, with
-- the keys where they can be asked for; `recycled` are the entries given to
-- `bplib_mpool_recycle_block`. `S` is everything that the cache reaches through calls: the blocks of
-- the pool, its queues and jobs, and the storage for offloaded bundles.
pub record CacheState (S : Type 0) : Type 0 where
  pub pending_list : List ℕ
  pub idle_list : List ℕ
  pub recycled : List ℕ
  pub action_time : ℕ  -- uint64_t
  pub bundle_index : List ℕ
  pub dacs_index : List ℕ
  pub dest_eid_index : List (ℕ × ℕ)
  pub time_index : List (ℕ × ℕ)
  pub fsm_state_enter_count : EntryState → ℕ  -- uint32_t
  pub fsm_state_exit_count : EntryState → ℕ  -- uint32_t
  pub discard_count : ℕ  -- uint32_t
  pub entries : ℕ → Entry
  pub outside : S

-- The calls out of the cache.
pub record Outside (S : Type 0) : Type 0 where
  -- `offload_api->restore`, and a reference to the bundle if there is one.
  pub restore : ℕ → S → S × Option ℕ
  pub release : ℕ → S → S
  -- `delivery` of the primary block.
  pub delivery : ℕ → S → Tracking
  pub ref_release : ℕ → S → S
  -- `bplib_mpool_ref_make_block` of a block, for an entry.
  pub ref_make_block : ℕ → ℕ → S → S × Option ℕ
  -- `bplib_mpool_flow_try_push` to the ingress queue of the cache's flow, with no timeout.
  pub push_ingress : ℕ → S → S × Bool
  pub may_push_ingress : S → Bool
  pub recycle_block : ℕ → S → S
  -- A change of the cache's flow.
  pub change_flow : (Flow ℕ → Flow ℕ) → S → S
  -- `bplib_mpool_job_mark_active` of `pending_job`.
  pub mark_pending_job : S → S
