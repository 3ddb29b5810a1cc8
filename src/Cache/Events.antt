-- ===== src/Cache/Events.antt =====
-- cache/src/v7_cache.c: what makes entries pending, and the runs of the state machine on them.
pub mod Pending
pub mod Flush
pub mod Poll
pub mod Index
use bplib.Common.{
  ℕ, zero, suc, ◌+◌, Bool, true, false, ◌&&◌, ◌||◌, not, Option, none, some, List, [], ◌∷◌, ◌++◌,
  ◌==◌, bit_and, ◌>>=◌, if◌then◌else◌,
}
use bplib.Mpool.Flow.{Flow, flag_endpoint, FlowEvent, poll, up, down}
use bplib.Cache.{Flags, Entry, CacheState, Outside}
use bplib.Cache.Fsm.{index_extract, list_extract, set_entry, execute}

abbrev pub no_flags : Flags
no_flags = record {
  activity = false;
  local_custody = false;
  action_time_wait = false;
  locally_queued = false;
  pending_forward = false;
}

abbrev pub update : Bool → Bool → Bool → Bool
update flag set clear = (flag || set) && not clear

-- `flags |= set_flags`, then `flags &= ~clear_flags`.
abbrev pub update_flags : Flags → Flags → Flags → Flags
update_flags flags set_flags clear_flags = record {
  activity = update flags.activity set_flags.activity clear_flags.activity;
  local_custody = update flags.local_custody set_flags.local_custody clear_flags.local_custody;
  action_time_wait =
      update flags.action_time_wait set_flags.action_time_wait clear_flags.action_time_wait;
  locally_queued = update flags.locally_queued set_flags.locally_queued clear_flags.locally_queued;
  pending_forward =
      update flags.pending_forward set_flags.pending_forward clear_flags.pending_forward;
}

-- `BP_MPOOL_SHORT_SUBQ_DEPTH` and `BP_MPOOL_MAX_SUBQ_DEPTH`.
abbrev pub short_subq_depth : ℕ
short_subq_depth = 0x10

abbrev pub max_subq_depth : ℕ
max_subq_depth = 0x1000_0000

module _ {A : Type 0} where
  abbrev pub set_depth_limits : Flow A → ℕ → Flow A
  set_depth_limits flow limit = record flow {
    ingress = record flow.ingress { current_depth_limit = limit };
    egress = record flow.egress { current_depth_limit = limit };
  }

  unfoldable pub do_intf_statechange : Flow A → Bool → Flow A
  do_intf_statechange flow is_up = set_depth_limits flow (
      if not is_up
      then 0
      else if bit_and flow.current_state_flags flag_endpoint == 0
      then max_subq_depth
      else short_subq_depth)

-- The entries that an iteration backwards from one of them meets, where so many entries stand up to
-- that one.
unfoldable pub met : ℕ → List (ℕ × ℕ) → List ℕ
met zero index = []
met (suc reached) [] = []
met (suc reached) ((key, id) ∷ rest) = met reached rest ++ id ∷ []

module _ {S : Type 0} (o : Outside S) where
  unfoldable pub make_pending : ℕ → Flags → Flags → CacheState S → CacheState S
  make_pending id set_flags clear_flags st =
      let entry = st.entries id in
      set_entry id (record entry { flags = update_flags entry.flags set_flags clear_flags })
        (record st {
          pending_list = list_extract id st.pending_list ++ id ∷ [];
          idle_list = list_extract id st.idle_list;
          outside = o.mark_pending_job st.outside;
        })

  -- The loop of `flush_pending` from one node of the pending list on.
  unfoldable pub flush_from : List ℕ → CacheState S → Option (CacheState S)
  flush_from [] st = some st
  flush_from (id ∷ rest) st =
      let flushed = do
        st' ← execute o id (record st { pending_list = list_extract id st.pending_list })
        flush_from rest st'
      in if o.may_push_ingress st.outside then flushed else some st

  unfoldable pub flush_pending : CacheState S → Option (CacheState S)
  unfolding flush_from
  flush_pending st = flush_from st.pending_list st

  unfoldable pub poll_entries : List ℕ → CacheState S → CacheState S
  unfolding make_pending
  poll_entries [] st = st
  poll_entries (id ∷ rest) st =
      let pending = make_pending id no_flags no_flags st in
      poll_entries rest (
        set_entry id (record (pending.entries id) { time_key = 0 })
          (record pending { time_index = index_extract id pending.time_index }))

  -- `reached` is how many entries of the time index stand up to the one at which
  -- `bplib_rbt_iter_goto_max` stops for the current time, 0 if it fails.
  unfoldable pub do_poll : ℕ → CacheState S → CacheState S
  unfolding poll_entries met
  do_poll reached st = poll_entries (met reached st.time_index) st

  -- `bplib_cache_destruct_blockref`, when the block that refers to a queued entry is collected.
  unfoldable pub destruct_blockref : ℕ → CacheState S → CacheState S
  unfolding make_pending
  destruct_blockref id = make_pending id no_flags (record no_flags { locally_queued = true })

  -- `self_intf_id` is the handle of the cache's block, `action_time` is what
  -- `bplib_os_get_dtntime_ms` gives.
  unfoldable pub handle_event : ℕ → ℕ → FlowEvent → CacheState S → CacheState S
  unfolding do_poll do_intf_statechange
  handle_event self_intf_id reached poll st = do_poll reached st
  handle_event self_intf_id reached (up intf_id) st =
      if self_intf_id == intf_id
      then record st { outside = o.change_flow (λ flow. do_intf_statechange flow true) st.outside }
      else st
  handle_event self_intf_id reached (down intf_id) st =
      if self_intf_id == intf_id
      then record st { outside = o.change_flow (λ flow. do_intf_statechange flow false) st.outside }
      else st

  unfoldable pub event_impl : ℕ → ℕ → ℕ → FlowEvent → CacheState S → Option (CacheState S)
  unfolding handle_event flush_pending
  event_impl self_intf_id action_time reached event st =
      flush_pending
        (handle_event self_intf_id reached event (record st { action_time = action_time }))

  -- `bplib_cache_destruct_entry`.
  unfoldable pub destruct_entry : ℕ → CacheState S → CacheState S
  destruct_entry id st =
      let entry = st.entries id in
      set_entry id (record entry { refptr = none; time_key = 0; dest_eid_key = 0 })
        (record st {
          dacs_index = list_extract id st.dacs_index;
          bundle_index = list_extract id st.bundle_index;
          time_index =
              if entry.time_key == 0 then st.time_index else index_extract id st.time_index;
          dest_eid_index =
              if entry.dest_eid_key == 0
              then st.dest_eid_index
              else index_extract id st.dest_eid_index;
          outside = elim entry.refptr [
            | none ↦ st.outside
            | some blk ↦ o.ref_release blk st.outside
          ];
        })
