-- ===== src/Cache/Tests.antt =====
-- A concrete cache with two entries, and the theorems of the cache at it.
use bplib.Common.{
  ℕ, ◌+◌, ◌%◌, ◌≤◌, ◌<◌, ◌^◌, ◌≡◌, ◌≢◌, refl, Bool, true, false, Option, none, some, List, [], ◌∷◌,
  ◌++◌, ◌==◌, arith, if◌then◌else◌,
}
use bplib.Cache.{
  action_wait_state, EntryState, undefined, idle, queue, delete, generate_dacs, local_ack, Entry,
  CacheState, Outside,
}
use bplib.Cache.Fsm.{
  execute, list_extract, index_extract, reschedule, idle_retry_time, fast_retry_time,
}
use bplib.Cache.Fsm.Diagram.{IsValidEntry}
use bplib.Cache.Fsm.Execute.{Executed, execute_lem}
use bplib.Cache.Fsm.Times.{Inserted, reschedule_lem}
use bplib.Cache.Tally.{tally, occurrences}
use bplib.Cache.Valid.{held, in_state, IsValidCache}
use bplib.Cache.Events.{no_flags, make_pending, flush_pending, met, do_poll}
use bplib.Cache.Events.Poll.{Polled, do_poll_lem}
use bplib.Cache.Events.Index.{indexed, drop, do_poll-drop}
use bplib.Cache.Events.Pending.{make_pending-IsValidCache}
use bplib.Cache.Events.Flush.{Flushed, flush_pending_lem}

-- Everything outside of the cache is the list of the block references that were pushed.
abbrev outside : Outside (List ℕ)
outside = record {
  restore = λ sid s. (s, some 9);
  release = λ sid s. s;
  delivery = λ blk s. record {
    delivery_policy = local_ack;
    ingress_intf_id = 0;
    ingress_time = 0;
    egress_intf_id = 5;
    egress_time = 1000;
    storage_intf_id = 0;
    committed_storage_id = 0;
    local_retx_interval = 0;
  };
  ref_release = λ blk s. s;
  ref_make_block = λ blk id s. (s, some (100 + id));
  push_ingress = λ rblk s. (rblk ∷ s, true);
  may_push_ingress = λ s. true;
  recycle_block = λ blk s. s;
  change_flow = λ f s. s;
  mark_pending_job = λ s. s;
}

abbrev idle_entry : Entry
idle_entry = record {
  state = idle;
  flags = record no_flags { local_custody = true };
  flow_id_copy = record { node_number = 100; service_number = 1 };
  flow_seq_copy = 1;
  refptr = some 9;
  offload_sid = 0;
  action_time = 0;
  expire_time = 90000;
  time_key = 0;
  dest_eid_key = 0;
}

abbrev queued_entry : Entry
queued_entry = record idle_entry {
  state = queue;
  flags = record no_flags { local_custody = true; locally_queued = true };
}

-- The entry 1 is pending and the entry 2 is queued.
abbrev cache : CacheState (List ℕ)
cache = record {
  pending_list = 1 ∷ [];
  idle_list = 2 ∷ [];
  recycled = [];
  action_time = 2000;
  bundle_index = [];
  dacs_index = [];
  dest_eid_index = [];
  time_index = [];
  fsm_state_enter_count = λ s. elim s [ idle ↦ 2 | queue ↦ 1 | _ ↦ 0 ];
  fsm_state_exit_count = λ s. elim s [ idle ↦ 1 | _ ↦ 0 ];
  discard_count = 0;
  entries = λ i. if i == 2 then queued_entry else idle_entry;
  outside = [];
}

entry-IsValidEntry : (b : Bool) → IsValidEntry (if b then queued_entry else idle_entry)
entry-IsValidEntry true = record { queued = λ q. (9, refl); deleted = λ d. cc }
entry-IsValidEntry false = record { queued = λ q. (9, refl); deleted = λ d. cc }

cache-IsValidCache : IsValidCache cache
unfolding tally
cache-IsValidCache = record {
  once = λ id. ground arith;
  valid = λ id there. entry-IsValidEntry (id == 2);
  counted = λ s live. counted s live;
}
  where
    counted :
        (s : EntryState)
        → (s ≡ undefined → ⊥)
        → (cache.fsm_state_exit_count s + in_state s cache) % 2 ^ 32 ≡ cache.fsm_state_enter_count s
    counted undefined live = absurd (live refl)
    counted idle live = refl
    counted queue live = refl
    counted delete live = refl
    counted generate_dacs live = refl

execute_lem_example :
    (st' : CacheState (List ℕ)) × (execute outside 2 cache ≡ some st') × Executed 2 cache st'
execute_lem_example = execute_lem outside 2 cache (entry-IsValidEntry true)

reschedule_lem_example :
    let (entry', st') = reschedule 1 (idle_entry, cache) in
    let key = entry'.time_key in
    (key ≤ 2000 + idle_retry_time)
    × (idle_entry.flags.action_time_wait ≡ true → key ≤ idle_entry.action_time)
    × (action_wait_state idle_entry.flags ≡ false → key ≤ 2000 + fast_retry_time)
    × ((idle_entry.flags.action_time_wait ≡ true → 2000 < idle_entry.action_time) → 2000 < key)
    × (key ≡ idle_entry.time_key → st'.time_index ≡ cache.time_index)
    × (key ≢ idle_entry.time_key
        → idle_entry.time_key ≡ 0
        → Inserted key 1 cache.time_index st'.time_index)
    × (key ≢ idle_entry.time_key
        → idle_entry.time_key ≢ 0
        → Inserted key 1 (index_extract 1 cache.time_index) st'.time_index)
reschedule_lem_example = reschedule_lem 1 idle_entry cache (omega arith)

two_once : held 2 cache ≡ 1
unfolding tally
two_once = refl

make_pending-IsValidCache_example :
    IsValidCache (make_pending outside 2 no_flags no_flags cache)
    × ((make_pending outside 2 no_flags no_flags cache).pending_list
        ≡ list_extract 2 cache.pending_list ++ 2 ∷ [])
    × ((i : ℕ) → held i (make_pending outside 2 no_flags no_flags cache) ≡ held i cache)
    × ((i : ℕ)
        → (((make_pending outside 2 no_flags no_flags cache).entries i).state
            ≡ (cache.entries i).state)
          × (((make_pending outside 2 no_flags no_flags cache).entries i).refptr
              ≡ (cache.entries i).refptr))
    × ((s : EntryState)
        → in_state s (make_pending outside 2 no_flags no_flags cache) ≡ in_state s cache)
make_pending-IsValidCache_example =
    make_pending-IsValidCache outside 2 no_flags no_flags cache two_once cache-IsValidCache

flush_pending_lem_example :
    (st' : CacheState (List ℕ)) × (flush_pending outside cache ≡ some st')
    × Flushed outside cache st'
flush_pending_lem_example = flush_pending_lem outside cache cache-IsValidCache

-- The bundle of the pending entry goes out as a block reference.
outside_after : (r : Option (CacheState (List ℕ))) → List ℕ
outside_after none = []
outside_after (some st) = st.outside

bundle_sent : outside_after (flush_pending outside cache) ≡ 101 ∷ []
unfolding outside_after flush_pending execute
bundle_sent = refl

-- The iteration of a poll meets the queued entry, not the idle one.
abbrev scheduled : CacheState (List ℕ)
scheduled = record cache { time_index = (1500, 2) ∷ (9000, 1) ∷ [] }

scheduled-IsValidCache : IsValidCache scheduled
scheduled-IsValidCache = record {
  once = cache-IsValidCache.once;
  valid = cache-IsValidCache.valid;
  counted = cache-IsValidCache.counted;
}

met_there : (i : ℕ) → 1 ≤ occurrences i (met 1 scheduled.time_index) → held i scheduled ≡ 1
unfolding tally met
met_there i p = ground arith

indexed_once : (i : ℕ) → occurrences i (indexed scheduled.time_index) ≤ 1
unfolding tally
indexed_once i = ground arith

two_pending : (do_poll outside 1 scheduled).pending_list ≡ 1 ∷ 2 ∷ []
unfolding do_poll met list_extract
two_pending = refl

do_poll_lem_example :
    Polled outside (met 1 scheduled.time_index) scheduled (do_poll outside 1 scheduled)
do_poll_lem_example = do_poll_lem outside 1 scheduled met_there scheduled-IsValidCache

do_poll-drop_example : (do_poll outside 1 scheduled).time_index ≡ drop 1 scheduled.time_index
do_poll-drop_example = do_poll-drop outside 1 scheduled indexed_once
