-- ===== src/Cache/Fsm.antt =====
-- cache/src/v7_cache_fsm.c: the state machine of the entries of the cache. A function that the code
-- calls with a `store_entry` takes the entry and the cache state as a pair; `execute` reads the
-- entry from the cache state and writes it back. `none` stands for the dereference of a NULL `refptr`.
pub mod Diagram
pub mod Transition
pub mod Execute
pub mod Times
use bplib.Common.{
  ℕ, zero, suc, ◌+◌, Bool, true, false, ◌&&◌, not, Option, none, some, List, [], ◌∷◌, ◌++◌, ◌==◌,
  ltb, leb, u32, u64, ◌>>=◌, if◌then◌else◌,
}
use bplib.Rbtree.{stored_key}
use bplib.Cache.{
  Flags, action_wait_state, EntryState, undefined, idle, queue, delete, generate_dacs, same_state,
  DeliveryPolicy, delivery_none, local_ack, custody_tracking, Tracking, Entry, CacheState, Outside,
}

abbrev pub fast_retry_time : ℕ
fast_retry_time = 3000

abbrev pub idle_retry_time : ℕ
idle_retry_time = 3600000

abbrev pub age_out_time : ℕ
age_out_time = 5000

-- `BP_CACHE_TIME_INFINITE`, the largest 64-bit number.
abbrev pub time_infinite : ℕ
time_infinite = 0xffff_ffff_ffff_ffff

-- `bplib_rbt_insert_value_generic` with an order that puts a node behind those with the same key.
unfoldable pub index_insert : ℕ → ℕ → List (ℕ × ℕ) → List (ℕ × ℕ)
index_insert key id [] = (key, id) ∷ []
index_insert key id ((k, i) ∷ rest) =
    let later = index_insert key id rest in
    if leb k key then (k, i) ∷ later else (key, id) ∷ (k, i) ∷ rest

-- `bplib_rbt_extract_node` and `bplib_mpool_extract_node`: what is not there stays away.
unfoldable pub index_extract : ℕ → List (ℕ × ℕ) → List (ℕ × ℕ)
index_extract id [] = []
index_extract id ((k, i) ∷ rest) =
    let kept = index_extract id rest in if i == id then rest else (k, i) ∷ kept

unfoldable pub list_extract : ℕ → List ℕ → List ℕ
list_extract id [] = []
list_extract id (i ∷ rest) = let kept = list_extract id rest in if i == id then rest else i ∷ kept

abbrev pub set_entry : {S : Type 0} → ℕ → Entry → CacheState S → CacheState S
set_entry id entry st = record st { entries = λ i. if i == id then entry else st.entries i }

abbrev pub count_up : EntryState → (EntryState → ℕ) → EntryState → ℕ
count_up s counts s' = if same_state s s' then u32 (counts s' + 1) else counts s'

-- What `queue_exit` does to the entry of a bundle that an egress interface has taken.
unfoldable pub forwarded : DeliveryPolicy → Tracking → Entry → Entry
forwarded custody_tracking delivery entry = record entry {
  flags = record entry.flags { pending_forward = false; action_time_wait = true };
  action_time = u64 (delivery.egress_time + delivery.local_retx_interval);
}
forwarded _ delivery entry = record entry {
  flags = record entry.flags { pending_forward = false; local_custody = false };
}

abbrev pub Running : Type 0 → Type 0
Running S = Entry × CacheState S

-- The time of the next look at an entry.
unfoldable pub next_look : ℕ → Entry → ℕ
next_look now entry =
    let ref_time =
      u64 (now + (if action_wait_state entry.flags then idle_retry_time else fast_retry_time)) in
    if entry.flags.action_time_wait && ltb entry.action_time ref_time
    then entry.action_time
    else ref_time

-- The timer at the start of `execute`.
unfoldable pub check_timer : ℕ → Entry → Entry
check_timer now entry =
    if entry.flags.action_time_wait && leb entry.action_time now
    then record entry {
      flags = record entry.flags { action_time_wait = false };
      action_time = time_infinite;
    }
    else entry

module _ {S : Type 0} where
  unfoldable pub queue_eval : Running S → EntryState × Running S
  queue_eval (entry, st) = (if entry.flags.locally_queued then queue else idle, (entry, st))

  unfoldable pub delete_eval : Running S → EntryState × Running S
  delete_eval (entry, st) =
      if entry.flags.action_time_wait
      then (delete, (entry, st))
      else if not entry.flags.activity
      then (undefined, (entry, st))
      else (
        delete,
        (
          record entry {
            flags = record entry.flags { activity = false; action_time_wait = true };
            action_time = u64 (st.action_time + age_out_time);
          },
          st,
        ),
      )

  unfoldable pub generate_dacs_eval : Running S → EntryState × Running S
  generate_dacs_eval (entry, st) =
      (if entry.flags.action_time_wait then generate_dacs else idle, (entry, st))

  -- `bplib_cache_custody_finalize_dacs`.
  unfoldable pub finalize_dacs : ℕ → CacheState S → CacheState S
  finalize_dacs id st = record st { dacs_index = list_extract id st.dacs_index }

  unfoldable pub generate_dacs_exit : ℕ → Running S → Running S
  unfolding finalize_dacs
  generate_dacs_exit id (entry, st) = (entry, finalize_dacs id st)

  -- A node whose key stays the same is left where it is. The time is compared with the key as a
  -- 64-bit number, but the tree keeps 63 digits of it.
  unfoldable pub reschedule : ℕ → Running S → Running S
  unfolding next_look stored_key
  reschedule id (entry, st) =
      let ref_time = next_look st.action_time entry in
      let others = if entry.time_key == 0 then st.time_index else index_extract id st.time_index in
      (
        record entry {
          time_key = if ref_time == entry.time_key then entry.time_key else stored_key ref_time;
        },
        record st {
          time_index =
              if ref_time == entry.time_key
              then st.time_index
              else index_insert (stored_key ref_time) id others;
        },
      )

  -- The end of `execute`.
  unfoldable pub settle : ℕ → EntryState → Running S → CacheState S
  unfolding reschedule
  settle id next (entry, st) =
      let (entry', st') = reschedule id (entry, st) in
      if same_state next undefined
      then set_entry id entry (record st {
        discard_count = u32 (st.discard_count + 1);
        recycled = st.recycled ++ id ∷ [];
      })
      else set_entry id entry' (record st' { idle_list = st'.idle_list ++ id ∷ [] })

module _ {S : Type 0} (o : Outside S) where
  -- The content of an idle entry that is ready: it is restored if it was offloaded.
  unfoldable pub content_of : Option ℕ → ℕ → S → S × Option ℕ
  content_of (some blk) offload_sid s = (s, some blk)
  content_of none offload_sid s = if offload_sid == 0 then (s, none) else o.restore offload_sid s

  unfoldable pub restore_content : Running S → Running S
  unfolding content_of
  restore_content (entry, st) =
      let (s, refptr) = content_of entry.refptr entry.offload_sid st.outside in
      (record entry { refptr = refptr }, record st { outside = s })

  unfoldable pub idle_eval : Running S → EntryState × Running S
  unfolding restore_content
  idle_eval (entry, st) =
      let r = restore_content (entry, st) in
      if leb entry.expire_time st.action_time
      then (undefined, (entry, st))
      else if not entry.flags.local_custody
      then (delete, (entry, st))
      else if action_wait_state entry.flags
      then (idle, (entry, st))
      else (elim r.0.refptr [ some blk ↦ queue | none ↦ idle ], r)

  -- `queue_enter` from the block reference on that it makes, if it makes one.
  unfoldable pub queue_blockref : Option ℕ → Running S → Running S
  queue_blockref none (entry, st) = (entry, st)
  queue_blockref (some rblk) (entry, st) =
      let (s, pushed) = o.push_ingress rblk st.outside in
      (
        record entry { flags = record entry.flags { locally_queued = true } },
        record st { outside = if pushed then s else o.recycle_block rblk s },
      )

  -- With the block that `refptr` leads to.
  unfoldable pub queue_enter_with : ℕ → Running S → ℕ → Running S
  unfolding queue_blockref
  queue_enter_with id (entry, st) blk =
      let (s, made) = o.ref_make_block blk id st.outside in
      queue_blockref made (
        record entry { flags = record entry.flags { pending_forward = true } },
        record st { outside = s },
      )

  unfoldable pub queue_enter : ℕ → Running S → Option (Running S)
  unfolding queue_enter_with
  queue_enter id (entry, st) = do blk ← entry.refptr; some (queue_enter_with id (entry, st) blk)

  unfoldable pub queue_exit_with : Running S → ℕ → Running S
  unfolding forwarded
  queue_exit_with (entry, st) blk =
      let delivery = o.delivery blk st.outside in
      let left =
        if delivery.egress_intf_id == 0
        then entry
        else forwarded delivery.delivery_policy delivery entry in
      let kept = entry.offload_sid == 0 in
      (
        record left { refptr = if kept then left.refptr else none },
        record st { outside = if kept then st.outside else o.ref_release blk st.outside },
      )

  unfoldable pub queue_exit : Running S → Option (Running S)
  unfolding queue_exit_with
  queue_exit (entry, st) = do blk ← entry.refptr; some (queue_exit_with (entry, st) blk)

  unfoldable pub delete_enter : Running S → Running S
  delete_enter (entry, st) =
      let unreferenced : S = elim entry.refptr [
        | none ↦ st.outside
        | some blk ↦ o.ref_release blk st.outside
      ] in
      (
        record entry {
          refptr = none;
          flags = record entry.flags { action_time_wait = true };
          action_time = u64 (st.action_time + age_out_time);
        },
        record st {
          outside =
              if entry.offload_sid == 0
              then unreferenced
              else o.release entry.offload_sid unreferenced;
        },
      )

  -- `STATE_EVAL_TABLE`.
  unfoldable pub state_eval : EntryState → Running S → EntryState × Running S
  unfolding idle_eval queue_eval delete_eval generate_dacs_eval
  state_eval undefined r = (undefined, r)
  state_eval idle r = idle_eval r
  state_eval queue r = queue_eval r
  state_eval delete r = delete_eval r
  state_eval generate_dacs r = generate_dacs_eval r

  unfoldable pub get_next_state : Running S → EntryState × Running S
  unfolding state_eval
  get_next_state (entry, st) = state_eval entry.state (entry, st)

  -- `STATE_EXIT_TABLE` and `STATE_ENTER_TABLE`.
  unfoldable pub state_exit : ℕ → EntryState → Running S → Option (Running S)
  unfolding queue_exit generate_dacs_exit
  state_exit id queue r = queue_exit r
  state_exit id generate_dacs r = some (generate_dacs_exit id r)
  state_exit id _ r = some r

  unfoldable pub state_enter : ℕ → EntryState → Running S → Option (Running S)
  unfolding queue_enter delete_enter
  state_enter id queue r = queue_enter id r
  state_enter id delete r = some (delete_enter r)
  state_enter id _ r = some r

  unfoldable pub transition_state : ℕ → EntryState → Running S → Option (Running S)
  unfolding state_exit state_enter
  transition_state id next_state (entry, st) = do
    left ← state_exit id entry.state (entry, st)
    (entry', st') ← state_enter id next_state left
    some (record entry' { state = next_state }, st')

  -- The change to another state, with its counters.
  unfoldable pub counted_transition : ℕ → EntryState → Running S → Option (Running S)
  unfolding transition_state
  counted_transition id next (entry, st) = do
    let left = record st { fsm_state_exit_count = count_up entry.state st.fsm_state_exit_count }
    (entry', st') ← transition_state id next (entry, left)
    some (entry', record st' { fsm_state_enter_count = count_up next st'.fsm_state_enter_count })

  unfoldable pub change_state : ℕ → EntryState → Running S → Option (Running S)
  unfolding counted_transition
  change_state id next (entry, st) =
      if same_state next entry.state
      then some (entry, st)
      else counted_transition id next (entry, st)

  -- Of an entry that is in no list.
  unfoldable pub execute : ℕ → CacheState S → Option (CacheState S)
  unfolding check_timer get_next_state change_state settle
  execute id st = do
    let (next, r) = get_next_state (check_timer st.action_time (st.entries id), st)
    r' ← change_state id next r
    some (settle id next r')
