-- ===== src/Cache/Fsm/Transition.antt =====
-- cache/src/v7_cache_fsm.c: a transition along an edge of the state machine never meets a NULL
-- content, and leaves a valid entry.
use bplib.Common.{
  ℕ, ◌≡◌, refl, ap, ◌∙◌, Bool, true, false, Option, none, some, ◌==◌, if◌then◌else◌, bind_some,
}
use bplib.Cache.{
  EntryState, undefined, idle, queue, delete, generate_dacs, same_state, DeliveryPolicy,
  delivery_none, local_ack, custody_tracking, Tracking, Entry, CacheState, Outside,
}
use bplib.Cache.Fsm.{
  Running, queue_blockref, queue_enter_with, queue_enter, forwarded, queue_exit_with, queue_exit,
  delete_enter, finalize_dacs, generate_dacs_exit, state_exit, state_enter, transition_state,
}
use bplib.Cache.Fsm.Diagram.{
  FsmStep, stay, expire, hand_over, transmit, unqueue, age_out, send_dacs, IsValidEntry, OnlyCalls,
  OnlyCalls-trans,
}

abbrev pub HasContent : Entry → Type 0
HasContent entry = (blk : ℕ) × (entry.refptr ≡ some blk)

forwarded-time_key :
    (policy : DeliveryPolicy) (delivery : Tracking) (entry : Entry)
    → (forwarded policy delivery entry).time_key ≡ entry.time_key
unfolding forwarded
forwarded-time_key delivery_none delivery entry = refl
forwarded-time_key local_ack delivery entry = refl
forwarded-time_key custody_tracking delivery entry = refl

into_queue :
    {s next : EntryState} → FsmStep s next → same_state next s ≡ false → next ≡ queue → s ≡ idle
into_queue (stay queue) other q = cc
into_queue (stay undefined) other q = cc
into_queue (stay idle) other q = refl
into_queue (stay delete) other q = cc
into_queue (stay generate_dacs) other q = cc
into_queue transmit other q = refl
into_queue expire other q = refl
into_queue hand_over other q = refl
into_queue unqueue other q = cc
into_queue age_out other q = cc
into_queue send_dacs other q = cc

module _ {S : Type 0} (o : Outside S) where
  -- What an exit or an entry function keeps.
  abbrev Kept : Running S → Running S → Type 0
  Kept (entry, st) (entry', st') = (entry'.time_key ≡ entry.time_key) × OnlyCalls o st st'

  state_exit_lem :
      (s : EntryState) (id : ℕ) (entry : Entry) (st : CacheState S)
      → (s ≡ queue → HasContent entry)
      → (left : Running S) × (state_exit o id s (entry, st) ≡ some left)
        × Kept (entry, st) left
        × (s ≡ idle → left.0 ≡ entry)
  unfolding state_exit queue_exit queue_exit_with generate_dacs_exit finalize_dacs
  state_exit_lem undefined id entry st h =
      ((entry, st), refl, (refl, (st.outside, st.dacs_index, refl)), λ e. refl)
  state_exit_lem idle id entry st h =
      ((entry, st), refl, (refl, (st.outside, st.dacs_index, refl)), λ e. refl)
  state_exit_lem delete id entry st h =
      ((entry, st), refl, (refl, (st.outside, st.dacs_index, refl)), λ e. refl)
  state_exit_lem generate_dacs id entry st h = (
    generate_dacs_exit id (entry, st),
    refl,
    (refl, (st.outside, _, refl)),
    λ e. absurd (not_idle e),
  )
    where
      not_idle : generate_dacs ≡ idle → ⊥
      not_idle e = cc
  state_exit_lem queue id entry st h =
      let (blk, found) = h refl in
      let delivery = o.delivery blk st.outside in
      (
        queue_exit_with o (entry, st) blk,
        bind_some _ found,
        (same_key (delivery.egress_intf_id == 0) _ _, (_, st.dacs_index, refl)),
        λ e. absurd (not_idle e),
      )
    where
      not_idle : queue ≡ idle → ⊥
      not_idle e = cc

      same_key :
          (absent : Bool) (policy : DeliveryPolicy) (delivery : Tracking)
          → (if absent then entry else forwarded policy delivery entry).time_key ≡ entry.time_key
      same_key true policy delivery = refl
      same_key false policy delivery = forwarded-time_key policy delivery entry

  queue_blockref_lem :
      (made : Option ℕ) (entry : Entry) (st : CacheState S)
      → let (entry', st') = queue_blockref o made (entry, st) in
        Kept (entry, st) (entry', st') × (entry'.refptr ≡ entry.refptr)
  unfolding queue_blockref
  queue_blockref_lem none entry st = ((refl, (st.outside, st.dacs_index, refl)), refl)
  queue_blockref_lem (some rblk) entry st = ((refl, (_, st.dacs_index, refl)), refl)

  state_enter_lem :
      (s : EntryState) (id : ℕ) (entry : Entry) (st : CacheState S)
      → (s ≡ queue → HasContent entry)
      → (entered : Running S) × (state_enter o id s (entry, st) ≡ some entered)
        × Kept (entry, st) entered
        × (s ≡ queue → HasContent entered.0)
        × (s ≡ delete → entered.0.refptr ≡ none)
  unfolding state_enter queue_enter queue_enter_with delete_enter
  state_enter_lem undefined id entry st h =
      ((entry, st), refl, (refl, (st.outside, st.dacs_index, refl)), λ e. h e, λ e. cc)
  state_enter_lem idle id entry st h =
      ((entry, st), refl, (refl, (st.outside, st.dacs_index, refl)), λ e. h e, λ e. cc)
  state_enter_lem generate_dacs id entry st h =
      ((entry, st), refl, (refl, (st.outside, st.dacs_index, refl)), λ e. h e, λ e. cc)
  state_enter_lem delete id entry st h =
      (delete_enter o (entry, st), refl, (refl, (_, st.dacs_index, refl)), λ e. cc, λ e. refl)
  state_enter_lem queue id entry st h =
      let (blk, found) = h refl in
      let made = o.ref_make_block blk id st.outside in
      let q =
        queue_blockref_lem made.1
          (record entry { flags = record entry.flags { pending_forward = true } })
          (record st { outside = made.0 }) in
      (
        queue_enter_with o id (entry, st) blk,
        bind_some _ found,
        (q.0.0, (q.0.1.0, q.0.1.1, q.0.1.2)),
        λ e. (blk, q.1 ∙ found),
        λ e. cc,
      )

  -- What is known after a transition.
  abbrev pub Changed : EntryState → Running S → Option (Running S) → Type 0
  Changed next (entry, st) result =
      (r : Running S) × (result ≡ some r)
      × Kept (entry, st) r
      × (r.0.state ≡ next)
      × IsValidEntry r.0

  pub transition_state_lem :
      {next : EntryState} (id : ℕ) (entry : Entry) (st : CacheState S)
      → FsmStep entry.state next
      → (entry.state ≡ idle → next ≡ queue → HasContent entry)
      → IsValidEntry entry
      → same_state next entry.state ≡ false
      → Changed next (entry, st) (transition_state o id next (entry, st))
  unfolding transition_state
  transition_state_lem {next} id entry st step ready v other =
      let (left, exited, kept, unchanged) = state_exit_lem entry.state id entry st v.queued in
      let content : next ≡ queue → HasContent left.0 = λ q.
        let i = into_queue step other q in
        let (blk, found) = ready i q in (blk, ap (λ (t : Entry). t.refptr) (unchanged i) ∙ found) in
      let (entered, e, kept', queued, deleted) = state_enter_lem next id left.0 left.1 content in
      let r : Running S = (record entered.0 { state = next }, entered.1) in
      (
        r,
        bind_some _ exited ∙ bind_some _ e,
        (kept'.0 ∙ kept.0, OnlyCalls-trans o st kept.1 kept'.1),
        refl,
        record { queued = queued; deleted = deleted },
      )
