-- ===== src/Mpool/Flow.antt =====
-- mpool/src/v7_mpool_flows.c: flows (an ingress and an egress queue with state flags), and what is
-- done to them under the pool lock. `active_list` is the list of active jobs of the pool.
pub mod Push
pub mod Pull
pub mod Event
pub mod Move
use bplib.Common.{
  ℕ, zero, suc, ◌+◌, ◌≡◌, Bool, true, false, ◌&&◌, not, Option, none, some, List, [], ◌∷◌, ◌++◌,
  ◌==◌, ltb, bit_and, bit_or, bit_xor, not32, if◌then◌else◌,
}
use bplib.Mpool.Subq.{
  Subq, WorkItem, workitem_init, get_depth, push_single, pull_single, move_all, drop_all,
}
use bplib.Mpool.Job.{JobId, statechange, job_mark_active_internal, job_cancel_internal}
use bplib.Mpool.Wait.{Wakes, Waited, wait_for_space, wait_for_fill}

abbrev pub flag_admin_up : ℕ
flag_admin_up = 0x01

abbrev pub flag_oper_up : ℕ
flag_oper_up = 0x02

abbrev pub flag_storage : ℕ
flag_storage = 0x04

abbrev pub flag_endpoint : ℕ
flag_endpoint = 0x08

abbrev pub flag_poll : ℕ
flag_poll = 0x10

-- `parent` is the serial number of the parent flow's block; `event_handler` as in WorkItem.
pub record Flow (A : Type 0) : Type 0 where
  pub pending_state_flags : ℕ  -- uint32_t
  pub current_state_flags : ℕ  -- uint32_t
  pub event_handler : Option ℕ
  pub parent : Option ℕ
  pub ingress : WorkItem A
  pub egress : WorkItem A

module _ {A : Type 0} where
  -- Zero-filled by the allocation, then initialised.
  abbrev pub flow_init : Flow A
  flow_init = record {
    pending_state_flags = 0;
    current_state_flags = 0;
    event_handler = none;
    parent = none;
    ingress = workitem_init;
    egress = workitem_init;
  }

  unfoldable pub flow_is_up : Flow A → Bool
  flow_is_up flow =
      bit_and (not32 flow.current_state_flags) (bit_or flag_admin_up flag_oper_up) == 0

-- A queue as the code sees it through a pointer. `S` is everything under the pool lock, which the
-- other tasks can change while one waits; the laws say that the queue and the list of active jobs
-- are two parts of it.
pub record Queue (A S : Type 0) : Type 0 where
  pub job : JobId
  pub subq : S → WorkItem A
  pub set_subq : WorkItem A → S → S
  pub active_list : S → List JobId
  pub set_active_list : List JobId → S → S
  pub subq-set : (w : WorkItem A) (s : S) → subq (set_subq w s) ≡ w
  pub subq-set_active : (l : List JobId) (s : S) → subq (set_active_list l s) ≡ subq s
  pub active-set : (l : List JobId) (s : S) → active_list (set_active_list l s) ≡ l
  pub active-set_subq : (w : WorkItem A) (s : S) → active_list (set_subq w s) ≡ active_list s

module _ {A S : Type 0} (q : Queue A S) where
  -- `bplib_mpool_job_mark_active_internal` of the queue's job.
  pub mark_active : S → S
  mark_active s =
      q.set_active_list (job_mark_active_internal (q.active_list s) q.job (q.subq s).handler) s

  unfoldable pub try_push : Wakes S → S → A → ℕ → S × Bool
  unfolding mark_active
  try_push wakes s qblk abs_timeout =
      let waited = wait_for_space q.subq wakes s 1 abs_timeout in
      let s' = waited.state in
      if waited.ok
      then (
        mark_active (
            q.set_subq (record (q.subq s') { base_subq = push_single (q.subq s').base_subq qblk })
              s'),
        true,
      )
      else (s', false)

  unfoldable pub try_pull : Wakes S → S → ℕ → S × Option A
  try_pull wakes s abs_timeout =
      let waited = wait_for_fill q.subq wakes s 1 abs_timeout in
      let s' = waited.state in
      let pulled = pull_single (q.subq s').base_subq in
      if waited.ok
      then (q.set_subq (record (q.subq s') { base_subq = pulled.0 }) s', pulled.1)
      else (s', none)

  -- The state, the recycle queue of the pool, and the number of blocks dropped.
  unfoldable pub flow_disable : S → Subq A → S × Subq A × ℕ
  flow_disable s recycle =
      let dropped = drop_all recycle (q.subq s).base_subq in
      (
        q.set_active_list (job_cancel_internal q.job (q.active_list s))
            (q.set_subq (record (q.subq s) { current_depth_limit = 0; base_subq = dropped.1 }) s),
        dropped.0,
        dropped.2,
      )

  unfoldable pub flow_enable : S → ℕ → S
  flow_enable s depth_limit = q.set_subq (record (q.subq s) { current_depth_limit = depth_limit }) s

-- `bplib_mpool_flow_try_move_all`: a second queue of the same pool is the source. `none` means that
-- the fuel ran out; Mpool/Flow/Move has how much is enough.
module _ {A S : Type 0} (dst src : Queue A S) where
  unfoldable pub move_wait : ℕ → Wakes S → S → ℕ → ℕ → Option (S × Bool)
  move_wait zero wakes s prev_quantity abs_timeout = none
  move_wait (suc fuel) wakes s prev_quantity abs_timeout =
      let waited = wait_for_space dst.subq wakes s prev_quantity abs_timeout in
      let quantity = get_depth (src.subq waited.state).base_subq in
      let again = move_wait fuel waited.wakes waited.state quantity abs_timeout in
      if waited.ok && ltb prev_quantity quantity then again else some (waited.state, waited.ok)

  -- The state, and the number of blocks moved.
  unfoldable pub move_now : S → S × ℕ
  unfolding mark_active
  move_now s =
      let moved = move_all (dst.subq s).base_subq (src.subq s).base_subq in
      (
        mark_active dst (
            src.set_subq (record (src.subq s) { base_subq = moved.1 })
              (dst.set_subq (record (dst.subq s) { base_subq = moved.0 }) s)),
        moved.2,
      )

  unfoldable pub try_move_all : ℕ → Wakes S → S → ℕ → Option (S × ℕ)
  try_move_all fuel wakes s abs_timeout =
      elim (move_wait fuel wakes s (get_depth (src.subq s).base_subq) abs_timeout) [
        | none ↦ none
        | some (s', got_space) ↦ some (if got_space then move_now s' else (s', 0))
      ]

-- The number under which `bplib_mpool_flow_event_handler` is known as a job's handler.
abbrev pub flow_event_handler_id : ℕ
flow_event_handler_id = 1

-- What `statechange_job.event_handler` is called with; `up` and `down` carry the interface.
pub data FlowEvent : Type 0 where
  poll : FlowEvent
  up down : ℕ → FlowEvent

-- The event of a change of `bplib_mpool_flow_is_up`, if any.
abbrev pub state_event : Bool → Bool → ℕ → List FlowEvent
state_event false true intf_id = up intf_id ∷ []
state_event true false intf_id = down intf_id ∷ []
state_event _ _ intf_id = []

module _ {A : Type 0} where
  -- The flow, and the events that the handler is called with, in order.
  unfoldable pub flow_event_handler : ℕ → Flow A → Flow A × List FlowEvent
  flow_event_handler intf_id flow =
      let changed_flags = bit_xor flow.pending_state_flags flow.current_state_flags in
      let flow' = record flow {
        current_state_flags = bit_xor flow.current_state_flags changed_flags;
      } in
      (
        flow',
        state_event (flow_is_up flow) (flow_is_up flow') intf_id
            ++ (if bit_and changed_flags flag_poll == 0 then [] else poll ∷ []),
      )

  -- The flow, the list of active jobs, and whether the flags changed. The job of the flow's block
  -- has `bplib_mpool_flow_event_handler` for its handler from `bplib_mpool_flow_init` on.
  unfoldable pub flow_modify_flags : ℕ → Flow A → List JobId → ℕ → ℕ → Flow A × List JobId × Bool
  flow_modify_flags serial flow active_list set_bits clear_bits =
      let next_flags = bit_and (bit_or flow.pending_state_flags set_bits) (not32 clear_bits) in
      if flow.pending_state_flags == next_flags then (flow, active_list, false) else (
        record flow { pending_state_flags = next_flags },
        job_mark_active_internal active_list (record { serial = serial; kind = statechange })
            (some flow_event_handler_id),
        true,
      )
