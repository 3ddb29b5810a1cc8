-- ===== src/Mpool/Flow/Event.antt =====
-- mpool/src/v7_mpool_flows.c: the state flags of a flow, their delayed update, and its events.
use bplib.Common.{
  ℕ, ◌^◌, ◌<◌, ◌≡◌, refl, ap, ◌↔◌, inl, inr, Bool, true, false, some, List, [], ◌∷◌, ◌++◌, arith,
  ◌==◌, ==_iff, ==_cong, if◌then◌else◌, bit_and, bit_or, not32, Bool-cases,
}
use bplib.Common.Bits.{bit_xor_cancel, bit_and_three}
use bplib.Common.Masks.{bit_xor_sixteen}
use bplib.Mpool.Job.{JobId, statechange}
use bplib.Mpool.Job.Laws.{Once, occurrences, job_mark_active-Once}
use bplib.Mpool.Flow.{
  Flow, FlowEvent, up, down, flow_is_up, flag_poll, poll, state_event, flow_event_handler,
  flow_modify_flags, flow_event_handler_id,
}

-- Whether both the administrative and the operational flag are set.
abbrev pub IsUp : ℕ → Type 0
IsUp flags = bit_and flags 3 ≡ 3

-- The events of the handler with 32-bit flags, from the current and the pending flags and the
-- poll events that follow.
abbrev pub Reported : ℕ → ℕ → ℕ → List FlowEvent → List FlowEvent → Type 0
Reported intf_id current pending polls events =
    ((IsUp current → ⊥) → IsUp pending → events ≡ up intf_id ∷ polls)
    × (IsUp current → (IsUp pending → ⊥) → events ≡ down intf_id ∷ polls)
    × (IsUp current → IsUp pending → events ≡ polls)
    × ((IsUp current → ⊥) → (IsUp pending → ⊥) → events ≡ polls)

-- Each of two facts that tests tell apart.
reported_lem :
    (intf_id current pending : ℕ) (polls : List FlowEvent) (was is : Bool)
    → (was ≡ true) ↔ IsUp current
    → (is ≡ true) ↔ IsUp pending
    → Reported intf_id current pending polls (state_event was is intf_id ++ polls)
reported_lem intf_id current pending polls true true w i = (
  λ n y. absurd (n (w.0 refl)),
  λ y n. absurd (n (i.0 refl)),
  λ x y. refl,
  λ n m. absurd (n (w.0 refl)),
)
reported_lem intf_id current pending polls true false w i = (
  λ n y. absurd (n (w.0 refl)),
  λ y n. refl,
  λ x y. let e = i.1 y in cc,
  λ n m. absurd (n (w.0 refl)),
)
reported_lem intf_id current pending polls false true w i = (
  λ n y. refl,
  λ y n. absurd (n (i.0 refl)),
  λ x y. let e = w.1 x in cc,
  λ n m. absurd (m (i.0 refl)),
)
reported_lem intf_id current pending polls false false w i = (
  λ n y. let e = i.1 y in cc,
  λ y n. let e = w.1 y in cc,
  λ x y. let e = w.1 x in cc,
  λ n m. refl,
)

module _ {A : Type 0} where
  -- A flow with 32-bit flags is up exactly if both the administrative and the operational flag (the two low digits) are
  -- set.
  pub flow_is_up_iff :
      (flow : Flow A)
      → flow.current_state_flags < 2 ^ 32
      → (flow_is_up flow ≡ true) ↔ (bit_and flow.current_state_flags 3 ≡ 3)
  unfolding flow_is_up
  flow_is_up_iff flow h =
      let masked = bit_and_three (not32 flow.current_state_flags) in
      let plain = bit_and_three flow.current_state_flags in
      (λ e. ground (arith, masked, plain), λ e. ground (arith, masked, plain))

  abbrev pub settled : Flow A → Flow A
  settled flow = record flow { current_state_flags = flow.pending_state_flags }

  handled :
      (intf_id : ℕ) (flow : Flow A)
      → ((flow_event_handler intf_id flow).0 ≡ settled flow)
        × ((flow_event_handler intf_id flow).1
            ≡ state_event (flow_is_up flow) (flow_is_up (settled flow)) intf_id
              ++ (if bit_and flow.pending_state_flags flag_poll
                    == bit_and flow.current_state_flags flag_poll
                  then []
                  else poll ∷ []))
  unfolding flow_event_handler
  handled intf_id flow = rw (bit_xor_cancel flow.current_state_flags flow.pending_state_flags) (
    refl,
    ap
        (λ (same : Bool).
          state_event (flow_is_up flow) (flow_is_up (settled flow)) intf_id
          ++ (if same then [] else poll ∷ []))
        (==_cong _ _ _ _ (bit_xor_sixteen flow.pending_state_flags flow.current_state_flags)),
  )

  -- For 32-bit flags: the handler makes the pending flags the current ones. It reports `up` exactly
  -- if the flow was not up (administrative and operational flag set) and now is, `down` exactly if it
  -- was up and now is not, and neither otherwise; and then polls exactly if the poll flag changes
  -- either way.
  pub flow_event_handler_lem :
      (intf_id : ℕ) (flow : Flow A)
      → flow.current_state_flags < 2 ^ 32
      → flow.pending_state_flags < 2 ^ 32
      → ((flow_event_handler intf_id flow).0 ≡ settled flow)
        × Reported intf_id flow.current_state_flags flow.pending_state_flags
            (if bit_and flow.pending_state_flags 0x10 == bit_and flow.current_state_flags 0x10
              then []
              else poll ∷ [])
            (flow_event_handler intf_id flow).1
  flow_event_handler_lem intf_id flow h h' =
      let (moved, events) = handled intf_id flow in
      (
        moved,
        rw events (
            reported_lem intf_id flow.current_state_flags flow.pending_state_flags _
              (flow_is_up flow) (flow_is_up (settled flow)) (flow_is_up_iff flow h)
              (flow_is_up_iff (settled flow) h')),
      )

  -- If no job is twice in the active list: setting and clearing flags reports a change exactly if the pending flags change. Then they are the
  -- old ones with `set_bits` added and `clear_bits` taken away, and the flow's job is once in the
  -- active list; otherwise nothing changes. The current flags stay as they are in both cases.
  flow_modify_flags_lem :
      (serial : ℕ) (flow : Flow A) (active_list : List JobId) (set_bits clear_bits : ℕ)
      → Once active_list
      → let next = bit_and (bit_or flow.pending_state_flags set_bits) (not32 clear_bits) in
        let (flow', active_list', changed) =
          flow_modify_flags serial flow active_list set_bits clear_bits in
        (flow' ≡ record flow { pending_state_flags = next })
        × ((changed ≡ false) ↔ (flow.pending_state_flags ≡ next))
        × (changed ≡ true
            → occurrences (record { serial = serial; kind = statechange }) active_list' ≡ 1)
        × (changed ≡ false → active_list' ≡ active_list)
  unfolding flow_modify_flags
  flow_modify_flags_lem serial flow l set clear once =
      let next = bit_and (bit_or flow.pending_state_flags set) (not32 clear) in
      elim (Bool-cases (flow.pending_state_flags == next)) [
        | inl same ↦
            let e : flow.pending_state_flags ≡ next =
              (==_iff flow.pending_state_flags next).0 same in
            rw same (
              ap (λ (n : ℕ). record flow { pending_state_flags = n }) e,
              (λ x. e, λ x. refl),
              λ x. cc,
              λ x. refl,
            )
        | inr differs ↦ rw differs (
          refl,
          (λ x. cc, λ x. ground (arith, differs)),
          λ x.
              (job_mark_active-Once l (record { serial = serial; kind = statechange })
                (some flow_event_handler_id) once).1,
          λ x. cc,
        )
      ]
