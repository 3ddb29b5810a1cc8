-- ===== src/Cache/Fsm/Diagram.antt =====
-- cache/src/v7_cache_fsm.c: which states follow which, and what the functions of the state machine
-- leave of an entry and of the cache state.
use mathlib.Core.Path.{subst}
use bplib.Common.{
  ℕ, ◌≡◌, refl, sym, ap, ◌∙◌, inl, inr, not, Option, none, some, List, leb, Bool-cases, if_true,
  if_false,
}
use bplib.Cache.{
  action_wait_state, EntryState, undefined, idle, queue, delete, generate_dacs, Entry, CacheState,
  Outside,
}
use bplib.Cache.Fsm.{
  Running, restore_content, idle_eval, queue_eval, delete_eval, generate_dacs_eval, state_eval,
  get_next_state,
}

-- The edges of the state machine.
pub data FsmStep : EntryState → EntryState → Type 0 where
  stay : (s : EntryState) → FsmStep s s
  expire : FsmStep idle undefined
  hand_over : FsmStep idle delete
  transmit : FsmStep idle queue
  unqueue : FsmStep queue idle
  age_out : FsmStep delete undefined
  send_dacs : FsmStep generate_dacs idle

-- A queued entry has its content, and an entry that is to be deleted has none any more.
pub record IsValidEntry (entry : Entry) : Type 0 where
  pub queued : entry.state ≡ queue → (blk : ℕ) × (entry.refptr ≡ some blk)
  pub deleted : entry.state ≡ delete → entry.refptr ≡ none

pub other-IsValidEntry :
    (entry : Entry) {s : EntryState}
    → entry.state ≡ s
    → (s ≡ queue → ⊥)
    → (s ≡ delete → ⊥)
    → IsValidEntry entry
other-IsValidEntry entry e not_queue not_delete = record {
  queued = λ q. absurd (not_queue (sym e ∙ q));
  deleted = λ d. absurd (not_delete (sym e ∙ d));
}

idle-IsValidEntry : (entry : Entry) → entry.state ≡ idle → IsValidEntry entry
idle-IsValidEntry entry e = other-IsValidEntry entry e (λ q. cc) (λ d. cc)

module _ {S : Type 0} (o : Outside S) where
  -- The first state with other calls made, and without some entries in the index of DACS bundles.
  abbrev pub OnlyCalls : CacheState S → CacheState S → Type 0
  OnlyCalls st st' = (s : S) × (l : List ℕ) × (st' ≡ record st { outside = s; dacs_index = l })

  pub OnlyCalls-trans :
      (st : CacheState S) {st' st'' : CacheState S}
      → OnlyCalls st st'
      → OnlyCalls st' st''
      → OnlyCalls st st''
  OnlyCalls-trans st (s, l, e) (s', l', e') =
      (s', l', e' ∙ ap (λ (t : CacheState S). record t { outside = s'; dacs_index = l' }) e)

  -- What is known after an evaluation of an entry that is in a state.
  abbrev pub Evaluated : Running S → EntryState × Running S → Type 0
  Evaluated (entry, st) (next, (entry', st')) =
      FsmStep entry.state next
      × (entry'.state ≡ entry.state)
      × (entry'.time_key ≡ entry.time_key)
      × OnlyCalls st st'
      × (entry.state ≡ idle → next ≡ queue → (blk : ℕ) × (entry'.refptr ≡ some blk))
      × IsValidEntry entry'

  by {ℓ} : {A : Type ℓ} (P : A → Type 0) {a b : A} → a ≡ b → P b → P a
  by P e h = subst P (sym e) h

  -- An evaluation that leaves everything as it is.
  same :
      (entry : Entry) (st : CacheState S) {s next : EntryState}
      → entry.state ≡ s
      → FsmStep s next
      → (s ≡ idle → next ≡ queue → ⊥)
      → IsValidEntry entry
      → Evaluated (entry, st) (next, (entry, st))
  same entry st e step never v = (
    rw e step,
    refl,
    refl,
    (st.outside, st.dacs_index, refl),
    λ i q. absurd (never (sym e ∙ i) q),
    v,
  )

  -- The content of an idle entry that is ready is there, or can be restored, or not.
  restored :
      (entry : Entry) (st : CacheState S) (refptr : Option ℕ) (s : S)
      → entry.state ≡ idle
      → Evaluated
          (entry, st)
          (
            elim refptr [ some blk ↦ queue | none ↦ idle ],
            (record entry { refptr = refptr }, record st { outside = s }),
          )
  restored entry st (some blk) s e = (
    rw e transmit,
    refl,
    refl,
    (s, st.dacs_index, refl),
    λ i q. (blk, refl),
    idle-IsValidEntry _ e,
  )
  restored entry st none s e = (
    rw e (stay idle),
    refl,
    refl,
    (s, st.dacs_index, refl),
    λ i q. absurd (idle_not_queue q),
    idle-IsValidEntry _ e,
  )
    where
      idle_not_queue : idle ≡ queue → ⊥
      idle_not_queue q = cc

  idle_eval_lem :
      (entry : Entry) (st : CacheState S)
      → entry.state ≡ idle
      → Evaluated (entry, st) (idle_eval o (entry, st))
  unfolding idle_eval restore_content
  idle_eval_lem entry st e =
      let v = idle-IsValidEntry entry e in
      elim (Bool-cases (leb entry.expire_time st.action_time)) [
        | inl old ↦
            by (Evaluated (entry, st)) (if_true _ old) (same entry st e expire (λ i q. cc) v)
        | inr young ↦
            by (Evaluated (entry, st)) (if_false _ young)
              (elim (Bool-cases entry.flags.local_custody) [
                | inr given ↦
                    by (Evaluated (entry, st)) (if_true _ (ap not given))
                      (same entry st e hand_over (λ i q. cc) v)
                | inl held ↦
                    by (Evaluated (entry, st)) (if_false _ (ap not held))
                      (elim (Bool-cases (action_wait_state entry.flags)) [
                        | inl waits ↦
                            by (Evaluated (entry, st)) (if_true _ waits)
                              (same entry st e (stay idle) (λ i q. cc) v)
                        | inr ready ↦
                            by (Evaluated (entry, st)) (if_false _ ready) (restored entry st _ _ e)
                      ])
              ])
      ]

  delete_eval_lem :
      (entry : Entry) (st : CacheState S)
      → entry.state ≡ delete
      → IsValidEntry entry
      → Evaluated (entry, st) (delete_eval (entry, st))
  unfolding delete_eval
  delete_eval_lem entry st e v = elim (Bool-cases entry.flags.action_time_wait) [
    | inl waits ↦
        by (Evaluated (entry, st)) (if_true _ waits) (same entry st e (stay delete) (λ i q. cc) v)
    | inr due ↦
        by (Evaluated (entry, st)) (if_false _ due) (elim (Bool-cases entry.flags.activity) [
          | inr unused ↦
              by (Evaluated (entry, st)) (if_true _ (ap not unused))
                (same entry st e age_out (λ i q. cc) v)
          | inl used ↦ by (Evaluated (entry, st)) (if_false _ (ap not used)) (
            rw e (stay delete),
            refl,
            refl,
            (st.outside, st.dacs_index, refl),
            λ i q. absurd (delete_not_idle (sym e ∙ i)),
            record { queued = v.queued; deleted = v.deleted },
          )
        ])
  ]
    where
      delete_not_idle : delete ≡ idle → ⊥
      delete_not_idle q = cc

  state_eval_lem :
      (entry : Entry) (st : CacheState S) (s : EntryState)
      → entry.state ≡ s
      → IsValidEntry entry
      → Evaluated (entry, st) (state_eval o s (entry, st))
  unfolding state_eval queue_eval generate_dacs_eval
  state_eval_lem entry st undefined e v = same entry st e (stay undefined) (λ i q. cc) v
  state_eval_lem entry st idle e v = idle_eval_lem entry st e
  state_eval_lem entry st queue e v = elim (Bool-cases entry.flags.locally_queued) [
    | inl waits ↦
        by (λ next. Evaluated (entry, st) (next, (entry, st))) (if_true _ waits)
          (same entry st e (stay queue) (λ i q. cc) v)
    | inr gone ↦
        by (λ next. Evaluated (entry, st) (next, (entry, st))) (if_false _ gone)
          (same entry st e unqueue (λ i q. cc) v)
  ]
  state_eval_lem entry st delete e v = delete_eval_lem entry st e v
  state_eval_lem entry st generate_dacs e v = elim (Bool-cases entry.flags.action_time_wait) [
    | inl waits ↦
        by (λ next. Evaluated (entry, st) (next, (entry, st))) (if_true _ waits)
          (same entry st e (stay generate_dacs) (λ i q. cc) v)
    | inr due ↦
        by (λ next. Evaluated (entry, st) (next, (entry, st))) (if_false _ due)
          (same entry st e send_dacs (λ i q. cc) v)
  ]

  pub get_next_state_lem :
      (entry : Entry) (st : CacheState S)
      → IsValidEntry entry
      → Evaluated (entry, st) (get_next_state o (entry, st))
  unfolding get_next_state
  get_next_state_lem entry st v = state_eval_lem entry st entry.state refl v
