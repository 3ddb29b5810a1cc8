-- ===== src/Cache/Fsm/Execute.antt =====
-- cache/src/v7_cache_fsm.c: what one run of the state machine on an entry does.
use mathlib.Core.Path.{subst}
use bplib.Common.{
  ℕ, ◌≡◌, refl, sym, ap, ◌∙◌, inl, inr, true, false, ◌&&◌, some, List, [], ◌∷◌, ◌++◌, ◌==◌, ==_iff,
  leb, Bool-cases, if◌then◌else◌, if_true, if_false, bind_some,
}
use bplib.Cache.{
  EntryState, undefined, idle, queue, delete, generate_dacs, same_state, Entry, CacheState, Outside,
}
use bplib.Cache.Fsm.{
  Running, count_up, set_entry, check_timer, get_next_state, counted_transition, change_state,
  reschedule, settle, execute,
}
use bplib.Cache.Fsm.Diagram.{FsmStep, IsValidEntry, get_next_state_lem}
use bplib.Cache.Fsm.Transition.{HasContent, transition_state_lem}

pub same_state-eq : (s s' : EntryState) → same_state s s' ≡ true → s ≡ s'
same_state-eq undefined undefined e = refl
same_state-eq idle idle e = refl
same_state-eq queue queue e = refl
same_state-eq delete delete e = refl
same_state-eq generate_dacs generate_dacs e = refl
same_state-eq undefined idle e = cc
same_state-eq undefined queue e = cc
same_state-eq undefined delete e = cc
same_state-eq undefined generate_dacs e = cc
same_state-eq idle undefined e = cc
same_state-eq idle queue e = cc
same_state-eq idle delete e = cc
same_state-eq idle generate_dacs e = cc
same_state-eq queue undefined e = cc
same_state-eq queue idle e = cc
same_state-eq queue delete e = cc
same_state-eq queue generate_dacs e = cc
same_state-eq delete undefined e = cc
same_state-eq delete idle e = cc
same_state-eq delete queue e = cc
same_state-eq delete generate_dacs e = cc
same_state-eq generate_dacs undefined e = cc
same_state-eq generate_dacs idle e = cc
same_state-eq generate_dacs queue e = cc
same_state-eq generate_dacs delete e = cc

check_timer-state :
    (now : ℕ) (entry : Entry)
    → ((check_timer now entry).state ≡ entry.state)
      × ((check_timer now entry).refptr ≡ entry.refptr)
unfolding check_timer
check_timer-state now entry =
    elim (Bool-cases (entry.flags.action_time_wait && leb entry.action_time now)) [
      | inl due ↦ (
        ap (λ (e : Entry). e.state) (if_true entry due),
        ap (λ (e : Entry). e.refptr) (if_true entry due),
      )
      | inr early ↦ (
        ap (λ (e : Entry). e.state) (if_false _ early),
        ap (λ (e : Entry). e.refptr) (if_false _ early),
      )
    ]

-- The counts after a change of one entry from a state to another.
abbrev pub exit_counted : EntryState → EntryState → (EntryState → ℕ) → EntryState → ℕ
exit_counted s next counts = if same_state next s then counts else count_up s counts

abbrev pub enter_counted : EntryState → EntryState → (EntryState → ℕ) → EntryState → ℕ
enter_counted s next counts = if same_state next s then counts else count_up next counts

module _ {S : Type 0} where
  -- Of a state before and after a run of the state machine on an entry.
  pub record Executed (id : ℕ) (st st' : CacheState S) : Type 0 where
    pub step : FsmStep (st.entries id).state (st'.entries id).state
    pub valid : IsValidEntry (st'.entries id)
    pub others : (i : ℕ) → (i == id) ≡ false → st'.entries i ≡ st.entries i
    pub pending : st'.pending_list ≡ st.pending_list
    pub idled : st'.idle_list ≡ (
        if same_state (st'.entries id).state undefined
        then st.idle_list
        else st.idle_list ++ id ∷ [])
    pub recycled : st'.recycled ≡ (
        if same_state (st'.entries id).state undefined then st.recycled ++ id ∷ [] else st.recycled)
    pub exits :
        st'.fsm_state_exit_count
        ≡ exit_counted (st.entries id).state (st'.entries id).state st.fsm_state_exit_count
    pub enters :
        st'.fsm_state_enter_count
        ≡ enter_counted (st.entries id).state (st'.entries id).state st.fsm_state_enter_count
    pub now : st'.action_time ≡ st.action_time

  -- A cache state after a change of state, before the entry is put away.
  abbrev Moved : EntryState → EntryState → CacheState S → Running S → Type 0
  Moved s next st (entry, st') =
      (st'.pending_list ≡ st.pending_list)
      × (st'.idle_list ≡ st.idle_list)
      × (st'.recycled ≡ st.recycled)
      × (st'.action_time ≡ st.action_time)
      × (st'.entries ≡ st.entries)
      × (st'.fsm_state_exit_count ≡ exit_counted s next st.fsm_state_exit_count)
      × (st'.fsm_state_enter_count ≡ enter_counted s next st.fsm_state_enter_count)
      × (entry.state ≡ next)
      × IsValidEntry entry

  put_lem :
      (id : ℕ) (next : EntryState) (st st' : CacheState S) (entry : Entry)
      → FsmStep (st.entries id).state next
      → Moved
          (st.entries id).state
          next
          st
          (entry, record st' { idle_list = st.idle_list; recycled = st.recycled })
      → st'.idle_list
        ≡ (if same_state next undefined then st.idle_list else st.idle_list ++ id ∷ [])
      → st'.recycled ≡ (if same_state next undefined then st.recycled ++ id ∷ [] else st.recycled)
      → Executed id st (set_entry id entry st')
  put_lem id next st st' entry step (p, i, r, n, es, x, e, arrived, v) idled recycled =
      let self : (id == id) ≡ true = (==_iff id id).1 refl in
      let here : (set_entry id entry st').entries id ≡ entry = if_true (st'.entries id) self in
      let at : next ≡ ((set_entry id entry st').entries id).state =
        sym (ap (λ (t : Entry). t.state) here ∙ arrived) in
      record {
        step = subst (λ (t : EntryState). FsmStep (st.entries id).state t) at step;
        valid = subst IsValidEntry (sym here) v;
        others = λ k other. if_false entry other ∙ ap (λ (f : ℕ → Entry). f k) es;
        pending = p;
        idled =
            subst
              (λ (t : EntryState).
                st'.idle_list
                ≡ (if same_state t undefined then st.idle_list else st.idle_list ++ id ∷ []))
              at idled;
        recycled =
            subst
              (λ (t : EntryState).
                st'.recycled
                ≡ (if same_state t undefined then st.recycled ++ id ∷ [] else st.recycled))
              at recycled;
        exits =
            subst
              (λ (t : EntryState).
                st'.fsm_state_exit_count
                ≡ exit_counted (st.entries id).state t st.fsm_state_exit_count)
              at x;
        enters =
            subst
              (λ (t : EntryState).
                st'.fsm_state_enter_count
                ≡ enter_counted (st.entries id).state t st.fsm_state_enter_count)
              at e;
        now = n;
      }

  settle_lem :
      (id : ℕ) (next : EntryState) (st : CacheState S) (r : Running S)
      → FsmStep (st.entries id).state next
      → Moved (st.entries id).state next st r
      → Executed id st (settle id next r)
  unfolding settle reschedule
  settle_lem id next st (entry, st') step (p, i, r, n, es, x, e, arrived, v) =
      elim (Bool-cases (same_state next undefined)) [
        | inl gone ↦ subst (Executed id st) (sym (if_true _ gone)) (
            put_lem id next st _ entry step (p, refl, refl, n, es, x, e, arrived, v)
              (i ∙ sym (if_true _ gone))
              (ap (λ (l : List ℕ). l ++ id ∷ []) r ∙ sym (if_true _ gone)))
        | inr kept ↦
            let v' : IsValidEntry (reschedule id (entry, st')).0 = record {
              queued = v.queued;
              deleted = v.deleted;
            } in
            subst (Executed id st) (sym (if_false _ kept)) (
              put_lem id next st _ _ step (p, refl, refl, n, es, x, e, arrived, v')
                (ap (λ (l : List ℕ). l ++ id ∷ []) i ∙ sym (if_false _ kept))
                (r ∙ sym (if_false _ kept)))
      ]

module _ {S : Type 0} (o : Outside S) where
  change_state_lem :
      (id : ℕ) (next : EntryState) (entry : Entry) (st : CacheState S)
      → FsmStep entry.state next
      → (entry.state ≡ idle → next ≡ queue → HasContent entry)
      → IsValidEntry entry
      → (r : Running S) × (change_state o id next (entry, st) ≡ some r)
        × Moved entry.state next st r
  unfolding change_state counted_transition
  change_state_lem id next entry st step ready v = elim (Bool-cases (same_state next entry.state)) [
    | inl same ↦ (
      (entry, st),
      if_true _ same,
      (
        refl,
        refl,
        refl,
        refl,
        refl,
        sym (if_true _ same),
        sym (if_true _ same),
        sym (same_state-eq next entry.state same),
        v,
      ),
    )
    | inr other ↦
        let left : CacheState S = record st {
          fsm_state_exit_count = count_up entry.state st.fsm_state_exit_count;
        } in
        let (r, e, kept, arrived, v') = transition_state_lem o id entry left step ready v other in
        let calls = kept.1.2 in
        let r' : Running S =
          (r.0, record r.1 { fsm_state_enter_count = count_up next r.1.fsm_state_enter_count }) in
        (
          r',
          if_false _ other ∙ bind_some _ e,
          (
            ap (λ (t : CacheState S). t.pending_list) calls,
            ap (λ (t : CacheState S). t.idle_list) calls,
            ap (λ (t : CacheState S). t.recycled) calls,
            ap (λ (t : CacheState S). t.action_time) calls,
            ap (λ (t : CacheState S). t.entries) calls,
            ap (λ (t : CacheState S). t.fsm_state_exit_count) calls ∙ sym (if_false _ other),
            ap (λ (t : CacheState S). count_up next t.fsm_state_enter_count) calls
                ∙ sym (if_false _ other),
            arrived,
            v',
          ),
        )
  ]

  -- Whatever the calls out of the cache return, a run of the state machine on a valid entry (one with
  -- its content if it is queued, and none if it is to be deleted) goes through without a NULL
  -- content. It takes the entry along one edge of the state machine or leaves its state, keeps it
  -- valid, and touches no other entry. The entry ends in the idle list, or is recycled if it is
  -- discarded, and a change of state is counted once as an exit and once as an entry.
  pub execute_lem :
      (id : ℕ) (st : CacheState S)
      → IsValidEntry (st.entries id)
      → (st' : CacheState S) × (execute o id st ≡ some st') × Executed id st st'
  unfolding execute
  execute_lem id st v =
      let entry = check_timer st.action_time (st.entries id) in
      let (same, content) = check_timer-state st.action_time (st.entries id) in
      let checked : IsValidEntry entry = record {
        queued = λ q. let (blk, found) = v.queued (sym same ∙ q) in (blk, content ∙ found);
        deleted = λ d. content ∙ v.deleted (sym same ∙ d);
      } in
      let next = (get_next_state o (entry, st)).0 in
      let r = (get_next_state o (entry, st)).1 in
      let (step, kept, key, calls, ready, v') = get_next_state_lem o entry st checked in
      let before : r.0.state ≡ (st.entries id).state = kept ∙ same in
      let step' : FsmStep r.0.state next =
        subst (λ (t : EntryState). FsmStep t next) (sym kept) step in
      let (r', changed, moved) =
        change_state_lem id next r.0 r.1 step' (λ i q. ready (sym kept ∙ i) q) v' in
      (
        settle id next r',
        bind_some _ changed,
        settle_lem id next st r' (subst (λ (t : EntryState). FsmStep t next) same step) (
            subst (λ (t : CacheState S). Moved (st.entries id).state next t r') calls.2
              (subst (λ (t : EntryState). Moved t next r.1 r') before moved)),
      )
