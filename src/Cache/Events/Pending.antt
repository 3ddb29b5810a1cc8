-- ===== src/Cache/Events/Pending.antt =====
-- cache/src/v7_cache.c: making an entry pending.
use bplib.Common.{
  ℕ, ◌+◌, ◌≡◌, refl, sym, ap, ◌∙◌, inl, inr, [], ◌∷◌, ◌++◌, ◌==◌, ==_iff, u32, arith, if_true,
  if_false, Bool-cases,
}
use bplib.Cache.{Flags, EntryState, same_state, Entry, CacheState, Outside}
use bplib.Cache.Fsm.{list_extract}
use bplib.Cache.Tally.{tally_moved, tally_ext}
use bplib.Cache.Valid.{held, is_in_state, in_state, IsValidCache}
use bplib.Cache.Events.{make_pending}

module _ {S : Type 0} (o : Outside S) (id : ℕ) (set_flags clear_flags : Flags)
    (st : CacheState S) where
  after : CacheState S
  after = make_pending o id set_flags clear_flags st

  same_held : held id st ≡ 1 → (i : ℕ) → held i after ≡ held i st
  unfolding after make_pending
  same_held one i = tally_moved (λ j. j == i) id st.pending_list st.idle_list one

  -- The state and the content of every entry stay as they are.
  same_entry :
      (i : ℕ)
      → ((after.entries i).state ≡ (st.entries i).state)
        × ((after.entries i).refptr ≡ (st.entries i).refptr)
  unfolding after make_pending
  same_entry i = elim (Bool-cases (i == id)) [
    | inl same ↦
        let found = (==_iff i id).0 same in
        (
          ap (λ (e : Entry). e.state) (if_true _ same)
              ∙ ap (λ (j : ℕ). (st.entries j).state) (sym found),
          ap (λ (e : Entry). e.refptr) (if_true _ same)
              ∙ ap (λ (j : ℕ). (st.entries j).refptr) (sym found),
        )
    | inr other ↦ (
      ap (λ (e : Entry). e.state) (if_false _ other),
      ap (λ (e : Entry). e.refptr) (if_false _ other),
    )
  ]

  same_count : held id st ≡ 1 → (s : EntryState) → in_state s after ≡ in_state s st
  unfolding after make_pending
  same_count one s = omega (
    arith,
    tally_moved (is_in_state s after.entries) id st.pending_list st.idle_list one,
    tally_ext (is_in_state s after.entries) (is_in_state s st.entries) st.pending_list same_test,
    tally_ext (is_in_state s after.entries) (is_in_state s st.entries) st.idle_list same_test,
  )
    where
      same_test : (i : ℕ) → is_in_state s after.entries i ≡ is_in_state s st.entries i
      same_test i = ap (λ (t : EntryState). same_state t s) (same_entry i).0

  -- Making an entry that is in one of the lists pending keeps the invariant, whatever flags are set
  -- and cleared. No entry is lost or doubled; every entry keeps its state and its content; and there
  -- are as many entries in each state as before. The entry is then the last pending one.
  pub make_pending-IsValidCache :
      held id st ≡ 1
      → IsValidCache st
      → IsValidCache (make_pending o id set_flags clear_flags st)
        × ((make_pending o id set_flags clear_flags st).pending_list
            ≡ list_extract id st.pending_list ++ id ∷ [])
        × ((i : ℕ) → held i (make_pending o id set_flags clear_flags st) ≡ held i st)
        × ((i : ℕ)
            → (((make_pending o id set_flags clear_flags st).entries i).state
                ≡ (st.entries i).state)
              × (((make_pending o id set_flags clear_flags st).entries i).refptr
                  ≡ (st.entries i).refptr))
        × ((s : EntryState)
            → in_state s (make_pending o id set_flags clear_flags st) ≡ in_state s st)
  unfolding after make_pending
  make_pending-IsValidCache one v = (
    record {
      once = λ i. omega (arith, v.once i, same_held one i);
      valid = λ i there.
          let v' = v.valid i (omega (arith, there, same_held one i)) in
          let (state, refptr) = same_entry i in
          record {
            queued = λ q. let (blk, found) = v'.queued (sym state ∙ q) in (blk, refptr ∙ found);
            deleted = λ d. refptr ∙ v'.deleted (sym state ∙ d);
          };
      counted = λ s live.
          ap (λ n. u32 (st.fsm_state_exit_count s + n)) (same_count one s) ∙ v.counted s live;
    },
    refl,
    same_held one,
    same_entry,
    same_count one,
  )
