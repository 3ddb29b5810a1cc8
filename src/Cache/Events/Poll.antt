-- ===== src/Cache/Events/Poll.antt =====
-- cache/src/v7_cache.c: the poll of the time index.
use bplib.Common.{
  ℕ, ◌+◌, ◌≤◌, ◌≡◌, refl, sym, ap, ◌∙◌, inl, inr, List, [], ◌∷◌, ◌++◌, ◌==◌, ==_iff, u32, arith,
  if_true, if_false, Bool-cases,
}
use bplib.Cache.{EntryState, same_state, Entry, CacheState, Outside}
use bplib.Cache.Fsm.{index_extract, list_extract, set_entry}
use bplib.Cache.Tally.{
  bit, occurrences, tally-cons, tally-nil, tally-snoc, tally_ext, tally-list_extract,
  list_extract-away,
}
use bplib.Cache.Valid.{held, is_in_state, in_state, IsValidCache}
use bplib.Cache.Events.{no_flags, make_pending, met, poll_entries, do_poll}
use bplib.Cache.Events.Pending.{make_pending-IsValidCache}

-- Moving one number to the end of a list loses none.
still_there :
    (i id : ℕ) (l : List ℕ) → occurrences i l ≤ occurrences i (list_extract id l ++ id ∷ [])
still_there i id l = elim (Bool-cases (occurrences id l == 0)) [
  | inl away ↦ omega (
    arith,
    tally-snoc (λ j. j == i) (list_extract id l) id,
    ap (occurrences i) (list_extract-away id l ((==_iff (occurrences id l) 0).0 away)),
  )
  | inr there ↦ omega (
    arith,
    tally-snoc (λ j. j == i) (list_extract id l) id,
    tally-list_extract (λ j. j == i) id l (ground (arith, there)),
  )
]

module _ {S : Type 0} (id : ℕ) (st : CacheState S) where
  -- The entry is taken out of the time index.
  abbrev unscheduled : CacheState S
  unscheduled =
      set_entry id (record (st.entries id) { time_key = 0 })
        (record st { time_index = index_extract id st.time_index })

  same_entry :
      (i : ℕ)
      → ((unscheduled.entries i).state ≡ (st.entries i).state)
        × ((unscheduled.entries i).refptr ≡ (st.entries i).refptr)
  same_entry i = elim (Bool-cases (i == id)) [
    | inl same ↦
        let found = (==_iff i id).0 same in
        (
          ap (λ (e : Entry). e.state) (if_true _ same)
              ∙ ap (λ (j : ℕ). (st.entries j).state) (sym found),
          ap (λ (e : Entry). e.refptr) (if_true _ same)
              ∙ ap (λ (j : ℕ). (st.entries j).refptr) (sym found),
        )
    | inr other ↦ (
      ap (λ (e : Entry). e.state) (if_false _ other),
      ap (λ (e : Entry). e.refptr) (if_false _ other),
    )
  ]

  same_count : (s : EntryState) → in_state s unscheduled ≡ in_state s st
  same_count s = omega (
    arith,
    tally_ext (is_in_state s unscheduled.entries) (is_in_state s st.entries) st.pending_list
        same_test,
    tally_ext (is_in_state s unscheduled.entries) (is_in_state s st.entries) st.idle_list same_test,
  )
    where
      same_test : (i : ℕ) → is_in_state s unscheduled.entries i ≡ is_in_state s st.entries i
      same_test i = ap (λ (t : EntryState). same_state t s) (same_entry i).0

  unscheduled-IsValidCache : IsValidCache st → IsValidCache unscheduled
  unscheduled-IsValidCache v = record {
    once = v.once;
    valid = λ i there.
        let v' = v.valid i there in
        let (state, refptr) = same_entry i in
        record {
          queued = λ q. let (blk, found) = v'.queued (sym state ∙ q) in (blk, refptr ∙ found);
          deleted = λ d. refptr ∙ v'.deleted (sym state ∙ d);
        };
    counted =
        λ s live. ap (λ n. u32 (st.fsm_state_exit_count s + n)) (same_count s) ∙ v.counted s live;
  }

module _ {S : Type 0} (o : Outside S) where
  -- What a poll of some entries keeps, and that they are all pending after it.
  abbrev pub Polled : List ℕ → CacheState S → CacheState S → Type 0
  Polled ids st st' =
      IsValidCache st'
      × ((i : ℕ) → held i st' ≡ held i st)
      × ((i : ℕ)
          → 1 ≤ occurrences i st.pending_list + occurrences i ids
          → occurrences i st'.pending_list ≡ 1)

  poll_entries_lem :
      (ids : List ℕ) (st : CacheState S)
      → ((i : ℕ) → 1 ≤ occurrences i ids → held i st ≡ 1)
      → IsValidCache st
      → Polled ids st (poll_entries o ids st)
  unfolding poll_entries
  poll_entries_lem [] st there v =
      (v, λ i. refl, λ i p. omega (arith, p, v.once i, tally-nil (λ j. j == i)))
  poll_entries_lem (id ∷ rest) st there v =
      let one =
        there id
          (omega (arith, tally-cons (λ j. j == id) id rest, ap bit ((==_iff id id).1 refl))) in
      let (v', at_end, same, _, _) = make_pending-IsValidCache o id no_flags no_flags st one v in
      let st' = make_pending o id no_flags no_flags st in
      let (w, kept, all) =
        poll_entries_lem rest (unscheduled id st')
          (λ i p. same i ∙ there i (omega (arith, p, tally-cons (λ j. j == i) id rest)))
          (unscheduled-IsValidCache id st' v') in
      (
        w,
        λ i. kept i ∙ same i,
        λ i p. all i (
            omega (
              arith,
              p,
              tally-cons (λ j. j == i) id rest,
              still_there i id st.pending_list,
              ap (occurrences i) at_end,
              tally-snoc (λ j. j == i) (list_extract id st.pending_list) id,
            )),
      )

  -- When every entry of the time index that the iteration of a poll meets is in one of the lists, the
  -- poll makes all of these entries pending, and leaves pending those that are. It keeps the
  -- invariant: no entry is lost or doubled, and the counters still agree with the states.
  pub do_poll_lem :
      (reached : ℕ) (st : CacheState S)
      → ((i : ℕ) → 1 ≤ occurrences i (met reached st.time_index) → held i st ≡ 1)
      → IsValidCache st
      → Polled (met reached st.time_index) st (do_poll o reached st)
  unfolding do_poll
  do_poll_lem reached st there v = poll_entries_lem (met reached st.time_index) st there v
