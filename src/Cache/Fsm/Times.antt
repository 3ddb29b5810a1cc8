-- ===== src/Cache/Fsm/Times.antt =====
-- cache/src/v7_cache_fsm.c: when an entry is looked at again.
use mathlib.Core.Path.{subst}
use bplib.Common.{
  ℕ, ◌+◌, ◌≤◌, ◌<◌, ◌^◌, ◌≡◌, ◌≢◌, refl, sym, ap, ◌∙◌, inl, inr, true, false, List, [], ◌∷◌, ◌++◌,
  All, arith, leb, ◌==◌, ==_iff, Bool-cases, if_true, if_false, if◌then◌else◌,
}
use bplib.Rbtree.Insert.{stored_key-small}
use bplib.Cache.{Entry, CacheState, action_wait_state}
use bplib.Cache.Fsm.{
  next_look, reschedule, index_insert, index_extract, idle_retry_time, fast_retry_time,
}

next_look_lem :
    (now : ℕ) (entry : Entry)
    → now + idle_retry_time < 2 ^ 64
    → let key = next_look now entry in
      (key ≤ now + idle_retry_time)
      × (entry.flags.action_time_wait ≡ true → key ≤ entry.action_time)
      × (action_wait_state entry.flags ≡ false → key ≤ now + fast_retry_time)
      × ((entry.flags.action_time_wait ≡ true → now < entry.action_time) → now < key)
unfolding next_look
next_look_lem now entry h = (ground arith, ground arith, ground arith, λ later. ground arith)

abbrev pub IsLater : ℕ → List (ℕ × ℕ) → Type 0
IsLater key [] = Unit
IsLater key ((k, i) ∷ rest) = key < k

-- A node that is put into the index: behind those with keys that are not larger, and before the rest.
pub record Inserted (key id : ℕ) (index index' : List (ℕ × ℕ)) : Type 0 where
  pub before : List (ℕ × ℕ)
  pub after : List (ℕ × ℕ)
  pub old : index ≡ before ++ after
  pub new : index' ≡ before ++ (key, id) ∷ after
  pub not_later : All (λ n. n.0 ≤ key) before
  pub later : IsLater key after

index_insert-Inserted :
    (key id : ℕ) (index : List (ℕ × ℕ)) → Inserted key id index (index_insert key id index)
unfolding index_insert
index_insert-Inserted key id [] = record {
  before = [];
  after = [];
  old = refl;
  new = refl;
  not_later = tt;
  later = tt;
}
index_insert-Inserted key id ((k, i) ∷ rest) =
    let more = index_insert-Inserted key id rest in
    elim (Bool-cases (leb k key)) [
      | inl behind ↦ record {
        before = (k, i) ∷ more.before;
        after = more.after;
        old = ap (◌∷◌ (k, i)) more.old;
        new = if_true _ behind ∙ ap (◌∷◌ (k, i)) more.new;
        not_later = (ground (arith, behind), more.not_later);
        later = more.later;
      }
      | inr here ↦ record {
        before = [];
        after = (k, i) ∷ rest;
        old = refl;
        new = if_false _ here;
        not_later = tt;
        later = ground (arith, here);
      }
    ]

module _ {S : Type 0} where
  -- While the clock is at least an hour below 2 ^ 63 ms: a rescheduled entry gets a key at which it is
  -- looked at again within an hour; not after its action time, if it waits for that; within three
  -- seconds, if it waits for nothing; and not before the next tick, unless it waits for a time that
  -- has passed. If that is the key that it has, the time index stays as it is. Otherwise the node of
  -- the entry, if it had a key, is taken out of the index, and is put in with the new key, behind the
  -- nodes with keys that are not larger and before those with larger ones.
  pub reschedule_lem :
      (id : ℕ) (entry : Entry) (st : CacheState S)
      → st.action_time + idle_retry_time < 2 ^ 63
      → let (entry', st') = reschedule id (entry, st) in
        let key = entry'.time_key in
        (key ≤ st.action_time + idle_retry_time)
        × (entry.flags.action_time_wait ≡ true → key ≤ entry.action_time)
        × (action_wait_state entry.flags ≡ false → key ≤ st.action_time + fast_retry_time)
        × ((entry.flags.action_time_wait ≡ true → st.action_time < entry.action_time)
            → st.action_time < key)
        × (key ≡ entry.time_key → st'.time_index ≡ st.time_index)
        × (key ≢ entry.time_key → entry.time_key ≡ 0 → Inserted key id st.time_index st'.time_index)
        × (key ≢ entry.time_key
            → entry.time_key ≢ 0
            → Inserted key id (index_extract id st.time_index) st'.time_index)
  unfolding reschedule
  reschedule_lem id entry st h =
      let ref_time = next_look st.action_time entry in
      let (hour, action, fast, tick) = next_look_lem st.action_time entry (omega arith) in
      let small = stored_key-small ref_time (omega arith) in
      let test = ref_time == entry.time_key in
      let out = reschedule id (entry, st) in
      let key : out.0.time_key ≡ ref_time = elim (Bool-cases test) [
        | inl same ↦ if_true _ same ∙ sym ((==_iff ref_time entry.time_key).0 same)
        | inr other ↦ if_false _ other ∙ small
      ] in
      let others = if entry.time_key == 0 then st.time_index else index_extract id st.time_index in
      let moved : (out.0.time_key ≢ entry.time_key)
          → out.1.time_index ≡ index_insert out.0.time_key id others =
        λ differs. elim (Bool-cases test) [
          | inl same ↦ absurd (differs (if_true _ same))
          | inr other ↦
              if_false _ other ∙ ap (λ (k : ℕ). index_insert k id others) (sym (if_false _ other))
        ] in
      (
        omega (arith, key, hour),
        λ waits. omega (arith, key, action waits),
        λ ready. omega (arith, key, fast ready),
        λ ahead. omega (arith, key, tick ahead),
        λ same. if_true _ ((==_iff ref_time entry.time_key).1 (sym key ∙ same)),
        λ differs none_yet.
            subst (λ l. Inserted out.0.time_key id l out.1.time_index)
              (if_true _ ((==_iff entry.time_key 0).1 none_yet))
              (subst (Inserted out.0.time_key id others) (sym (moved differs))
                (index_insert-Inserted out.0.time_key id others)),
        λ differs had.
            subst (λ l. Inserted out.0.time_key id l out.1.time_index)
              (if_false {b = entry.time_key == 0} _ (ground (arith, had)))
              (subst (Inserted out.0.time_key id others) (sym (moved differs))
                (index_insert-Inserted out.0.time_key id others)),
      )
