-- ===== src/Cache/Events/Flush.antt =====
-- cache/src/v7_cache.c: running the state machine on the pending entries.
use mathlib.Core.Path.{subst}
use bplib.Common.{
  ℕ, ◌+◌, ◌≤◌, ◌≡◌, refl, sym, ap, ◌∙◌, inl, inr, ◌⊎◌, Bool, true, false, some, List, [], ◌∷◌, ◌==◌,
  ==_iff, u32, arith, if_true, if_false, if◌then◌else◌, Bool-cases, bind_some,
}
use bplib.Cache.{EntryState, undefined, same_state, Entry, CacheState, Outside}
use bplib.Cache.Fsm.{list_extract}
use bplib.Cache.Fsm.Diagram.{IsValidEntry}
use bplib.Cache.Fsm.Execute.{Executed, execute_lem, exit_counted, enter_counted, same_state-eq}
use bplib.Cache.Tally.{
  bit, tally, occurrences, tally-snoc, tally_cong, tally-cons, list_extract-head,
}
use bplib.Cache.Valid.{held, is_in_state, in_state, IsValidCache}
use bplib.Cache.Events.{flush_from, flush_pending}

-- The counters of one state over a change of state of one entry, where `n` entries beside it are in
-- the state.
counts_lem :
    (s before after : EntryState) (exits enters : EntryState → ℕ) (n : ℕ)
    → u32 (exits s + (n + bit (same_state before s))) ≡ enters s
    → u32 (exit_counted before after exits s + (n + bit (same_state after s)))
      ≡ enter_counted before after enters s
counts_lem s before after exits enters n h = elim (Bool-cases (same_state after before)) [
  | inl same ↦ rw same (rw (same_state-eq after before same) h)
  | inr other ↦ rw other (moved (same_state before s) (same_state after s) (exits s) (enters s) h)
]
  where
    moved :
        (b a : Bool) (x e : ℕ)
        → u32 (x + (n + bit b)) ≡ e
        → u32 ((if b then u32 (x + 1) else x) + (n + bit a)) ≡ (if a then u32 (e + 1) else e)
    moved true true x e h = omega (arith, h)
    moved true false x e h = omega (arith, h)
    moved false true x e h = omega (arith, h)
    moved false false x e h = omega (arith, h)

not_undefined : (s : EntryState) → (s ≡ undefined → ⊥) → bit (same_state undefined s) ≡ 0
not_undefined s live = elim (Bool-cases (same_state undefined s)) [
  | inl same ↦ absurd (live (sym (same_state-eq undefined s same)))
  | inr other ↦ ap bit other
]

module _ {S : Type 0} (id : ℕ) (rest : List ℕ) (st : CacheState S) where
  -- The first pending entry is taken out of the list.
  abbrev taken : CacheState S
  taken = record st { pending_list = rest }

  module _ (st' : CacheState S) (e : st.pending_list ≡ id ∷ rest) (v : IsValidCache st)
      (x : Executed id taken st') where
    pending_tally : (p : ℕ → Bool) → tally p st.pending_list ≡ bit (p id) + tally p rest
    pending_tally p = ap (tally p) e ∙ tally-cons p id rest

    idle_tally :
        (p : ℕ → Bool)
        → tally p st'.idle_list
          ≡ tally p st.idle_list
            + (if same_state (st'.entries id).state undefined then 0 else bit (p id))
    idle_tally p = elim (Bool-cases (same_state (st'.entries id).state undefined)) [
      | inl gone ↦ omega (arith, ap (tally p) (x.idled ∙ if_true _ gone), if_true (bit (p id)) gone)
      | inr kept ↦ omega (
        arith,
        ap (tally p) (x.idled ∙ if_false _ kept),
        if_false 0 {y = bit (p id)} kept,
        tally-snoc p st.idle_list id,
      )
    ]

    self : bit (id == id) ≡ 1
    self = ap bit ((==_iff id id).1 refl)

    -- The entry is nowhere else.
    away : (occurrences id rest ≡ 0) × (occurrences id st.idle_list ≡ 0)
    away = (
      omega (arith, v.once id, pending_tally (λ i. i == id), self),
      omega (arith, v.once id, pending_tally (λ i. i == id), self),
    )

    fewer : (i : ℕ) → held i st' ≤ held i st
    fewer i = elim (Bool-cases (same_state (st'.entries id).state undefined)) [
      | inl gone ↦ omega (
        arith,
        idle_tally (λ j. j == i),
        if_true (bit (id == i)) gone,
        pending_tally (λ j. j == i),
        ap (occurrences i) x.pending,
      )
      | inr kept ↦ omega (
        arith,
        idle_tally (λ j. j == i),
        if_false 0 {y = bit (id == i)} kept,
        pending_tally (λ j. j == i),
        ap (occurrences i) x.pending,
      )
    ]

    conserved :
        (i : ℕ) → held i st' + occurrences i st'.recycled ≡ held i st + occurrences i st.recycled
    conserved i = elim (Bool-cases (same_state (st'.entries id).state undefined)) [
      | inl gone ↦ omega (
        arith,
        idle_tally (λ j. j == i),
        if_true (bit (id == i)) gone,
        pending_tally (λ j. j == i),
        ap (occurrences i) x.pending,
        ap (occurrences i) (x.recycled ∙ if_true _ gone),
        tally-snoc (λ j. j == i) st.recycled id,
      )
      | inr kept ↦ omega (
        arith,
        idle_tally (λ j. j == i),
        if_false 0 {y = bit (id == i)} kept,
        pending_tally (λ j. j == i),
        ap (occurrences i) x.pending,
        ap (occurrences i) (x.recycled ∙ if_false _ kept),
      )
    ]

    still_valid : (i : ℕ) → 1 ≤ held i st' → IsValidEntry (st'.entries i)
    still_valid i there = elim (Bool-cases (i == id)) [
      | inl same ↦
          subst (λ (j : ℕ). IsValidEntry (st'.entries j)) (sym ((==_iff i id).0 same)) x.valid
      | inr other ↦
          subst IsValidEntry (sym (x.others i other)) (v.valid i (omega (arith, there, fewer i)))
    ]

    -- The entries beside the one that is run.
    beside : EntryState → ℕ
    beside s = tally (is_in_state s st.entries) rest + tally (is_in_state s st.entries) st.idle_list

    count_after :
        (s : EntryState)
        → (s ≡ undefined → ⊥)
        → in_state s st' ≡ beside s + bit (same_state (st'.entries id).state s)
    unfolding beside
    count_after s live =
        let p = is_in_state s st'.entries in
        let q = is_in_state s st.entries in
        let agree : (i : ℕ) → (i == id) ≡ false → p i ≡ q i =
          λ i other. ap (λ (t : Entry). same_state t.state s) (x.others i other) in
        let on_rest = tally_cong p q id rest agree away.0 in
        let on_idle = tally_cong p q id st.idle_list agree away.1 in
        let pending = ap (tally p) x.pending in
        elim (Bool-cases (same_state (st'.entries id).state undefined)) [
          | inl gone ↦
              let no_more : bit (same_state (st'.entries id).state s) ≡ 0 =
                ap (λ (t : EntryState). bit (same_state t s))
                  (same_state-eq (st'.entries id).state undefined gone)
                ∙ not_undefined s live in
              omega
                (arith, on_rest, on_idle, pending, idle_tally p, no_more, if_true (bit (p id)) gone)
          | inr kept ↦
              omega
                (arith, on_rest, on_idle, pending, idle_tally p, if_false 0 {y = bit (p id)} kept)
        ]

    count_before :
        (s : EntryState) → in_state s st ≡ beside s + bit (same_state (st.entries id).state s)
    unfolding beside
    count_before s = omega (arith, pending_tally (is_in_state s st.entries))

    executed-IsValidCache : IsValidCache st'
    executed-IsValidCache = record {
      once = λ i. omega (arith, v.once i, fewer i);
      valid = still_valid;
      counted = λ s live.
          let before : u32
                (st.fsm_state_exit_count s + (beside s + bit (same_state (st.entries id).state s)))
              ≡ st.fsm_state_enter_count s =
            ap (λ n. u32 (st.fsm_state_exit_count s + n)) (sym (count_before s))
            ∙ v.counted s live in
          let after =
            counts_lem s (st.entries id).state (st'.entries id).state st.fsm_state_exit_count
              st.fsm_state_enter_count (beside s) before in
          omega (
            arith,
            after,
            count_after s live,
            ap (λ (f : EntryState → ℕ). f s) x.exits,
            ap (λ (f : EntryState → ℕ). f s) x.enters,
          );
    }

module _ {S : Type 0} (o : Outside S) where
  -- The entries that were pending are all dealt with, unless the flow's queue is full.
  abbrev pub Flushed : CacheState S → CacheState S → Type 0
  Flushed st st' =
      IsValidCache st'
      × ((st'.pending_list ≡ []) ⊎ (o.may_push_ingress st'.outside ≡ false))
      × ((i : ℕ) → held i st' + occurrences i st'.recycled ≡ held i st + occurrences i st.recycled)

  flush_from_lem :
      (l : List ℕ) (st : CacheState S)
      → st.pending_list ≡ l
      → IsValidCache st
      → (st' : CacheState S) × (flush_from o l st ≡ some st') × Flushed st st'
  unfolding flush_from
  flush_from_lem [] st e v = (st, refl, (v, inl e, λ i. refl))
  flush_from_lem (id ∷ rest) st e v = elim (Bool-cases (o.may_push_ingress st.outside)) [
    | inr full ↦ (st, if_false _ full, (v, inr full, λ i. refl))
    | inl room ↦
        let extracted : list_extract id st.pending_list ≡ rest =
          ap (list_extract id) e ∙ list_extract-head id rest in
        let there : 1 ≤ held id st = omega (
          arith,
          ap (occurrences id) e,
          tally-cons (λ i. i == id) id rest,
          ap bit ((==_iff id id).1 refl),
        ) in
        let start : CacheState S = record st { pending_list = list_extract id st.pending_list } in
        let (st', done, x) = execute_lem o id start (v.valid id there) in
        let x' : Executed id (taken id rest st) st' =
          subst (λ (l : List ℕ). Executed id (record st { pending_list = l }) st') extracted x in
        let (st'', flushed, (v'', stop, same)) =
          flush_from_lem rest st' x'.pending (executed-IsValidCache id rest st st' e v x') in
        (
          st'',
          if_true _ room ∙ bind_some _ done ∙ flushed,
          (v'', stop, λ i. same i ∙ conserved id rest st st' e v x' i),
        )
  ]

  -- Whatever the calls out of the cache return, flushing a valid cache goes through and keeps it
  -- valid. It ends with no pending entry left or with the ingress queue of the cache's flow no longer
  -- open for more; and every entry is then in as many lists (pending, idle, recycled) as before.
  pub flush_pending_lem :
      (st : CacheState S)
      → IsValidCache st
      → (st' : CacheState S) × (flush_pending o st ≡ some st') × Flushed st st'
  unfolding flush_pending
  flush_pending_lem st v = flush_from_lem st.pending_list st refl v
