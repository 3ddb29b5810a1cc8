-- ===== src/Cache/Valid.antt =====
-- cache/src/v7_cache.c and v7_cache_fsm.c: the invariant of the cache state.
use bplib.Common.{ℕ, ◌+◌, ◌≤◌, ◌≡◌, Bool, u32}
use bplib.Cache.{EntryState, undefined, same_state, Entry, CacheState}
use bplib.Cache.Fsm.Diagram.{IsValidEntry}
use bplib.Cache.Tally.{tally, occurrences}

abbrev pub is_in_state : EntryState → (ℕ → Entry) → ℕ → Bool
is_in_state s entries i = same_state (entries i).state s

module _ {S : Type 0} where
  -- How often an entry is in the lists of the cache.
  abbrev pub held : ℕ → CacheState S → ℕ
  held id st = occurrences id st.pending_list + occurrences id st.idle_list

  -- The number of entries that are in a state.
  abbrev pub in_state : EntryState → CacheState S → ℕ
  in_state s st =
      tally (is_in_state s st.entries) st.pending_list
      + tally (is_in_state s st.entries) st.idle_list

  -- Of the cache state: no entry is there twice, every entry that is there is valid, and for each
  -- state but `undefined` the two counters differ by the number of the entries in it.
  pub record IsValidCache (st : CacheState S) : Type 0 where
    pub once : (id : ℕ) → held id st ≤ 1
    pub valid : (id : ℕ) → 1 ≤ held id st → IsValidEntry (st.entries id)
    pub counted :
        (s : EntryState)
        → (s ≡ undefined → ⊥)
        → u32 (st.fsm_state_exit_count s + in_state s st) ≡ st.fsm_state_enter_count s
