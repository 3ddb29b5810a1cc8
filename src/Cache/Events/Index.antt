-- ===== src/Cache/Events/Index.antt =====
-- cache/src/v7_cache.c: what a poll leaves in the time index.
use bplib.Common.{
  ℕ, zero, suc, ◌≤◌, ◌≡◌, refl, sym, ap, ◌∙◌, inl, inr, List, [], ◌∷◌, ◌++◌, map, ◌==◌, ==_iff,
  arith, if_true, Bool-cases,
}
use bplib.Cache.{CacheState, Outside}
use bplib.Cache.Fsm.{index_extract, set_entry}
use bplib.Cache.Tally.{bit, occurrences, tally-cons, tally-nil, tally-snoc}
use bplib.Cache.Events.{no_flags, make_pending, met, poll_entries, do_poll}

-- The entries of an index.
abbrev pub indexed : List (ℕ × ℕ) → List ℕ
indexed index = map (λ e. e.1) index

abbrev pub drop : ℕ → List (ℕ × ℕ) → List (ℕ × ℕ)
drop zero index = index
drop (suc n) [] = []
drop (suc n) (e ∷ rest) = drop n rest

extract_all : List ℕ → List (ℕ × ℕ) → List (ℕ × ℕ)
extract_all [] index = index
extract_all (id ∷ ids) index = extract_all ids (index_extract id index)

extract_all-snoc :
    (ids : List ℕ) (id : ℕ) (index : List (ℕ × ℕ))
    → extract_all (ids ++ id ∷ []) index ≡ index_extract id (extract_all ids index)
unfolding extract_all
extract_all-snoc [] id index = refl
extract_all-snoc (i ∷ ids) id index = extract_all-snoc ids id (index_extract i index)

-- An entry that is not taken out stays in front.
extract_all-cons :
    (ids : List ℕ) (key id : ℕ) (rest : List (ℕ × ℕ))
    → occurrences id ids ≡ 0
    → extract_all ids ((key, id) ∷ rest) ≡ (key, id) ∷ extract_all ids rest
unfolding extract_all index_extract
extract_all-cons [] key id rest away = refl
extract_all-cons (i ∷ ids) key id rest away = elim (Bool-cases (id == i)) [
  | inl same ↦ absurd (
      omega (
        arith,
        away,
        tally-cons (λ j. j == id) i ids,
        ap bit ((==_iff i id).1 (sym ((==_iff id i).0 same))),
      ))
  | inr other ↦ rw other (
      extract_all-cons ids key id (index_extract i rest)
        (omega (arith, away, tally-cons (λ j. j == id) i ids)))
]

met-indexed :
    (i reached : ℕ) (index : List (ℕ × ℕ))
    → occurrences i (met reached index) ≤ occurrences i (indexed index)
unfolding met
met-indexed i zero index = omega (arith, tally-nil (λ j. j == i))
met-indexed i (suc reached) [] = omega arith
met-indexed i (suc reached) ((key, id) ∷ rest) = omega (
  arith,
  met-indexed i reached rest,
  tally-snoc (λ j. j == i) (met reached rest) id,
  tally-cons (λ j. j == i) id (indexed rest),
)

extract_all-met :
    (reached : ℕ) (index : List (ℕ × ℕ))
    → ((i : ℕ) → occurrences i (indexed index) ≤ 1)
    → extract_all (met reached index) index ≡ drop reached index
unfolding extract_all met index_extract
extract_all-met zero index once = refl
extract_all-met (suc reached) [] once = refl
extract_all-met (suc reached) ((key, id) ∷ rest) once =
    extract_all-snoc (met reached rest) id ((key, id) ∷ rest)
    ∙ ap (index_extract id) (
        extract_all-cons (met reached rest) key id rest (
          omega (
            arith,
            once id,
            met-indexed id reached rest,
            tally-cons (λ j. j == id) id (indexed rest),
            ap bit ((==_iff id id).1 refl),
          )))
    ∙ if_true ((key, id) ∷ index_extract id (extract_all (met reached rest) rest))
        ((==_iff id id).1 refl)
    ∙ extract_all-met reached rest
        (λ i. omega (arith, once i, tally-cons (λ j. j == i) id (indexed rest)))

module _ {S : Type 0} (o : Outside S) where
  poll_entries-index :
      (ids : List ℕ) (st : CacheState S)
      → (poll_entries o ids st).time_index ≡ extract_all ids st.time_index
  unfolding poll_entries make_pending extract_all
  poll_entries-index [] st = refl
  poll_entries-index (id ∷ ids) st =
      let pending = make_pending o id no_flags no_flags st in
      poll_entries-index ids (
        set_entry id (record (pending.entries id) { time_key = 0 })
          (record pending { time_index = index_extract id pending.time_index }))

  -- When no entry is twice in the time index, a poll leaves in it exactly the entries that its
  -- iteration does not meet, in the same order.
  pub do_poll-drop :
      (reached : ℕ) (st : CacheState S)
      → ((i : ℕ) → occurrences i (indexed st.time_index) ≤ 1)
      → (do_poll o reached st).time_index ≡ drop reached st.time_index
  unfolding do_poll
  do_poll-drop reached st once =
      poll_entries-index (met reached st.time_index) st ∙ extract_all-met reached st.time_index once
