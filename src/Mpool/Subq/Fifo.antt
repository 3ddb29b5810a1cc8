-- ===== src/Mpool/Subq/Fifo.antt =====
-- mpool/src/v7_mpool_flows.c: a sub-queue is a first-in first-out queue, whatever the counters say.
use bplib.Common.{
  ◌+◌, ◌<◌, ◌^◌, ◌≡◌, refl, sym, ap, ◌∙◌, Option, none, some, List, [], ◌∷◌, ◌++◌, length,
  length-append, arith, ltb, Bool-cases, inl, inr, nil-of_length,
}
use mathlib.Core.List.{append-nil}
use bplib.Mpool.Subq.{Subq, get_depth, push_single, pull_single, pull_from, move_all, drop_all}
use bplib.Mpool.Subq.Depth.{
  IsCounted, get_depth-eq-length, push_single-IsCounted, pull_single-IsCounted,
  merge_list-IsCounted,
}

-- What a user of the queue does to it.
pub data Op {ℓ} (A : Type ℓ) : Type ℓ where
  push : A → Op A
  pull : Op A

module _ {ℓ} {A : Type ℓ} where
  -- The code: what the pulls of a sequence return, and the queue that is left.
  unfoldable pub run : Subq A → List (Op A) → Subq A × List (Option A)
  run q [] = (q, [])
  run q (push x ∷ ops) = run (push_single q x) ops
  run q (pull ∷ ops) =
      let (q', node) = pull_single q in let (last, nodes) = run q' ops in (last, node ∷ nodes)

  -- The specification: a list, pushed at its end and pulled from its front.
  unfoldable pub run_fifo : List A → List (Op A) → List A × List (Option A)
  run_fifo l [] = (l, [])
  run_fifo l (push x ∷ ops) = run_fifo (l ++ x ∷ []) ops
  run_fifo [] (pull ∷ ops) = let (last, nodes) = run_fifo [] ops in (last, none ∷ nodes)
  run_fifo (x ∷ l) (pull ∷ ops) = let (last, nodes) = run_fifo l ops in (last, some x ∷ nodes)

  pull_single_at : (q : Subq A) {l : List A} → q.block_list ≡ l → pull_single q ≡ pull_from l q
  unfolding pull_single
  pull_single_at q e = ap (λ t. pull_from t q) e

  pub pull_single-nil : (q : Subq A) → q.block_list ≡ [] → pull_single q ≡ (q, none)
  unfolding pull_from
  pull_single-nil q e = pull_single_at q e

  pub pull_single-cons :
      (q : Subq A) (x : A) (l : List A)
      → q.block_list ≡ x ∷ l
      → ((pull_single q).1 ≡ some x) × ((pull_single q).0.block_list ≡ l)
  unfolding pull_from
  pull_single-cons q x l e = rw (pull_single_at q e) (refl, refl)

  abbrev Agrees : Subq A × List (Option A) → List A × List (Option A) → Type ℓ
  Agrees code spec =
      (code.0.block_list ≡ spec.0) × (code.1 ≡ spec.1) × (get_depth code.0 ≡ length spec.0)

  run-fifo_at :
      (ops : List (Op A)) (q : Subq A) (l : List A)
      → q.block_list ≡ l
      → IsCounted q
      → length l + length ops < 2 ^ 32
      → Agrees (run q ops) (run_fifo l ops)
  unfolding run run_fifo pull_from push_single
  run-fifo_at [] q l e c h = (e, refl, get_depth-eq-length q c ∙ ap length e)
  run-fifo_at (push x ∷ ops) q l e c h =
      run-fifo_at ops (push_single q x) (l ++ x ∷ []) (ap (λ t. t ++ x ∷ []) e)
        (push_single-IsCounted q x (omega (arith, ap length e)) c)
        (omega (arith, length-append l (x ∷ [])))
  run-fifo_at (pull ∷ ops) q [] e c h =
      let rest = run-fifo_at ops q [] e c (omega arith) in
      rw (pull_single_at q e) (rest.0, ap (◌∷◌ none) rest.1, rest.2)
  run-fifo_at (pull ∷ ops) q (x ∷ l) e c h =
      let counted : IsCounted (pull_from (x ∷ l) q).0 =
        rw (pull_single_at q e) at (pull_single-IsCounted q c) in
      let rest = run-fifo_at ops (pull_from (x ∷ l) q).0 l refl counted (omega arith) in
      rw (pull_single_at q e) (rest.0, ap (◌∷◌ (some x)) rest.1, rest.2)

  -- Any sequence of pushes and pulls of a queue whose counters are right, with fewer than 2 ^ 32
  -- blocks in play, returns what a first-in first-out list returns, and leaves the same blocks in
  -- the same order; `get_depth` is then their number.
  pub run-fifo :
      (ops : List (Op A)) (q : Subq A)
      → IsCounted q
      → length q.block_list + length ops < 2 ^ 32
      → ((run q ops).0.block_list ≡ (run_fifo q.block_list ops).0)
        × ((run q ops).1 ≡ (run_fifo q.block_list ops).1)
        × (get_depth (run q ops).0 ≡ length (run_fifo q.block_list ops).0)
  run-fifo ops q c h = run-fifo_at ops q q.block_list refl c h

  -- For two queues with right counters and together fewer than 2 ^ 32 blocks: `move_all` appends all blocks of the source to the destination, in order, leaves the source
  -- empty, returns how many it moved, and keeps the counters of both right.
  pub move_all_lem :
      (dst src : Subq A)
      → IsCounted dst
      → IsCounted src
      → length dst.block_list + length src.block_list < 2 ^ 32
      → ((move_all dst src).0.block_list ≡ dst.block_list ++ src.block_list)
        × ((move_all dst src).1.block_list ≡ [])
        × ((move_all dst src).2 ≡ length src.block_list)
        × IsCounted (move_all dst src).0
        × IsCounted (move_all dst src).1
  unfolding move_all
  move_all_lem dst src d s h =
      let depth = get_depth-eq-length src s in
      let both = length-append dst.block_list src.block_list in
      elim (Bool-cases (ltb 0 (get_depth src))) [
        | inl full ↦ rw full (
          refl,
          refl,
          depth,
          omega (arith, depth, both, d.counted, d.few, d.push_word, d.pull_word),
          omega (arith, depth, s.counted, s.few, s.push_word, s.pull_word),
        )
        | inr idle ↦
            let none_left = nil-of_length src.block_list (ground (arith, depth)) in
            rw idle (
              sym (append-nil dst.block_list) ∙ ap (λ t. dst.block_list ++ t) (sym none_left),
              none_left,
              depth,
              d,
              s,
            )
      ]

  -- For queues with right counters and together fewer than 2 ^ 32 blocks: `drop_all` hands all blocks of a queue over for recycling, in order, leaves the queue empty,
  -- returns how many it dropped, and keeps the counters of both right.
  pub drop_all_lem :
      (recycle q : Subq A)
      → IsCounted recycle
      → IsCounted q
      → length recycle.block_list + length q.block_list < 2 ^ 32
      → ((drop_all recycle q).0.block_list ≡ recycle.block_list ++ q.block_list)
        × ((drop_all recycle q).1.block_list ≡ [])
        × ((drop_all recycle q).2 ≡ length q.block_list)
        × IsCounted (drop_all recycle q).0
        × IsCounted (drop_all recycle q).1
  unfolding drop_all
  drop_all_lem recycle q d s h =
      let depth = get_depth-eq-length q s in
      elim (Bool-cases (ltb 0 (get_depth q))) [
        | inl full ↦ rw full (
          refl,
          refl,
          depth,
          merge_list-IsCounted recycle q.block_list h d,
          omega (arith, depth, s.counted, s.few, s.push_word, s.pull_word),
        )
        | inr idle ↦
            let none_left = nil-of_length q.block_list (ground (arith, depth)) in
            rw idle (
              sym (append-nil recycle.block_list)
                  ∙ ap (λ t. recycle.block_list ++ t) (sym none_left),
              none_left,
              depth,
              d,
              s,
            )
      ]
