-- ===== src/Mpool/Flow/Push.antt =====
-- mpool/src/v7_mpool_flows.c: pushing to and pulling from a flow's queue.
use bplib.Common.{
  ℕ, ◌+◌, ◌≤◌, ◌<◌, ◌^◌, ◌≡◌, refl, ap, ◌∙◌, inl, inr, Bool, true, false, ◌&&◌, not, none, some,
  List, [], ◌∷◌, ◌++◌, length, length-append, arith, leb, ◌==◌, Bool-cases, All, if◌then◌else◌,
}
use bplib.Mpool.Subq.{WorkItem, push_single}
use bplib.Mpool.Subq.Depth.{IsCounted, get_depth-eq-length, push_single-IsCounted}
use bplib.Mpool.Job.{job_mark_active_internal}
use bplib.Mpool.Job.Laws.{Once, occurrences, job_mark_active-Once}
use bplib.Mpool.Wait.{Wakes, wait_loop, overfull, wait_for_space, wait_loop-ok, wait_loop-now}
use bplib.Mpool.Flow.{Queue, mark_active, try_push}

-- What holds of the state before a wait and of every state that a wake-up finds holds after it.
pub wait_loop-keeps {ℓ} :
    {S : Type 0} (P : S → Type ℓ) (blocked : S → Bool) (wakes : Wakes S) (s : S) (within : Bool)
    → P s
    → All (λ (w : S × Bool). P w.0) wakes
    → P (wait_loop blocked wakes s within).state
unfolding wait_loop
wait_loop-keeps P blocked [] s within h hs = h
wait_loop-keeps P blocked ((s', within') ∷ wakes) s within h hs =
    elim (Bool-cases (blocked s && within)) [
      | inl again ↦ rw again (wait_loop-keeps P blocked wakes s' within' hs.0 hs.1)
      | inr done ↦ rw done h
    ]

module _ {A S : Type 0} (q : Queue A S) where
  abbrev pub blocks : S → List A
  blocks s = (q.subq s).base_subq.block_list

  -- Room for one more block: in the counters, and within the depth limit.
  push_ok :
      (s : S) (x : A)
      → IsCounted (q.subq s).base_subq
      → length (blocks s) + 1 < 2 ^ 32
      → overfull q.subq 1 s ≡ false
      → length (blocks s) + 1 ≤ (q.subq s).current_depth_limit
  unfolding overfull
  push_ok s x c few fits = ground (arith, get_depth-eq-length (q.subq s).base_subq c)

  -- The part of a push that follows the wait.
  pushed : S → A → S
  unfolding mark_active
  pushed s x =
      mark_active q
        (q.set_subq (record (q.subq s) { base_subq = push_single (q.subq s).base_subq x }) s)

  subq-pushed :
      (s : S) (x : A)
      → q.subq (pushed s x) ≡ record (q.subq s) { base_subq = push_single (q.subq s).base_subq x }
  unfolding pushed
  subq-pushed s x = q.subq-set_active _ _ ∙ q.subq-set _ s

  active-pushed :
      (s : S) (x : A)
      → q.active_list (pushed s x)
        ≡ job_mark_active_internal (q.active_list s) q.job (q.subq s).handler
  unfolding pushed
  active-pushed s x = q.active-set _ _ ∙ rw (q.active-set_subq, q.subq-set)

  -- The counters are right, and there are fewer than 2 ^ 32 - 1 blocks.
  abbrev pub Ready : S → Type 0
  Ready s = IsCounted (q.subq s).base_subq × (length (blocks s) + 1 < 2 ^ 32)

  try_push_waited :
      (wakes : Wakes S) (s : S) (x : A) (t : ℕ)
      → let w = wait_for_space q.subq wakes s 1 t in
        try_push q wakes s x t ≡ (if w.ok then (pushed w.state x, true) else (w.state, false))
  unfolding try_push pushed
  try_push_waited wakes s x t = refl

  blocks-pushed : (s : S) (x : A) → blocks (pushed s x) ≡ blocks s ++ x ∷ []
  unfolding push_single
  blocks-pushed s x = ap (λ (w : WorkItem A). w.base_subq.block_list) (subq-pushed s x)

  -- What a push leaves, and that it was allowed, if it reports success; and if it reports failure.
  abbrev pub Pushed : S → A → S → Type 0
  Pushed s x s' =
      (blocks s' ≡ blocks s ++ x ∷ [])
      × IsCounted (q.subq s').base_subq
      × (length (blocks s') ≤ (q.subq s').current_depth_limit)
      × (occurrences q.job (q.active_list s') ≡ (elim (q.subq s).handler [ none ↦ 0 | some _ ↦ 1 ]))

  pushed_lem :
      (s : S) (x : A)
      → Ready s
      → overfull q.subq 1 s ≡ false
      → Once (q.active_list s)
      → Pushed s x (pushed s x)
  unfolding push_single
  pushed_lem s x r fits once = (
    blocks-pushed s x,
    rw (subq-pushed s x) (push_single-IsCounted (q.subq s).base_subq x r.1 r.0),
    rw (blocks-pushed s x, length-append (blocks s) (x ∷ []), subq-pushed s x)
        (push_ok s x r.0 r.1 fits),
    rw (active-pushed s x) (job_mark_active-Once (q.active_list s) q.job (q.subq s).handler once).1,
  )

  full_lem :
      (s : S)
      → Ready s
      → overfull q.subq 1 s ≡ true
      → (q.subq s).current_depth_limit < length (blocks s) + 1
  unfolding overfull
  full_lem s r full = ground (arith, get_depth-eq-length (q.subq s).base_subq r.0)

  -- Whatever the other tasks do while a push waits (as long as every state that it finds has right
  -- counters, room in them, and no job twice in the active list), with `w` the state at the end of
  -- the wait: a push that reports success appends the block to the blocks of `w`, keeps the counters
  -- right, stays within the depth limit, and leaves the queue's job once in the active list exactly
  -- if it has a handler; a push that reports failure leaves `w`, where the limit allows no further
  -- block.
  pub try_push_lem :
      (wakes : Wakes S) (s : S) (x : A) (abs_timeout : ℕ)
      → Ready s × Once (q.active_list s)
      → All (λ (w : S × Bool). Ready w.0 × Once (q.active_list w.0)) wakes
      → let w = (wait_for_space q.subq wakes s 1 abs_timeout).state in
        let r = try_push q wakes s x abs_timeout in
        (r.1 ≡ true → Pushed w x r.0)
        × (r.1 ≡ false → (r.0 ≡ w) × ((q.subq w).current_depth_limit < length (blocks w) + 1))
  unfolding wait_for_space
  try_push_lem wakes s x t h hs =
      let ready =
        wait_loop-keeps (λ (u : S). Ready u × Once (q.active_list u)) (overfull q.subq 1) wakes s
          (not (t == 0)) h hs in
      let ok = wait_loop-ok (overfull q.subq 1) wakes s (not (t == 0)) in
      let w = (wait_loop (overfull q.subq 1) wakes s (not (t == 0))).state in
      elim (Bool-cases (overfull q.subq 1 w)) [
        | inl full ↦
            rw (try_push_waited wakes s x t, wait_for_space, ok, full)
              (λ e. cc, λ e. (refl, full_lem w ready.0 full))
        | inr fits ↦
            rw (try_push_waited wakes s x t, wait_for_space, ok, fits)
              (λ e. pushed_lem w x ready.0 fits ready.1, λ e. cc)
      ]

  -- In a state with right counters and room in them, with no timeout a push decides at once, on the state it is given: it succeeds exactly if one more
  -- block is within the depth limit, and changes nothing if it fails.
  pub try_push-now :
      (wakes : Wakes S) (s : S) (x : A)
      → Ready s
      → ((try_push q wakes s x 0).1 ≡ leb (length (blocks s) + 1) (q.subq s).current_depth_limit)
        × ((try_push q wakes s x 0).1 ≡ false → (try_push q wakes s x 0).0 ≡ s)
  unfolding wait_for_space
  try_push-now wakes s x r =
      let now = wait_loop-now (overfull q.subq 1) wakes s in
      elim (Bool-cases (overfull q.subq 1 s)) [
        | inl full ↦
            let over = full_lem s r full in
            rw (try_push_waited wakes s x 0, wait_for_space, now, full)
              (ground (arith, over), λ e. refl)
        | inr fits ↦
            let within = push_ok s x r.0 r.1 fits in
            rw (try_push_waited wakes s x 0, wait_for_space, now, fits)
              (ground (arith, within), λ e. cc)
      ]
