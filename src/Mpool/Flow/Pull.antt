-- ===== src/Mpool/Flow/Pull.antt =====
-- mpool/src/v7_mpool_flows.c: pulling from a flow's queue, and disabling and enabling it.
use mathlib.Core.Path.{subst}
use bplib.Common.{
  ℕ, ◌+◌, ◌<◌, ◌^◌, ◌≡◌, refl, sym, ap, ◌∙◌, inl, inr, Bool, true, false, not, Option, none, some,
  List, [], ◌∷◌, ◌++◌, length, arith, ◌==◌, Bool-cases, All, nil-of_length,
}
use bplib.Mpool.Subq.{Subq, WorkItem, pull_single, drop_all}
use bplib.Mpool.Subq.Depth.{IsCounted, get_depth-eq-length, pull_single-IsCounted}
use bplib.Mpool.Subq.Fifo.{drop_all_lem, pull_single-cons}
use bplib.Mpool.Job.Laws.{Once, occurrences, gone}
use bplib.Mpool.Wait.{Wakes, wait_loop, underfull, wait_for_fill, wait_loop-ok}
use bplib.Mpool.Flow.{Queue, try_pull, flow_disable, flow_enable, try_push}
use bplib.Mpool.Flow.Push.{wait_loop-keeps, blocks, try_push-now, Ready}

module _ {A S : Type 0} (q : Queue A S) where
  abbrev pub Counted : S → Type 0
  Counted s = IsCounted (q.subq s).base_subq

  -- The first block, if there is one, and the blocks left.
  abbrev pub Pulled : S → Option A → S → Type 0
  Pulled s none s' = (s' ≡ s) × (blocks q s ≡ [])
  Pulled s (some x) s' = (blocks q s ≡ x ∷ blocks q s') × Counted s'

  blocks-set : (w : WorkItem A) (s : S) → blocks q (q.set_subq w s) ≡ w.base_subq.block_list
  blocks-set w s = ap (λ (v : WorkItem A). v.base_subq.block_list) (q.subq-set w s)

  pulled_lem :
      (s : S) (l : List A)
      → blocks q s ≡ l
      → Counted s
      → underfull q.subq 1 s ≡ false
      → let p = pull_single (q.subq s).base_subq in
        Pulled s p.1 (q.set_subq (record (q.subq s) { base_subq = p.0 }) s)
  unfolding underfull
  pulled_lem s [] e c fits =
      absurd (ground (arith, get_depth-eq-length (q.subq s).base_subq c, ap length e))
  pulled_lem s (x ∷ l) e c fits =
      let p = pull_single-cons (q.subq s).base_subq x l e in
      rw p.0 (
        e ∙ ap (◌∷◌ x) (sym (blocks-set _ s ∙ p.1)),
        rw q.subq-set (pull_single-IsCounted (q.subq s).base_subq c),
      )

  empty_lem : (s : S) → Counted s → underfull q.subq 1 s ≡ true → blocks q s ≡ []
  unfolding underfull
  empty_lem s c short =
      nil-of_length (blocks q s) (ground (arith, get_depth-eq-length (q.subq s).base_subq c))

  -- Whatever the other tasks do while a pull waits (as long as every state that it finds has right
  -- counters), with `w` the state at the end of the wait: a pull that returns a block returns the
  -- first block of `w` and leaves the blocks behind it, with right counters; a pull that returns none
  -- leaves `w`, whose queue is empty.
  pub try_pull_lem :
      (wakes : Wakes S) (s : S) (abs_timeout : ℕ)
      → Counted s
      → All (λ (w : S × Bool). Counted w.0) wakes
      → let w = (wait_for_fill q.subq wakes s 1 abs_timeout).state in
        let r = try_pull q wakes s abs_timeout in Pulled w r.1 r.0
  unfolding wait_for_fill try_pull
  try_pull_lem wakes s t h hs =
      let counted = wait_loop-keeps Counted (underfull q.subq 1) wakes s (not (t == 0)) h hs in
      let ok = wait_loop-ok (underfull q.subq 1) wakes s (not (t == 0)) in
      let w = (wait_loop (underfull q.subq 1) wakes s (not (t == 0))).state in
      elim (Bool-cases (underfull q.subq 1 w)) [
        | inl short ↦ rw (ok, short) (refl, empty_lem w counted short)
        | inr fits ↦ rw (ok, fits) (pulled_lem w (blocks q w) refl counted fits)
      ]

  enabled :
      (s : S) (limit : ℕ)
      → q.subq (flow_enable q s limit) ≡ record (q.subq s) { current_depth_limit = limit }
  unfolding flow_enable
  enabled s limit = q.subq-set _ s

  -- For queues with right counters and together fewer than 2 ^ 32 blocks, and no job twice in the active
  -- list: a disabled queue is empty, its blocks are handed over for recycling in order and counted, its job
  -- is not in the active list, and its depth limit is 0. A push with no timeout fails in every later
  -- state `t` (with right counters and fewer than 2 ^ 32 - 1 blocks) in which the depth limit still is
  -- what it was then, and goes through right after the queue is enabled again with another limit than 0.
  pub flow_disable_lem :
      (s t : S) (recycle : Subq A) (x : A)
      → Counted s
      → IsCounted recycle
      → length recycle.block_list + length (blocks q s) < 2 ^ 32
      → Once (q.active_list s)
      → Ready q t
      → let (s', recycle', dropped) = flow_disable q s recycle in
        (blocks q s' ≡ [])
        × (recycle'.block_list ≡ recycle.block_list ++ blocks q s)
        × (dropped ≡ length (blocks q s))
        × (occurrences q.job (q.active_list s') ≡ 0)
        × ((q.subq s').current_depth_limit ≡ 0)
        × ((q.subq t).current_depth_limit ≡ (q.subq s').current_depth_limit
            → (try_push q [] t x 0).1 ≡ false)
        × ((limit : ℕ) → 0 < limit → (try_push q [] (flow_enable q s' limit) x 0).1 ≡ true)
  unfolding flow_disable
  flow_disable_lem s t recycle x c d few once ready =
      let dropped = drop_all_lem recycle (q.subq s).base_subq d c few in
      let s' = (flow_disable q s recycle).0 in
      let left : q.subq s' ≡ record (q.subq s) {
        base_subq = (drop_all recycle (q.subq s).base_subq).1;
        current_depth_limit = 0;
      } =
        q.subq-set_active _ _ ∙ q.subq-set _ s in
      let none_left : blocks q s' ≡ [] = rw (left, blocks) dropped.1 in
      let closed : (q.subq s').current_depth_limit ≡ 0 = rw left refl in
      (
        none_left,
        dropped.0,
        dropped.2,
        rw q.active-set (gone q.job (q.active_list s) once),
        closed,
        λ same. (try_push-now q [] t x ready).0 ∙ ground (arith, same, closed),
        λ limit some_room.
            let e = enabled s' limit in
            let none_there : blocks q (flow_enable q s' limit) ≡ [] =
              ap (λ (w : WorkItem A). w.base_subq.block_list) e ∙ none_left in
            (try_push-now q [] (flow_enable q s' limit) x (
              subst (λ (w : WorkItem A). IsCounted w.base_subq) (sym e) (rw left dropped.4),
              rw none_there (omega arith),
            )).0
            ∙ ground
                (arith, none_there, ap (λ (w : WorkItem A). w.current_depth_limit) e, some_room),
      )
