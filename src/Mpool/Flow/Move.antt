-- ===== src/Mpool/Flow/Move.antt =====
-- mpool/src/v7_mpool_flows.c: moving all blocks of one flow's queue to another's.
use bplib.Common.{
  ℕ, zero, suc, ◌+◌, ◌≤◌, ◌<◌, ◌^◌, ◌≡◌, refl, sym, ap, ◌∙◌, ◌↔◌, ◌⊎◌, inl, inr, Bool, true, false,
  ◌&&◌, not, some, List, [], ◌∷◌, ◌++◌, length, arith, ltb, ◌==◌, Bool-cases, if◌then◌else◌,
}
use bplib.Mpool.Subq.{WorkItem, get_depth, move_all}
use bplib.Mpool.Subq.Depth.{IsCounted, get_depth-eq-length}
use bplib.Mpool.Subq.Fifo.{move_all_lem}
use bplib.Mpool.Job.{JobId}
use bplib.Mpool.Wait.{Wakes, wait_loop, overfull, wait_for_space}
use bplib.Mpool.Flow.{Queue, mark_active, move_wait, move_now, try_move_all}

wait_loop-fewer :
    {S : Type 0} (blocked : S → Bool) (wakes : Wakes S) (s : S) (within : Bool)
    → length (wait_loop blocked wakes s within).wakes ≤ length wakes
unfolding wait_loop
wait_loop-fewer blocked [] s within = omega arith
wait_loop-fewer blocked ((s', within') ∷ wakes) s within = elim (Bool-cases (blocked s && within)) [
  | inl again ↦ rw again (omega (arith, wait_loop-fewer blocked wakes s' within'))
  | inr done ↦ rw done (omega arith)
]

-- A wait uses up wake-ups or leaves the state as it is.
wait_loop-progress :
    {S : Type 0} (blocked : S → Bool) (wakes : Wakes S) (s : S) (within : Bool)
    → ((wait_loop blocked wakes s within).state ≡ s)
      ⊎ (length (wait_loop blocked wakes s within).wakes < length wakes)
unfolding wait_loop
wait_loop-progress blocked [] s within = inl refl
wait_loop-progress blocked ((s', within') ∷ wakes) s within =
    elim (Bool-cases (blocked s && within)) [
      | inl again ↦ rw again (elim (wait_loop-progress blocked wakes s' within') [
        | inl same ↦ inr (shorter (wait_loop-fewer blocked wakes s' within'))
        | inr fewer ↦ inr (omega arith)
      ])
      | inr done ↦ rw done (inl refl)
    ]
  where
    shorter : {m n : ℕ} → m ≤ n → m < suc n
    shorter h = omega arith

and_false : (a : Bool) {b : Bool} → b ≡ false → (a && b) ≡ false
and_false true e = e
and_false false e = refl

-- Two queues of one pool that are not the same.
pub record Apart {A S : Type 0} (dst src : Queue A S) : Type 0 where
  pub src-set_dst : (w : WorkItem A) (s : S) → src.subq (dst.set_subq w s) ≡ src.subq s
  pub dst-set_src : (w : WorkItem A) (s : S) → dst.subq (src.set_subq w s) ≡ dst.subq s
  pub src-set_active : (l : List JobId) (s : S) → src.subq (dst.set_active_list l s) ≡ src.subq s

module _ {A S : Type 0} (dst src : Queue A S) where
  move_wait-total :
      (fuel : ℕ) (wakes : Wakes S) (s : S) (t : ℕ)
      → length wakes < fuel
      → (r : S × Bool) × (move_wait dst src fuel wakes s (get_depth (src.subq s).base_subq) t
          ≡ some r)
  unfolding move_wait wait_for_space
  move_wait-total zero wakes s t h = absurd (omega arith)
  move_wait-total (suc fuel) wakes s t h =
      let prev = get_depth (src.subq s).base_subq in
      let waited = wait_for_space dst.subq wakes s prev t in
      let quantity = get_depth (src.subq waited.state).base_subq in
      elim (wait_loop-progress (overfull dst.subq prev) wakes s (not (t == 0))) [
        | inl same ↦
            let e : ltb prev quantity ≡ false =
              ground (arith, ap (λ (u : S). get_depth (src.subq u).base_subq) same) in
            let stop : (waited.ok && ltb prev quantity) ≡ false = and_false waited.ok e in
            ((waited.state, waited.ok), rw stop)
        | inr fewer ↦ elim (Bool-cases (waited.ok && ltb prev quantity)) [
          | inl again ↦
              rw again (move_wait-total fuel waited.wakes waited.state t (omega (arith, fewer)))
          | inr stop ↦ ((waited.state, waited.ok), rw stop)
        ]
      ]

  -- One round more than there are wake-ups is enough: the loop of `try_move_all` ends, whatever the
  -- other tasks do, since it goes round again only if its wait let them run.
  pub try_move_all-total :
      (fuel : ℕ) (wakes : Wakes S) (s : S) (abs_timeout : ℕ)
      → length wakes < fuel
      → (r : S × ℕ) × (try_move_all dst src fuel wakes s abs_timeout ≡ some r)
  unfolding try_move_all
  try_move_all-total fuel wakes s t h =
      let ((s', got_space), e) = move_wait-total fuel wakes s t h in
      ((if got_space then move_now dst src s' else (s', 0)), rw (e, try_move_all))

  -- All blocks of the source stand behind those of the destination, in order, and the counters of
  -- both queues are right.
  abbrev pub Moved : S → S → Type 0
  Moved s s' =
      ((dst.subq s').base_subq.block_list
        ≡ (dst.subq s).base_subq.block_list ++ (src.subq s).base_subq.block_list)
      × ((src.subq s').base_subq.block_list ≡ [])
      × IsCounted (dst.subq s').base_subq
      × IsCounted (src.subq s').base_subq

  move_now_lem :
      Apart dst src
      → (s : S) → IsCounted (dst.subq s).base_subq
      → IsCounted (src.subq s).base_subq
      → length (dst.subq s).base_subq.block_list + length (src.subq s).base_subq.block_list < 2 ^ 32
      → Moved s (move_now dst src s).0
        × ((move_now dst src s).1 ≡ length (src.subq s).base_subq.block_list)
  unfolding move_now mark_active
  move_now_lem apart s d c few =
      let moved = move_all_lem (dst.subq s).base_subq (src.subq s).base_subq d c few in
      let s' = (move_now dst src s).0 in
      let d' : dst.subq s' ≡ record (dst.subq s) {
        base_subq = (move_all (dst.subq s).base_subq (src.subq s).base_subq).0;
      } =
        dst.subq-set_active _ _ ∙ apart.dst-set_src _ _ ∙ dst.subq-set _ _ in
      let c' : src.subq s' ≡ record (src.subq s) {
        base_subq = (move_all (dst.subq s).base_subq (src.subq s).base_subq).1;
      } =
        apart.src-set_active _ _ ∙ src.subq-set _ _ in
      (
        (
          ap (λ (w : WorkItem A). w.base_subq.block_list) d' ∙ moved.0,
          ap (λ (w : WorkItem A). w.base_subq.block_list) c' ∙ moved.1,
          rw d' moved.3,
          rw c' moved.4,
        ),
        moved.2,
      )

  move_wait-now :
      (fuel : ℕ) (s : S)
      → let depth = get_depth (src.subq s).base_subq in
        move_wait dst src (suc fuel) [] s depth 0 ≡ some (s, not (overfull dst.subq depth s))
  unfolding move_wait wait_for_space
  move_wait-now fuel s =
      let depth = get_depth (src.subq s).base_subq in
      let still : ltb depth depth ≡ false = ground arith in
      rw (and_false (not (overfull dst.subq depth s)) still)

  overfull_iff :
      (s : S)
      → IsCounted (dst.subq s).base_subq
      → IsCounted (src.subq s).base_subq
      → length (dst.subq s).base_subq.block_list + length (src.subq s).base_subq.block_list < 2 ^ 32
      → (overfull dst.subq (get_depth (src.subq s).base_subq) s ≡ true) ↔ (
          (dst.subq s).current_depth_limit
          < length (dst.subq s).base_subq.block_list + length (src.subq s).base_subq.block_list)
  unfolding overfull
  overfull_iff s d c few =
      let dst_depth = get_depth-eq-length (dst.subq s).base_subq d in
      let src_depth = get_depth-eq-length (src.subq s).base_subq c in
      (λ e. ground (arith, dst_depth, src_depth), λ e. ground (arith, dst_depth, src_depth))

  -- For two different queues with right counters and together fewer than 2 ^ 32 blocks, with no timeout
  -- the move is all or nothing: if the blocks of both queues are within the depth limit
  -- of the destination, they are all moved and counted, else nothing changes and 0 is returned.
  pub try_move_all-now :
      Apart dst src
      → (fuel : ℕ) (s : S) → IsCounted (dst.subq s).base_subq
      → IsCounted (src.subq s).base_subq
      → length (dst.subq s).base_subq.block_list + length (src.subq s).base_subq.block_list < 2 ^ 32
      → (r : S × ℕ) × (try_move_all dst src (suc fuel) [] s 0 ≡ some r)
        × (length (dst.subq s).base_subq.block_list + length (src.subq s).base_subq.block_list
              ≤ (dst.subq s).current_depth_limit
            → Moved s r.0 × (r.1 ≡ length (src.subq s).base_subq.block_list))
        × ((dst.subq s).current_depth_limit
              < length (dst.subq s).base_subq.block_list + length (src.subq s).base_subq.block_list
            → r ≡ (s, 0))
  unfolding try_move_all
  try_move_all-now apart fuel s d c few =
      let test = overfull_iff s d c few in
      let depth = get_depth (src.subq s).base_subq in
      elim (Bool-cases (overfull dst.subq depth s)) [
        | inl full ↦ (
          (s, 0),
          rw (move_wait-now fuel s, try_move_all, full),
          λ h. absurd (omega (arith, test.0 full)),
          λ h. refl,
        )
        | inr fits ↦ (
          move_now dst src s,
          rw (move_wait-now fuel s, try_move_all, fits),
          λ h. move_now_lem apart s d c few,
          λ h. absurd (true_not_false (sym (test.1 h) ∙ fits)),
        )
      ]
    where
      true_not_false : true ≡ false → ⊥
      true_not_false e = cc
