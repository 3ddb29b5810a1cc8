-- ===== src/Mpool/Memory/Collect.antt =====
-- mpool/src/v7_mpool.c: the collection of recycled blocks.
use mathlib.Core.List.{append-nil, append_assoc}
use bplib.Common.{
  ℕ, zero, suc, ◌≤◌, ◌<◌, ◌≡◌, refl, sym, ap, ◌∙◌, inl, inr, ◌⊎◌, Option, none, some, List, [], ◌∷◌,
  ◌++◌, length, arith,
}
use bplib.Mpool.Subq.{Subq, pull_single}
use bplib.Mpool.Subq.Fifo.{pull_single-nil, pull_single-cons}
use bplib.Mpool.Memory.{Memory, BlockApi, collect_block, collect_blocks}
use bplib.Mpool.Memory.Release.{recycled, AllCounted}
use bplib.Mpool.Memory.Round.{free, Destructs, Round, collect_block-Round}

-- Rounds that collect the blocks of a list, each the first that waits, up to a last pool. `later` are
-- the blocks that they give, in order.
abbrev pub Rounds : (ℕ → Option BlockApi) → Memory → List ℕ → List ℕ → Memory → Type 0
Rounds registry pool [] later last = (later ≡ []) × (last ≡ pool)
Rounds registry pool (id ∷ done) later last =
    (q : Subq ℕ) × (given : List ℕ) × (next : Memory) × (more : List ℕ) × (recycled pool
      ≡ id ∷ q.block_list)
    × Round registry id (record pool { recycle_blocks = q }) given next
    × (later ≡ given ++ more)
    × Rounds registry next done more last

-- What a collection of at most `limit` blocks makes of the pool, and how many it counts: `done` are
-- the blocks collected, and `later` those that they gave to be collected in their turn.
pub record Collected (registry : ℕ → Option BlockApi) (limit : ℕ) (pool : Memory) (r : Memory × ℕ)
    : Type 0 where
  pub done : List ℕ
  pub later : List ℕ
  pub rounds : Rounds registry pool done later r.0
  pub count : r.1 ≡ length done
  pub bounded : r.1 ≤ limit
  pub freed : r.0.free_blocks.block_list ≡ pool.free_blocks.block_list ++ done
  pub in_turn : pool.recycle_blocks.block_list ++ later ≡ done ++ r.0.recycle_blocks.block_list
  pub drained : r.1 < limit → r.0.recycle_blocks.block_list ≡ []

no_rounds :
    (registry : ℕ → Option BlockApi) (limit : ℕ) (pool : Memory)
    → (0 < limit → recycled pool ≡ [])
    → Collected registry limit pool (pool, 0)
no_rounds registry limit pool none_wait = record {
  done = [];
  later = [];
  rounds = (refl, refl);
  count = refl;
  bounded = omega arith;
  freed = sym (append-nil (free pool));
  in_turn = append-nil (recycled pool);
  drained = none_wait;
}

step_order :
    (id : ℕ) (rest l1 later done last next : List ℕ)
    → next ≡ rest ++ l1
    → next ++ later ≡ done ++ last
    → id ∷ rest ++ (l1 ++ later) ≡ id ∷ done ++ last
step_order id rest l1 later done last next e h =
    ap (◌∷◌ id) (sym (append_assoc rest l1 later) ∙ ap (λ t. t ++ later) (sym e) ∙ h)

pull_cases :
    (q : Subq ℕ)
    → ((q.block_list ≡ []) × (pull_single q ≡ (q, none)))
      ⊎ ((id : ℕ) × (rest : List ℕ) × (q.block_list ≡ id ∷ rest)
          × ((pull_single q).1 ≡ some id)
          × ((pull_single q).0.block_list ≡ rest))
pull_cases q = List-cases q.block_list refl
  where
    List-cases :
        (l : List ℕ)
        → q.block_list ≡ l
        → ((q.block_list ≡ []) × (pull_single q ≡ (q, none)))
          ⊎ ((id : ℕ) × (rest : List ℕ) × (q.block_list ≡ id ∷ rest)
              × ((pull_single q).1 ≡ some id)
              × ((pull_single q).0.block_list ≡ rest))
    List-cases [] e = inl (e, pull_single-nil q e)
    List-cases (id ∷ rest) e =
        let (given, left) = pull_single-cons q id rest e in inr (id, rest, e, given, left)

module _ (registry : ℕ → Option BlockApi) (destructs : Destructs registry) where
  collect_block-Collected :
      (limit id : ℕ) (pool : Memory) (q : Subq ℕ) (given : List ℕ) (next : Memory) (r : Memory × ℕ)
      → recycled pool ≡ id ∷ q.block_list
      → Round registry id (record pool { recycle_blocks = q }) given next
      → Collected registry limit next r
      → Collected registry (suc limit) pool (r.0, suc r.1)
  collect_block-Collected limit id pool q given next r e round c = record {
    done = id ∷ c.done;
    later = given ++ c.later;
    rounds = (q, given, next, c.later, e, round, refl, c.rounds);
    count = ap suc c.count;
    bounded = omega (arith, c.bounded);
    freed = c.freed ∙ ap (λ t. t ++ c.done) round.freed ∙ append_assoc (free pool) (id ∷ []) c.done;
    in_turn =
        ap (λ t. t ++ (given ++ c.later)) e
        ∙ step_order id q.block_list given c.later c.done (recycled r.0) (recycled next)
            round.queued c.in_turn;
    drained = λ h. c.drained (omega (arith, h));
  }

  -- For queues in the blocks with right counters, and destructors that keep them right, keep the free
  -- blocks and only add blocks to be collected: a run of `bplib_mpool_collect_blocks` collects at most
  -- `limit` blocks and counts them. It takes them in the order in which they were recycled, and appends
  -- them in that order to the free blocks. Each of them gives all the blocks that it has after its
  -- destructor, by its type: those of its lists and queues, and the target of its reference if that
  -- was the last one; the target then has one reference less, if it had any. They are collected in
  -- their turn after those that waited, none is lost, the block is left empty and without a type, and
  -- apart from the target no other block changes after the destructor. The run only stops before the
  -- limit when no block waits any more.
  pub collect_blocks_lem :
      (limit : ℕ) (pool : Memory)
      → AllCounted pool
      → Collected registry limit pool (collect_blocks registry limit pool)
  unfolding collect_blocks
  collect_blocks_lem zero pool counted = no_rounds registry zero pool (λ h. absurd (omega arith))
  collect_blocks_lem (suc limit) pool counted = elim (pull_cases pool.recycle_blocks) [
    | inl (e, pulled) ↦
        rw (collect_blocks, ap (λ t. t.1) pulled) (no_rounds registry (suc limit) pool (λ h. e))
    | inr (id, rest, e, pulled, e') ↦
        let q = (pull_single pool.recycle_blocks).0 in
        let (given, round, still) =
          collect_block-Round registry destructs id (record pool { recycle_blocks = q }) counted in
        let next = collect_block registry id (record pool { recycle_blocks = q }) in
        rw (collect_blocks, pulled)
          (collect_block-Collected limit id pool q given next (collect_blocks registry limit next)
            (e ∙ ap (◌∷◌ id) (sym e')) round (collect_blocks_lem limit next still))
  ]
