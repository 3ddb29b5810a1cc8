-- ===== src/Mpool/Memory/Tests.antt =====
-- mpool/src/v7_mpool.c: a pool of three blocks, a registration, allocations and a collection.
use mathlib.Core.Path.{subst}
use bplib.Common.{
  ℕ, ◌+◌, ◌≡◌, refl, sym, ◌∙◌, ◌⊎◌, inl, inr, Bool-cases, Option, none, some, [], ◌∷◌, arith,
  if◌then◌else◌, ◌==◌, ◌*◌,
}
use bplib.Rbtree.{bp_success, insert_value_generic, stored_key}
use bplib.Mpool.Subq.{subq_init, pull_single}
use bplib.Mpool.Memory.{
  generic, flow, Memory, BlockApi, Layout, alloc_block_internal, collect_blocks, maintain,
}
use bplib.Mpool.Memory.Alloc.{Given, Refused, alloc_block_internal_lem}
use bplib.Mpool.Memory.Release.{AllCounted}
use bplib.Mpool.Memory.Round.{Destructs}
use bplib.Mpool.Memory.Collect.{Collected, collect_blocks_lem}
use bplib.Mpool.Memory.Registry.{TypedPool, register_blocktype_internal}
use bplib.Mpool.Memory.Registry.Register.{Outcome, register_blocktype_internal_lem}
use bplib.Mpool.Memory.Create.{create, first_registry, zero_block, zero_api}
use bplib.Mpool.Memory.Create.Fresh.{IsFresh, create_lem}

abbrev layout : Layout
layout = record { buffer_size = 400; user_data_offset = λ t. 40 }

abbrev three : Memory
three = record {
  num_bufs_total = 3;
  bblock_alloc_threshold = 0;
  max_alloc_watermark = 0;
  free_blocks = record { block_list = 1 ∷ 2 ∷ 3 ∷ []; push_count = 3; pull_count = 0 };
  recycle_blocks = subq_init;
  block = λ id. zero_block;
}

abbrev fresh : TypedPool
fresh = record { memory = three; blocktype_registry = first_registry; apis = λ number. zero_api }

create-fresh : create 440 1800 ≡ some fresh
unfolding create
create-fresh = refl

create_lem_example :
    (pool : TypedPool) × (create 440 (4 * 440 + 40) ≡ some pool)
    × IsFresh 440 40 (omega arith) 3 pool
create_lem_example = create_lem 440 40 (omega arith) 3 (omega arith)

some_eq : {p q : TypedPool} → some p ≡ some q → p ≡ q
some_eq e = cc

fresh-IsFresh : IsFresh 440 40 (omega arith) 3 fresh
fresh-IsFresh =
    let (pool, e, f) = create_lem 440 40 (omega arith) 3 (omega arith) in
    subst (IsFresh 440 40 (omega arith) 3) (some_eq (sym e ∙ create-fresh)) f

-- An entry for blocks of ten bytes.
abbrev ten_bytes : BlockApi
ten_bytes = record { user_content_size = 10; construct = λ b. b; destruct = λ id pool. pool }

register_blocktype_internal_lem_example :
    Outcome layout 77 ten_bytes fresh (register_blocktype_internal layout 77 ten_bytes fresh)
register_blocktype_internal_lem_example =
    register_blocktype_internal_lem layout 77 ten_bytes fresh (omega arith) fresh-IsFresh.registry
      fresh-IsFresh.memory

registration_goes_through : (register_blocktype_internal layout 77 ten_bytes fresh).1 ≡ bp_success
unfolding register_blocktype_internal insert_value_generic stored_key first_registry pull_single
registration_goes_through = refl

registration_takes_a_block :
    (register_blocktype_internal layout 77 ten_bytes fresh).0.memory.free_blocks.block_list
    ≡ 2 ∷ 3 ∷ []
unfolding register_blocktype_internal insert_value_generic stored_key first_registry pull_single
registration_takes_a_block = refl

abbrev one_type : ℕ → Option BlockApi
one_type signature = if signature == 77 then some ten_bytes else none

alloc_block_internal_lem_example :
    Given layout one_type generic 77 63 three
      (alloc_block_internal layout one_type generic 77 63 three)
    ⊎ Refused layout one_type generic 77 63 three
        (alloc_block_internal layout one_type generic 77 63 three)
alloc_block_internal_lem_example =
    alloc_block_internal_lem layout one_type generic 77 63 three fresh-IsFresh.memory (omega arith)

first_block : (alloc_block_internal layout one_type generic 77 63 three).1 ≡ some 1
unfolding alloc_block_internal pull_single
first_block = refl

-- The block 1 is a flow with the blocks 2 and 3 in its queues, and waits for collection.
abbrev closed_flow : Memory
closed_flow = record three {
  free_blocks = subq_init;
  recycle_blocks = record { block_list = 1 ∷ []; push_count = 1; pull_count = 0 };
  block = λ id.
      if id == 1
      then record zero_block {
        type = flow;
        ingress = record { block_list = 2 ∷ []; push_count = 1; pull_count = 0 };
        egress = record { block_list = 3 ∷ []; push_count = 1; pull_count = 0 };
      }
      else zero_block;
}

no_types-Destructs : Destructs (λ signature. none)
no_types-Destructs signature entry e id pool = absurd (apart e)
  where
    apart : none ≡ some entry → ⊥
    apart e' = cc

closed_flow-AllCounted : AllCounted closed_flow
closed_flow-AllCounted i = elim (Bool-cases (i == 1)) [
  | inl first ↦ rw first (omega arith, omega arith)
  | inr other ↦ rw other (omega arith, omega arith)
]

collect_blocks_lem_example :
    Collected (λ signature. none) 20 closed_flow (collect_blocks (λ signature. none) 20 closed_flow)
collect_blocks_lem_example =
    collect_blocks_lem (λ signature. none) no_types-Destructs 20 closed_flow closed_flow-AllCounted

flow_is_collected :
    (maintain (λ signature. none) closed_flow).free_blocks.block_list ≡ 1 ∷ 2 ∷ 3 ∷ []
unfolding maintain pull_single
flow_is_collected = refl

two_of_three :
    (collect_blocks (λ signature. none) 2 closed_flow).0.recycle_blocks.block_list ≡ 3 ∷ []
unfolding collect_blocks pull_single
two_of_three = refl
