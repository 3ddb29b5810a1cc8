-- ===== src/Mpool/Pool/Handle.antt =====
-- mpool/src/v7_mpool.c: which blocks a handle leads to.
use bplib.Common.{
  ℕ, suc, ◌<◌, ◌^◌, ◌≡◌, ap, ◌∙◌, ◌↔◌, Option, none, some, Option-cases, inl, inr, arith,
}
use bplib.Mpool.Flow.{Flow}
use bplib.Mpool.Pool.{
  Pool, Block, flow, ref, content, unlisted, flow_cast, dereference_content, block_from_external_id,
  get_external_id,
}

module _ {A : Type 0} where
  -- What a cast gives is the content of some block.
  pub flow_cast-block :
      (pool : Pool A) (blk : Option ℕ) {f : Flow A}
      → flow_cast pool blk ≡ some f
      → (serial : ℕ) × (pool.block serial ≡ flow f)
  unfolding flow_cast
  flow_cast-block pool none e = cc
  flow_cast-block pool (some serial) e =
      elim (Option-cases (dereference_content pool (suc pool.num_bufs_total) serial)) [
        | inl missing ↦ absurd (none_not_some (rw (missing, flow_cast) at e))
        | inr (target, found) ↦ (target, cast_back (pool.block target) (rw (found, flow_cast) at e))
      ]
    where
      none_not_some : {f : Flow A} → none ≡ some f → ⊥
      none_not_some e = cc

      cast_back :
          (b : Block A) {f : Flow A} → (elim b [ flow g ↦ some g | _ ↦ none ]) ≡ some f → b ≡ flow f
      cast_back (flow g) e = cc
      cast_back (ref t) e = cc
      cast_back content e = cc
      cast_back unlisted e = cc

  abbrev flow_of : Block A → Option (Flow A)
  flow_of b = elim b [ flow g ↦ some g | _ ↦ none ]

  -- The cast of a block that is content, and no reference.
  flow_cast-flow_of :
      (pool : Pool A) (serial : ℕ)
      → dereference_content pool (suc pool.num_bufs_total) serial ≡ some serial
      → flow_cast pool (some serial) ≡ flow_of (pool.block serial)
  unfolding flow_cast
  flow_cast-flow_of pool serial e =
      ap (λ (o : Option ℕ). elim o [ none ↦ none | some target ↦ flow_of (pool.block target) ]) e

  abbrev found_at : Pool A → ℕ → Block A → Option ℕ
  found_at pool serial b = elim b [
    | ref target ↦ dereference_content pool pool.num_bufs_total target
    | unlisted ↦ none
    | _ ↦ some serial
  ]

  pub flow_cast-flow :
      (pool : Pool A) (serial : ℕ) {f : Flow A}
      → pool.block serial ≡ flow f
      → flow_cast pool (some serial) ≡ some f
  unfolding dereference_content
  flow_cast-flow pool serial e =
      flow_cast-flow_of pool serial (ap (found_at pool serial) e) ∙ ap flow_of e

  pub flow_cast-other :
      (pool : Pool A) (serial : ℕ)
      → pool.block serial ≡ content
      → flow_cast pool (some serial) ≡ none
  unfolding dereference_content
  flow_cast-other pool serial e =
      flow_cast-flow_of pool serial (ap (found_at pool serial) e) ∙ ap flow_of e

  -- With 32-bit serial numbers: the handle of a block leads back to it exactly if its serial number is below the number of blocks.
  -- The serial numbers of the blocks run from 1 to that number, so the last block has a handle that
  -- leads nowhere.
  pub block_from_external_id-get :
      (pool : Pool A) (serial : ℕ)
      → serial < 2 ^ 32
      → pool.num_bufs_total < 2 ^ 32
      → ((serial < pool.num_bufs_total)
          ↔ (block_from_external_id pool (get_external_id serial) ≡ some serial))
        × (block_from_external_id pool (get_external_id pool.num_bufs_total) ≡ none)
  unfolding block_from_external_id get_external_id
  block_from_external_id-get pool serial h few =
      ((λ below. ground arith, λ found. ground arith), ground arith)
