-- ===== src/Codec/Bundle.antt =====
-- v7/src/v7_codec_common.c: the size of a whole bundle, and its copy to a buffer. Sizes of objects in memory
-- do not wrap.
pub mod Copy
use bplib.Common.{
  ℕ, ◌+◌, ◌-◌, Bool, true, false, Option, none, some, List, [], ◌∷◌, ◌++◌, length, ltb, ◌==◌,
  if◌then◌else◌,
}
use bplib.Mpool.Stream.{cbor_export}

-- What is encoded of a block: its chunks, and the size in the cache, or 0.
pub record EncodedBlock : Type 0 where
  pub chunk_list : List (List ℕ)
  pub block_encode_size_cache : ℕ

pub record Bundle : Type 0 where
  pub primary : EncodedBlock
  pub cblock_list : List EncodedBlock
  pub bundle_encode_size_cache : ℕ

-- `v7_block_encode_pri` and `v7_block_encode_canonical`: the block, and whether the status is 0.
pub record Encoders : Type 0 where
  pub encode_pri : EncodedBlock → EncodedBlock × Bool
  pub encode_canonical : EncodedBlock → EncodedBlock × Bool

abbrev pub encode_if_needed :
    (EncodedBlock → EncodedBlock × Bool) → EncodedBlock → EncodedBlock × Bool
encode_if_needed encode block =
    if block.block_encode_size_cache == 0 then encode block else (block, true)

module _ (encoders : Encoders) where
  -- The loop of `v7_compute_full_bundle_size`: the blocks, and the sum, or none if an encoder failed.
  unfoldable pub sum_canonicals : List EncodedBlock → ℕ → List EncodedBlock × Option ℕ
  sum_canonicals [] sum_result = ([], some sum_result)
  sum_canonicals (ccb ∷ rest) sum_result =
      let (ccb', ok) = encode_if_needed encoders.encode_canonical ccb in
      let (rest', sum) = sum_canonicals rest (sum_result + ccb'.block_encode_size_cache) in
      if ok then (ccb' ∷ rest', sum) else (ccb' ∷ rest, none)

  -- The end of the loop.
  abbrev pub with_size : EncodedBlock → List EncodedBlock × Option ℕ → Bundle × ℕ
  with_size primary (cblock_list, none) =
      (record { primary = primary; cblock_list = cblock_list; bundle_encode_size_cache = 0 }, 0)
  with_size primary (cblock_list, some sum_result) = (
    record {
      primary = primary;
      cblock_list = cblock_list;
      bundle_encode_size_cache = 2 + sum_result;
    },
    2 + sum_result,
  )

  -- `v7_compute_full_bundle_size`: the bundle and the size.
  unfoldable pub compute_full_bundle_size : Bundle → Bundle × ℕ
  unfolding sum_canonicals
  compute_full_bundle_size cpb =
      let (primary', ok) = encode_if_needed encoders.encode_pri cpb.primary in
      if cpb.bundle_encode_size_cache == 0
      then if ok
        then with_size primary' (sum_canonicals cpb.cblock_list primary'.block_encode_size_cache)
        else (record cpb { primary = primary' }, 0)
      else (cpb, cpb.bundle_encode_size_cache)

-- The count of -1 as a `size_t`.
abbrev pub size_max : ℕ
size_max = 0xFFFF_FFFF_FFFF_FFFF

-- The loop of `v7_copy_full_bundle_out`: the bytes that it copies.
unfoldable pub copy_canonicals : List EncodedBlock → ℕ → List ℕ
unfolding cbor_export
copy_canonicals [] remain_sz = []
copy_canonicals (ccb ∷ rest) remain_sz =
    let chunk = cbor_export ccb.chunk_list remain_sz 0 size_max in
    let copied = chunk ++ copy_canonicals rest (remain_sz - length chunk) in
    if remain_sz == 0 then [] else copied

-- `v7_copy_full_bundle_out`: the bytes in the buffer.
unfoldable pub copy_full_bundle_out : Bundle → ℕ → List ℕ
unfolding copy_canonicals cbor_export
copy_full_bundle_out cpb buf_sz =
    let chunk = cbor_export cpb.primary.chunk_list (buf_sz - 2) 0 size_max in
    if ltb buf_sz 2
    then []
    else 0x9F ∷ chunk ++ (copy_canonicals cpb.cblock_list (buf_sz - 2 - length chunk) ++ 0xFF ∷ [])
