-- ===== src/Codec/Bundle/Copy.antt =====
-- v7/src/v7_codec_common.c: a bundle is copied as a whole, in as many bytes as were computed for it.
use bplib.Common.{
  ℕ, ◌+◌, ◌-◌, ◌≤◌, ◌<◌, ◌^◌, ◌≡◌, ◌≢◌, refl, sym, ap, ◌∙◌, inl, inr, Bool, true, false, Option,
  none, some, List, [], ◌∷◌, ◌++◌, length, length-append, nil-of_length, take, ltb, ◌==◌, arith,
  if◌then◌else◌, Bool-cases,
}
use bplib.Mpool.Stream.{cbor_export}
use bplib.Mpool.Stream.Lists.{take_all}
use bplib.Mpool.Stream.Chunk.{joined}
use bplib.Mpool.Stream.Export.{export_loop_lem}
use bplib.Codec.Bundle.{
  EncodedBlock, Bundle, Encoders, encode_if_needed, sum_canonicals, with_size,
  compute_full_bundle_size, size_max, copy_canonicals, copy_full_bundle_out,
}

abbrev bytes_of : EncodedBlock → List ℕ
bytes_of block = joined block.chunk_list

abbrev all_bytes : List EncodedBlock → List ℕ
all_bytes [] = []
all_bytes (ccb ∷ rest) = bytes_of ccb ++ all_bytes rest

-- A bundle in full: an array of indefinite length around its blocks.
abbrev pub content : Bundle → List ℕ
content cpb = 0x9F ∷ bytes_of cpb.primary ++ (all_bytes cpb.cblock_list ++ 0xFF ∷ [])

-- A size in the cache is right.
abbrev pub IsCached : EncodedBlock → Type 0
IsCached block =
    block.block_encode_size_cache ≢ 0
    → block.block_encode_size_cache ≡ length (joined block.chunk_list)

abbrev pub AllCached : List EncodedBlock → Type 0
AllCached [] = Unit
AllCached (ccb ∷ rest) = IsCached ccb × AllCached rest

pub record IsBundle (cpb : Bundle) : Type 0 where
  pub primary_cached : IsCached cpb.primary
  pub canonicals_cached : AllCached cpb.cblock_list
  pub size_cached :
      cpb.bundle_encode_size_cache ≢ 0 → cpb.bundle_encode_size_cache ≡ length (content cpb)

-- What is asked of an encoder: if it reports success, the size in the cache is that of the chunks.
abbrev pub Encodes : (EncodedBlock → EncodedBlock × Bool) → Type 0
Encodes encode =
    (block : EncodedBlock)
    → (encode block).1 ≡ true
    → (encode block).0.block_encode_size_cache ≡ length (joined (encode block).0.chunk_list)

export_all :
    (list : List (List ℕ)) (room : ℕ)
    → length (joined list) ≤ room
    → room < 2 ^ 64
    → cbor_export list room 0 size_max ≡ joined list
unfolding cbor_export
export_all list room fits small =
    let whole : take size_max (joined list) ≡ joined list =
      take_all size_max (joined list) (omega arith) in
    export_loop_lem list room 0 size_max (omega (arith, ap length whole)) ∙ whole

copy_canonicals_lem :
    (list : List EncodedBlock) (room : ℕ)
    → length (all_bytes list) ≤ room
    → room < 2 ^ 64
    → copy_canonicals list room ≡ all_bytes list
unfolding copy_canonicals
copy_canonicals_lem [] room fits small = refl
copy_canonicals_lem (ccb ∷ rest) room fits small = elim (Bool-cases (room == 0)) [
  | inl empty ↦
      let nothing : length (all_bytes (ccb ∷ rest)) ≡ 0 = ground (arith, empty, fits) in
      rw empty (sym (nil-of_length (all_bytes (ccb ∷ rest)) nothing))
  | inr room_left ↦
      let both = length-append (bytes_of ccb) (all_bytes rest) in
      rw (room_left, export_all ccb.chunk_list room (omega (arith, both, fits)) small)
        (ap (λ t. bytes_of ccb ++ t)
          (copy_canonicals_lem rest (room - length (bytes_of ccb)) (omega (arith, both, fits))
            (omega arith)))
]

length-content :
    (cpb : Bundle)
    → length (content cpb)
      ≡ 2 + (length (bytes_of cpb.primary) + length (all_bytes cpb.cblock_list))
length-content cpb = omega (
  arith,
  length-append (bytes_of cpb.primary) (all_bytes cpb.cblock_list ++ 0xFF ∷ []),
  length-append (all_bytes cpb.cblock_list) (0xFF ∷ []),
)

copy_full_bundle_out_lem :
    (cpb : Bundle) (buf_sz : ℕ)
    → length (content cpb) ≤ buf_sz
    → buf_sz < 2 ^ 64
    → copy_full_bundle_out cpb buf_sz ≡ content cpb
unfolding copy_full_bundle_out
copy_full_bundle_out_lem cpb buf_sz fits small =
    let total = length-content cpb in
    let room : ltb buf_sz 2 ≡ false = ground (arith, total, fits) in
    rw
      (
        room,
        export_all cpb.primary.chunk_list (buf_sz - 2) (omega (arith, total, fits)) (omega arith),
        copy_canonicals_lem cpb.cblock_list (buf_sz - 2 - length (bytes_of cpb.primary))
            (omega (arith, total, fits)) (omega arith),
      )
      refl

encode_if_needed_lem :
    (encode : EncodedBlock → EncodedBlock × Bool) (block : EncodedBlock)
    → Encodes encode
    → IsCached block
    → (encode_if_needed encode block).1 ≡ true
    → (encode_if_needed encode block).0.block_encode_size_cache
      ≡ length (bytes_of (encode_if_needed encode block).0)
encode_if_needed_lem encode block law cached ok =
    elim (Bool-cases (block.block_encode_size_cache == 0)) [
      | inl stale ↦ rw stale (law block (rw stale at ok))
      | inr fresh ↦ rw fresh (cached (λ e. ground (arith, fresh, e)))
    ]

same_number : {m n : ℕ} → some m ≡ some n → n ≡ m
same_number e = sym (ap (λ o. elim o [ none ↦ 0 | some k ↦ k ]) e)

abbrev sums :
    Bool
    → EncodedBlock
    → List EncodedBlock
    → List EncodedBlock
    → Option ℕ
    → List EncodedBlock × Option ℕ
sums ok ccb rest rest' sum = if ok then (ccb ∷ rest', sum) else (ccb ∷ rest, none)

add_block :
    (ok : Bool) (ccb : EncodedBlock) (rest rest' : List EncodedBlock) (sum : Option ℕ)
    (start total : ℕ)
    → (ok ≡ true → ccb.block_encode_size_cache ≡ length (bytes_of ccb))
    → ((t : ℕ) → sum ≡ some t → t ≡ start + ccb.block_encode_size_cache + length (all_bytes rest'))
    → (sums ok ccb rest rest' sum).1 ≡ some total
    → total ≡ start + length (all_bytes (sums ok ccb rest rest' sum).0)
add_block true ccb rest rest' sum start total size ih e =
    omega (arith, size refl, ih total e, length-append (bytes_of ccb) (all_bytes rest'))
add_block false ccb rest rest' sum start total size ih e = absurd (apart e)
  where
    apart : none ≡ some total → ⊥
    apart e' = cc

module _ (encoders : Encoders) (encodes : Encodes encoders.encode_canonical) where
  sum_canonicals_lem :
      (list : List EncodedBlock) (start total : ℕ)
      → AllCached list
      → (sum_canonicals encoders list start).1 ≡ some total
      → total ≡ start + length (all_bytes (sum_canonicals encoders list start).0)
  unfolding sum_canonicals
  sum_canonicals_lem [] start total c e = omega (arith, same_number e)
  sum_canonicals_lem (ccb ∷ rest) start total c e =
      let encoded = encode_if_needed encoders.encode_canonical ccb in
      let later = sum_canonicals encoders rest (start + encoded.0.block_encode_size_cache) in
      add_block encoded.1 encoded.0 rest later.0 later.1 start total
        (encode_if_needed_lem encoders.encode_canonical ccb encodes c.0)
        (λ t. sum_canonicals_lem rest (start + encoded.0.block_encode_size_cache) t c.1) e

  with_size_lem :
      (primary : EncodedBlock) (r : List EncodedBlock × Option ℕ)
      → ((t : ℕ) → r.1 ≡ some t → t ≡ length (bytes_of primary) + length (all_bytes r.0))
      → (with_size encoders primary r).1 ≢ 0
      → (with_size encoders primary r).1 ≡ length (content (with_size encoders primary r).0)
  with_size_lem primary (list, none) h full = absurd (full refl)
  with_size_lem primary (list, some t) h full = omega (
    arith,
    h t refl,
    length-content (record { primary = primary; cblock_list = list; bundle_encode_size_cache = 0 }),
  )

  compute_full_bundle_size_lem :
      (cpb : Bundle)
      → Encodes encoders.encode_pri
      → IsBundle cpb
      → let r = compute_full_bundle_size encoders cpb in r.1 ≢ 0 → r.1 ≡ length (content r.0)
  unfolding compute_full_bundle_size
  compute_full_bundle_size_lem cpb encodes_pri b =
      let pri = encode_if_needed encoders.encode_pri cpb.primary in
      elim (Bool-cases (cpb.bundle_encode_size_cache == 0)) [
        | inr cached ↦ rw cached (λ full. b.size_cached full)
        | inl stale ↦ elim (Bool-cases pri.1) [
          | inr failed ↦ rw (stale, failed) (λ full. absurd (full refl))
          | inl ok ↦
              let size =
                encode_if_needed_lem encoders.encode_pri cpb.primary encodes_pri b.primary_cached
                  ok in
              rw (stale, ok)
                (with_size_lem pri.0
                  (sum_canonicals encoders cpb.cblock_list pri.0.block_encode_size_cache)
                  (λ t e.
                    let sum =
                      sum_canonicals_lem cpb.cblock_list pri.0.block_encode_size_cache t
                        b.canonicals_cached e in
                    omega (arith, sum, size)))
        ]
      ]

  -- For encoders that report the size of what they encode, and a bundle whose caches are right: if
  -- `v7_compute_full_bundle_size` gives a size other than 0, then `v7_copy_full_bundle_out`, to a buffer
  -- of that size or more, copies exactly so many bytes, and they are the whole bundle: the array
  -- mark, the chunks of the primary block and of all canonical blocks in order, and the break code.
  pub copy_full_bundle_out-compute :
      (cpb : Bundle) (buf_sz : ℕ)
      → Encodes encoders.encode_pri
      → IsBundle cpb
      → let r = compute_full_bundle_size encoders cpb in
        r.1 ≢ 0
        → r.1 ≤ buf_sz
        → buf_sz < 2 ^ 64
        → (copy_full_bundle_out r.0 buf_sz ≡ content r.0)
          × (length (copy_full_bundle_out r.0 buf_sz) ≡ r.1)
  copy_full_bundle_out-compute cpb buf_sz encodes_pri b full room small =
      let r = compute_full_bundle_size encoders cpb in
      let size = compute_full_bundle_size_lem cpb encodes_pri b full in
      let copied = copy_full_bundle_out_lem r.0 buf_sz (omega (arith, size, room)) small in
      (copied, ap length copied ∙ sym size)
