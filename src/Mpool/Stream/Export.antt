-- ===== src/Mpool/Stream/Export.antt =====
-- mpool/src/v7_mpool_bblocks.c: what an export copies.
use bplib.Common.{
  ℕ, zero, suc, ◌-◌, ◌≤◌, ◌<◌, ◌^◌, ◌≡◌, refl, sym, ap, ◌∙◌, Bool, true, false, List, [], ◌∷◌, ◌++◌,
  length, take, drop, length-append, ltb, ◌==◌, ==_iff, arith, if◌then◌else◌,
}
use bplib.Mpool.Stream.{
  dir_write, stream_init, stream_blocks, stream_write, export_loop, cbor_export,
}
use bplib.Mpool.Stream.Lists.{drop-append_far, drop-append_near, take-append}
use bplib.Mpool.Stream.Chunk.{joined, written, IsWriting}
use bplib.Mpool.Stream.Write.{stream_write_lem}

pub written-fresh : (available : ℕ) → written (stream_init dir_write available) ≡ []
unfolding stream_init stream_blocks
written-fresh available = refl

-- When what is asked for fits, it is copied.
pub export_loop_lem :
    (list : List (List ℕ)) (room seek left : ℕ)
    → length (take left (drop seek (joined list))) ≤ room
    → export_loop list room seek left ≡ take left (drop seek (joined list))
unfolding export_loop
export_loop_lem [] room seek left h = sym (nothing_left seek left)
  where
    nothing_left : (m n : ℕ) → take {A = ℕ} n (drop m []) ≡ []
    nothing_left zero zero = refl
    nothing_left zero (suc n) = refl
    nothing_left (suc m) zero = refl
    nothing_left (suc m) (suc n) = refl
export_loop_lem (block ∷ list) room seek left h =
    by_test (left == 0) (ltb (length block) seek) (ltb room (length chunk)) refl refl refl
      (export_loop_lem list)
  where
    bytes : List ℕ
    bytes = take left (drop seek (block ++ joined list))

    chunk : List ℕ
    chunk = take left (drop seek block)

    near :
        seek ≤ length block
        → take left (drop seek (block ++ joined list))
          ≡ chunk ++ take (left - length chunk) (joined list)
    near le =
        ap (take left) (drop-append_near seek block (joined list) le)
        ∙ take-append left (drop seek block) (joined list)

    by_test :
        (none_asked far small : Bool)
        → (left == 0) ≡ none_asked
        → ltb (length block) seek ≡ far
        → ltb room (length chunk) ≡ small
        → ((r s l : ℕ)
            → length (take l (drop s (joined list))) ≤ r
            → export_loop list r s l ≡ take l (drop s (joined list)))
        → (if none_asked
            then []
            else if far
            then export_loop list room (seek - length block) left
            else if small
            then []
            else chunk ++ export_loop list (room - length chunk) 0 (left - length chunk))
          ≡ bytes
    by_test true far small e e' e'' ih =
        ap (λ k. take k (drop seek (block ++ joined list))) (sym ((==_iff left 0).0 e))
    by_test false true small e e' e'' ih =
        let same = ap (take left) (drop-append_far seek block (joined list) (ground (arith, e'))) in
        ih room (seek - length block) left (omega (arith, ap length same, h)) ∙ sym same
    by_test false false true e e' e'' ih =
        let split = near (ground (arith, e')) in
        let rest = take (left - length chunk) (joined list) in
        let more : room < length chunk = ground (arith, e'') in
        absurd (omega (arith, ap length split, length-append chunk rest, h, more))
    by_test false false false e e' e'' ih =
        let split = near (ground (arith, e')) in
        let rest = take (left - length chunk) (joined list) in
        let fits : length chunk ≤ room = ground (arith, e'') in
        ap (λ l. chunk ++ l)
          (ih (room - length chunk) 0 (left - length chunk)
            (omega (arith, ap length split, length-append chunk rest, h, fits)))
        ∙ sym split

-- For a capacity that fits the length field: bytes are written to a fresh stream, and the list of its
-- blocks is then exported to a buffer that has room for what is asked for. The bytes copied are those
-- that the write counted, without as many of the first ones as are skipped, and at most as many as
-- are asked for.
pub cbor_export-stream_write :
    (capacity available : ℕ) (bytes : List ℕ) (max_out_size seek_start max_count : ℕ)
    → 0 < capacity
    → capacity < 2 ^ 16
    → let out = stream_write capacity bytes (stream_init dir_write available) in
      let asked_for = take max_count (drop seek_start (take out.1 bytes)) in
      length asked_for ≤ max_out_size
      → cbor_export (stream_blocks out.0) max_out_size seek_start max_count ≡ asked_for
unfolding cbor_export stream_init
cbor_export-stream_write capacity available bytes room seek count pos cap fits =
    let fresh = stream_init dir_write available in
    let w : IsWriting capacity fresh = record {
      at_end = refl;
      within = omega arith;
      limited = omega arith;
    } in
    let out = stream_write capacity bytes fresh in
    let (_, appended, _, _, _) = stream_write_lem capacity bytes fresh pos cap refl w in
    let bytes_there : written out.0 ≡ take out.1 bytes =
      appended ∙ ap (λ l. l ++ take out.1 bytes) (written-fresh available) in
    let same = ap (λ l. take count (drop seek l)) bytes_there in
    export_loop_lem (stream_blocks out.0) room seek count (omega (arith, ap length same, fits))
    ∙ same
