-- ===== src/Mpool/Stream/Chunk.antt =====
-- mpool/src/v7_mpstream.c: what one chunk of a write puts into the blocks.
use mathlib.Core.List.{append_assoc, append-nil}
use bplib.Common.{
  ℕ, zero, suc, ◌+◌, ◌-◌, ◌≤◌, ◌<◌, ◌^◌, ◌≡◌, refl, sym, ap, ◌∙◌, inl, inr, ◌⊎◌, Option, none, some,
  List, [], ◌∷◌, ◌++◌, length, take, length-append, length-take, leb, u16, arith, Bool-cases,
}
use bplib.Mpool.Stream.{
  Stream, with_last, content_bytes, in_order, stream_blocks, cbor_set_size, next_block, ready,
  write_chunk,
}
use bplib.Mpool.Stream.Lists.{take_all}

-- All the bytes of a list of blocks.
abbrev pub joined : List (List ℕ) → List ℕ
joined [] = []
joined (block ∷ rest) = block ++ joined rest

back : List (List ℕ) → List ℕ
back [] = []
back (block ∷ earlier) = back earlier ++ block

-- The bytes that are in the stream's list.
abbrev pub written : Stream → List ℕ
written mps = joined (stream_blocks mps)

joined-in_order :
    (earlier rest : List (List ℕ)) → joined (in_order earlier rest) ≡ back earlier ++ joined rest
unfolding in_order back
joined-in_order [] rest = refl
joined-in_order (block ∷ earlier) rest =
    joined-in_order earlier (block ∷ rest) ∙ sym (append_assoc (back earlier) block (joined rest))

back-with_last :
    (last : Option (List ℕ)) (earlier : List (List ℕ))
    → back (with_last last earlier) ≡ back earlier ++ content_bytes last
unfolding back
back-with_last none earlier = sym (append-nil (back earlier))
back-with_last (some block) earlier = refl

written_lem : (mps : Stream) → written mps ≡ back mps.earlier ++ content_bytes mps.last_eblk
unfolding stream_blocks
written_lem mps =
    joined-in_order (with_last mps.last_eblk mps.earlier) []
    ∙ append-nil (back (with_last mps.last_eblk mps.earlier))
    ∙ back-with_last mps.last_eblk mps.earlier

module _ (capacity : ℕ) where
  -- A stream that writes at the end of its last block.
  pub record IsWriting (mps : Stream) : Type 0 where
    pub at_end : mps.curr_pos ≡ length (content_bytes mps.last_eblk)
    pub within : mps.curr_pos ≤ mps.curr_limit
    pub limited : mps.curr_limit ≤ capacity

  -- After a write of some bytes, of which some remain.
  pub record Wrote (bytes : List ℕ) (mps mps' : Stream) (remain_sz : ℕ) : Type 0 where
    pub some_written : remain_sz ≤ length bytes
    pub appended : written mps' ≡ written mps ++ take (length bytes - remain_sz) bytes
    pub still : IsWriting mps'
    pub stopped : (remain_sz ≡ 0) ⊎ (mps'.available ≡ 0)
    pub moved : mps'.stream_position ≡ mps.stream_position + (length bytes - remain_sz)

  -- A block that is ready has room, and holds what was there.
  pub record Ready (mps mps' : Stream) : Type 0 where
    pub room : mps'.curr_pos < mps'.curr_limit
    pub kept : written mps' ≡ written mps
    pub writing : IsWriting mps'
    pub same_position : mps'.stream_position ≡ mps.stream_position

  abbrev pub ReadyOr : Stream → Option Stream → Type 0
  ReadyOr mps none = mps.available ≡ 0
  ReadyOr mps (some mps') = Ready mps mps'

  pub next_block_lem :
      (left : ℕ) (mps : Stream)
      → 0 < capacity
      → mps.available ≡ left
      → ReadyOr mps (next_block capacity left mps)
  unfolding next_block
  next_block_lem zero mps cap e = e
  next_block_lem (suc left) mps cap e = record {
    room = cap;
    kept =
        written_lem new
        ∙ append-nil (back new.earlier)
        ∙ back-with_last mps.last_eblk mps.earlier
        ∙ sym (written_lem mps);
    writing = record { at_end = refl; within = omega arith; limited = omega arith };
    same_position = refl;
  }
    where
      new : Stream
      new = record mps {
        earlier = with_last mps.last_eblk mps.earlier;
        last_eblk = some [];
        curr_pos = 0;
        curr_limit = capacity;
        available = left;
      }

  pub ready_lem : (mps : Stream) → 0 < capacity → IsWriting mps → ReadyOr mps (ready capacity mps)
  unfolding ready
  ready_lem mps cap w = elim (Bool-cases (leb mps.curr_limit mps.curr_pos)) [
    | inl full ↦ rw full (next_block_lem mps.available mps cap refl)
    | inr room ↦
        rw room
          (record { room = ground (arith, room); kept = refl; writing = w; same_position = refl })
  ]

  -- One chunk goes to the end.
  chunk_content :
      (sz : ℕ) (chunk : List ℕ) (mps : Stream)
      → capacity < 2 ^ 16
      → IsWriting mps
      → mps.curr_pos + sz ≤ mps.curr_limit
      → sz ≤ length chunk
      → content_bytes (write_chunk capacity sz chunk mps).last_eblk
        ≡ content_bytes mps.last_eblk ++ take sz chunk
  unfolding write_chunk
  chunk_content sz chunk mps cap w room enough =
      let old = content_bytes mps.last_eblk in
      let new = old ++ take sz chunk in
      let all : take mps.curr_pos old ≡ old = take_all mps.curr_pos old (omega (arith, w.at_end)) in
      ap (λ l. cbor_set_size (mps.curr_pos + sz) (l ++ take sz chunk)) all
      ∙ take_all (u16 (mps.curr_pos + sz)) new (
          omega (
            arith,
            length-append old (take sz chunk),
            length-take sz chunk,
            w.at_end,
            w.limited,
            room,
            enough,
            cap,
          ))

  pub write_chunk_lem :
      (sz : ℕ) (chunk : List ℕ) (mps : Stream)
      → capacity < 2 ^ 16
      → IsWriting mps
      → mps.curr_pos + sz ≤ mps.curr_limit
      → sz ≤ length chunk
      → let mps' = write_chunk capacity sz chunk mps in
        (written mps' ≡ written mps ++ take sz chunk)
        × IsWriting mps'
        × (mps'.stream_position ≡ mps.stream_position + sz)
  unfolding write_chunk
  write_chunk_lem sz chunk mps cap w room enough =
      let mps' = write_chunk capacity sz chunk mps in
      let content = chunk_content sz chunk mps cap w room enough in
      (
        written_lem mps'
            ∙ ap (λ l. back mps.earlier ++ l) content
            ∙ sym (append_assoc (back mps.earlier) (content_bytes mps.last_eblk) (take sz chunk))
            ∙ ap (λ l. l ++ take sz chunk) (sym (written_lem mps)),
        record {
          at_end = omega (
            arith,
            ap length content,
            length-append (content_bytes mps.last_eblk) (take sz chunk),
            length-take sz chunk,
            w.at_end,
            enough,
          );
          within = room;
          limited = w.limited;
        },
        refl,
      )

  pub nothing :
      (chunk : List ℕ) (mps : Stream) (r : ℕ)
      → r ≡ length chunk
      → IsWriting mps
      → (r ≡ 0) ⊎ (mps.available ≡ 0)
      → Wrote chunk mps mps r
  nothing chunk mps r e w stop = record {
    some_written = omega arith;
    appended = sym (append-nil (written mps)) ∙ ap (λ n. written mps ++ take n chunk) none_left;
    still = w;
    stopped = stop;
    moved = omega (arith, e);
  }
    where
      none_left : 0 ≡ length chunk - r
      none_left = omega (arith, e)
