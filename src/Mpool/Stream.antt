-- ===== src/Mpool/Stream.antt =====
-- mpool/src/v7_mpstream.c and mpool/src/v7_mpool_bblocks.c: streams that write to a list of blocks, and
-- the export of such a list. A block is the bytes of its user content, and
-- all blocks of a list are CBOR blocks.
pub mod Lists
pub mod Chunk
pub mod Write
pub mod Room
pub mod Export
mod Tests
use bplib.Common.{
  ℕ, zero, suc, ◌+◌, ◌-◌, Bool, true, false, Option, none, some, List, [], ◌∷◌, ◌++◌, length, take,
  drop, ltb, leb, ◌==◌, u16, min, ◌>>=◌, if◌then◌else◌,
}

pub data Dir : Type 0 where
  dir_undefined dir_write dir_read : Dir

abbrev pub is_write : Dir → Bool
is_write dir_write = true
is_write _ = false

-- The list at `head` is `earlier` (from its end on) and then `last_eblk`, the last block of the list,
-- or none where `last_eblk` is the head itself. `available` is how many blocks the pool still gives.
pub record Stream : Type 0 where
  pub dir : Dir
  pub earlier : List (List ℕ)
  pub last_eblk : Option (List ℕ)
  pub curr_pos : ℕ
  pub curr_limit : ℕ
  pub stream_position : ℕ
  pub available : ℕ

unfoldable pub stream_init : Dir → ℕ → Stream
stream_init dir available = record {
  dir = dir;
  earlier = [];
  last_eblk = none;
  curr_pos = 0;
  curr_limit = 0;
  stream_position = 0;
  available = available;
}

-- `bplib_mpool_bblock_cbor_set_size`: the length is an uint16_t.
abbrev pub cbor_set_size : ℕ → List ℕ → List ℕ
cbor_set_size size block = take (u16 size) block

abbrev pub with_last : Option (List ℕ) → List (List ℕ) → List (List ℕ)
with_last none earlier = earlier
with_last (some block) earlier = block ∷ earlier

abbrev pub content_bytes : Option (List ℕ) → List ℕ
content_bytes none = []
content_bytes (some block) = block

-- The blocks of the list, from the head on.
pub in_order : List (List ℕ) → List (List ℕ) → List (List ℕ)
in_order [] rest = rest
in_order (block ∷ earlier) rest = in_order earlier (block ∷ rest)

unfoldable pub stream_blocks : Stream → List (List ℕ)
unfolding in_order
stream_blocks mps = in_order (with_last mps.last_eblk mps.earlier) []

-- `capacity` is what `bplib_mpool_get_generic_data_capacity` gives for a generic block.
module _ (capacity : ℕ) where
  -- A new block at the end of the list, or none if the pool gives none.
  unfoldable pub next_block : ℕ → Stream → Option Stream
  next_block zero mps = none
  next_block (suc left) mps = some (record mps {
    earlier = with_last mps.last_eblk mps.earlier;
    last_eblk = some [];
    curr_pos = 0;
    curr_limit = capacity;
    available = left;
  })

  -- The stream with a block to write to.
  unfoldable pub ready : Stream → Option Stream
  unfolding next_block
  ready mps = if leb mps.curr_limit mps.curr_pos then next_block mps.available mps else some mps

  -- One chunk of some size, copied to the position in the block.
  unfoldable pub write_chunk : ℕ → List ℕ → Stream → Stream
  write_chunk chunk_sz chunk mps = record mps {
    last_eblk = some (
        cbor_set_size (mps.curr_pos + chunk_sz)
          (take mps.curr_pos (content_bytes mps.last_eblk) ++ take chunk_sz chunk));
    curr_pos = mps.curr_pos + chunk_sz;
    stream_position = mps.stream_position + chunk_sz;
  }

  -- The loop of `bplib_mpool_stream_write` on fuel, with the bytes that remain: the stream, and how
  -- many bytes remain at the end. A capacity of 0 would let it run on without end.
  unfoldable pub write_loop : ℕ → List ℕ → Stream → Stream × ℕ
  unfolding ready write_chunk
  write_loop zero chunk mps = (mps, length chunk)
  write_loop (suc fuel) [] mps = (mps, 0)
  write_loop (suc fuel) (byte ∷ chunk) mps = elim (ready mps) [
    | none ↦ (mps, length (byte ∷ chunk))
    | some mps' ↦
        let chunk_sz = min (mps'.curr_limit - mps'.curr_pos) (length (byte ∷ chunk)) in
        write_loop fuel (drop chunk_sz (byte ∷ chunk)) (write_chunk chunk_sz (byte ∷ chunk) mps')
  ]

  -- The stream and the number of bytes written. Every round writes a byte, so as many rounds as there
  -- are bytes are enough.
  unfoldable pub stream_write : List ℕ → Stream → Stream × ℕ
  unfolding write_loop
  stream_write bytes mps =
      let (mps', remain_sz) = write_loop (length bytes) bytes mps in
      if is_write mps.dir then (mps', length bytes - remain_sz) else (mps, 0)

-- The loop of `bplib_mpool_bblock_cbor_export`: the bytes copied. `remain_sz` is the room left,
-- `seek_left` what is still skipped, and `data_left` what is still asked for.
unfoldable pub export_loop : List (List ℕ) → ℕ → ℕ → ℕ → List ℕ
export_loop [] remain_sz seek_left data_left = []
export_loop (block ∷ list) remain_sz seek_left data_left =
    let skipped = export_loop list remain_sz (seek_left - length block) data_left in
    let chunk = take data_left (drop seek_left block) in
    let copied =
      chunk ++ export_loop list (remain_sz - length chunk) 0 (data_left - length chunk) in
    if data_left == 0
    then []
    else if ltb (length block) seek_left
    then skipped
    else if ltb remain_sz (length chunk)
    then []
    else copied

-- `bplib_mpool_bblock_cbor_export`, with the bytes at `out_ptr` for the result.
unfoldable pub cbor_export : List (List ℕ) → ℕ → ℕ → ℕ → List ℕ
unfolding export_loop
cbor_export list max_out_size seek_start max_count =
    export_loop list max_out_size seek_start max_count
