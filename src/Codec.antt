-- ===== src/Codec.antt =====
-- v7/src/v7_codec_common.c and v7/src/v7_decode_api.c: the choice of a CRC, and the step of decoding that
-- stores the bytes of a block and verifies its CRC.
pub mod Save
pub mod Bundle
mod Tests
use bplib.Common.{
  ℕ, ◌-◌, ◌/◌, ◌&&◌, List, [], ◌∷◌, ◌++◌, length, take, leb, ltb, ◌==◌, if◌then◌else◌,
}
use bplib.Crc.{CrcParameters, crc_none, crc16_x25, crc32_castagnoli, crc_update, crc_finalize}
use bplib.Mpool.Stream.{dir_write, stream_init, stream_blocks, stream_write}

pub data CrcType : Type 0 where
  crctype_none crctype_crc16 crctype_crc32c : CrcType

abbrev pub get_crc_algorithm : CrcType → CrcParameters
get_crc_algorithm crctype_crc16 = crc16_x25
get_crc_algorithm crctype_crc32c = crc32_castagnoli
get_crc_algorithm crctype_none = crc_none

-- The number returned, the blocks at `head` afterwards, and the blocks that the stream still has when
-- `bplib_mpool_stream_close` recycles them.
pub record SavedBlock : Type 0 where
  pub result : ℕ
  pub head : List (List ℕ)
  pub recycled : List (List ℕ)

abbrev pub zero_bytes : List ℕ
zero_bytes = 0 ∷ 0 ∷ 0 ∷ 0 ∷ []

-- The CRC of a block, with zeros for the CRC at its end.
unfoldable pub block_crc : CrcParameters → List ℕ → ℕ
unfolding crc_finalize
block_crc params block =
    let crc_len = params.length / 8 in
    crc_finalize params (
      crc_update params
        (crc_update params params.initial_value (take (length block - crc_len) block))
        (take crc_len zero_bytes))

-- `v7_save_and_verify_block`, for blocks of some capacity, and a pool with so many blocks to give.
unfoldable pub save_and_verify_block : ℕ → ℕ → List (List ℕ) → List ℕ → CrcType → ℕ → SavedBlock
unfolding stream_init stream_write stream_blocks block_crc
save_and_verify_block capacity available head block crc_type crc_check =
    let params = get_crc_algorithm crc_type in
    let crc_len = params.length / 8 in
    let mps = stream_init dir_write available in
    let (mps', size) = stream_write capacity block mps in
    if ltb crc_len (length block) && leb crc_len (length zero_bytes)
    then if size == length block
      then if block_crc params block == crc_check
        then record { result = length block; head = head ++ stream_blocks mps'; recycled = [] }
        else record { result = 0; head = head; recycled = stream_blocks mps' }
      else record { result = 0; head = head; recycled = stream_blocks mps' }
    else record { result = 0; head = head; recycled = stream_blocks mps }
