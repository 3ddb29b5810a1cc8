-- ===== src/Crc.antt =====
-- common/src/crc.c: CRCs by table. A table of 256 numbers is a function of the byte, and a buffer is a
-- list of bytes. The loops over an eight-bit `mask` that is shifted until it is 0 take eight rounds.
pub mod Digest
pub mod Division
pub mod Entries
pub mod Tables
mod Tests
use bplib.Common.{
  ℕ, zero, suc, ◌+◌, ◌-◌, ◌*◌, ◌/◌, ◌^◌, Bool, true, false, List, [], ◌∷◌, ◌==◌, leb, ltb, u8, u16,
  u32, bit_and, bit_or, bit_xor, if◌then◌else◌,
}

unfoldable pub reflect_rounds : ℕ → ℕ → ℕ → ℕ
reflect_rounds zero input result = result
reflect_rounds (suc rounds) input result =
    reflect_rounds rounds (input / 2) (bit_or (u8 (result * 2)) (bit_and input 1))

unfoldable pub precompute_reflection : ℕ → ℕ
unfolding reflect_rounds
precompute_reflection byte = reflect_rounds 8 byte 0

unfoldable pub byte_round : ℕ → ℕ → ℕ
byte_round polynomial crcval =
    if bit_and crcval 0x8000_0000 == 0
    then u32 (crcval * 2)
    else bit_xor (u32 (crcval * 2)) polynomial

unfoldable pub byte_rounds : ℕ → ℕ → ℕ → ℕ
unfolding byte_round
byte_rounds zero polynomial crcval = crcval
byte_rounds (suc rounds) polynomial crcval =
    byte_rounds rounds polynomial (byte_round polynomial crcval)

-- For widths from 1 to 32.
unfoldable pub precompute_crc_byte : ℕ → ℕ → ℕ → ℕ
unfolding byte_rounds
precompute_crc_byte width byte polynomial =
    let crcval = byte_rounds 8 (u32 (polynomial * 2 ^ (32 - width))) (u32 (byte * 2 ^ 24)) in
    if ltb width 32 then bit_and (crcval / 2 ^ (32 - width)) (2 ^ width - 1) else crcval

abbrev pub crc16_x25_poly : ℕ
crc16_x25_poly = 0x1021

abbrev pub crc32_c_poly : ℕ
crc32_c_poly = 0x1EDC_6F41

-- `BPLIB_CRC_REFLECT_TABLE`, `BPLIB_CRC16_X25_TABLE` and `BPLIB_CRC32_C_TABLE` as `bplib_crc_init`
-- leaves them.
unfoldable pub reflect_table : ℕ → ℕ
unfolding precompute_reflection
reflect_table byte = precompute_reflection byte

unfoldable pub crc16_x25_table : ℕ → ℕ
unfolding precompute_crc_byte
crc16_x25_table byte = precompute_crc_byte 16 byte crc16_x25_poly

unfoldable pub crc32_c_table : ℕ → ℕ
unfolding precompute_crc_byte
crc32_c_table byte = precompute_crc_byte 32 byte crc32_c_poly

module _ (input_table xor_table : ℕ → ℕ) where
  -- `crc` is a `uint16_t`, and `crc << 8` is computed on `int` before it is stored.
  unfoldable pub step16 : ℕ → ℕ → ℕ
  step16 crc byte =
      u16 (
        bit_xor (xor_table (bit_and (bit_xor (crc / 2 ^ 8) (input_table byte)) 0xFF)) (crc * 2 ^ 8))

  unfoldable pub generic16_impl : ℕ → List ℕ → ℕ
  unfolding step16
  generic16_impl crc [] = crc
  generic16_impl crc (byte ∷ rest) = generic16_impl (step16 crc byte) rest

  unfoldable pub step32 : ℕ → ℕ → ℕ
  step32 crc byte =
      bit_xor (xor_table (bit_and (bit_xor (crc / 2 ^ 24) (input_table byte)) 0xFF))
        (u32 (crc * 2 ^ 8))

  unfoldable pub generic32_impl : ℕ → List ℕ → ℕ
  unfolding step32
  generic32_impl crc [] = crc
  generic32_impl crc (byte ∷ rest) = generic32_impl (step32 crc byte) rest

unfoldable pub digest_noop : ℕ → List ℕ → ℕ
digest_noop crc bytes = crc

-- The argument of type `bp_crcval_t` (32 bits) becomes a `uint16_t`.
unfoldable pub digest_crc16_x25 : ℕ → List ℕ → ℕ
unfolding generic16_impl reflect_table crc16_x25_table
digest_crc16_x25 crc bytes = generic16_impl reflect_table crc16_x25_table (u16 crc) bytes

unfoldable pub digest_crc32_castagnoli : ℕ → List ℕ → ℕ
unfolding generic32_impl reflect_table crc32_c_table
digest_crc32_castagnoli crc bytes = generic32_impl reflect_table crc32_c_table crc bytes

pub record CrcParameters : Type 0 where
  pub length : ℕ
  pub should_reflect_output : Bool
  pub digest : ℕ → List ℕ → ℕ
  pub initial_value : ℕ
  pub final_xor : ℕ

abbrev pub crc_none : CrcParameters
crc_none = record {
  length = 0;
  should_reflect_output = false;
  digest = digest_noop;
  initial_value = 0;
  final_xor = 0;
}

abbrev pub crc16_x25 : CrcParameters
crc16_x25 = record {
  length = 16;
  should_reflect_output = true;
  digest = digest_crc16_x25;
  initial_value = 0xFFFF;
  final_xor = 0xFFFF;
}

abbrev pub crc32_castagnoli : CrcParameters
crc32_castagnoli = record {
  length = 32;
  should_reflect_output = true;
  digest = digest_crc32_castagnoli;
  initial_value = 0xFFFF_FFFF;
  final_xor = 0xFFFF_FFFF;
}

abbrev pub crc_update : CrcParameters → ℕ → List ℕ → ℕ
crc_update params crc bytes = params.digest crc bytes

-- The two loops of `bplib_crc_finalize`, which take one round for each eight bits of the length and one
-- for each bit that is left.
unfoldable pub reflect_bytes : ℕ → ℕ → ℕ → ℕ × ℕ
reflect_bytes zero crc crc_final = (crc, crc_final)
reflect_bytes (suc rounds) crc crc_final =
    reflect_bytes rounds (crc / 2 ^ 8)
      (bit_or (u32 (crc_final * 2 ^ 8)) (reflect_table (bit_and crc 0xFF)))

unfoldable pub reflect_bits : ℕ → ℕ → ℕ → ℕ
reflect_bits zero crc crc_final = crc_final
reflect_bits (suc rounds) crc crc_final =
    reflect_bits rounds (crc / 2) (bit_or (u32 (crc_final * 2)) (bit_and crc 1))

unfoldable pub reflected : ℕ → ℕ → ℕ
unfolding reflect_bytes reflect_bits
reflected length crc =
    let (left, crc_final) = reflect_bytes (length / 8) crc 0 in
    reflect_bits (length - length / 8 * 8) left crc_final

unfoldable pub crc_finalize : CrcParameters → ℕ → ℕ
unfolding reflected
crc_finalize params crc =
    let crc_final =
      bit_xor (if params.should_reflect_output then reflected params.length crc else crc)
        params.final_xor in
    if ltb params.length 32 then bit_and crc_final (2 ^ params.length - 1) else crc_final

unfoldable pub crc_get : List ℕ → CrcParameters → ℕ
unfolding crc_finalize
crc_get bytes params = crc_finalize params (params.digest params.initial_value bytes)
