-- ===== src/Codec/Tests.antt =====
-- v7/src/v7_decode_api.c and v7/src/v7_codec_common.c: a block that is stored, and a bundle that is copied.
use bplib.Common.{ℕ, ◌≡◌, ◌⊎◌, refl, true, List, [], ◌∷◌, length, arith}
use bplib.Crc.{digest_noop}
use bplib.Codec.{crctype_none, crctype_crc16, block_crc, get_crc_algorithm, save_and_verify_block}
use bplib.Codec.Save.{Stored, NotStored, save_and_verify_block_lem}
use bplib.Codec.Bundle.{
  EncodedBlock, Bundle, Encoders, compute_full_bundle_size, copy_full_bundle_out,
}
use bplib.Codec.Bundle.Copy.{content, IsBundle, copy_full_bundle_out-compute}

-- A block of five bytes and a CRC of 16 bits.
abbrev seven_bytes : List ℕ
seven_bytes = 1 ∷ 2 ∷ 3 ∷ 4 ∷ 5 ∷ 0x34 ∷ 0x12 ∷ []

save_and_verify_block_lem_example :
    let s =
      save_and_verify_block 4 3
        ((9 ∷ []) ∷ [])
        seven_bytes
        crctype_crc16
        (block_crc (get_crc_algorithm crctype_crc16) seven_bytes) in
    Stored 12
      ((9 ∷ []) ∷ [])
      seven_bytes
      crctype_crc16
      (block_crc (get_crc_algorithm crctype_crc16) seven_bytes)
      s
    ⊎ NotStored 12
        ((9 ∷ []) ∷ [])
        seven_bytes
        crctype_crc16
        (block_crc (get_crc_algorithm crctype_crc16) seven_bytes)
        s
save_and_verify_block_lem_example =
    save_and_verify_block_lem 4 3 ((9 ∷ []) ∷ []) seven_bytes crctype_crc16
      (block_crc (get_crc_algorithm crctype_crc16) seven_bytes) (omega arith) (omega arith)

stored_without_crc :
    (save_and_verify_block 4 3 ((9 ∷ []) ∷ []) seven_bytes crctype_none 0).head
    ≡ (9 ∷ []) ∷ (1 ∷ 2 ∷ 3 ∷ 4 ∷ []) ∷ (5 ∷ 0x34 ∷ 0x12 ∷ []) ∷ []
unfolding save_and_verify_block digest_noop
stored_without_crc = refl

refused_by_the_pool :
    (save_and_verify_block 4 1 ((9 ∷ []) ∷ []) seven_bytes crctype_none 0).result ≡ 0
unfolding save_and_verify_block
refused_by_the_pool = refl

-- Encoders that give a block of one byte.
abbrev one_byte : EncodedBlock → EncodedBlock
one_byte block = record { chunk_list = (0x80 ∷ []) ∷ []; block_encode_size_cache = 1 }

abbrev encoders : Encoders
encoders = record {
  encode_pri = λ block. (one_byte block, true);
  encode_canonical = λ block. (one_byte block, true);
}

abbrev two_blocks : Bundle
two_blocks = record {
  primary = record { chunk_list = []; block_encode_size_cache = 0 };
  cblock_list =
      record { chunk_list = (1 ∷ 2 ∷ []) ∷ (3 ∷ []) ∷ []; block_encode_size_cache = 3 } ∷ [];
  bundle_encode_size_cache = 0;
}

two_blocks-IsBundle : IsBundle two_blocks
two_blocks-IsBundle = record {
  primary_cached = λ h. absurd (h refl);
  canonicals_cached = (λ h. refl, tt);
  size_cached = λ h. absurd (h refl);
}

size_of_two_blocks : (compute_full_bundle_size encoders two_blocks).1 ≡ 6
unfolding compute_full_bundle_size
size_of_two_blocks = refl

copy_of_two_blocks :
    copy_full_bundle_out (compute_full_bundle_size encoders two_blocks).0 6
    ≡ 0x9F ∷ 0x80 ∷ 1 ∷ 2 ∷ 3 ∷ 0xFF ∷ []
unfolding compute_full_bundle_size copy_full_bundle_out
copy_of_two_blocks = refl

copy_full_bundle_out-compute_example :
    (copy_full_bundle_out (compute_full_bundle_size encoders two_blocks).0 6
      ≡ content (compute_full_bundle_size encoders two_blocks).0)
    × (length (copy_full_bundle_out (compute_full_bundle_size encoders two_blocks).0 6)
        ≡ (compute_full_bundle_size encoders two_blocks).1)
copy_full_bundle_out-compute_example =
    copy_full_bundle_out-compute encoders (λ block ok. refl) two_blocks 6 (λ block ok. refl)
      two_blocks-IsBundle (λ e. absurd (omega (arith, e, size_of_two_blocks)))
      (omega (arith, size_of_two_blocks)) (omega arith)
