-- ===== src/Crc/Digest.antt =====
-- common/src/crc.c: digests piece by piece, and the range of the results.
use bplib.Common.{ℕ, ◌^◌, ◌<◌, ◌≡◌, refl, sym, ap, ◌∙◌, List, [], ◌∷◌, ◌++◌, arith, u16}
use bplib.Crc.{
  step16, step32, reflect_table, crc16_x25_table, crc32_c_table, generic16_impl, generic32_impl,
  digest_crc16_x25, digest_crc32_castagnoli,
}

module _ (input_table xor_table : ℕ → ℕ) where
  generic16_append :
      (first second : List ℕ) (crc : ℕ)
      → generic16_impl input_table xor_table crc (first ++ second)
        ≡ generic16_impl input_table xor_table
            (generic16_impl input_table xor_table crc first)
            second
  unfolding generic16_impl
  generic16_append [] second crc = refl
  generic16_append (byte ∷ rest) second crc =
      generic16_append rest second (step16 input_table xor_table crc byte)

  generic32_append :
      (first second : List ℕ) (crc : ℕ)
      → generic32_impl input_table xor_table crc (first ++ second)
        ≡ generic32_impl input_table xor_table
            (generic32_impl input_table xor_table crc first)
            second
  unfolding generic32_impl
  generic32_append [] second crc = refl
  generic32_append (byte ∷ rest) second crc =
      generic32_append rest second (step32 input_table xor_table crc byte)

  generic16-word :
      (bytes : List ℕ) (crc : ℕ)
      → crc < 2 ^ 16
      → generic16_impl input_table xor_table crc bytes < 2 ^ 16
  unfolding generic16_impl step16
  generic16-word [] crc h = h
  generic16-word (byte ∷ rest) crc h =
      generic16-word rest (step16 input_table xor_table crc byte) (omega arith)

-- A digest can be computed piece by piece: the digest of two buffers one after the other is the digest
-- of the second that starts from the digest of the first, for both CRCs.
pub digest_append :
    (crc : ℕ) (first second : List ℕ)
    → (digest_crc16_x25 crc (first ++ second)
        ≡ digest_crc16_x25 (digest_crc16_x25 crc first) second)
      × (digest_crc32_castagnoli crc (first ++ second)
          ≡ digest_crc32_castagnoli (digest_crc32_castagnoli crc first) second)
unfolding digest_crc16_x25 digest_crc32_castagnoli
digest_append crc first second =
    let word : digest_crc16_x25 crc first < 2 ^ 16 =
      generic16-word reflect_table crc16_x25_table first (u16 crc) (omega arith) in
    let same : u16 (digest_crc16_x25 crc first) ≡ digest_crc16_x25 crc first =
      omega (arith, word) in
    (
      generic16_append reflect_table crc16_x25_table first second (u16 crc)
          ∙ ap (λ (t : ℕ). generic16_impl reflect_table crc16_x25_table t second) (sym same),
      generic32_append reflect_table crc32_c_table first second crc,
    )
