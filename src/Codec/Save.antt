-- ===== src/Codec/Save.antt =====
-- v7/src/v7_decode_api.c: a block is stored only as a whole, and only if its CRC is right.
use mathlib.Core.List.{append_assoc}
use bplib.Common.{
  ℕ, ◌-◌, ◌*◌, ◌/◌, min, ◌≤◌, ◌<◌, ◌^◌, ◌≡◌, ◌≢◌, refl, sym, ap, ◌∙◌, inl, inr, ◌⊎◌, true, false,
  List, [], ◌∷◌, ◌++◌, length, take, leb, ltb, ◌==◌, ==_iff, arith, Bool-cases,
}
use bplib.Crc.{crc_get, crc_finalize, digest_noop}
use bplib.Crc.Digest.{digest_append}
use bplib.Mpool.Stream.{dir_write, stream_init, stream_blocks, stream_write}
use bplib.Mpool.Stream.Lists.{take_all}
use bplib.Mpool.Stream.Chunk.{joined, IsWriting}
use bplib.Mpool.Stream.Write.{stream_write_lem}
use bplib.Mpool.Stream.Room.{stream_write-room}
use bplib.Mpool.Stream.Export.{written-fresh}
use bplib.Codec.{
  CrcType, crctype_none, crctype_crc16, crctype_crc32c, get_crc_algorithm, SavedBlock, zero_bytes,
  block_crc, save_and_verify_block,
}

-- The bytes of a block, with zeros for the CRC at its end.
abbrev pub zeroed : CrcType → List ℕ → List ℕ
zeroed crc_type block =
    let crc_len = (get_crc_algorithm crc_type).length / 8 in
    take (length block - crc_len) block ++ take crc_len zero_bytes

-- The two updates amount to one CRC of all the bytes.
pub block_crc-zeroed :
    (crc_type : CrcType) (block : List ℕ)
    → block_crc (get_crc_algorithm crc_type) block
      ≡ crc_get (zeroed crc_type block) (get_crc_algorithm crc_type)
unfolding block_crc crc_get digest_noop
block_crc-zeroed crctype_none block = refl
block_crc-zeroed crctype_crc16 block =
    ap (crc_finalize (get_crc_algorithm crctype_crc16))
      (sym (digest_append 0xFFFF (take (length block - 2) block) (0 ∷ 0 ∷ [])).0)
block_crc-zeroed crctype_crc32c block =
    ap (crc_finalize (get_crc_algorithm crctype_crc32c))
      (sym (digest_append 0xFFFF_FFFF (take (length block - 4) block) (0 ∷ 0 ∷ 0 ∷ 0 ∷ [])).1)

fresh-dir : (available : ℕ) → (stream_init dir_write available).dir ≡ dir_write
unfolding stream_init
fresh-dir available = refl

fresh-blocks : (available : ℕ) → stream_blocks (stream_init dir_write available) ≡ []
unfolding stream_blocks stream_init
fresh-blocks available = refl

fresh-IsWriting : (capacity available : ℕ) → IsWriting capacity (stream_init dir_write available)
unfolding stream_init
fresh-IsWriting capacity available = record {
  at_end = refl;
  within = omega arith;
  limited = omega arith;
}

joined-append : (xs ys : List (List ℕ)) → joined (xs ++ ys) ≡ joined xs ++ joined ys
joined-append [] ys = refl
joined-append (x ∷ xs) ys =
    ap (λ t. x ++ t) (joined-append xs ys) ∙ sym (append_assoc x (joined xs) (joined ys))

-- A block that was stored, with blocks for so many bytes in the pool.
pub record Stored (space : ℕ) (head : List (List ℕ)) (block : List ℕ) (crc_type : CrcType)
    (crc_check : ℕ) (s : SavedBlock) : Type 0 where
  pub whole : s.result ≡ length block
  pub appended : joined s.head ≡ joined head ++ block
  pub none_recycled : s.recycled ≡ []
  pub verified : crc_get (zeroed crc_type block) (get_crc_algorithm crc_type) ≡ crc_check
  pub longer : (get_crc_algorithm crc_type).length / 8 < length block
  pub fits : length block ≤ space

-- A block that was not: it has no room for a CRC, or the pool has too few blocks, or the CRC is
-- another. What was written of it is recycled.
pub record NotStored (space : ℕ) (head : List (List ℕ)) (block : List ℕ) (crc_type : CrcType)
    (crc_check : ℕ) (s : SavedBlock) : Type 0 where
  pub nothing : s.result ≡ 0
  pub same : s.head ≡ head
  pub reason :
      (length block ≤ (get_crc_algorithm crc_type).length / 8)
      ⊎ ((space < length block)
          ⊎ (crc_get (zeroed crc_type block) (get_crc_algorithm crc_type) ≢ crc_check))
  pub unwritten : length block ≤ (get_crc_algorithm crc_type).length / 8 → s.recycled ≡ []
  pub given_back :
      (get_crc_algorithm crc_type).length / 8 < length block → joined s.recycled ≡ take space block

crc_len_small : (crc_type : CrcType) → leb ((get_crc_algorithm crc_type).length / 8) 4 ≡ true
crc_len_small crctype_none = refl
crc_len_small crctype_crc16 = refl
crc_len_small crctype_crc32c = refl

-- What the write to a fresh stream stores.
wrote :
    (capacity available : ℕ) (block : List ℕ)
    → 0 < capacity
    → capacity < 2 ^ 16
    → let r = stream_write capacity block (stream_init dir_write available) in
      (r.1 ≤ length block) × (joined (stream_blocks r.0) ≡ take r.1 block)
wrote capacity available block pos cap =
    let (few, appended, _, _, _) =
      stream_write_lem capacity block (stream_init dir_write available) pos cap
        (fresh-dir available) (fresh-IsWriting capacity available) in
    (
      few,
      appended
          ∙ ap
              (λ l.
                l ++ take (stream_write capacity block (stream_init dir_write available)).1 block)
              (written-fresh available),
    )

-- A write to a fresh stream gets as many bytes in as the pool has blocks for.
wrote-room :
    (capacity available : ℕ) (block : List ℕ)
    → 0 < capacity
    → (stream_write capacity block (stream_init dir_write available)).1
      ≡ min (length block) (available * capacity)
unfolding stream_init
wrote-room capacity available block pos =
    let wrote = stream_write-room capacity block (stream_init dir_write available) pos refl in
    omega (arith, wrote)

take-min : (space : ℕ) (block : List ℕ) → take (min (length block) space) block ≡ take space block
take-min space block = elim (Bool-cases (leb (length block) space)) [
  | inl all ↦
      take_all (min (length block) space) block (ground (arith, all))
      ∙ sym (take_all space block (ground (arith, all)))
  | inr part ↦ ap (λ n. take n block) (ground (arith, part))
]

all_of :
    (n : ℕ) (block stored : List ℕ)
    → stored ≡ take n block
    → (n == length block) ≡ true
    → stored ≡ block
all_of n block stored e all = e ∙ take_all n block (ground (arith, all))

mismatch :
    (computed expected check : ℕ)
    → computed ≡ expected
    → (computed == check) ≡ false
    → expected ≢ check
mismatch computed expected check e bad h = ground (arith, e, bad, h)

-- For a capacity that fits the length field: `v7_save_and_verify_block` stores a block if and only if it is
-- longer than its CRC, it fits in the blocks that the pool still gives (`available` of them), and the
-- CRC of its bytes, with zeros in the place of the CRC, is the one expected. It then returns the size,
-- the chunks at `head` hold in addition the bytes of the block, in order, and no block is recycled.
-- Otherwise it returns 0 and leaves the chunks as they are, and the blocks recycled hold what was
-- written: nothing of a block that is not longer than its CRC, and else as many of its first bytes as
-- the pool had blocks for.
pub save_and_verify_block_lem :
    (capacity available : ℕ) (head : List (List ℕ)) (block : List ℕ) (crc_type : CrcType)
    (crc_check : ℕ)
    → 0 < capacity
    → capacity < 2 ^ 16
    → let s = save_and_verify_block capacity available head block crc_type crc_check in
      Stored (available * capacity) head block crc_type crc_check s
      ⊎ NotStored (available * capacity) head block crc_type crc_check s
unfolding save_and_verify_block
save_and_verify_block_lem capacity available head block crc_type crc_check pos cap =
    let crc_len = (get_crc_algorithm crc_type).length / 8 in
    let out = stream_write capacity block (stream_init dir_write available) in
    let w = wrote capacity available block pos cap in
    let fits = crc_len_small crc_type in
    let much = wrote-room capacity available block pos in
    let given : joined (stream_blocks out.0) ≡ take (available * capacity) block =
      w.1 ∙ ap (λ n. take n block) much ∙ take-min (available * capacity) block in
    elim (Bool-cases (ltb crc_len (length block))) [
      | inr short ↦ inr (
          rw (short) record {
            nothing = refl;
            same = refl;
            reason = inl (ground (arith, short));
            unwritten = λ h. fresh-blocks available;
            given_back = λ long. absurd (ground (arith, short, long));
          })
      | inl long ↦ elim (Bool-cases (out.1 == length block)) [
        | inr part ↦ inr (
            rw (long, fits, part)
              record {
                nothing = refl;
                same = refl;
                reason = inr (inl (ground (arith, part, much)));
                unwritten = λ short. absurd (ground (arith, short, long));
                given_back = λ h. given;
              })
        | inl all ↦ elim (Bool-cases (block_crc (get_crc_algorithm crc_type) block == crc_check)) [
          | inl good ↦ inl (
              rw (long, fits, all, good)
                record {
                  whole = refl;
                  appended =
                      joined-append head (stream_blocks out.0)
                      ∙ ap (λ t. joined head ++ t)
                          (all_of out.1 block (joined (stream_blocks out.0)) w.1 all);
                  none_recycled = refl;
                  verified =
                      sym (block_crc-zeroed crc_type block)
                      ∙ (==_iff (block_crc (get_crc_algorithm crc_type) block) crc_check).0 good;
                  longer = ground (arith, long);
                  fits = ground (arith, all, much);
                })
          | inr bad ↦ inr (
              rw (long, fits, all, bad)
                record {
                  nothing = refl;
                  same = refl;
                  reason = inr (
                      inr (
                        mismatch (block_crc (get_crc_algorithm crc_type) block)
                          (crc_get (zeroed crc_type block) (get_crc_algorithm crc_type)) crc_check
                          (block_crc-zeroed crc_type block) bad));
                  unwritten = λ short. absurd (ground (arith, short, long));
                  given_back = λ h. given;
                })
        ]
      ]
    ]
