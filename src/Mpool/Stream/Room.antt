-- ===== src/Mpool/Stream/Room.antt =====
-- mpool/src/v7_mpstream.c: how many bytes a write gets into the stream.
use mathlib.Core.Path.{subst}
use bplib.Common.{
  ℕ, zero, suc, ◌+◌, ◌-◌, ◌*◌, ◌≤◌, ◌<◌, ◌≡◌, refl, sym, ap, ◌∙◌, inl, inr, Option, none, some,
  List, [], ◌∷◌, length, drop, length-drop, min, leb, arith, Bool-cases, if_true, if_false,
}
use bplib.Mpool.Stream.{
  Stream, dir_write, is_write, next_block, ready, write_chunk, write_loop, stream_write,
}

module _ (capacity : ℕ) where
  -- The bytes that fit in the last block and in the blocks that the pool still gives.
  abbrev pub room : Stream → ℕ
  room mps = mps.curr_limit - mps.curr_pos + mps.available * capacity

  abbrev HasRoom : Stream → Option Stream → Type 0
  HasRoom mps none = room mps ≡ 0
  HasRoom mps (some mps') = (room mps' ≡ room mps) × (mps'.curr_pos < mps'.curr_limit)

  next_block-room :
      (left : ℕ) (mps : Stream)
      → 0 < capacity
      → mps.available ≡ left
      → mps.curr_limit ≤ mps.curr_pos
      → HasRoom mps (next_block capacity left mps)
  unfolding next_block
  next_block-room zero mps pos e full = omega (arith, full, ap (λ (n : ℕ). n * capacity) e)
  next_block-room (suc left) mps pos e full =
      (omega (arith, full, ap (λ (n : ℕ). n * capacity) e), pos)

  ready-room : (mps : Stream) → 0 < capacity → HasRoom mps (ready capacity mps)
  unfolding ready
  ready-room mps pos = elim (Bool-cases (leb mps.curr_limit mps.curr_pos)) [
    | inl full ↦
        subst (HasRoom mps) (sym (if_true _ full))
          (next_block-room mps.available mps pos refl (ground (arith, full)))
    | inr left ↦ subst (HasRoom mps) (sym (if_false _ left)) (refl, ground (arith, left))
  ]

  write_loop-room :
      (fuel : ℕ) (chunk : List ℕ) (mps : Stream)
      → 0 < capacity
      → length chunk ≤ fuel
      → (write_loop capacity fuel chunk mps).1 + min (length chunk) (room mps) ≡ length chunk
  unfolding write_loop
  write_loop-room zero [] mps pos f = omega arith
  write_loop-room zero (byte ∷ chunk) mps pos f = absurd (omega arith)
  write_loop-room (suc fuel) [] mps pos f = omega arith
  write_loop-room (suc fuel) (byte ∷ chunk) mps pos f =
      by_ready (ready capacity mps) (ready-room mps pos) (λ l m. write_loop-room fuel l m pos)
    where
      all : List ℕ
      all = byte ∷ chunk

      size_of : Stream → ℕ
      size_of m = min (m.curr_limit - m.curr_pos) (length all)

      by_ready :
          (o : Option Stream)
          → HasRoom mps o
          → ((l : List ℕ) (m : Stream)
              → length l ≤ fuel
              → (write_loop capacity fuel l m).1 + min (length l) (room m) ≡ length l)
          → (let out : Stream × ℕ = elim o [
            | none ↦ (mps, length all)
            | some m ↦
                write_loop capacity fuel
                  (drop (size_of m) all)
                  (write_chunk capacity (size_of m) all m)
          ] in
                out).1
              + min (length all) (room mps)
            ≡ length all
      by_ready none h ih = omega (arith, h)
      by_ready (some m) h ih =
          let sz = size_of m in
          let left = length-drop sz all in
          let rest =
            ih (drop sz all) (write_chunk capacity sz all m) (omega (arith, left, h.1, f)) in
          let less : room (write_chunk capacity sz all m) + sz ≡ room m =
            unfold write_chunk in omega (arith, h.1) in
          omega (arith, rest, left, h.0, h.1, less)

  -- A write gets as many bytes into the stream as there is room for.
  pub stream_write-room :
      (bytes : List ℕ) (mps : Stream)
      → 0 < capacity
      → mps.dir ≡ dir_write
      → (stream_write capacity bytes mps).1 ≡ min (length bytes) (room mps)
  unfolding stream_write
  stream_write-room bytes mps pos dir =
      ap (λ (r : Stream × ℕ). r.1) (if_true (mps, 0) (ap is_write dir))
      ∙ omega (arith, write_loop-room (length bytes) bytes mps pos (omega arith))
