-- ===== src/Mpool/Stream/Write.antt =====
-- mpool/src/v7_mpstream.c: what a write puts into the blocks.
use mathlib.Core.List.{append_assoc}
use mathlib.Core.Path.{subst}
use bplib.Common.{
  ℕ, zero, suc, ◌+◌, ◌-◌, ◌≤◌, ◌<◌, ◌^◌, ◌≡◌, refl, sym, ap, ◌∙◌, inl, inr, ◌⊎◌, Option, none, some,
  List, [], ◌∷◌, ◌++◌, length, take, drop, length-drop, min, arith, if_true,
}
use bplib.Mpool.Stream.{Stream, dir_write, is_write, ready, write_chunk, write_loop, stream_write}
use bplib.Mpool.Stream.Lists.{take-add}
use bplib.Mpool.Stream.Chunk.{
  written, IsWriting, Wrote, Ready, ReadyOr, nothing, ready_lem, write_chunk_lem,
}

module _ (capacity : ℕ) where
  -- A round and what the rounds after it do.
  round :
      (sz : ℕ) (chunk : List ℕ) (mps ready_mps mps'' : Stream) (r : ℕ)
      → capacity < 2 ^ 16
      → Ready capacity mps ready_mps
      → ready_mps.curr_pos + sz ≤ ready_mps.curr_limit
      → sz ≤ length chunk
      → Wrote capacity (drop sz chunk) (write_chunk capacity sz chunk ready_mps) mps'' r
      → Wrote capacity chunk mps mps'' r
  round sz chunk mps ready_mps mps'' r cap h room enough rest =
      let (put, _, at) = write_chunk_lem capacity sz chunk ready_mps cap h.writing room enough in
      record {
        some_written = omega (arith, rest.some_written, length-drop sz chunk);
        appended =
            rest.appended
            ∙ ap (λ l. l ++ take (length (drop sz chunk) - r) (drop sz chunk))
                (put ∙ ap (λ l. l ++ take sz chunk) h.kept)
            ∙ append_assoc (written mps) (take sz chunk)
                (take (length (drop sz chunk) - r) (drop sz chunk))
            ∙ ap (λ l. written mps ++ l) (sym (take-add sz (length (drop sz chunk) - r) chunk))
            ∙ ap (λ n. written mps ++ take n chunk)
                (omega (arith, rest.some_written, length-drop sz chunk, enough));
        still = rest.still;
        stopped = rest.stopped;
        moved = omega (
          arith,
          rest.moved,
          at,
          h.same_position,
          rest.some_written,
          length-drop sz chunk,
          enough,
        );
      }

  write_loop_lem :
      (fuel : ℕ) (chunk : List ℕ) (mps : Stream)
      → 0 < capacity
      → capacity < 2 ^ 16
      → IsWriting capacity mps
      → length chunk ≤ fuel
      → let (mps', r) = write_loop capacity fuel chunk mps in Wrote capacity chunk mps mps' r
  unfolding write_loop
  write_loop_lem zero [] mps pos cap w f = nothing capacity [] mps 0 refl w (inl refl)
  write_loop_lem zero (byte ∷ chunk) mps pos cap w f = absurd (omega arith)
  write_loop_lem (suc fuel) [] mps pos cap w f = nothing capacity [] mps 0 refl w (inl refl)
  write_loop_lem (suc fuel) (byte ∷ chunk) mps pos cap w f =
      by_ready (ready capacity mps) (ready_lem capacity mps pos w)
        (λ l m. write_loop_lem fuel l m pos cap)
    where
      all : List ℕ
      all = byte ∷ chunk

      size_of : Stream → ℕ
      size_of m = min (m.curr_limit - m.curr_pos) (length all)

      by_ready :
          (o : Option Stream)
          → ReadyOr capacity mps o
          → ((l : List ℕ) (m : Stream)
              → IsWriting capacity m
              → length l ≤ fuel
              → let (m', r) = write_loop capacity fuel l m in Wrote capacity l m m' r)
          → let (m', r) =
              (let out : Stream × ℕ = elim o [
                | none ↦ (mps, length all)
                | some m ↦
                    write_loop capacity fuel
                      (drop (size_of m) all)
                      (write_chunk capacity (size_of m) all m)
              ] in
                out) in
            Wrote capacity all mps m' r
      by_ready none h ih = nothing capacity all mps (length all) refl w (inr h)
      by_ready (some m) h ih =
          let sz = size_of m in
          let room : m.curr_pos + sz ≤ m.curr_limit = omega (arith, h.room) in
          let (_, still, _) = write_chunk_lem capacity sz all m cap h.writing room (omega arith) in
          let rest =
            ih (drop sz all) (write_chunk capacity sz all m) still
              (omega (arith, length-drop sz all, h.room, f)) in
          let out = write_loop capacity fuel (drop sz all) (write_chunk capacity sz all m) in
          round sz all mps m out.0 out.1 cap h room (omega arith) rest

  -- What a call of `stream_write` gives.
  abbrev pub Written : List ℕ → Stream → Stream × ℕ → Type 0
  Written bytes mps (mps', n) =
      (n ≤ length bytes)
      × (written mps' ≡ written mps ++ take n bytes)
      × IsWriting capacity mps'
      × ((n ≡ length bytes) ⊎ (mps'.available ≡ 0))
      × (mps'.stream_position ≡ mps.stream_position + n)

  end_of :
      (bytes : List ℕ) (r : ℕ) (mps : Stream)
      → r ≤ length bytes
      → (r ≡ 0) ⊎ (mps.available ≡ 0)
      → (length bytes - r ≡ length bytes) ⊎ (mps.available ≡ 0)
  end_of bytes r mps le (inl e) = inl (omega (arith, e))
  end_of bytes r mps le (inr e) = inr e

  -- For a capacity that fits the length field, a write to a stream that stands at the end of its last
  -- block ends after as many rounds as there are bytes. The bytes that it counts are appended to the
  -- bytes of the list, in order and with nothing between, and the position moves by their number.
  -- Fewer bytes than asked for are written only when the pool has no more blocks.
  pub stream_write_lem :
      (bytes : List ℕ) (mps : Stream)
      → 0 < capacity
      → capacity < 2 ^ 16
      → mps.dir ≡ dir_write
      → IsWriting capacity mps
      → Written bytes mps (stream_write capacity bytes mps)
  unfolding stream_write
  stream_write_lem bytes mps pos cap dir w =
      let out = write_loop capacity (length bytes) bytes mps in
      let h = write_loop_lem (length bytes) bytes mps pos cap w (omega arith) in
      subst (Written bytes mps) (sym (if_true (mps, 0) (ap is_write dir))) (
        omega arith,
        h.appended,
        h.still,
        end_of bytes out.1 out.0 h.some_written h.stopped,
        h.moved,
      )
