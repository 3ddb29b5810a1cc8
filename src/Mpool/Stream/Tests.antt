-- ===== src/Mpool/Stream/Tests.antt =====
-- mpool/src/v7_mpstream.c: a write of six bytes to blocks of four, and the theorems at it.
use bplib.Common.{ℕ, ◌≡◌, refl, List, [], ◌∷◌, take, drop, arith}
use bplib.Mpool.Stream.{Stream, dir_write, stream_init, stream_blocks, stream_write, cbor_export}
use bplib.Mpool.Stream.Chunk.{IsWriting}
use bplib.Mpool.Stream.Write.{Written, stream_write_lem}
use bplib.Mpool.Stream.Export.{cbor_export-stream_write}

abbrev six : List ℕ
six = 1 ∷ 2 ∷ 3 ∷ 4 ∷ 5 ∷ 6 ∷ []

abbrev fresh : Stream
fresh = stream_init dir_write 3

fresh-IsWriting : IsWriting 4 fresh
unfolding stream_init
fresh-IsWriting = record { at_end = refl; within = omega arith; limited = omega arith }

two_blocks : stream_blocks (stream_write 4 six fresh).0 ≡ (1 ∷ 2 ∷ 3 ∷ 4 ∷ []) ∷ (5 ∷ 6 ∷ []) ∷ []
unfolding stream_write stream_init stream_blocks
two_blocks = refl

middle : cbor_export (stream_blocks (stream_write 4 six fresh).0) 10 3 2 ≡ 4 ∷ 5 ∷ []
unfolding stream_write stream_init stream_blocks cbor_export
middle = refl

stream_write_lem_example : Written 4 six fresh (stream_write 4 six fresh)
unfolding stream_init
stream_write_lem_example =
    stream_write_lem 4 six fresh (omega arith) (omega arith) refl fresh-IsWriting

cbor_export-stream_write_example :
    cbor_export (stream_blocks (stream_write 4 six fresh).0) 10 3 2
    ≡ take 2 (drop 3 (take (stream_write 4 six fresh).1 six))
unfolding stream_write stream_init
cbor_export-stream_write_example =
    cbor_export-stream_write 4 3 six 10 3 2 (omega arith) (omega arith) (omega arith)
