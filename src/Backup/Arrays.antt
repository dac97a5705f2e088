-- ===== src/Backup/Arrays.antt =====
-- The copies of a backup stay within their arrays: main.cpp, `rev_container_buf` and the two `memcpy`
-- of `saveChunkToContainer`.
use c_dedup.Base.{
  ℕ, one_result, ◌>>=◌, ◌+◌, ◌*◌, ◌^◌, ◌≤◌, ◌<◌, ◌≡◌, sym, ap, false, some, List, [], ◌∷◌, arith,
  length, Bytes, All, ◌∙◌, refl,
}
use c_dedup.Store.{container_size}
use c_dedup.Chunking.Split.{Fits}
use c_dedup.Backup.{Writer, write_end, note_chunk, finish_write}
use c_dedup.Backup.Flush.{IsWriting}
use c_dedup.Backup.Append.{IsSha1}
use c_dedup.Backup.Chunk.{write_chunk-Stored}
use c_dedup.Backup.Lines.{shortness, short_chunks}
use c_dedup.Backup.Loop.{write_chunks}

-- With a line of the reverse buffer left for each chunk.
pub write_chunks-within :
    (sha1 : Bytes → Bytes) (chunks : List Bytes) (w w' : Writer)
    → IsSha1 sha1
    → IsWriting sha1 w
    → w.container_index + length chunks < 2 ^ 32
    → All (Fits 65535) chunks
    → 20 * (w.rev_container_cnt + length chunks) ≤ container_size
    → w.overrun ≡ false
    → write_chunks sha1 chunks w ≡ some w'
    → w'.overrun ≡ false
unfolding note_chunk
write_chunks-within sha1 [] w w' is_sha1 ok small fits lines before run =
    ap (λ w. w.overrun) (sym (one_result w w' run)) ∙ before
write_chunks-within sha1 (chunk ∷ chunks) w w' is_sha1 ok small fits lines before run =
    let (w1, first, stored, within) =
      write_chunk-Stored sha1 is_sha1 chunk w ok (omega (arith, small)) fits.0 in
    let rest : write_chunks sha1 chunks w1 ≡ some w' =
      sym (ap (λ o. o >>= write_chunks sha1 chunks) first) ∙ run in
    write_chunks-within sha1 chunks w1 w' is_sha1 stored.next
      (omega (arith, small, stored.index_le)) fits.1 (omega (arith, lines, within.0))
      (within.1 (omega (arith, lines)) before) rest

pub finish_write-within : (w : Writer) → w.overrun ≡ false → finish_write w ≡ some (write_end w)
unfolding finish_write
finish_write-within w h = rw h refl

-- With few short chunks, and any number of others. `k` short ones have been written before.
pub write_chunks-within_half :
    (sha1 : Bytes → Bytes) (chunks : List Bytes) (w w' : Writer) (k : ℕ)
    → IsSha1 sha1
    → IsWriting sha1 w
    → w.container_index + length chunks < 2 ^ 32
    → All (Fits 65535) chunks
    → 40 * w.rev_container_cnt ≤ length w.container_buf + 40 * k
    → short_chunks chunks + k ≤ 100000
    → w.overrun ≡ false
    → write_chunks sha1 chunks w ≡ some w'
    → w'.overrun ≡ false
unfolding note_chunk
write_chunks-within_half sha1 [] w w' k is_sha1 ok small fits lines few before run =
    ap (λ w. w.overrun) (sym (one_result w w' run)) ∙ before
write_chunks-within_half sha1 (chunk ∷ chunks) w w' k is_sha1 ok small fits lines few before run =
    let (w1, first, stored, within) =
      write_chunk-Stored sha1 is_sha1 chunk w ok (omega (arith, small)) fits.0 in
    let rest : write_chunks sha1 chunks w1 ≡ some w' =
      sym (ap (λ o. o >>= write_chunks sha1 chunks) first) ∙ run in
    write_chunks-within_half sha1 chunks w1 w' (shortness chunk + k) is_sha1 stored.next
      (omega (arith, small, stored.index_le)) fits.1 (within.2 k lines) (omega (arith, few))
      (within.1 (omega (arith, lines, few, ok.room)) before) rest
