-- ===== src/Backup/Lines.antt =====
-- The lines of the reverse buffer: main.cpp, `rev_container_buf` and the second `memcpy` of
-- `saveChunkToContainer`.
use c_dedup.Base.{
  ℕ, ◌+◌, ◌*◌, ◌^◌, ◌≤◌, ◌<◌, ◌≡◌, ap, ◌∙◌, false, List, [], ◌∷◌, arith, if◌then◌else◌, length,
  Bytes, ltb, Bool-cases, inl, inr, write_at, write_at_end, length-append,
}
use c_dedup.Store.{container_size}
use c_dedup.Backup.{Writer, copy_chunk, advance, flush}
use c_dedup.Backup.Flush.{IsWriting, flush-IsWriting}
use c_dedup.Backup.Append.{appended}

-- 1 for a chunk of less than 40 bytes, which is twice a digest.
abbrev pub shortness : Bytes → ℕ
shortness chunk = if ltb (length chunk) 40 then 1 else 0

abbrev pub short_chunks : List Bytes → ℕ
short_chunks [] = 0
short_chunks (chunk ∷ chunks) = shortness chunk + short_chunks chunks

-- A chunk takes one line of the reverse buffer at most, and stays within the arrays where that line
-- does. The lines take no more than half of the buffer's bytes, but for those of short chunks.
abbrev pub Within : Bytes → Writer → Writer → Type 0
Within chunk w w' =
    (w'.rev_container_cnt ≤ w.rev_container_cnt + 1)
    × (20 * (w.rev_container_cnt + 1) ≤ container_size → w.overrun ≡ false → w'.overrun ≡ false)
    × ((k : ℕ)
        → 40 * w.rev_container_cnt ≤ length w.container_buf + 40 * k
        → 40 * w'.rev_container_cnt ≤ length w'.container_buf + 40 * (shortness chunk + k))

module _ (sha1 : Bytes → Bytes) (chunk : Bytes) where
  long_or_short : 40 ≤ length chunk + 40 * shortness chunk
  long_or_short = elim (Bool-cases (ltb (length chunk) 40)) [
    | inl few ↦ rw few (omega arith)
    | inr many ↦
        let long : 40 ≤ length chunk = ground (arith, many) in rw many (omega (arith, long))
  ]

  pub Within-appended :
      (w : Writer)
      → IsWriting sha1 w
      → length w.container_buf + length chunk < container_size
      → Within chunk w (appended sha1 chunk w)
  unfolding copy_chunk advance
  Within-appended w ok room =
      let grown : length (write_at w.container_buf_pointer chunk w.container_buf)
          ≡ length w.container_buf + length chunk =
        ap length (write_at_end w.container_buf_pointer chunk w.container_buf ok.pointer)
        ∙ length-append w.container_buf chunk in
      (
        omega arith,
        λ line before.
            let inside : ltb container_size (w.container_buf_pointer + length chunk) ≡ false =
              ground (arith, room, ok.pointer) in
            let digest : ltb container_size (20 * (w.rev_container_cnt + 1)) ≡ false =
              ground (arith, line) in
            rw (inside, digest, before),
        λ k h. omega (arith, h, grown, long_or_short),
      )

  pub Within-flushed :
      (w : Writer)
      → IsWriting sha1 w
      → w.container_index + 1 < 2 ^ 32
      → length chunk < container_size
      → Within chunk w (appended sha1 chunk (flush w))
  unfolding flush advance copy_chunk
  Within-flushed w ok small fits =
      let s = Within-appended (flush w) (flush-IsWriting sha1 w ok small) (omega (arith, fits)) in
      (omega (arith, s.0), λ line before. s.1 (omega arith) before, λ k h. s.2 k (omega arith))
