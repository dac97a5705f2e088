-- ===== src/Backup/Blocks.antt =====
-- The loop over a cache writes the chunks that the chunking cuts it into: main.cpp, `while (file_offset <
-- n_read)` of `TASK_WRITE`.
use c_dedup.Base.{
  ◌>>=◌, Option-cases, Bool-cases, inl, inr, ℕ, zero, suc, ◌<◌, ◌≡◌, refl, sym, ap, ◌∙◌, Option,
  none, some, List, ltb, length, take, drop, concat, Bytes, All,
}
use c_dedup.Chunking.{Globals, Chunking, run_chunking}
use c_dedup.Chunking.Split.{split, cons_chunk, split_total, Fits, IsReady, longest}
use c_dedup.Backup.{Writer, write_chunk, write_block}
use c_dedup.Backup.Loop.{write_chunks}

-- The chunks of a cut are written, and the chunking's globals are those after it.
abbrev pub then_write :
    (Bytes → Bytes) → Option (List Bytes × Globals) → Writer → Option (Writer × Globals)
then_write sha1 cuts w = cuts >>= λ r. write_chunks sha1 r.0 w >>= λ w'. some (w', r.1)

module _ (sha1 : Bytes → Bytes) where
  -- Nothing is written where a chunk faults, whatever comes behind it.
  faulted :
      (chunk : Bytes) (cuts : Option (List Bytes × Globals)) (w : Writer)
      → write_chunk sha1 chunk w ≡ none
      → then_write sha1 (cons_chunk chunk cuts) w ≡ none
  faulted chunk none w e = refl
  faulted chunk (some (chunks, g)) w e = rw e refl

  goes_on :
      (chunk : Bytes) (cuts : Option (List Bytes × Globals)) (w w' : Writer)
      → write_chunk sha1 chunk w ≡ some w'
      → then_write sha1 (cons_chunk chunk cuts) w ≡ then_write sha1 cuts w'
  goes_on chunk none w w' e = refl
  goes_on chunk (some (chunks, g)) w w' e = rw e refl

  write_block-then_write :
      (fuel : ℕ) (c : Chunking) (p : Bytes) (g : Globals) (w : Writer)
      → write_block sha1 fuel c p g w ≡ then_write sha1 (split fuel c p g) w
  unfolding write_block split
  write_block-then_write zero c p g w = refl
  write_block-then_write (suc fuel) c p g w =
      let cut = run_chunking c p (length p) g in
      let chunk = take cut.0 p in
      let rest = split fuel c (drop cut.0 p) cut.1 in
      elim (Bool-cases (ltb 0 (length p))) [
        | inl more ↦ elim (Option-cases (write_chunk sha1 chunk w)) [
          | inl e ↦ rw (more, e) (sym (faulted chunk rest w e))
          | inr (w', e) ↦
              rw (more, e)
                (write_block-then_write fuel c (drop cut.0 p) cut.1 w'
                  ∙ sym (goes_on chunk rest w w' e))
        ]
        | inr done ↦ rw done refl
      ]

-- The loop over a cache ends, with more rounds than bytes, where no chunk faults: there are chunks
-- that make up the cache, in order, each with a byte at least and the longest chunk's length at most,
-- and the loop does what writing them one after the other does, a fault included. The chunking's
-- globals are set up so that a chunk is never empty, and they stay so.
pub write_block-write_chunks :
    (sha1 : Bytes → Bytes) (fuel : ℕ) (c : Chunking) (p : Bytes) (g : Globals) (w : Writer)
    → IsReady c g
    → length p < fuel
    → (chunks : List Bytes) × (g' : Globals) × (concat chunks ≡ p)
      × All (Fits (longest c g)) chunks
      × IsReady c g'
      × (write_block sha1 fuel c p g w ≡ (write_chunks sha1 chunks w >>= λ w'. some (w', g')))
write_block-write_chunks sha1 fuel c p g w ready enough =
    let (chunks, g', cut, whole, each, ready', same) = split_total fuel c p g ready enough in
    (
      chunks,
      g',
      whole,
      each,
      ready',
      write_block-then_write sha1 fuel c p g w ∙ ap (λ cuts. then_write sha1 cuts w) cut,
    )
