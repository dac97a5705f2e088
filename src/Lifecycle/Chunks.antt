-- ===== src/Lifecycle/Chunks.antt =====
-- The chunks of a backup, one after the other: main.cpp, `TASK_WRITE`.
use c_dedup.Base.{
  one_result, ℕ, suc, ◌+◌, ◌^◌, ◌≤◌, ◌<◌, ◌≡◌, refl, sym, ap, subst, ◌∙◌, true, false, Bool, some,
  List, [], ◌∷◌, arith, if◌then◌else◌, length, Bytes, All, leb, Bool-cases, inl, inr, ◌>>=◌,
}
use c_dedup.Store.{container_size}
use c_dedup.Metadata.{Sha1Fp, LookupResult, unique, dedup, dedup_lookup, tuple_equaler}
use c_dedup.Chunking.Split.{Fits}
use c_dedup.Backup.{
  Writer, flush, save_chunk_to_container, store_unique, index_chunk, copy_chunk, count_duplicate,
  note_chunk, by_lookup, write_chunk,
}
use c_dedup.Backup.Flush.{IsWriting, flush-IsWriting}
use c_dedup.Backup.Append.{IsSha1, fp_of, appended}
use c_dedup.Backup.Chunk.{Stored, write_chunk-Stored, index_chunk-appended, note_chunk-IsWriting}
use c_dedup.Backup.Loop.{write_chunks}
use c_dedup.Delete.Counts.{occurrences}
use c_dedup.Lifecycle.Shelving.{Shelving, Shelving-flush}
use c_dedup.Lifecycle.Stored.{Wanted, Shelving-note, Shelving-duplicate}
use c_dedup.Lifecycle.Appended.{Shelving-appended, shelf_with}

-- What a round leaves.
abbrev Keeps : (Sha1Fp → ℕ) → ℕ → Writer → Type 0
Keeps want left w = (shelf : ℕ → List Sha1Fp) × Shelving want shelf left w

module _ (sha1 : Bytes → Bytes) (is_sha1 : IsSha1 sha1) (chunk : Bytes) {want : Sha1Fp → ℕ}
    (want' : Sha1Fp → ℕ) (wants : Wanted (fp_of sha1 chunk) want want') where
  store_unique-Keeps :
      {shelf : ℕ → List Sha1Fp} {left : ℕ} (w : Writer)
      → IsWriting sha1 w
      → w.container_index + 1 < 2 ^ 32
      → Fits 65535 chunk
      → dedup_lookup (fp_of sha1 chunk) w.manager ≡ unique
      → Shelving want shelf (suc left) w
      → (w' : Writer) × (store_unique (fp_of sha1 chunk) chunk (sha1 chunk) w ≡ some w')
        × Keeps want' left w'
  unfolding store_unique save_chunk_to_container flush
  store_unique-Keeps w ok small fits new s =
      let branch = λ (b : Bool).
        index_chunk (fp_of sha1 chunk) (length chunk)
          (copy_chunk chunk (sha1 chunk) (if b then flush w else w)) in
      let short : length chunk < 2 ^ 16 = omega (arith, fits.1) in
      elim (Bool-cases (leb container_size (w.container_buf_pointer + length chunk))) [
        | inl full ↦
            let flushed = flush-IsWriting sha1 w ok small in
            let t = Shelving-flush sha1 w ok s small in
            (
              appended sha1 chunk (flush w),
              ap branch full ∙ index_chunk-appended sha1 is_sha1 chunk (flush w) new,
              (
                shelf_with sha1 is_sha1 chunk (flush w) flushed fits.0 short new t,
                Shelving-appended sha1 is_sha1 chunk (flush w) flushed fits.0 short new t want'
                    wants,
              ),
            )
        | inr roomy ↦ (
          appended sha1 chunk w,
          ap branch roomy ∙ index_chunk-appended sha1 is_sha1 chunk w new,
          (
            shelf_with sha1 is_sha1 chunk w ok fits.0 short new s,
            Shelving-appended sha1 is_sha1 chunk w ok fits.0 short new s want' wants,
          ),
        )
      ]

  by_lookup-Keeps :
      {shelf : ℕ → List Sha1Fp} {left : ℕ} (w : Writer) (found : LookupResult)
      → IsWriting sha1 w
      → w.container_index + 1 < 2 ^ 32
      → Fits 65535 chunk
      → dedup_lookup (fp_of sha1 chunk) w.manager ≡ found
      → Shelving want shelf (suc left) w
      → (w' : Writer) × (by_lookup found (fp_of sha1 chunk) chunk (sha1 chunk) w ≡ some w')
        × Keeps want' left w'
  unfolding by_lookup
  by_lookup-Keeps w unique ok small fits e s = store_unique-Keeps w ok small fits e s
  by_lookup-Keeps {shelf} w dedup ok small fits e s = (
    count_duplicate (fp_of sha1 chunk) chunk w,
    refl,
    (shelf, Shelving-duplicate want' (fp_of sha1 chunk) chunk w ok.index e wants s),
  )

  write_chunk-Keeps :
      {shelf : ℕ → List Sha1Fp} {left : ℕ} (w : Writer)
      → IsWriting sha1 w
      → w.container_index + 1 < 2 ^ 32
      → Fits 65535 chunk
      → Shelving want shelf (suc left) w
      → (w' : Writer) × (write_chunk sha1 chunk w ≡ some w') × Keeps want' left w'
  unfolding write_chunk note_chunk
  write_chunk-Keeps w ok small fits s =
      by_lookup-Keeps (note_chunk chunk (sha1 chunk) w) (dedup_lookup (fp_of sha1 chunk) w.manager)
        (note_chunk-IsWriting sha1 is_sha1 chunk w ok) small fits refl
        (Shelving-note chunk (sha1 chunk) w s)

one_more : (b : Bool) (n k : ℕ) → (if b then n + 1 else n) + k ≡ n + (if b then k + 1 else k)
one_more true n k = omega arith
one_more false n k = refl

none_more : (n : ℕ) → n ≡ 0 + n
none_more n = omega arith

-- The chunks are written, and each is counted as often as it occurs.
pub write_chunks-Keeps :
    (sha1 : Bytes → Bytes) (chunks : List Bytes) (want want' : Sha1Fp → ℕ) (shelf : ℕ → List Sha1Fp)
    (w : Writer)
    → IsSha1 sha1
    → ((j : Sha1Fp) → want' j ≡ occurrences sha1 j chunks + want j)
    → IsWriting sha1 w
    → w.container_index + length chunks < 2 ^ 32
    → All (Fits 65535) chunks
    → Shelving want shelf (length chunks) w
    → (w' : Writer) × (write_chunks sha1 chunks w ≡ some w') × Keeps want' 0 w'
unfolding occurrences note_chunk
write_chunks-Keeps sha1 [] want want' shelf w is_sha1 wants ok small fits s =
    let same = λ (j : Sha1Fp). none_more (want j) ∙ sym (wants j) in
    (w, refl, (shelf, subst (λ f. Shelving f shelf 0 w) (λ i j. same j i) s))
write_chunks-Keeps sha1 (chunk ∷ chunks) want want' shelf w is_sha1 wants ok small fits s =
    let between =
      λ (j : Sha1Fp). if tuple_equaler (fp_of sha1 chunk) j then want j + 1 else want j in
    let (w1, run, (shelf1, s1)) =
      write_chunk-Keeps sha1 is_sha1 chunk between (λ j. refl) w ok (omega (arith, small)) fits.0
        s in
    let (w2, run2, stored, within) =
      write_chunk-Stored sha1 is_sha1 chunk w ok (omega (arith, small)) fits.0 in
    let same : w2 ≡ w1 = one_result w2 w1 (sym run2 ∙ run) in
    let next = subst (Stored sha1 chunk (note_chunk chunk (sha1 chunk) w)) same stored in
    let (w', rest, keeps) =
      write_chunks-Keeps sha1 chunks between want' shelf1 w1 is_sha1
        (λ j.
          wants j
          ∙ one_more (tuple_equaler (fp_of sha1 chunk) j) (occurrences sha1 j chunks) (want j))
        next.next (index_fits w w1 (length chunks) next.index_le small) fits.1 s1 in
    (w', ap (λ o. o >>= write_chunks sha1 chunks) run ∙ rest, keeps)
  where
    index_fits :
        (w w1 : Writer) (n : ℕ)
        → w1.container_index ≤ w.container_index + 1
        → w.container_index + suc n < 2 ^ 32
        → w1.container_index + n < 2 ^ 32
    index_fits w w1 n le h = omega (arith, le, h)
