-- ===== src/Lifecycle/Appended.antt =====
-- A unique chunk goes to the end of the open container, and to its reverse file: main.cpp, `TASK_WRITE`
-- and `saveChunkToContainer`.
use c_dedup.Base.{
  one_result, ℕ, suc, ◌+◌, ◌*◌, ◌^◌, ◌≤◌, ◌<◌, ◌≡◌, refl, sym, ap, ◌∙◌, true, none, some, List, [],
  ◌∷◌, ◌++◌, arith, length, take, Bytes, nat_eq, ◌==◌, inl, inr, length-append, length-take,
  append-nil, take_of_length-le, Option-cases,
}
use c_dedup.Store.{container_size}
use c_dedup.Metadata.{Sha1Fp, EntryValue, MetadataManager, dedup_lookup, unique, fp_bytes}
use c_dedup.Metadata.Index.{entry, Updated, with_entry, with_entry-Updated, dedup_lookup-entry}
use c_dedup.Backup.{Writer, new_entry, copy_chunk, advance}
use c_dedup.Backup.Flush.{IsWriting, contents}
use c_dedup.Backup.Append.{IsSha1, fp_of, appended}
use c_dedup.Delete.Offsets.{listing}
use c_dedup.Delete.Shelf.{same_key}
use c_dedup.Delete.Reverse.{length-listing, listing-append}
use c_dedup.Delete.Counts.{refs}
use c_dedup.Delete.Kept.{Shelves}
use c_dedup.Lifecycle.Digests.{fp_bytes-fp_of_bytes, take-write_at}
use c_dedup.Lifecycle.Shelving.{Shelving, opened}
use c_dedup.Lifecycle.Stored.{Wanted, counted-Updated, positive-Updated, in_word-Updated}
use c_dedup.Lifecycle.Placed.{one_more, one_more-here, Shelves-with}

module _ (sha1 : Bytes → Bytes) (is_sha1 : IsSha1 sha1) (chunk : Bytes) {want : Sha1Fp → ℕ}
    {shelf : ℕ → List Sha1Fp} {left : ℕ} (w : Writer) (ok : IsWriting sha1 w)
    (some_bytes : 0 < length chunk) (short : length chunk < 2 ^ 16)
    (new : dedup_lookup (fp_of sha1 chunk) w.manager ≡ unique)
    (s : Shelving want shelf (suc left) w) where
  abbrev k : ℕ
  k = w.container_index

  abbrev fp : Sha1Fp
  fp = fp_of sha1 chunk

  abbrev placed : EntryValue
  placed = new_entry (length chunk) (copy_chunk chunk (sha1 chunk) w)

  abbrev m' : MetadataManager
  m' = with_entry fp placed w.manager

  up : Updated w.manager fp (some placed) m'
  up = (with_entry-Updated fp placed w.manager ok.index new).1

  absent : entry w.manager fp ≡ none
  absent = elim (Option-cases (entry w.manager fp)) [
    | inl gone ↦ gone
    | inr (v, there) ↦ absurd (ground (arith, dedup_lookup-entry fp w.manager, new))
  ]

  abbrev pub shelf_with : ℕ → List Sha1Fp
  shelf_with = one_more shelf k fp

  shelf_here : (i : ℕ) → (k == i) ≡ true → shelf_with i ≡ shelf i ++ fp ∷ []
  shelf_here = one_more-here shelf k fp

  -- The chunks of the open container lie in front of the new one.
  in_front :
      (j : Sha1Fp) (v : EntryValue)
      → entry w.manager j ≡ some v
      → v.container_number ≡ k
      → v.offset + v.chunk_length ≤ placed.offset
  unfolding contents new_entry copy_chunk
  in_front j v there number =
      let held = ok.sound j v there in
      let here : contents w k ≡ some w.container_buf = rw (same_key k, contents) in
      let same : some w.container_buf ≡ some held.content =
        sym here ∙ (ap (contents w) (sym number) ∙ held.stored) in
      omega
        (arith, ok.offset, held.within, ap length (one_result w.container_buf held.content same))

  few_left : 4 + 20 * (length (shelf_with k) + left) ≤ container_size
  few_left =
      omega (arith, s.few, ap length (shelf_here k (same_key k)), length-append (shelf k) (fp ∷ []))

  Shelves-appended : Shelves shelf_with w.store.containers (opened shelf_with k w.store.reverse) m'
  unfolding new_entry copy_chunk
  Shelves-appended =
      Shelves-with shelf w.store.containers w.store.reverse w.manager m' fp placed k refl absent up
        in_front (omega (arith, s.few)) s.shelves

  -- The buffer of the reverse file lists it.
  listing_with :
      take (20 * length (shelf_with k)) (appended sha1 chunk w).rev_container_buf
      ≡ listing (shelf_with k)
  unfolding copy_chunk advance
  listing_with =
      let fps = shelf k in
      let here = shelf_here k (same_key k) in
      let digest =
        fp_bytes-fp_of_bytes (sha1 chunk) (is_sha1.digest_bytes chunk)
          (is_sha1.digest_length chunk) in
      let whole : take 20 (sha1 chunk) ≡ sha1 chunk =
        take_of_length-le 20 (sha1 chunk) (omega (arith, is_sha1.digest_length chunk)) in
      let front : take (20 * w.rev_container_cnt) w.rev_container_buf ≡ listing fps =
        ap (λ n. take (20 * n) w.rev_container_buf) s.count ∙ s.listed_there in
      let enough : 20 * w.rev_container_cnt ≤ length w.rev_container_buf = omega (
        arith,
        ap length front,
        length-listing fps,
        length-take (20 * w.rev_container_cnt) w.rev_container_buf,
        s.count,
      ) in
      let size : 20 * length (shelf_with k)
          ≡ 20 * w.rev_container_cnt + length (take 20 (sha1 chunk)) =
        omega (
          arith,
          ap length here,
          length-append fps (fp ∷ []),
          s.count,
          ap length whole,
          is_sha1.digest_length chunk,
        ) in
      take-write_at (20 * w.rev_container_cnt) (20 * length (shelf_with k)) (take 20 (sha1 chunk))
        w.rev_container_buf enough size
      ∙ ((λ i. front i ++ (whole ∙ sym digest) i)
          ∙ (ap (◌++◌ (listing fps)) (sym (append-nil (fp_bytes fp)))
              ∙ (sym (listing-append fps (fp ∷ [])) ∙ sym (ap listing here))))

  pub Shelving-appended :
      (want' : Sha1Fp → ℕ)
      → Wanted fp want want'
      → Shelving want' shelf_with left (appended sha1 chunk w)
  unfolding copy_chunk advance new_entry
  Shelving-appended want' wants =
      let nothing : want fp ≡ 0 = sym (s.counted fp) ∙ ap refs absent in
      record {
        counted =
            counted-Updated fp placed w.manager m' want want' up wants s.counted
              (omega (arith, nothing));
        positive =
            positive-Updated fp placed w.manager m' want want' up wants s.positive (omega arith);
        shelves = Shelves-appended;
        fresh = s.fresh;
        count = omega (
          arith,
          s.count,
          s.few,
          ap length (shelf_here k (same_key k)),
          length-append (shelf k) (fp ∷ []),
        );
        listed_there = listing_with;
        few = few_left;
        in_word = in_word-Updated fp placed w.manager m' want want' up wants left s.in_word;
      }
