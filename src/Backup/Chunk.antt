-- ===== src/Backup/Chunk.antt =====
-- One chunk of a backup, on each branch: main.cpp, the inner loop of `TASK_WRITE`.
use c_dedup.Base.{
  ◌*◌, false, ◌+◌, ◌^◌, ◌≤◌, ◌<◌, ◌≡◌, refl, ap, ◌∙◌, Bool, true, Option, some, ◌++◌, arith,
  if◌then◌else◌, length, Bytes, nat_eq, Bool-cases, Option-cases, inl, inr, leb, is_some,
  length-emplace-le, append_assoc, ◌>>=◌,
}
use c_dedup.Store.{container_size, save_container}
use c_dedup.Metadata.{
  Sha1Fp, EntryValue, MetadataManager, dedup_lookup, unique, dedup, LookupResult, fp_eq,
  add_ref_cnt, tuple_equaler_iff, inc_ref,
}
use c_dedup.Metadata.Index.{
  entry, entries_num, add_ref_cnt-entries_num, Updated, with_entry, with_entry-Updated,
  add_new_entry-with_entry, add_ref_cnt-Updated, dedup_lookup-entry,
}
use c_dedup.Metadata.Persist.{add_ref_cnt-InRange}
use c_dedup.Chunking.Split.{Fits}
use c_dedup.Backup.{
  Writer, copy_chunk, new_entry, advance, flush, save_chunk_to_container, store_unique, index_chunk,
  count_duplicate, note_chunk, by_lookup, write_chunk,
}
use c_dedup.Backup.Sound.{Containers, Grows, Sound-Updated, Holds-recount, Grows-refl}
use c_dedup.Backup.Flush.{IsWriting, contents, flush-IsWriting, Grows-flush}
use c_dedup.Backup.Lines.{Within, Within-appended, Within-flushed}
use c_dedup.Backup.Append.{IsSha1, fp_of, appended, appended-IsWriting, Grows-appended}

abbrev pub Known : MetadataManager → Sha1Fp → Type 0
Known m fp = is_some (entry m fp) ≡ true

-- What storing a chunk or counting a duplicate does, from `w` to `w'`.
pub record Stored (sha1 : Bytes → Bytes) (chunk : Bytes) (w w' : Writer) : Type 0 where
  pub next : IsWriting sha1 w'
  pub grows : Grows (contents w) (contents w')
  pub index_le : w'.container_index ≤ w.container_index + 1
  pub entries_le : entries_num w'.manager ≤ entries_num w.manager + 1
  pub keeps : (fp : Sha1Fp) → Known w.manager fp → Known w'.manager fp
  pub knows : Known w'.manager (fp_of sha1 chunk)
  pub recipe : w'.file_recipe ≡ w.file_recipe
  pub recipes : w'.store.recipes ≡ w.store.recipes

pub Known-Updated :
    (m m' : MetadataManager) (fp : Sha1Fp) (v : EntryValue)
    → Updated m fp (some v) m'
    → ((j : Sha1Fp) → Known m j → Known m' j) × Known m' fp
Known-Updated m m' fp v up =
    (λ j h. ground (arith, up j), ground (arith, up fp, tuple_equaler_iff fp fp))

pub Grows-trans : {a b c : Containers} → Grows a b → Grows b c → Grows a c
Grows-trans {a} {b} {c} f g k content e =
    let (rest, there) = f k content e in
    let (more, here) = g k (content ++ rest) there in
    (rest ++ more, here ∙ ap some (append_assoc content rest more))

module _ (sha1 : Bytes → Bytes) (is_sha1 : IsSha1 sha1) (chunk : Bytes) where
  -- A unique chunk, with room in the open container.
  Stored-appended :
      (w : Writer)
      → IsWriting sha1 w
      → Fits 65535 chunk
      → length w.container_buf + length chunk < container_size
      → dedup_lookup (fp_of sha1 chunk) w.manager ≡ unique
      → Stored sha1 chunk w (appended sha1 chunk w)
  unfolding copy_chunk advance
  Stored-appended w ok fits room new =
      let fp = fp_of sha1 chunk in
      let v = new_entry (length chunk) (copy_chunk chunk (sha1 chunk) w) in
      let up = (with_entry-Updated fp v w.manager ok.index new).1 in
      let (keep, know) = Known-Updated w.manager (with_entry fp v w.manager) fp v up in
      record {
        next = appended-IsWriting sha1 is_sha1 chunk w ok fits.0 (omega arith) room new;
        grows = Grows-appended sha1 is_sha1 chunk w ok fits.0 (omega arith) room;
        index_le = omega arith;
        entries_le = omega (arith, length-emplace-le fp v w.manager.fp_table_added);
        keeps = keep;
        knows = know;
        recipe = refl;
        recipes = refl;
      }

  -- The same after a flush.
  Stored-flushed :
      (w : Writer)
      → IsWriting sha1 w
      → w.container_index + 1 < 2 ^ 32
      → Fits 65535 chunk
      → dedup_lookup (fp_of sha1 chunk) w.manager ≡ unique
      → Stored sha1 chunk w (appended sha1 chunk (flush w))
  unfolding flush advance copy_chunk save_container
  Stored-flushed w ok small fits new =
      let s = Stored-appended (flush w) (flush-IsWriting sha1 w ok small) fits (omega arith) new in
      record {
        next = s.next;
        grows = Grows-trans (Grows-flush sha1 w ok small) s.grows;
        index_le = omega (arith, s.index_le);
        entries_le = s.entries_le;
        keeps = s.keeps;
        knows = s.knows;
        recipe = s.recipe;
        recipes = s.recipes;
      }

  pub index_chunk-appended :
      (w : Writer)
      → dedup_lookup (fp_of sha1 chunk) w.manager ≡ unique
      → index_chunk (fp_of sha1 chunk) (length chunk) (copy_chunk chunk (sha1 chunk) w)
        ≡ some (appended sha1 chunk w)
  unfolding index_chunk copy_chunk
  index_chunk-appended w new =
      ap
        (λ (o : Option MetadataManager). o >>= λ m.
          some (advance (length chunk) (record (copy_chunk chunk (sha1 chunk) w) { manager = m })))
        (add_new_entry-with_entry (fp_of sha1 chunk)
          (new_entry (length chunk) (copy_chunk chunk (sha1 chunk) w)) w.manager new)

  store_unique-Stored :
      (w : Writer)
      → IsWriting sha1 w
      → w.container_index + 1 < 2 ^ 32
      → Fits 65535 chunk
      → dedup_lookup (fp_of sha1 chunk) w.manager ≡ unique
      → (w' : Writer) × (store_unique (fp_of sha1 chunk) chunk (sha1 chunk) w ≡ some w')
        × Stored sha1 chunk w w'
        × Within chunk w w'
  unfolding store_unique save_chunk_to_container flush
  store_unique-Stored w ok small fits new =
      let branch = λ (b : Bool).
        index_chunk (fp_of sha1 chunk) (length chunk)
          (copy_chunk chunk (sha1 chunk) (if b then flush w else w)) in
      elim (Bool-cases (leb container_size (w.container_buf_pointer + length chunk))) [
        | inl full ↦ (
          appended sha1 chunk (flush w),
          ap branch full ∙ index_chunk-appended (flush w) new,
          Stored-flushed w ok small fits new,
          Within-flushed sha1 chunk w ok small (omega (arith, fits.1)),
        )
        | inr roomy ↦ (
          appended sha1 chunk w,
          ap branch roomy ∙ index_chunk-appended w new,
          Stored-appended w ok fits (ground (arith, ok.pointer)) new,
          Within-appended sha1 chunk w ok (ground (arith, ok.pointer)),
        )
      ]

  -- A duplicate only raises its count.
  count_duplicate-Stored :
      (w : Writer)
      → IsWriting sha1 w
      → dedup_lookup (fp_of sha1 chunk) w.manager ≡ dedup
      → Stored sha1 chunk w (count_duplicate (fp_of sha1 chunk) chunk w)
  unfolding count_duplicate contents
  count_duplicate-Stored w ok old = elim (Option-cases (entry w.manager (fp_of sha1 chunk))) [
    | inl absent ↦ absurd (ground (arith, dedup_lookup-entry (fp_of sha1 chunk) w.manager))
    | inr (v, there) ↦
        let fp = fp_of sha1 chunk in
        let m' = (add_ref_cnt fp w.manager).0 in
        let (index, up, count) = add_ref_cnt-Updated fp v w.manager ok.index there in
        let (origin, added) = add_ref_cnt-InRange fp w.manager ok.origin ok.added in
        let (keep, know) = Known-Updated w.manager m' fp (inc_ref v) up in
        record {
          next = record {
            pointer = ok.pointer;
            offset = ok.offset;
            room = ok.room;
            inner_index = ok.inner_index;
            index_word = ok.index_word;
            fresh = ok.fresh;
            counted = ok.counted;
            index = index;
            origin = origin;
            added = added;
            sound =
                Sound-Updated sha1 (Grows-refl (contents w)) w.manager m' fp (inc_ref v) ok.sound up
                  (Holds-recount sha1 (inc_ref v).ref_cnt (ok.sound fp v there));
          };
          grows = Grows-refl (contents w);
          index_le = omega arith;
          entries_le = omega (arith, add_ref_cnt-entries_num fp w.manager);
          keeps = keep;
          knows = know;
          recipe = refl;
          recipes = refl;
        }
  ]

  by_lookup-Stored :
      (w : Writer) (found : LookupResult)
      → IsWriting sha1 w
      → w.container_index + 1 < 2 ^ 32
      → Fits 65535 chunk
      → dedup_lookup (fp_of sha1 chunk) w.manager ≡ found
      → (w' : Writer) × (by_lookup found (fp_of sha1 chunk) chunk (sha1 chunk) w ≡ some w')
        × Stored sha1 chunk w w'
        × Within chunk w w'
  unfolding by_lookup count_duplicate
  by_lookup-Stored w unique ok small fits e = store_unique-Stored w ok small fits e
  by_lookup-Stored w dedup ok small fits e = (
    count_duplicate (fp_of sha1 chunk) chunk w,
    refl,
    count_duplicate-Stored w ok e,
    (omega arith, λ line before. before, λ k h. omega (arith, h)),
  )

  pub note_chunk-IsWriting :
      (w : Writer) → IsWriting sha1 w → IsWriting sha1 (note_chunk chunk (sha1 chunk) w)
  unfolding note_chunk contents
  note_chunk-IsWriting w ok = record {
    pointer = ok.pointer;
    offset = ok.offset;
    room = ok.room;
    inner_index = ok.inner_index;
    index_word = ok.index_word;
    fresh = ok.fresh;
    counted = ok.counted;
    index = ok.index;
    origin = ok.origin;
    added = ok.added;
    sound = ok.sound;
  }

  pub write_chunk-Stored :
      (w : Writer)
      → IsWriting sha1 w
      → w.container_index + 1 < 2 ^ 32
      → Fits 65535 chunk
      → (w' : Writer) × (write_chunk sha1 chunk w ≡ some w')
        × Stored sha1 chunk (note_chunk chunk (sha1 chunk) w) w'
        × Within chunk w w'
  unfolding write_chunk note_chunk
  write_chunk-Stored w ok small fits =
      by_lookup-Stored (note_chunk chunk (sha1 chunk) w) (dedup_lookup (fp_of sha1 chunk) w.manager)
        (note_chunk-IsWriting w ok) small fits refl

  -- A chunk of 1 to 65535 bytes is written without a fault, if the number behind that of the open
  -- container has 32 bits, the reverse buffer has room for another digest of 20 bytes and no copy
  -- has gone past the end of an array so far. None has then, and the invariant of the backup is kept:
  -- the counters agree with the buffer, which has room, and every entry of the index leads to bytes
  -- with its fingerprint. No container loses a byte, no known fingerprint is forgotten, the chunk's
  -- own is known now, and it stands behind the recipe.
  pub write_chunk-IsWriting :
      (w : Writer)
      → IsWriting sha1 w
      → w.container_index + 1 < 2 ^ 32
      → Fits 65535 chunk
      → 20 * (w.rev_container_cnt + 1) ≤ container_size
      → w.overrun ≡ false
      → (w' : Writer) × (write_chunk sha1 chunk w ≡ some w')
        × (w'.overrun ≡ false)
        × Stored sha1 chunk (note_chunk chunk (sha1 chunk) w) w'
  write_chunk-IsWriting w ok small fits line before =
      let (w', run, stored, within) = write_chunk-Stored w ok small fits in
      (w', run, within.1 line before, stored)
