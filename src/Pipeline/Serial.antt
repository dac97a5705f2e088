-- ===== src/Pipeline/Serial.antt =====
-- The pipeline writes what the task `write` writes, but for the reverse files:
-- src/pipeline_dedup.cpp and main.cpp.
use c_dedup.Base.{
  ◌+◌, ◌%◌, ◌^◌, ◌≡◌, inl, inr, refl, ap, subst, ◌∙◌, Option, none, some, List, [], ◌∷◌, ◌++◌, map,
  ltb, leb, length, Bytes, Bool-cases, Option-cases,
}
use c_dedup.Store.{Store, Files, container_size, save_container, save_file_recipe, recipes_num}
use c_dedup.Metadata.{Sha1Fp, LookupResult, unique, dedup, fp_of_bytes, dedup_lookup, add_new_entry}
use c_dedup.Backup.Loop.{write_chunks}
use c_dedup.Backup.{
  Writer, flush, copy_chunk, save_chunk_to_container, new_entry, advance, index_chunk, store_unique,
  count_duplicate, note_chunk, by_lookup, write_chunk, write_end,
}
use c_dedup.Pipeline.{new_chunk, file_end, sha1_thread, hash_chunk}
use c_dedup.Pipeline.Dedup.{
  Jcr, Deduper, save_container_buf, reset_container_buf, entry_value, append_unique, count_chunk,
  store_by_lookup, dedup_chunk, dedup_loop, dedup_end,
}

-- The repository with the reverse files `reverse`.
abbrev pub with_reverse : Files → Store → Store
with_reverse reverse s = record s { reverse = reverse }

module _ (reverse : Files) where
  -- What the pipeline's last phase keeps of the state of the task `write`.
  abbrev pub seen_as : Jcr → Writer → Deduper
  seen_as j w = record {
    container_buf = w.container_buf;
    container_index = w.container_index;
    container_inner_offset = w.container_inner_offset;
    container_inner_index = w.container_inner_index;
    file_recipe = w.file_recipe;
    jcr = j;
    manager = w.manager;
    store = with_reverse reverse w.store;
  }

  -- The two counters of the task `write` that the pipeline has as one.
  abbrev pub Level : Writer → Type 0
  Level w = w.container_inner_offset ≡ w.container_buf_pointer

  reset-flush :
      (j : Jcr) (w : Writer) → Level w → reset_container_buf (seen_as j w) ≡ seen_as j (flush w)
  unfolding reset_container_buf flush save_container_buf save_container
  reset-flush j w level = rw level

  -- A step of either side from the same state ends in the same state, or does not end in both.
  unfoldable pub Seen : Jcr → Option Deduper → Option Writer → Type 0
  Seen j o none = o ≡ none
  Seen j o (some w) = (o ≡ some (seen_as j w)) × Level w

  append-Seen :
      (j : Jcr) (fp : Sha1Fp) (bytes sha_buf : Bytes) (w : Writer)
      → Level w
      → Seen j
          (append_unique fp bytes (seen_as j w))
          (index_chunk fp (length bytes) (copy_chunk bytes sha_buf w))
  unfolding append_unique index_chunk copy_chunk advance new_entry entry_value Seen
  append-Seen j fp bytes sha_buf w level =
      elim (Option-cases (add_new_entry fp (entry_value (length bytes) (seen_as j w)) w.manager)) [
        | inl refused ↦ rw refused refl
        | inr (m, added) ↦ rw added (rw level refl, ap (λ n. (n + length bytes) % 2 ^ 32) level)
      ]

  Level-flush : (w : Writer) → Level (flush w)
  unfolding flush
  Level-flush w = refl

  store-Seen :
      (j : Jcr) (fp : Sha1Fp) (bytes sha_buf : Bytes) (w : Writer)
      → Level w
      → Seen j (store_by_lookup unique fp bytes (seen_as j w)) (by_lookup unique fp bytes sha_buf w)
  unfolding store_by_lookup by_lookup store_unique save_chunk_to_container
  store-Seen j fp bytes sha_buf w level =
      elim (Bool-cases (leb container_size (w.container_buf_pointer + length bytes))) [
        | inl full ↦
            let full' = ap (λ n. leb container_size (n + length bytes)) level ∙ full in
            rw (full, full', reset-flush j w level)
              (append-Seen j fp bytes sha_buf (flush w) (Level-flush w))
        | inr room ↦
            let room' = ap (λ n. leb container_size (n + length bytes)) level ∙ room in
            rw (room, room') (append-Seen j fp bytes sha_buf w level)
      ]

  by_lookup-Seen :
      (j : Jcr) (res : LookupResult) (fp : Sha1Fp) (bytes sha_buf : Bytes) (w : Writer)
      → Level w
      → Seen j (store_by_lookup res fp bytes (seen_as j w)) (by_lookup res fp bytes sha_buf w)
  by_lookup-Seen j unique fp bytes sha_buf w level = store-Seen j fp bytes sha_buf w level
  by_lookup-Seen j dedup fp bytes sha_buf w level =
      unfold store_by_lookup by_lookup count_duplicate Seen in (refl, level)

  -- One chunk, unique or duplicate, with a full container or not.
  dedup_chunk-Seen :
      (sha1 : Bytes → Bytes) (bytes : Bytes) (j : Jcr) (w : Writer)
      → Level w
      → (j' : Jcr) × Seen j'
          (dedup_chunk (hash_chunk sha1 (new_chunk bytes)) (seen_as j w))
          (write_chunk sha1 bytes w)
  unfolding dedup_chunk write_chunk note_chunk
  dedup_chunk-Seen sha1 bytes j w level =
      let fp = fp_of_bytes (sha1 bytes) in
      let res = dedup_lookup fp w.manager in
      (
        count_chunk res (length bytes) j,
        by_lookup-Seen (count_chunk res (length bytes) j) res fp bytes (sha1 bytes)
            (note_chunk bytes (sha1 bytes) w) level,
      )

module _ (reverse : Files) where
  pub loop-Seen :
      (sha1 : Bytes → Bytes) (pieces : List Bytes) (j : Jcr) (w : Writer)
      → Level reverse w
      → (j' : Jcr) × Seen reverse j'
          (dedup_loop
            (sha1_thread sha1 (map new_chunk pieces ++ file_end ∷ []))
            (seen_as reverse j w))
          (write_chunks sha1 pieces w)
  unfolding dedup_loop sha1_thread Seen
  loop-Seen sha1 [] j w level = (j, (refl, level))
  loop-Seen sha1 (bytes ∷ pieces) j w level =
      let (j', seen) = dedup_chunk-Seen reverse sha1 bytes j w level in
      let o = dedup_chunk (hash_chunk sha1 (new_chunk bytes)) (seen_as reverse j w) in
      elim (Option-cases (write_chunk sha1 bytes w)) [
        | inl e ↦
            let stopped : o ≡ none = subst (Seen reverse j' o) e seen in (j', rw (e, stopped) refl)
        | inr (w', e) ↦
            let ran : (o ≡ some (seen_as reverse j' w')) × Level reverse w' =
              subst (Seen reverse j' o) e seen in
            let rest = loop-Seen sha1 pieces j' w' ran.1 in (rest.0, rw (e, ran.0) rest.1)
      ]

  pub end-seen :
      (j : Jcr) (w : Writer)
      → Level reverse w
      → dedup_end (seen_as reverse j w) ≡ with_reverse reverse (write_end w)
  unfolding dedup_end write_end save_container_buf save_container save_file_recipe recipes_num
  end-seen j w level = elim (Bool-cases (ltb 0 w.container_buf_pointer)) [
    | inl more ↦ let more' = ap (ltb 0) level ∙ more in rw (more, more', level)
    | inr nothing ↦ let nothing' = ap (ltb 0) level ∙ nothing in rw (nothing, nothing')
  ]
