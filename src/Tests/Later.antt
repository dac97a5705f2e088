-- ===== src/Tests/Later.antt =====
-- A second backup beside the first, and the restore of the first.
use c_dedup.Base.{
  ℕ, ◌≡◌, refl, some, [], ◌∷◌, ◌++◌, length, replicate, Bytes, arith, All, window, ◌+◌, ◌*◌, ◌^◌,
  ◌<◌, ◌≤◌, find, emplace, of_le, assign, le_bytes, write_at,
}
use c_dedup.Store.{
  Store, containers_num, recipes_num, from_buffer, put_file, save_container, save_file_recipe,
}
use c_dedup.Restore.{task_restore}
use c_dedup.Restore.Containers.{container_cache}
use c_dedup.Restore.Task.{NoCollision}
use c_dedup.Restore.Roundtrip.{HasVersion-new, task_restore-kept}
use c_dedup.Metadata.Index.{entries_num}
use c_dedup.Metadata.{file_cache}
use c_dedup.Chunking.{fixed, run_chunking, fsc}
use c_dedup.Backup.{
  task_write, write_file, write_block, write_chunk, by_lookup, count_duplicate, flush, new_entry,
  note_chunk, open_index, start_writer, store_unique, write_end, finish_write, index_chunk,
  save_chunk_to_container, copy_chunk, advance,
}
use c_dedup.Tests.Backups.{chunks, after, first_backup, stands_there, digests, cuts}
use c_dedup.Restore.Task.{HasVersion}
use c_dedup.Metadata.{load, load_entries, value_of_bytes}
use c_dedup.Tests.Toy.{
  toy_sha1, toy_sha1-IsSha1, input, empty_store, toy_globals, toy_sha1-first, toy_sha1-last, same,
}
use c_dedup.Metadata.{
  dedup_lookup, add_new_entry, tuple_equaler, fp_of_bytes, add_ref_cnt, fp_bytes, save, save_table,
  value_bytes,
}

abbrev table : ℕ → ℕ → Bytes
table first last =
    replicate 20 1
    ++ (0 ∷ 0 ∷ 0 ∷ 0 ∷ 0 ∷ 0 ∷ 0 ∷ 0 ∷ 2 ∷ 0 ∷ 0 ∷ 0 ∷ first ∷ 0 ∷ 0 ∷ 0 ∷ []
        ++ (replicate 20 2
            ++ 0 ∷ 0 ∷ 0 ∷ 0 ∷ 2 ∷ 0 ∷ 0 ∷ 0 ∷ 1 ∷ 0 ∷ 1 ∷ 0 ∷ last ∷ 0 ∷ 0 ∷ 0 ∷ []))

abbrev later : Store
later = record {
  containers = (0, 1 ∷ 2 ∷ 3 ∷ []) ∷ [];
  reverse = (0, 2 ∷ 0 ∷ 0 ∷ 0 ∷ [] ++ (replicate 20 1 ++ replicate 20 2)) ∷ [];
  recipes = (0, digests) ∷ (1, digests) ∷ [];
  fingerprints = some (table 4 2);
}

rerun : task_write toy_sha1 (fixed 2) toy_globals input after ≡ some later
unfolding task_write write_file write_block write_chunk by_lookup count_duplicate flush new_entry
    note_chunk open_index start_writer store_unique write_end index_chunk save_chunk_to_container
    copy_chunk finish_write advance dedup_lookup add_new_entry tuple_equaler fp_of_bytes add_ref_cnt
    fp_bytes save save_table value_bytes find emplace of_le assign le_bytes write_at recipes_num
    containers_num from_buffer put_file save_container save_file_recipe run_chunking fsc toy_sha1
    same load load_entries value_of_bytes
rerun = refl

after_numbers : containers_num after + length input < 2 ^ 32
unfolding containers_num
after_numbers = omega arith

after_entries : (entries_num (open_index after) + length chunks) * 36 ≤ file_cache
unfolding open_index recipes_num load load_entries fp_of_bytes of_le find emplace value_of_bytes
    tuple_equaler
after_entries = omega arith

abbrev alone_later : All (NoCollision toy_sha1 later) chunks
alone_later = (
  λ k off len content stored e. toy_sha1-first (window off len content) e,
  (
    λ k off len content stored e. toy_sha1-first (window off len content) e,
    (λ k off len content stored e. toy_sha1-last (window off len content) e, tt),
  ),
)

first_version : HasVersion toy_sha1 0 chunks after
unfolding recipes_num
first_version = HasVersion-new toy_sha1 chunks empty_store after first_backup

abbrev short_chunks : All (λ chunk. length chunk < file_cache) chunks
short_chunks = (omega arith, (omega arith, (omega arith, tt)))

task_restore-kept_example :
    task_restore (container_cache later.containers 128) 0 stands_there later
    ≡ some (1 ∷ 2 ∷ 1 ∷ 2 ∷ 3 ∷ 9 ∷ 7 ∷ [])
task_restore-kept_example =
    task_restore-kept toy_sha1 (fixed 2) toy_globals toy_globals input after later chunks
      stands_there chunks 0 toy_sha1-IsSha1 (omega arith) (omega arith) first_backup.repository
      after_numbers cuts after_entries (omega arith) rerun first_version (omega arith) alone_later
      short_chunks
