-- ===== src/Tests/Backups.antt =====
-- A backup of five bytes and its restore.
use c_dedup.Base.{
  ◌≡◌, refl, ap, ◌∙◌, sym, some, List, [], ◌∷◌, ◌++◌, length, replicate, Bytes, arith, All, window,
  ◌+◌, ◌*◌, ◌^◌, ◌<◌, ◌≤◌, concat, subst, value_or, find, emplace, of_le, assign, le_bytes,
  write_at,
}
use c_dedup.Store.{
  Store, containers_num, recipes_num, from_buffer, put_file, save_container, save_file_recipe,
}
use c_dedup.Restore.{task_restore}
use c_dedup.Restore.Containers.{container_cache}
use c_dedup.Restore.Task.{NoCollision}
use c_dedup.Restore.Roundtrip.{task_write-task_restore}
use c_dedup.Metadata.Index.{entries_num}
use c_dedup.Metadata.{file_cache}
use c_dedup.Backup.Task.{BackedUp, task_write-BackedUp}
use c_dedup.Chunking.{fixed, run_chunking, fsc}
use c_dedup.Chunking.Split.{split_file, split, Fits}
use c_dedup.Backup.{
  task_write, write_file, write_block, write_chunk, by_lookup, count_duplicate, flush, new_entry,
  note_chunk, open_index, start_writer, store_unique, write_end, finish_write, index_chunk,
  save_chunk_to_container, copy_chunk, advance,
}
use c_dedup.Tests.Toy.{
  toy_sha1, toy_sha1-IsSha1, first_chunk, last_chunk, input, empty_store, empty_store-IsRepository,
  toy_globals, toy_sha1-first, toy_sha1-last, same,
}
use c_dedup.Metadata.{
  dedup_lookup, add_new_entry, tuple_equaler, fp_of_bytes, add_ref_cnt, fp_bytes, save, save_table,
  value_bytes,
}

abbrev pub chunks : List Bytes
chunks = first_chunk ∷ first_chunk ∷ last_chunk ∷ []

pub cuts : split_file 6 (fixed 2) input toy_globals ≡ some (chunks, toy_globals)
unfolding split_file split run_chunking fsc
cuts = refl

abbrev pub after : Store
after = record {
  containers = (0, 1 ∷ 2 ∷ 3 ∷ []) ∷ [];
  reverse = (0, 2 ∷ 0 ∷ 0 ∷ 0 ∷ [] ++ (replicate 20 1 ++ replicate 20 2)) ∷ [];
  recipes = (0, replicate 20 1 ++ (replicate 20 1 ++ replicate 20 2)) ∷ [];
  fingerprints = some (
      replicate 20 1
      ++ (0 ∷ 0 ∷ 0 ∷ 0 ∷ 0 ∷ 0 ∷ 0 ∷ 0 ∷ 2 ∷ 0 ∷ 0 ∷ 0 ∷ 2 ∷ 0 ∷ 0 ∷ 0 ∷ []
          ++ (replicate 20 2
              ++ 0 ∷ 0 ∷ 0 ∷ 0 ∷ 2 ∷ 0 ∷ 0 ∷ 0 ∷ 1 ∷ 0 ∷ 1 ∷ 0 ∷ 1 ∷ 0 ∷ 0 ∷ 0 ∷ [])));
}

run : task_write toy_sha1 (fixed 2) toy_globals input empty_store ≡ some after
unfolding task_write write_file write_block write_chunk by_lookup count_duplicate flush new_entry
    note_chunk open_index start_writer store_unique write_end index_chunk save_chunk_to_container
    copy_chunk finish_write advance dedup_lookup add_new_entry tuple_equaler fp_of_bytes add_ref_cnt
    fp_bytes save save_table value_bytes find emplace of_le assign le_bytes write_at recipes_num
    containers_num from_buffer put_file save_container save_file_recipe run_chunking fsc toy_sha1
    same
run = refl

abbrev pub alone : All (NoCollision toy_sha1 after) chunks
alone = (
  λ k off len content stored e. toy_sha1-first (window off len content) e,
  (
    λ k off len content stored e. toy_sha1-first (window off len content) e,
    (λ k off len content stored e. toy_sha1-last (window off len content) e, tt),
  ),
)

abbrev pub digests : Bytes
digests = replicate 20 1 ++ (replicate 20 1 ++ replicate 20 2)

abbrev pub stands_there : Bytes
stands_there = 9 ∷ 9 ∷ 9 ∷ 9 ∷ 9 ∷ 9 ∷ 7 ∷ []

few_containers : containers_num empty_store + length input < 2 ^ 32
unfolding containers_num
few_containers = omega arith

few_entries : (entries_num (open_index empty_store) + length chunks) * 36 ≤ file_cache
unfolding open_index recipes_num
few_entries = omega arith

few_recipes : recipes_num empty_store < 2 ^ 8
unfolding recipes_num
few_recipes = omega arith

task_write-task_restore_example :
    task_restore (container_cache after.containers 128) (recipes_num empty_store) stands_there after
    ≡ some (1 ∷ 2 ∷ 1 ∷ 2 ∷ 3 ∷ 9 ∷ 7 ∷ [])
task_write-task_restore_example =
    task_write-task_restore toy_sha1 (fixed 2) toy_globals toy_globals input empty_store after
      chunks stands_there toy_sha1-IsSha1 (omega arith) (omega arith) empty_store-IsRepository
      few_containers cuts few_entries (omega arith) run few_recipes alone

task_write-BackedUp_example :
    (s' : Store) × (task_write toy_sha1 (fixed 2) toy_globals input empty_store ≡ some s')
    × BackedUp toy_sha1 chunks empty_store s'
    × (concat chunks ≡ input)
    × All (Fits 2) chunks
task_write-BackedUp_example =
    task_write-BackedUp toy_sha1 (fixed 2) toy_globals toy_globals input empty_store chunks
      toy_sha1-IsSha1 (omega arith) (omega arith) empty_store-IsRepository few_containers cuts
      few_entries (omega arith)

pub first_backup : BackedUp toy_sha1 chunks empty_store after
first_backup =
    let (s', e, done, whole, each) = task_write-BackedUp_example in
    let same : s' ≡ after = ap (λ r. value_or r after) (sym e ∙ run) in
    subst (BackedUp toy_sha1 chunks empty_store) same done
