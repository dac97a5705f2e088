-- ===== src/Tests/Histories.antt =====
-- A third version is backed up beside two, and the oldest one deleted.
use c_dedup.Base.{
  ◌+◌, ◌*◌, ◌^◌, ◌≤◌, ◌<◌, ◌≡◌, refl, some, List, [], ◌∷◌, arith, length, Bytes, find, assign,
  erase, nat_eq, of_le, le_bytes, emplace,
}
use c_dedup.Store.{Store, containers_num, recipes_num}
use c_dedup.Metadata.{
  Sha1Fp, file_cache, fp_eq, load, load_entries, fp_of_bytes, value_of_bytes, tuple_equaler, save,
  save_table, value_bytes, fp_bytes,
}
use c_dedup.Metadata.Index.{entries_num}
use c_dedup.Chunking.{fixed, run_chunking, fsc}
use c_dedup.Chunking.Split.{split_file, split}
use c_dedup.Backup.{open_index, task_write}
use c_dedup.Delete.{task_delete}
use c_dedup.Delete.Counts.{Versions, uses, occurrences, recipe_files}
use c_dedup.Delete.Kept.{IsKept}
use c_dedup.Delete.Task.{task_delete-IsKept}
use c_dedup.Restore.{task_restore}
use c_dedup.Restore.Containers.{container_cache}
use c_dedup.Restore.Containers.Laws.{container_cache-IsCache}
use c_dedup.Lifecycle.Opening.{IsFree}
use c_dedup.Lifecycle.Backup.{task_write-IsKept}
use c_dedup.Lifecycle.Tasks.{History, untouched, backed_up, deleted, task_restore-History}
use c_dedup.Tests.Toy.{
  same, toy_sha1, toy_sha1-IsSha1, toy_sha1-last, first_chunk, last_chunk, toy_globals, input,
}
use c_dedup.Tests.Kept.{versions, store, store-IsKept}

abbrev chunks : List Bytes
chunks = first_chunk ∷ first_chunk ∷ last_chunk ∷ []

cuts : split_file 6 (fixed 2) input toy_globals ≡ some (chunks, toy_globals)
unfolding split_file split run_chunking fsc
cuts = refl

store-IsFree : IsFree store
unfolding containers_num recipes_num find recipe_files
store-IsFree = record {
  containers_free = λ k h. ground arith;
  reverse_free = λ k h. ground arith;
  recipes_free = λ k h. ground arith;
}

occurrences-le : (fp : Sha1Fp) (cs : List Bytes) → occurrences toy_sha1 fp cs ≤ length cs
unfolding occurrences
occurrences-le fp [] = omega arith
occurrences-le fp (c ∷ cs) = ground (arith, occurrences-le fp cs)

few_uses : (fp : Sha1Fp) → uses toy_sha1 fp versions + length chunks < 2 ^ 32
unfolding uses
few_uses fp = omega (arith, occurrences-le fp chunks, occurrences-le fp (last_chunk ∷ []))

numbers : containers_num store + length input < 2 ^ 32
unfolding containers_num
numbers = omega arith

few_entries : (entries_num (open_index store) + length chunks) * 36 ≤ file_cache
unfolding open_index recipes_num load load_entries fp_of_bytes of_le find emplace value_of_bytes
    tuple_equaler recipe_files save save_table value_bytes fp_bytes le_bytes toy_sha1 same
few_entries = omega arith

task_write-IsKept_example :
    (s' : Store) × (task_write toy_sha1 (fixed 2) toy_globals input store ≡ some s')
    × IsKept toy_sha1 (assign (recipes_num store) chunks versions) s'
    × IsFree s'
task_write-IsKept_example =
    task_write-IsKept toy_sha1 (fixed 2) toy_globals toy_globals input chunks versions store
      toy_sha1-IsSha1 (omega arith) (omega arith) store-IsKept store-IsFree numbers cuts few_entries
      (omega arith) few_uses

abbrev after_backup : Store
after_backup = task_write-IsKept_example.0

abbrev three : Versions
three = assign (recipes_num store) chunks versions

backup : History toy_sha1 versions store three after_backup
backup =
    backed_up (fixed 2) toy_globals input chunks untouched
      (record {
        ready = omega arith;
        short = omega arith;
        free = store-IsFree;
        numbers = numbers;
        after = toy_globals;
        cut = cuts;
        fits = few_entries;
        few = omega arith;
        count = few_uses;
      })
      task_write-IsKept_example.1

deletion :
    (s' : Store) × (task_delete 0 after_backup ≡ some s') × IsKept toy_sha1 (erase 0 three) s'
deletion =
    task_delete-IsKept toy_sha1 0 three after_backup toy_sha1-IsSha1 task_write-IsKept_example.2
      (omega arith)

abbrev at_last : Store
at_last = deletion.0

history : History toy_sha1 versions store (erase 0 three) at_last
history = deleted 0 backup (omega arith) deletion.1

newer_there : find 1 (erase 0 three) ≡ some (last_chunk ∷ [])
unfolding find erase assign recipes_num recipe_files
newer_there = refl

abbrev stands_there : Bytes
stands_there = 8 ∷ 9 ∷ []

task_restore-History_example :
    task_restore (container_cache at_last.containers 1) 1 stands_there at_last ≡ some (3 ∷ 9 ∷ [])
task_restore-History_example =
    task_restore-History toy_sha1 (container_cache at_last.containers 1) 1 (last_chunk ∷ [])
      stands_there versions (erase 0 three) store at_last toy_sha1-IsSha1 store-IsKept history
      newer_there (container_cache-IsCache at_last.containers 1 (omega arith)) (omega arith)
      (λ k off len content e same. toy_sha1-last _ same, tt) (omega arith, tt)
