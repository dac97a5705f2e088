-- ===== src/Tests/Sessions.antt =====
-- A backup of two bytes by a run of the program, and their restore by another.
use Prim.Native.String.{String}
use c_dedup.Base.{
  ◌<◌, ◌≡◌, ◌+◌, ◌*◌, ◌^◌, ◌≤◌, refl, ap, ◌∙◌, some, [], ◌∷◌, Bytes, arith, length, ◌>>=◌,
}
use c_dedup.Store.{Store, containers_num, recipes_num}
use c_dedup.Metadata.{file_cache}
use c_dedup.Metadata.Index.{entries_num}
use c_dedup.Chunking.{run_chunking, fast_cdc_with_nc, fast_cdc_init, select_masks}
use c_dedup.Chunking.Split.{split_file, split}
use c_dedup.Config.{pos, TaskType, RestoreMethod, Config, new_config}
use c_dedup.Backup.{task_write, open_index}
use c_dedup.Backup.Task.{task_write-BackedUp}
use c_dedup.Main.{World, run_main}
use c_dedup.Main.Session.{
  initial, initial-IsReady, level_function, IsBackup, IsRestore, run_backup,
  run_main-backup_and_restore,
}
use c_dedup.Tests.Toy.{
  toy_sha1, toy_sha1-IsSha1, toy_sha1-first, first_chunk, empty_store, empty_store-IsRepository,
}

abbrev no_md5 : Bytes → Bytes
no_md5 bs = []

abbrev no_path : String → Bytes
no_path s = []

abbrev backup : Config
backup = record new_config { task_type = TaskType.task_write; avg_chunk_size = pos 8 }

abbrev restore : Config
restore = record new_config {
  task_type = TaskType.task_restore;
  avg_chunk_size = pos 8;
  restore_method = RestoreMethod.container_cache;
}

backup-IsBackup : IsBackup 8 2 backup
backup-IsBackup = record { task = refl; method = refl; size = refl; level = refl; plain = refl }

abbrev world : World
world = record {
  store = empty_store;
  full_files = record { fingerprints = []; storage = [] };
  hashes = λ p. [];
  input = first_chunk;
  restored = 9 ∷ 9 ∷ 9 ∷ [];
}

restore-IsRestore : IsRestore 8 2 (recipes_num empty_store) restore
unfolding recipes_num
restore-IsRestore = record {
  task = refl;
  method = refl;
  size = refl;
  level = refl;
  cache = refl;
  wanted = refl;
}

one_chunk :
    split_file 3 (level_function 2) first_chunk (initial no_md5 8 2)
    ≡ some (first_chunk ∷ [], initial no_md5 8 2)
unfolding split_file split run_chunking fast_cdc_with_nc fast_cdc_init select_masks
one_chunk = refl

few : containers_num empty_store + length first_chunk < 2 ^ 32
unfolding containers_num
few = omega arith

fits : (entries_num (open_index empty_store) + 1) * 36 ≤ file_cache
unfolding open_index recipes_num
fits = omega arith

few_versions : recipes_num empty_store < 2 ^ 8
unfolding recipes_num
few_versions = omega arith

done :
    (s' : Store) × (task_write toy_sha1
        (level_function 2)
        (initial no_md5 8 2)
        first_chunk
        empty_store
      ≡ some s')
done =
    let (ready, short) = initial-IsReady no_md5 8 2 (omega arith) (omega arith) in
    let r =
      task_write-BackedUp toy_sha1 (level_function 2) (initial no_md5 8 2) (initial no_md5 8 2)
        first_chunk empty_store (first_chunk ∷ []) toy_sha1-IsSha1 ready short
        empty_store-IsRepository few one_chunk fits (omega arith) in
    (r.0, r.1)

abbrev after : World
after = record world { store = done.0 }

first_run : run_main toy_sha1 no_md5 [] no_path backup world ≡ some after
first_run =
    run_backup toy_sha1 no_md5 [] no_path 8 2 backup world backup-IsBackup (omega arith)
    ∙ ap (λ o. o >>= λ s. some (record world { store = s })) done.1

run_main-backup_and_restore_example :
    run_main toy_sha1 no_md5 [] no_path restore after
    ≡ some (record after { restored = 1 ∷ 2 ∷ 9 ∷ [] })
run_main-backup_and_restore_example =
    run_main-backup_and_restore toy_sha1 no_md5 [] no_path 8 2 backup restore world after
      (initial no_md5 8 2) (first_chunk ∷ []) toy_sha1-IsSha1 backup-IsBackup (omega arith)
      (omega arith) (omega arith) empty_store-IsRepository few one_chunk fits (omega arith)
      first_run few_versions (λ k off len content e same. toy_sha1-first _ same, tt)
      restore-IsRestore
