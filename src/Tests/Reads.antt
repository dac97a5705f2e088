-- ===== src/Tests/Reads.antt =====
-- The parts of a restore, and one chunk of a backup.
use c_dedup.Base.{
  ◌*◌, ◌≤◌, false, ◌<◌, ◌≡◌, ◌^◌, ◌+◌, refl, some, false, [], ◌∷◌, arith, replicate, find, ℕ, List,
  Bytes,
}
use c_dedup.Metadata.{EntryValue, new_manager}
use c_dedup.Store.{container_size, Files, containers_num, recipes_num, get_file_recipe}
use c_dedup.Backup.{start_writer, write_chunk, Writer, note_chunk}
use c_dedup.Backup.Chunk.{Stored, write_chunk-IsWriting}
use c_dedup.Backup.Repository.{start_writer-IsWriting}
use c_dedup.Restore.{task_restore, Restorer, assemble}
use c_dedup.Restore.Fetch.{Answers, fetch}
use c_dedup.Restore.Containers.{ContainerCache, container_cache, get_chunk_data}
use c_dedup.Restore.Containers.Laws.{container_cache-IsCache, cached, Inv, get_chunk_data-Answers}
use c_dedup.Restore.Faa.{RecipeBufferEntry, fill_area}
use c_dedup.Restore.Rounds.{fill_area-total}
use c_dedup.Restore.Recipe.{get_file_recipe-concat}
use c_dedup.Restore.Loop.{Extends, assemble-Extends}
use c_dedup.Restore.Task.{HasVersion, task_restore-HasVersion}
use c_dedup.Restore.Roundtrip.{HasVersion-new}
use c_dedup.Tests.Toy.{
  toy_sha1, toy_sha1-IsSha1, first_chunk, empty_store, empty_store-IsRepository,
}
use c_dedup.Tests.Backups.{chunks, after, alone, first_backup, stands_there}

few_empty : containers_num empty_store < 2 ^ 32
unfolding containers_num
few_empty = omega arith

version_after : HasVersion toy_sha1 0 chunks after
unfolding recipes_num
version_after = HasVersion-new toy_sha1 chunks empty_store after first_backup

task_restore-HasVersion_example :
    task_restore (container_cache after.containers 1) 0 stands_there after
    ≡ some (1 ∷ 2 ∷ 1 ∷ 2 ∷ 3 ∷ 9 ∷ 7 ∷ [])
task_restore-HasVersion_example =
    task_restore-HasVersion toy_sha1 (container_cache after.containers 1) 0 chunks stands_there
      after toy_sha1-IsSha1 first_backup.repository version_after
      (container_cache-IsCache after.containers 1 (omega arith)) (omega arith) alone
      (omega arith, (omega arith, (omega arith, tt)))

get_file_recipe-concat_example :
    get_file_recipe 0 after ≡ some (replicate 20 1 ∷ replicate 20 1 ∷ replicate 20 2 ∷ [])
get_file_recipe-concat_example =
    get_file_recipe-concat 0 (replicate 20 1 ∷ replicate 20 1 ∷ replicate 20 2 ∷ []) after
      (omega arith) (refl, (refl, (refl, tt))) (unfold find in refl)

abbrev two_containers : Files
two_containers = (0, 1 ∷ 2 ∷ 3 ∷ []) ∷ (1, 4 ∷ 5 ∷ 6 ∷ 7 ∷ []) ∷ []

abbrev in_second : EntryValue
in_second = record {
  container_number = 1;
  offset = 1;
  chunk_length = 2;
  container_inner_index = 1;
  ref_cnt = 1;
}

abbrev first_loaded : ContainerCache
first_loaded = cached ((0, 1 ∷ 2 ∷ 3 ∷ []) ∷ [])

first_loaded-Inv : Inv two_containers 1 (omega arith) first_loaded
unfolding find
first_loaded-Inv = (
  (0, 1 ∷ 2 ∷ 3 ∷ []) ∷ [],
  refl,
  record {
    distinct = (refl, tt);
    loaded = ((1 ∷ 2 ∷ 3 ∷ [], refl, refl), tt);
    bound = omega arith;
  },
)

-- The limit of one container makes room for the second.
get_chunk_data-Answers_example :
    Answers
      (Inv two_containers 1 (omega arith))
      (get_chunk_data two_containers 1 in_second first_loaded)
      (fetch two_containers in_second)
get_chunk_data-Answers_example =
    get_chunk_data-Answers two_containers 1 (omega arith) in_second first_loaded first_loaded-Inv

abbrev nearly_full : Restorer ContainerCache
nearly_full = record {
  cache = first_loaded;
  manager = new_manager;
  assembling_buffer = [];
  write_buffer_offset = 268435455;
  restore_size = 268435455;
  output = [];
}

assemble-Extends_example : Extends first_chunk nearly_full (assemble first_chunk nearly_full)
assemble-Extends_example = assemble-Extends first_chunk nearly_full (omega arith)

abbrev fresh_writer : Writer
fresh_writer = start_writer empty_store

fresh_index : fresh_writer.container_index + 1 < 2 ^ 32
unfolding start_writer containers_num
fresh_index = omega arith

line : 20 * (fresh_writer.rev_container_cnt + 1) ≤ container_size
unfolding start_writer
line = omega arith

none_over : fresh_writer.overrun ≡ false
unfolding start_writer
none_over = refl

write_chunk-IsWriting_example :
    (w' : Writer) × (write_chunk toy_sha1 first_chunk fresh_writer ≡ some w')
    × (w'.overrun ≡ false)
    × Stored toy_sha1 first_chunk (note_chunk first_chunk (toy_sha1 first_chunk) fresh_writer) w'
write_chunk-IsWriting_example =
    write_chunk-IsWriting toy_sha1 toy_sha1-IsSha1 first_chunk fresh_writer
      (start_writer-IsWriting toy_sha1 empty_store empty_store-IsRepository few_empty) fresh_index
      (omega arith, omega arith) line none_over

abbrev entry_of : ℕ → ℕ → ℕ → RecipeBufferEntry
entry_of cid container_offset faa_start = record {
  cid = cid;
  length = 2;
  container_offset = container_offset;
  faa_start = faa_start;
  used = false;
}

abbrev three_entries : List RecipeBufferEntry
three_entries = entry_of 1 1 0 ∷ entry_of 0 0 2 ∷ entry_of 1 0 4 ∷ []

fill_area-total_example : (area : Bytes) × (fill_area 4 two_containers three_entries [] ≡ some area)
fill_area-total_example = fill_area-total 4 two_containers three_entries [] (omega arith)
