-- ===== src/Pipeline/Dedup.antt =====
-- The last phase of the pipeline, and the phases together: src/pipeline_dedup.cpp, src/jcr.cpp and the
-- branch `TASK_WRITE_PIPELINE` of main.cpp.
--
-- `Deduper` holds the thread's variables and the globals that it writes. The counters of `jcr` are far
-- from overflowing an `int`.
use c_dedup.Base.{
  ℕ, ◌+◌, ◌%◌, ◌^◌, Option, none, some, List, [], ◌∷◌, ◌++◌, ltb, leb, if◌then◌else◌, length, Bytes,
  write_at, ◌>>=◌,
}
use c_dedup.Store.{Store, container_size, containers_num, put_file, from_buffer, save_file_recipe}
use c_dedup.Metadata.{
  Sha1Fp, EntryValue, MetadataManager, LookupResult, unique, dedup, fp_of_bytes, dedup_lookup,
  add_new_entry, add_ref_cnt, save,
}
use c_dedup.Chunking.{Globals, Chunking}
use c_dedup.Backup.{open_index}
use c_dedup.Pipeline.{Chunk, flag_start, flag_end, read_file, chunk_thread, sha1_thread}

pub record Jcr : Type 0 where
  pub data_size : ℕ
  pub unique_data_size : ℕ
  pub chunk_num : ℕ
  pub unique_chunk_num : ℕ

-- `init_jcr`, as far as the thread counts.
abbrev pub init_jcr : Jcr
init_jcr = record { data_size = 0; unique_data_size = 0; chunk_num = 0; unique_chunk_num = 0 }

pub record Deduper : Type 0 where
  pub container_buf : Bytes
  pub container_index : ℕ
  pub container_inner_offset : ℕ
  pub container_inner_index : ℕ
  pub file_recipe : List Bytes
  pub jcr : Jcr
  pub manager : MetadataManager
  pub store : Store

-- `saveContainerBuf`: there is no reverse file.
unfoldable pub save_container_buf : Deduper → Store
save_container_buf d = record d.store {
  containers =
      put_file d.container_index (from_buffer d.container_inner_offset d.container_buf)
        d.store.containers;
}

-- `saveContainerBuf` and `resetContainerBuf`.
unfoldable pub reset_container_buf : Deduper → Deduper
reset_container_buf d = record d {
  store = save_container_buf d;
  container_buf = [];
  container_index = (d.container_index + 1) % 2 ^ 32;
  container_inner_offset = 0;
  container_inner_index = 0;
}

-- The entry of a unique chunk.
unfoldable pub entry_value : ℕ → Deduper → EntryValue
entry_value size d = record {
  container_number = d.container_index;
  offset = d.container_inner_offset;
  chunk_length = size % 2 ^ 16;
  container_inner_index = d.container_inner_index;
  ref_cnt = 1;
}

-- A unique chunk, after the flush.
unfoldable pub append_unique : Sha1Fp → Bytes → Deduper → Option Deduper
append_unique fp bytes d = add_new_entry fp (entry_value (length bytes) d) d.manager >>= λ m.
    some (record d {
      container_buf = write_at d.container_inner_offset bytes d.container_buf;
      container_inner_offset = (d.container_inner_offset + length bytes) % 2 ^ 32;
      container_inner_index = (d.container_inner_index + 1) % 2 ^ 16;
      manager = m;
    })

-- What `jcr` counts for a chunk.
unfoldable pub count_chunk : LookupResult → ℕ → Jcr → Jcr
count_chunk unique size j = record {
  data_size = j.data_size + size;
  unique_data_size = j.unique_data_size + size;
  chunk_num = j.chunk_num + 1;
  unique_chunk_num = j.unique_chunk_num + 1;
}
count_chunk dedup size j = record j { data_size = j.data_size + size; chunk_num = j.chunk_num + 1 }

unfoldable pub store_by_lookup : LookupResult → Sha1Fp → Bytes → Deduper → Option Deduper
store_by_lookup unique fp bytes d = append_unique fp bytes (
    if leb container_size (d.container_inner_offset + length bytes)
    then reset_container_buf d
    else d)
store_by_lookup dedup fp bytes d = some (record d { manager = (add_ref_cnt fp d.manager).0 })

-- A normal chunk in the loop of `dedup_thread`.
unfoldable pub dedup_chunk : Chunk → Deduper → Option Deduper
dedup_chunk c d =
    let fp = fp_of_bytes c.fp in
    let res = dedup_lookup fp d.manager in
    store_by_lookup res fp c.content (record d {
      file_recipe = d.file_recipe ++ c.fp ∷ [];
      jcr = count_chunk res (length c.content) d.jcr;
    })

-- The loop of `dedup_thread`; it tests the flags of what it popped before it looks for `NULL`.
unfoldable pub dedup_loop : List Chunk → Deduper → Option Deduper
dedup_loop [] d = none
dedup_loop (c ∷ input) d =
    if flag_start c.flag
    then dedup_loop input d
    else if flag_end c.flag
    then some d
    else dedup_chunk c d >>= dedup_loop input

-- `dedup_thread` after its loop.
unfoldable pub dedup_end : Deduper → Store
dedup_end d =
    let s = (if ltb 0 d.container_inner_offset then save_container_buf d else d.store) in
    record (save_file_recipe d.file_recipe s) { fingerprints = some (save d.manager) }

unfoldable pub start_deduper : Store → Deduper
start_deduper s = record {
  container_buf = [];
  container_index = containers_num s;
  container_inner_offset = 0;
  container_inner_index = 0;
  file_recipe = [];
  jcr = init_jcr;
  manager = open_index s;
  store = s;
}

-- The four phases, each fed by the one before.
unfoldable pub task_write_pipeline :
    (Bytes → Bytes) → Chunking → ℕ → Globals → Bytes → Bytes → Store → Option Store
task_write_pipeline sha1 chunking max_chunk_size g path input s = read_file path input >>= λ blocks.
    chunk_thread 1 (length input + 1) chunking max_chunk_size blocks g >>= λ chunks.
    dedup_loop (sha1_thread sha1 chunks) (start_deduper s) >>= λ d. some (dedup_end d)
