-- ===== src/Restore.antt =====
-- The task `restore` with a cache: main.cpp, `flushAssemblingBuffer` and the branch `TASK_RESTORE`
-- for the methods `CONTAINER_CACHE` and `CHUNK_CACHE`; include/Cache.h.
--
-- `Cache` is the abstract class, with the state that its implementation keeps. `none` is an
-- `exit(-1)` or an exception before the file is whole.
pub mod Fetch
pub mod Containers
pub mod Chunks
pub mod Faa
pub mod Rounds
pub mod Recipe
pub mod Loop
pub mod Task
pub mod Roundtrip
use c_dedup.Base.{
  ℕ, ◌+◌, Option, none, some, List, [], ◌∷◌, ◌++◌, leb, ◌==◌, if◌then◌else◌, length, Bytes,
  write_at, ◌>>=◌, true, false,
}
use c_dedup.Metadata.{
  EntryValue, MetadataManager, LookupResult, unique, dedup, file_cache, fp_of_bytes, dedup_lookup,
  get_entry,
}
use c_dedup.Store.{Store, from_buffer, file_recipe_exist, get_file_recipe}
use c_dedup.Backup.{open_index}

pub record Cache (State : Type 0) : Type 0 where
  pub start : State
  pub get_chunk_data : EntryValue → State → Option (Bytes × State)

-- The local variables of the branch; `output` is what has been written to the new file.
pub record Restorer (State : Type 0) : Type 0 where
  pub cache : State
  pub manager : MetadataManager
  pub assembling_buffer : Bytes
  pub write_buffer_offset : ℕ
  pub restore_size : ℕ
  pub output : Bytes

module _ {State : Type 0} where
  -- `flushAssemblingBuffer`: the front of the buffer goes to the file.
  unfoldable pub flush_assembling_buffer : Restorer State → Restorer State
  flush_assembling_buffer r = record r {
    output = r.output ++ from_buffer r.write_buffer_offset r.assembling_buffer;
  }

  -- The `memcpy` of the chunk. The size of `ck_data` is `ev.chunk_length`, which has been tested.
  unfoldable pub append_chunk : Bytes → Restorer State → Restorer State
  append_chunk ck_data r = record r {
    assembling_buffer = write_at r.write_buffer_offset ck_data r.assembling_buffer;
    write_buffer_offset = r.write_buffer_offset + length ck_data;
    restore_size = r.restore_size + length ck_data;
  }

  -- Before it, the flush of a buffer that would be full.
  unfoldable pub assemble : Bytes → Restorer State → Restorer State
  unfolding flush_assembling_buffer append_chunk
  assemble ck_data r = append_chunk ck_data (
      if leb file_cache (r.write_buffer_offset + length ck_data)
      then record (flush_assembling_buffer r) { write_buffer_offset = 0 }
      else r)

  -- The entry of a fingerprint that the lookup has found, and the chunk's bytes from the cache.
  unfoldable pub fetch_chunk :
      Cache State → Bytes → Restorer State → Option (Bytes × Restorer State)
  fetch_chunk cc x r =
      let ev = get_entry (fp_of_bytes x) r.manager in
      cc.get_chunk_data ev.1 r.cache >>= λ got.
      if length got.0 == ev.1.chunk_length
      then some (got.0, record r { cache = got.1; manager = ev.0 })
      else none

  unfoldable pub by_lookup :
      LookupResult → Cache State → Bytes → Restorer State → Option (Restorer State)
  unfolding fetch_chunk assemble
  by_lookup unique cc x r = none
  by_lookup dedup cc x r = fetch_chunk cc x r >>= λ got. some (assemble got.0 got.1)

  -- One round of `for(auto &x : file_recipe)`.
  unfoldable pub restore_chunk : Cache State → Bytes → Restorer State → Option (Restorer State)
  unfolding by_lookup
  restore_chunk cc x r = by_lookup (dedup_lookup (fp_of_bytes x) r.manager) cc x r

  unfoldable pub restore_chunks :
      Cache State → List Bytes → Restorer State → Option (Restorer State)
  restore_chunks cc [] r = some r
  restore_chunks cc (x ∷ file_recipe) r = restore_chunk cc x r >>= restore_chunks cc file_recipe

  unfoldable pub start_restorer : Cache State → Store → Restorer State
  start_restorer cc s = record {
    cache = cc.start;
    manager = open_index s;
    assembling_buffer = [];
    write_buffer_offset = 0;
    restore_size = 0;
    output = [];
  }

  -- The restored file, over what stood at its path: it is opened without `O_TRUNC`.
  unfoldable pub task_restore : Cache State → ℕ → Bytes → Store → Option Bytes
  unfolding start_restorer flush_assembling_buffer
  task_restore cc version old s =
      let restored = get_file_recipe version s >>= λ file_recipe.
      restore_chunks cc file_recipe (start_restorer cc s) >>= λ r.
      some (write_at 0 (flush_assembling_buffer r).output old) in
      if file_recipe_exist version s then restored else none
