-- ===== src/Backup.antt =====
-- The task `write` without a Merkle tree: main.cpp, `saveChunkToContainer` and the branch
-- `TASK_WRITE` of `main`.
--
-- `Writer` holds the local variables of the branch, the two globals of the reverse file, the index
-- and the repository. SHA-1 is a parameter. `none` is the failed assertion of `addNewEntry`; a copy
-- past the end of an array is noted in `overrun`, and the task then has no result.
pub mod Sound
pub mod Flush
pub mod Append
pub mod Lines
pub mod Chunk
pub mod Loop
pub mod Arrays
pub mod Blocks
pub mod Repository
pub mod Task
use c_dedup.Base.{
  ℕ, zero, suc, ◌+◌, ◌-◌, ◌*◌, ◌%◌, ◌^◌, Bool, true, false, Option, none, some, List, [], ◌∷◌, ◌++◌,
  ltb, leb, ◌==◌, if◌then◌else◌, length, take, drop, Bytes, write_at, ◌>>=◌,
}
use c_dedup.Store.{
  Store, container_size, sha_digest_length, containers_num, recipes_num, save_container,
  save_file_recipe,
}
use c_dedup.Metadata.{
  Sha1Fp, EntryValue, MetadataManager, new_manager, unique, dedup, LookupResult, file_cache,
  fp_of_bytes, dedup_lookup, add_new_entry, add_ref_cnt, load, save,
}
use c_dedup.Chunking.{Globals, Chunking, run_chunking}

pub record Writer : Type 0 where
  pub container_buf : Bytes
  pub container_buf_pointer : ℕ
  pub container_index : ℕ
  pub container_inner_offset : ℕ
  pub container_inner_index : ℕ
  pub rev_container_cnt : ℕ
  pub rev_container_buf : Bytes
  -- a copy went past the end of one of the two arrays of `CONTAINER_SIZE` bytes
  pub overrun : Bool
  pub file_recipe : List Bytes
  pub dedup_chunks : ℕ
  pub sum_chunks : ℕ
  pub sum_size : ℕ
  pub dedup_size : ℕ
  pub manager : MetadataManager
  pub store : Store

-- The flush of `saveChunkToContainer`.
unfoldable pub flush : Writer → Writer
flush w = record w {
  store =
      save_container w.container_index w.container_buf w.container_buf_pointer w.rev_container_cnt
        w.rev_container_buf w.store;
  container_buf = [];
  container_index = (w.container_index + 1) % 2 ^ 32;
  container_inner_offset = 0;
  container_buf_pointer = 0;
  container_inner_index = 0;
  rev_container_cnt = 0;
}

-- The two `memcpy` of `saveChunkToContainer`. Nothing tests for the ends of `container_buf` and
-- `rev_container_buf`.
unfoldable pub copy_chunk : Bytes → Bytes → Writer → Writer
copy_chunk chunk sha_buf w = record w {
  container_buf = write_at w.container_buf_pointer chunk w.container_buf;
  rev_container_buf =
      write_at (sha_digest_length * w.rev_container_cnt) (take sha_digest_length sha_buf)
        w.rev_container_buf;
  overrun =
      (if ltb container_size (w.container_buf_pointer + length chunk)
        then true
        else (if ltb container_size (sha_digest_length * (w.rev_container_cnt + 1))
            then true
            else w.overrun));
}

unfoldable pub save_chunk_to_container : Bytes → Bytes → Writer → Writer
save_chunk_to_container chunk sha_buf w =
    copy_chunk chunk sha_buf
      (if leb container_size (w.container_buf_pointer + length chunk) then flush w else w)

-- The entry of a new chunk; the container's fields have 32 bits, the chunk's have 16.
unfoldable pub new_entry : ℕ → Writer → EntryValue
new_entry chunk_length w = record {
  container_number = w.container_index;
  offset = w.container_inner_offset;
  chunk_length = chunk_length % 2 ^ 16;
  container_inner_index = w.container_inner_index;
  ref_cnt = 1;
}

-- The counters after a new chunk.
unfoldable pub advance : ℕ → Writer → Writer
advance chunk_length w = record w {
  container_inner_offset = (w.container_inner_offset + chunk_length) % 2 ^ 32;
  container_buf_pointer = (w.container_buf_pointer + chunk_length) % 2 ^ 32;
  container_inner_index = (w.container_inner_index + 1) % 2 ^ 16;
  rev_container_cnt = (w.rev_container_cnt + 1) % 2 ^ 32;
}

-- The rest of the branch for a unique chunk, after `saveChunkToContainer`.
unfoldable pub index_chunk : Sha1Fp → ℕ → Writer → Option Writer
index_chunk fp chunk_length placed =
    add_new_entry fp (new_entry chunk_length placed) placed.manager >>= λ m.
    some (advance chunk_length (record placed { manager = m }))

-- The branch for a unique chunk.
unfoldable pub store_unique : Sha1Fp → Bytes → Bytes → Writer → Option Writer
store_unique fp chunk sha_buf w =
    index_chunk fp (length chunk) (save_chunk_to_container chunk sha_buf w)

-- The branch for a duplicate chunk.
unfoldable pub count_duplicate : Sha1Fp → Bytes → Writer → Writer
count_duplicate fp chunk w = record w {
  manager = (add_ref_cnt fp w.manager).0;
  dedup_chunks = w.dedup_chunks + 1;
  dedup_size = w.dedup_size + length chunk;
}

-- The recipe and the statistics, before the lookup.
unfoldable pub note_chunk : Bytes → Bytes → Writer → Writer
note_chunk chunk sha_buf w = record w {
  file_recipe = w.file_recipe ++ sha_buf ∷ [];
  sum_chunks = w.sum_chunks + 1;
  sum_size = w.sum_size + length chunk;
}

unfoldable pub by_lookup : LookupResult → Sha1Fp → Bytes → Bytes → Writer → Option Writer
unfolding store_unique count_duplicate
by_lookup unique fp chunk sha_buf w = store_unique fp chunk sha_buf w
by_lookup dedup fp chunk sha_buf w = some (count_duplicate fp chunk w)

-- From the label `writend` on.
unfoldable pub write_end : Writer → Store
write_end w =
    let s =
      (if ltb 0 w.container_buf_pointer
        then save_container w.container_index w.container_buf w.container_buf_pointer
            w.rev_container_cnt w.rev_container_buf w.store
        else w.store) in
    record (save_file_recipe w.file_recipe s) { fingerprints = some (save w.manager) }

-- The end of a backup, if every copy stayed within its array.
unfoldable pub finish_write : Writer → Option Store
finish_write w = if w.overrun then none else some (write_end w)

-- The index is loaded if there is a recipe.
unfoldable pub open_index : Store → MetadataManager
open_index s = if recipes_num s == 0 then new_manager else load s.fingerprints new_manager

unfoldable pub start_writer : Store → Writer
unfolding open_index
start_writer s = record {
  container_buf = [];
  container_buf_pointer = 0;
  container_index = containers_num s;
  container_inner_offset = 0;
  container_inner_index = 0;
  rev_container_cnt = 0;
  rev_container_buf = [];
  overrun = false;
  file_recipe = [];
  dedup_chunks = 0;
  sum_chunks = 0;
  sum_size = 0;
  dedup_size = 0;
  manager = open_index s;
  store = s;
}

module _ (sha1 : Bytes → Bytes) where
  -- One round of the inner loop, with the chunk cut off.
  unfoldable pub write_chunk : Bytes → Writer → Option Writer
  unfolding by_lookup note_chunk
  write_chunk chunk w =
      let sha_buf = sha1 chunk in
      let fp = fp_of_bytes sha_buf in
      by_lookup (dedup_lookup fp w.manager) fp chunk sha_buf (note_chunk chunk sha_buf w)

  -- `while (file_offset < n_read)`, over what is left of the cache. The fuel is the number of rounds.
  unfoldable pub write_block : ℕ → Chunking → Bytes → Globals → Writer → Option (Writer × Globals)
  write_block zero chunking cache g w = none
  write_block (suc fuel) chunking cache g w =
      let cut = run_chunking chunking cache (length cache) g in
      let next =
        write_chunk (take cut.0 cache) w >>= write_block fuel chunking (drop cut.0 cache) cut.1 in
      if ltb 0 (length cache) then next else some (w, g)

  -- `for (;;)`: the file is read by `FILE_CACHE` bytes at a time.
  unfoldable pub write_file : ℕ → Chunking → Bytes → Globals → Writer → Option (Writer × Globals)
  write_file zero chunking file g w = none
  write_file (suc fuel) chunking file g w =
      let block = take file_cache file in
      let next = write_block (length block + 1) chunking block g w >>= λ r.
      write_file fuel chunking (drop file_cache file) r.1 r.0 in
      if length block == 0 then some (w, g) else next

  unfoldable pub task_write : Chunking → Globals → Bytes → Store → Option Store
  unfolding start_writer
  task_write chunking g input s =
      write_file (length input + 1) chunking input g (start_writer s) >>= λ r. finish_write r.0
