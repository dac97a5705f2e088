-- ===== src/Lib.antt =====
-- cDedup: a backup program that deduplicates files by content-defined chunking.
--
-- A backup (main.cpp, task `write`) reads a file by blocks of 256 MB, cuts each into chunks
-- (src/fastcdc.cpp), looks the SHA-1 of every chunk up in an index (src/MetadataManager.cpp), appends
-- unknown chunks to containers of 4 MB and counts a reference to known ones. A recipe lists the
-- fingerprints of the file. A restore (task `restore`) reads the recipe and puts the chunks together
-- through a cache of containers (src/ContainerCache.cpp).
--
-- The files:
--   Base             lists, bytes, finite maps and Boolean tests that the rest shares
--   Metadata         src/MetadataManager.cpp: the index, two maps from fingerprint to entry. Its
--                    children: Codec and Persist for `save` and `load`, Index for the maps as one
--                    finite map, Counts for the reference counts, Reopen for the next process
--   Chunking         src/fastcdc.cpp: the gear table, FastCDC_with_NC, FastCDC_without_NC and the
--                    fixed sizes. Boundary and Cut say where a chunk ends, Locality and Rolling what
--                    it depends on, Split is the loop over a buffer
--   Store            the files of a repository, and `saveContainer`, `saveFileRecipe`,
--                    `getFileRecipe` of main.cpp
--   Backup           `saveChunkToContainer` and the branch TASK_WRITE. Sound says what the index
--                    promises, Flush the invariant of a running backup, Append and Chunk one chunk,
--                    Lines and Arrays the bounds of its buffers, Loop and Blocks the two loops,
--                    Repository and Task a backup as a whole
--   Restore          the branch TASK_RESTORE for a cache, and include/Cache.h as a record of
--                    operations. Fetch is its contract, Containers the implementation by
--                    src/ContainerCache.cpp, Chunks that by src/ChunkCache.cpp, Recipe and Loop the
--                    parts, Task and Roundtrip the whole. Faa is include/FAA.h and the branch for
--                    FAA_FIXED, Rounds the end of its inner loop
--   Delete           the branch TASK_DELETE, `container_del_chunk` and `del_seg`. Segment is what is
--                    left of a container, Offsets the loop over a reverse file, Reverse that file
--                    afterwards, Shelf and Whole a deletion from a container. Counts and Kept say
--                    what a repository keeps for its versions, Recount and Last (with Listed, Lowered,
--                    Left and Without) a reference less, Rounds the loop, Task the whole deletion and
--                    Versions a restore after it
--   Lifecycle        backups and deletions of one repository, one after the other. Shelving is what a
--                    running backup keeps for the versions, Opening its start, Stored, Placed, Appended
--                    and Chunks (with Digests) its steps, Closing its end, Backup the whole of it,
--                    Tasks a history of tasks
--   Queue            src/queue.cpp over a heap of nodes. Chain is the shape of a queue, Laws the
--                    operations that change it, Walk those that read it
--   SyncQueue        src/sync_queue.cpp: what each function does under its lock. System interleaves
--                    the threads, Order and Wakeups say what holds of every reachable state
--   Pipeline         src/pipeline*.cpp: the phases as functions on streams of chunks. Dedup is the last
--                    phase, Stream what the first two push, Serial the last phase beside the task
--                    `write`, Whole the phases together
--   Config           include/config.h. Spec is what a list of parameters stands for, Parse the loop
--                    over them
--   FullFile         src/full_file_deduplicater.cpp. Table is the file of fingerprints as a table, Scan
--                    the search of it, Rows the row it looks for, Lookup the two scans, Methods the
--                    class's methods
--   Merkle           src/merkle_tree.cpp. Leaves and Fresh are the tree that is built, Walk and Marks
--                    the marks in it, Write the branch of the task `write` that uses it, Unchanged
--                    what that leaves
--   Main             `main`: the configuration chooses the chunking function and the task. Session is
--                    a run for a backup and one for a restore
--   Tests            concrete inputs
--
-- State is passed: `Writer`, `Deduper` and `Restorer` hold the local variables of the branches and the
-- globals that they use, `Globals` those of src/fastcdc.cpp, `Store` the directories. A word of w bits
-- wraps by `% 2 ^ w`. `none` is a failed assertion, an exit or an exception, or a loop out of fuel: the
-- loops of a backup and of the pipeline's phases run with one round more than bytes, which is enough as
-- no chunk is empty. A copy past the end of `container_buf` or `rev_container_buf` sets `overrun` of
-- `Writer`, and the task then has no result; what the loops do behind such a copy is not what the
-- program does. The phases of the pipeline are composed as the queues between them hand the
-- chunks on. SHA-1 and MD5 are parameters; of SHA-1 the theorems use that a digest is 20 bytes, and the
-- byte-for-byte ones that no other bytes within the containers have a chunk's digest.
--
-- Not modelled: failing system calls, printing, timing and statistics (include/global_stat.h,
-- src/compressor.cpp; a backup of an empty file divides by its number of chunks, 0, when it prints
-- them, after all is saved), and the start and the end of threads. utils/cJSON.c and
-- include/uthash.h are copies of other projects' libraries; the JSON parser is a parameter.
pub mod Base
pub mod Metadata
pub mod Chunking
pub mod Store
pub mod Backup
pub mod Restore
pub mod Delete
pub mod Config
pub mod Pipeline
pub mod FullFile
pub mod Merkle
pub mod Main
pub mod Lifecycle
pub mod Queue
pub mod SyncQueue
mod Tests
