-- ===== src/Pipeline.antt =====
-- The pipeline that writes a file: src/pipeline.cpp, src/pipeline_read.cpp, src/pipeline_chunk.cpp and
-- src/pipeline_hash.cpp.
--
-- A phase is a function from the chunks that it pops, until its queue gives `NULL`, to those that it
-- pushes: a queue between two phases hands them over in order. `none` is an `exit`, a failed
-- assertion, a use of `NULL`, or a loop out of fuel. An input file that a phase reads can be opened.
pub mod Dedup
pub mod Stream
pub mod Serial
pub mod Whole
use c_dedup.Base.{
  ℕ, zero, suc, ◌+◌, ◌-◌, ◌*◌, Bool, true, false, Option, none, some, List, [], ◌∷◌, ◌++◌, ltb,
  ◌==◌, if◌then◌else◌, length, take, drop, replicate, Bytes, ◌>>=◌,
}
use c_dedup.Chunking.{Globals, Chunking, run_chunking, with_nc, fixed, fast_cdc_init}
use c_dedup.Config.{ChunkingMethod, cdc, fsc, full_file}

abbrev pub default_block_size : ℕ
default_block_size = 1024 * 1024 * 1

-- The states of a chunk that the phases tell apart.
pub data Flag : Type 0 where
  chunk_unique chunk_file_start chunk_file_end : Flag

-- `struct chunk`; its size is the length of its data, and its id is not used.
pub record Chunk : Type 0 where
  pub flag : Flag
  pub fp : Bytes
  pub content : Bytes

-- `new_chunk`, with the data that is then copied into it.
abbrev pub new_chunk : Bytes → Chunk
new_chunk bytes = record { flag = chunk_unique; fp = replicate 20 0; content = bytes }

-- `CHECK_CHUNK`
abbrev pub flag_start : Flag → Bool
flag_start chunk_unique = false
flag_start chunk_file_start = true
flag_start chunk_file_end = false

abbrev pub flag_end : Flag → Bool
flag_end chunk_unique = false
flag_end chunk_file_start = false
flag_end chunk_file_end = true

abbrev pub file_start : Bytes → Chunk
file_start path = record (new_chunk (path ++ 0 ∷ [])) { flag = chunk_file_start }

abbrev pub file_end : Chunk
file_end = record (new_chunk []) { flag = chunk_file_end }

-- The loop of `read_file`.
unfoldable pub read_blocks : ℕ → Bytes → Option (List Chunk)
read_blocks zero file = none
read_blocks (suc fuel) file =
    let buf = take default_block_size file in
    let rest =
      read_blocks fuel (drop default_block_size file) >>= λ cs. some (new_chunk buf ∷ cs) in
    if length buf == 0 then some [] else rest

-- `read_file`: what the read phase pushes before it terminates its queue.
unfoldable pub read_file : Bytes → Bytes → Option (List Chunk)
read_file path file =
    read_blocks (length file + 1) file >>= λ cs. some (file_start path ∷ (cs ++ file_end ∷ []))

-- `while ((rest_size < max_chunk_size) && c == NULL)` of `chunk_thread`: `rest` is what the buffer
-- holds from `buf_off` on. The results are the buffer, `c`, and the chunks not yet popped.
unfoldable pub receive : ℕ → Bytes → List Chunk → Option (Bytes × Option Chunk × List Chunk)
receive max_chunk_size rest [] =
    if ltb (length rest) max_chunk_size then none else some (rest, none, [])
receive max_chunk_size rest (c ∷ input) =
    let more = receive max_chunk_size (rest ++ c.content) input in
    if ltb (length rest) max_chunk_size
    then (if flag_end c.flag then some (rest, some c, input) else more)
    else some (rest, none, c ∷ input)

abbrev pub receive_more :
    ℕ → Bytes → Option Chunk → List Chunk → Option (Bytes × Option Chunk × List Chunk)
receive_more max_chunk_size rest (some c) input = some (rest, some c, input)
receive_more max_chunk_size rest none input = receive max_chunk_size rest input

-- The inner `while (1)` of `chunk_thread`, and the push of `c` after it: the chunks pushed, those not
-- yet popped, and the globals of the chunking.
unfoldable pub chunk_loop :
    ℕ
    → Chunking
    → ℕ
    → Bytes
    → Option Chunk
    → List Chunk
    → Globals
    → Option (List Chunk × List Chunk × Globals)
chunk_loop zero chunking max_chunk_size rest c input g = none
chunk_loop (suc fuel) chunking max_chunk_size rest c input g =
    receive_more max_chunk_size rest c input >>= λ f.
    let cut = run_chunking chunking f.0 (length f.0) g in
    let next = chunk_loop fuel chunking max_chunk_size (drop cut.0 f.0) f.1 f.2 cut.1 >>= λ r.
    some (new_chunk (take cut.0 f.0) ∷ r.0, r.1, r.2) in
    if length f.0 == 0 then (f.1 >>= λ c. some (c ∷ [], f.2, g)) else next

-- The chunk behind the start of a file, and the loop.
unfoldable pub chunk_file :
    ℕ → Chunking → ℕ → List Chunk → Globals → Option (List Chunk × List Chunk × Globals)
chunk_file fuel chunking max_chunk_size [] g = none
chunk_file fuel chunking max_chunk_size (c ∷ input) g =
    if flag_end c.flag
    then chunk_loop fuel chunking max_chunk_size [] (some c) input g
    else chunk_loop fuel chunking max_chunk_size c.content none input g

-- `chunk_thread`: `files` bounds the rounds of its outer loop, `fuel` those of the inner one.
unfoldable pub chunk_thread : ℕ → ℕ → Chunking → ℕ → List Chunk → Globals → Option (List Chunk)
chunk_thread files fuel chunking max_chunk_size [] g = some []
chunk_thread zero fuel chunking max_chunk_size (c ∷ input) g = none
chunk_thread (suc files) fuel chunking max_chunk_size (c ∷ input) g =
    let rest = chunk_file fuel chunking max_chunk_size input g >>= λ r.
    chunk_thread files fuel chunking max_chunk_size r.1 r.2 >>= λ more. some (c ∷ (r.0 ++ more)) in
    if flag_start c.flag then rest else none

-- `chunking_method_prepare`
unfoldable pub chunking_method_prepare :
    (Bytes → Bytes) → ChunkingMethod → ℕ → ℕ → Globals → Option (Chunking × Globals)
chunking_method_prepare md5 fsc avg_chunk_size normal_level g =
    if avg_chunk_size == 4096
    then some (fixed 4096, g)
    else if avg_chunk_size == 8192
    then some (fixed 8192, g)
    else if avg_chunk_size == 16384
    then some (fixed 16384, g)
    else none
chunking_method_prepare md5 cdc avg_chunk_size normal_level g =
    some (with_nc, fast_cdc_init md5 avg_chunk_size normal_level g)
chunking_method_prepare md5 full_file avg_chunk_size normal_level g = none

-- A round of `sha1_thread`.
abbrev pub hash_chunk : (Bytes → Bytes) → Chunk → Chunk
hash_chunk sha1 c =
    if flag_start c.flag then c else if flag_end c.flag then c else record c { fp = sha1 c.content }

-- `sha1_thread`
unfoldable pub sha1_thread : (Bytes → Bytes) → List Chunk → List Chunk
sha1_thread sha1 [] = []
sha1_thread sha1 (c ∷ input) = hash_chunk sha1 c ∷ sha1_thread sha1 input
