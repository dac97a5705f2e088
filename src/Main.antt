-- ===== src/Main.antt =====
-- `main` of main.cpp: the configuration chooses the chunking function and the task.
--
-- `World` holds the files that a run reads and writes, the input by its content and the file at the
-- restore path by what stands there. `none` is an `exit`, an exception, the call of a null pointer or
-- a loop out of fuel. A negative size, level, version or number in the configuration is left out, and
-- so is the empty recipe with `FAA_FIXED`; both are `none` too.
pub mod Session
use Prim.Native.String.{String}
use c_dedup.Base.{
  ℕ, ◌+◌, ◌*◌, Bool, true, false, Option, none, some, List, [], ◌∷◌, leb, ◌==◌, if◌then◌else◌,
  length, Bytes, write_at, ◌>>=◌,
}
use c_dedup.Store.{Store, file_recipe_exist, get_file_recipe}
use c_dedup.Chunking.{Globals, Chunking, with_nc, without_nc, fixed, fast_cdc_init}
use c_dedup.Config.{
  ℤ, pos, negsuc, TaskType, ChunkingMethod, cdc, fsc, full_file, RestoreMethod, naive_restore,
  faa_fixed, faa_rolling, Config, Param, new_config, parse_argument,
}
use c_dedup.Backup.{task_write, open_index}
use c_dedup.Pipeline.{chunking_method_prepare}
use c_dedup.Pipeline.Dedup.{task_write_pipeline}
use c_dedup.Restore.{task_restore}
use c_dedup.Restore.Containers.{container_cache}
use c_dedup.Restore.Chunks.{chunk_cache}
use c_dedup.Restore.Faa.{restore_faa}
use c_dedup.Delete.{task_delete}
use c_dedup.FullFile.{FileStore, new_full_file_deduplicater, write_file, restore_file, delete_file}
use c_dedup.Merkle.{Meta}
use c_dedup.Merkle.Write.{task_write_merkle}

pub record World : Type 0 where
  pub store : Store
  pub full_files : FileStore
  pub hashes : Meta
  pub input : Bytes
  pub restored : Bytes

-- The global variables of src/fastcdc.cpp before `fastCDC_init`.
abbrev pub zero_globals : Globals
zero_globals = record {
  g_global_matrix = [];
  g_global_matrix_left = [];
  learv2 = [];
  mask_front = 0;
  mask_back = 0;
  min_size = 0;
  max_size = 0;
  fastcdc_avg_size = 0;
  min_size_divide_by_2 = 0;
}

abbrev pub natural : ℤ → Option ℕ
natural (pos n) = some n
natural (negsuc n) = none

-- What the tests of the chunking method come to: `return 0`, or a pointer, which can be null.
pub data Chosen : Type 0 where
  ended : Chosen
  chosen : Option Chunking → Globals → Chosen

-- The function for a level of normalisation.
abbrev pub function_for : ℕ → Option Chunking
function_for nc_level =
    if nc_level == 0 then some without_nc else (if leb nc_level 3 then some with_nc else none)

-- The function for a fixed size.
abbrev pub fixed_for : ℕ → Chosen
fixed_for avg_size =
    if avg_size == 4 * 1024
    then chosen (some (fixed (4 * 1024))) zero_globals
    else if avg_size == 8 * 1024
    then chosen (some (fixed (8 * 1024))) zero_globals
    else if avg_size == 16 * 1024
    then chosen (some (fixed (16 * 1024))) zero_globals
    else if avg_size == 512
    then chosen (some (fixed 512)) zero_globals
    else ended

module _ (sha1 md5 : Bytes → Bytes) (stale : Bytes) (bytes_of : String → Bytes) where
  unfoldable pub choose_chunking : ChunkingMethod → Config → Option Chosen
  choose_chunking cdc c = natural c.avg_chunk_size >>= λ avg_size.
      natural c.normal_level >>= λ nc_level.
      some (chosen (function_for nc_level) (fast_cdc_init md5 avg_size nc_level zero_globals))
  choose_chunking fsc c = natural c.avg_chunk_size >>= λ avg_size. some (fixed_for avg_size)
  choose_chunking full_file c = some ended

  -- The branch `FULL_FILE`; the other tasks do nothing there.
  unfoldable pub run_full_file : TaskType → Config → World → Option World
  run_full_file TaskType.task_write c w =
      write_file sha1 w.input (new_full_file_deduplicater w.full_files) w.full_files >>= λ r.
      some (record w { full_files = r.1 })
  run_full_file TaskType.task_restore c w = natural c.restore_id >>= λ id.
      some (record w { restored = restore_file sha1 id w.restored w.full_files })
  run_full_file TaskType.task_delete c w = natural c.delete_id >>= λ id.
      delete_file sha1 id (new_full_file_deduplicater w.full_files) w.full_files >>= λ full_files.
      some (record w { full_files = full_files })
  run_full_file TaskType.task_write_pipeline c w = some w
  run_full_file TaskType.not_chosen c w = some w

  -- The pointer where it is called; an empty input does not call it.
  abbrev pub callable : Option Chunking → Bytes → Option Chunking
  callable (some chunking) input = some chunking
  callable none input = if length input == 0 then some with_nc else none

  unfoldable pub run_write : Option Chunking → Globals → Config → World → Option World
  run_write chunking g c w = callable chunking w.input >>= λ chunking.
      let plain =
        task_write sha1 chunking g w.input w.store >>= λ s. some (record w { store = s }) in
      let by_tree = task_write_merkle sha1 stale chunking g w.input w.hashes w.store >>= λ r.
      some (record w { store = r.0; hashes = r.1 }) in
      if c.merkle_tree then by_tree else plain

  -- The chunk phase chooses its function itself.
  unfoldable pub run_pipeline : Globals → Config → World → Option World
  run_pipeline g c w = natural c.avg_chunk_size >>= λ avg_size.
      natural c.normal_level >>= λ nc_level.
      chunking_method_prepare md5 c.chunking_method avg_size nc_level g >>= λ r.
      task_write_pipeline sha1 r.0 (avg_size * 4) r.1 (bytes_of c.input_path) w.input w.store
      >>= λ s. some (record w { store = s })

  unfoldable pub restore_by : RestoreMethod → ℕ → Bytes → Store → Option Bytes
  restore_by RestoreMethod.container_cache version old s =
      task_restore (container_cache s.containers 128) version old s
  restore_by RestoreMethod.chunk_cache version old s =
      task_restore (chunk_cache s.containers (16 * 1024)) version old s
  restore_by faa_fixed version old s = get_file_recipe version s >>= λ file_recipe.
      restore_faa (length file_recipe + 1) s.containers file_recipe (open_index s) [] []
      >>= λ output. if length file_recipe == 0 then none else some (write_at 0 output old)
  restore_by naive_restore version old s = none
  restore_by faa_rolling version old s = none

  -- A version that is not there is reported.
  unfoldable pub run_restore : Config → World → Option World
  run_restore c w = natural c.restore_version >>= λ version.
      let restored = restore_by c.restore_method version w.restored w.store >>= λ file.
      some (record w { restored = file }) in
      if file_recipe_exist version w.store then restored else some w

  unfoldable pub run_task : TaskType → Option Chunking → Globals → Config → World → Option World
  run_task TaskType.task_write_pipeline chunking g c w = run_pipeline g c w
  run_task TaskType.task_write chunking g c w = run_write chunking g c w
  run_task TaskType.task_restore chunking g c w = run_restore c w
  run_task TaskType.task_delete chunking g c w = natural c.restore_version >>= λ version.
      task_delete version w.store >>= λ s. some (record w { store = s })
  run_task TaskType.not_chosen chunking g c w = some w

  abbrev pub run_chosen : Chosen → Config → World → Option World
  run_chosen ended c w = some w
  run_chosen (chosen chunking g) c w = run_task c.task_type chunking g c w

  unfoldable pub run_method : ChunkingMethod → Config → World → Option World
  run_method full_file c w = run_full_file c.task_type c w
  run_method cdc c w = choose_chunking cdc c >>= λ choice. run_chosen choice c w
  run_method fsc c w = choose_chunking fsc c >>= λ choice. run_chosen choice c w

  -- `main` with the configuration read.
  abbrev pub run_main : Config → World → Option World
  run_main c w = run_method c.chunking_method c w

  unfoldable pub main : (Bytes → Option (List Param)) → Bytes → World → Option World
  main cjson_parse file w = parse_argument cjson_parse file new_config >>= λ c. run_main c w
