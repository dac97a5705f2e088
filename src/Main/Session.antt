-- ===== src/Main/Session.antt =====
-- Two runs of the program, a backup and then a restore: `main` of main.cpp.
use Prim.Native.String.{String}
use c_dedup.Base.{
  ℕ, ◌+◌, ◌*◌, ◌/◌, ◌^◌, ◌≤◌, ◌<◌, ◌≡◌, refl, sym, ap, ◌∙◌, true, false, Option, none, some, List,
  ◌++◌, arith, length, drop, Bytes, All, ◌==◌, if◌then◌else◌, Bool-cases, inl, inr, ◌>>=◌, ◌%◌,
}
use c_dedup.Store.{Store, containers_num, recipes_num, file_recipe_exist}
use c_dedup.Metadata.{file_cache}
use c_dedup.Metadata.Index.{entries_num}
use c_dedup.Chunking.{Globals, Chunking, with_nc, without_nc, fast_cdc_init, select_masks}
use c_dedup.Chunking.Split.{split_file, IsReady, longest}
use c_dedup.Config.{pos, TaskType, cdc, RestoreMethod, Config}
use c_dedup.Backup.{task_write, open_index}
use c_dedup.Backup.Lines.{short_chunks}
use c_dedup.Backup.Append.{IsSha1}
use c_dedup.Backup.Repository.{IsRepository}
use c_dedup.Restore.{Cache, task_restore}
use c_dedup.Restore.Containers.{container_cache}
use c_dedup.Restore.Task.{NoCollision}
use c_dedup.Restore.Roundtrip.{task_write-task_restore}
use c_dedup.Main.{
  World, zero_globals, function_for, choose_chunking, run_write, restore_by, run_restore, run_task,
  run_method, run_main,
}

-- The chunking function of a level from 0 to 3.
abbrev pub level_function : ℕ → Chunking
level_function nc_level = if nc_level == 0 then without_nc else with_nc

select_masks-sizes :
    (nc_level : ℕ) (g : Globals)
    → ((select_masks nc_level g).min_size ≡ g.min_size)
      × ((select_masks nc_level g).max_size ≡ g.max_size)
      × ((select_masks nc_level g).fastcdc_avg_size ≡ g.fastcdc_avg_size)
unfolding select_masks
select_masks-sizes nc_level g = ground arith

module _ (md5 : Bytes → Bytes) (avg_size nc_level : ℕ) where
  abbrev pub initial : Globals
  initial = fast_cdc_init md5 avg_size nc_level zero_globals

  initial-sizes :
      (initial.min_size ≡ avg_size / 4)
      × (initial.max_size ≡ avg_size * 4 % 2 ^ 32)
      × (initial.fastcdc_avg_size ≡ avg_size)
  unfolding fast_cdc_init
  initial-sizes = select_masks-sizes nc_level _

  -- `fastCDC_init` makes the function that `main` chooses ready.
  pub initial-IsReady :
      4 ≤ avg_size
      → avg_size * 4 < 2 ^ 16
      → IsReady (level_function nc_level) initial
        × (longest (level_function nc_level) initial < 2 ^ 16)
  initial-IsReady some_size small = elim (Bool-cases (nc_level == 0)) [
    | inl plain ↦
        rw plain (
          (omega (arith, initial-sizes), omega (arith, initial-sizes)),
          omega (arith, initial-sizes),
        )
    | inr levels ↦ rw levels (
      (
        record { min_avg = omega (arith, initial-sizes); avg_max = omega (arith, initial-sizes) },
        omega (arith, initial-sizes),
      ),
      omega (arith, initial-sizes),
    )
  ]

-- A configuration for a backup by FastCDC, without a Merkle tree.
pub record IsBackup (avg_size nc_level : ℕ) (c : Config) : Type 0 where
  pub task : c.task_type ≡ TaskType.task_write
  pub method : c.chunking_method ≡ cdc
  pub size : c.avg_chunk_size ≡ pos avg_size
  pub level : c.normal_level ≡ pos nc_level
  pub plain : c.merkle_tree ≡ false

-- A configuration for a restore with the container cache, of a program that would chunk by FastCDC.
pub record IsRestore (avg_size nc_level version : ℕ) (c : Config) : Type 0 where
  pub task : c.task_type ≡ TaskType.task_restore
  pub method : c.chunking_method ≡ cdc
  pub size : c.avg_chunk_size ≡ pos avg_size
  pub level : c.normal_level ≡ pos nc_level
  pub cache : c.restore_method ≡ RestoreMethod.container_cache
  pub wanted : c.restore_version ≡ pos version

function_of_level :
    (nc_level : ℕ) → nc_level ≤ 3 → function_for nc_level ≡ some (level_function nc_level)
function_of_level nc_level h = ground arith

module _ (sha1 md5 : Bytes → Bytes) (stale : Bytes) (bytes_of : String → Bytes)
    (avg_size nc_level : ℕ) where
  pub run_backup :
      (c : Config) (w : World)
      → IsBackup avg_size nc_level c
      → nc_level ≤ 3
      → run_main sha1 md5 stale bytes_of c w ≡ (
          task_write sha1 (level_function nc_level) (initial md5 avg_size nc_level) w.input w.store
          >>= λ s. some (record w { store = s }))
  unfolding run_method choose_chunking run_task run_write
  run_backup c w is small =
      rw (is.method, is.size, is.level, function_of_level nc_level small, is.task, is.plain) refl

  run_restoring :
      (version : ℕ) (c : Config) (w : World) (file : Bytes)
      → IsRestore avg_size nc_level version c
      → file_recipe_exist version w.store ≡ true
      → task_restore (container_cache w.store.containers 128) version w.restored w.store ≡ some file
      → run_main sha1 md5 stale bytes_of c w ≡ some (record w { restored = file })
  unfolding run_method choose_chunking run_task run_restore restore_by
  run_restoring version c w file is exists run =
      rw (is.method, is.size, is.level, is.task, is.wanted, is.cache, exists, run) refl

nothing : (file : Bytes) → none ≡ some file → ⊥
nothing file e = cc

nowhere : (w : World) → none ≡ some w → ⊥
nowhere w e = cc

one_world : (w w' : World) → some w ≡ some w' → w ≡ w'
one_world w w' e = cc

-- A restore that gives a file has found the recipe.
restored-exists :
    {State : Type 0} (source : Cache State) (version : ℕ) (old file : Bytes) (s : Store)
    → task_restore source version old s ≡ some file
    → file_recipe_exist version s ≡ true
unfolding task_restore
restored-exists source version old file s run = elim (Bool-cases (file_recipe_exist version s)) [
  | inl exists ↦ exists
  | inr missing ↦ absurd (nothing file (sym (rw (missing, task_restore)) ∙ run))
]

-- A run of the program for a backup by FastCDC, at a level from 0 to 3 and an average size from 4
-- bytes on such that four times it fits into 16 bits, and then one for a restore of its version, with
-- the container cache: the second ends, changes nothing but the file at the restore path, and that
-- file is then the input, in front of what stood behind it. At most 100000 of
-- the chunks have less than 40 bytes, and the other conditions, on the repository, the index and
-- SHA-1, are those of a backup and its restore.
pub run_main-backup_and_restore :
    (sha1 md5 : Bytes → Bytes) (stale : Bytes) (bytes_of : String → Bytes) (avg_size nc_level : ℕ)
    (c cr : Config) (w w' : World) (g' : Globals) (chunks : List Bytes)
    → IsSha1 sha1
    → IsBackup avg_size nc_level c
    → nc_level ≤ 3
    → 4 ≤ avg_size
    → avg_size * 4 < 2 ^ 16
    → IsRepository sha1 w.store
    → containers_num w.store + length w.input < 2 ^ 32
    → split_file
        (length w.input + 1)
        (level_function nc_level)
        w.input
        (initial md5 avg_size nc_level)
      ≡ some (chunks, g')
    → (entries_num (open_index w.store) + length chunks) * 36 ≤ file_cache
    → short_chunks chunks ≤ 100000
    → run_main sha1 md5 stale bytes_of c w ≡ some w'
    → recipes_num w.store < 2 ^ 8
    → All (NoCollision sha1 w'.store) chunks
    → IsRestore avg_size nc_level (recipes_num w.store) cr
    → run_main sha1 md5 stale bytes_of cr w'
      ≡ some (record w' { restored = w.input ++ drop (length w.input) w'.restored })
run_main-backup_and_restore sha1 md5 stale bytes_of avg_size nc_level c cr w w' g' chunks is_sha1
      backup level some_size small ok numbers cut fits lines run version alone restore =
    let (ready, short) = initial-IsReady md5 avg_size nc_level some_size small in
    let g = initial md5 avg_size nc_level in
    let f = level_function nc_level in
    let (s', wrote, world) =
      written w w' (task_write sha1 f g w.input w.store)
        (sym (run_backup sha1 md5 stale bytes_of avg_size nc_level c w backup level) ∙ run) in
    let stored : s' ≡ w'.store = ap (λ w. w.store) world in
    let back =
      task_write-task_restore sha1 f g g' w.input w.store w'.store chunks w'.restored is_sha1 ready
        short ok numbers cut fits lines (wrote ∙ ap some stored) version alone in
    run_restoring sha1 md5 stale bytes_of avg_size nc_level (recipes_num w.store) cr w'
      (w.input ++ drop (length w.input) w'.restored) restore
      (restored-exists (container_cache w'.store.containers 128) (recipes_num w.store) w'.restored _
        w'.store back)
      back
  where
    written :
        (w w' : World) (o : Option Store)
        → (o >>= λ s. some (record w { store = s })) ≡ some w'
        → (s : Store) × (o ≡ some s) × (record w { store = s } ≡ w')
    written w w' none e = absurd (nowhere w' e)
    written w w' (some s) e = (s, refl, one_world (record w { store = s }) w' e)
