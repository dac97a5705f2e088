-- ===== src/Config.antt =====
-- The configuration: include/config.h.
--
-- `none` is the end of the process: an `exit(-1)`, or a null pointer that is taken for a string. The
-- parser of the JSON text, `cJSON_Parse`, is a parameter: it gives the children of the object it
-- reads in their order, or nothing. The file of the configuration is there and can be read.
pub mod Spec
pub mod Parse
use Prim.Native.String.{String}
use text.Mathlib.Text.{◌==◌}
use c_dedup.Base.{
  ℕ, Bool, true, false, Option, none, some, List, [], ◌∷◌, ◌++◌, if◌then◌else◌, take, Bytes, ◌>>=◌,
}

-- A C `int`: at least 0, or one more than a number below 0.
pub data ℤ : Type 0 where
  pos : ℕ → ℤ
  negsuc : ℕ → ℤ

pub data TaskType : Type 0 where
  task_restore : TaskType
  task_write : TaskType
  task_write_pipeline : TaskType
  task_delete : TaskType
  not_chosen : TaskType

pub data ChunkingMethod : Type 0 where
  cdc : ChunkingMethod
  fsc : ChunkingMethod
  full_file : ChunkingMethod

pub data RestoreMethod : Type 0 where
  naive_restore : RestoreMethod
  container_cache : RestoreMethod
  chunk_cache : RestoreMethod
  faa_fixed : RestoreMethod
  faa_rolling : RestoreMethod

-- The class's fields: `tt`, `cm` and `rm` have the names of their getters.
pub record Config : Type 0 where
  pub task_type : TaskType
  pub chunking_method : ChunkingMethod
  pub restore_method : RestoreMethod
  pub input_path : String
  pub restore_path : String
  pub restore_version : ℤ
  pub restore_id : ℤ
  pub delete_id : ℤ
  pub avg_chunk_size : ℤ
  pub normal_level : ℤ
  pub merkle_tree : Bool
  pub fingerprints_file_path : String
  pub file_recipe_path : String
  pub container_path : String
  pub full_file_fingerprints_path : String
  pub full_file_storage_path : String
  pub mtl1 : String
  pub mtl2 : String
  pub mtl3 : String
  pub mtl4 : String
  pub mtl5 : String
  pub mtl6 : String

-- `Config::Config`: the one instance is static, so what it does not set is zero.
abbrev pub new_config : Config
new_config = record {
  task_type = task_restore;
  chunking_method = cdc;
  restore_method = naive_restore;
  input_path = "";
  restore_path = "";
  restore_version = pos 0;
  restore_id = pos 0;
  delete_id = pos 0;
  avg_chunk_size = pos 4096;
  normal_level = pos 2;
  merkle_tree = false;
  fingerprints_file_path = "";
  file_recipe_path = "";
  container_path = "";
  full_file_fingerprints_path = "";
  full_file_storage_path = "";
  mtl1 = "";
  mtl2 = "";
  mtl3 = "";
  mtl4 = "";
  mtl5 = "";
  mtl6 = "";
}

unfoldable pub task_type_trans : String → Option TaskType
task_type_trans s =
    if s == "write"
    then some task_write
    else if s == "write_pipeline"
    then some task_write_pipeline
    else if s == "restore"
    then some task_restore
    else if s == "delete"
    then some task_delete
    else none

unfoldable pub cm_type_trans : String → Option ChunkingMethod
cm_type_trans s =
    if s == "cdc"
    then some cdc
    else if s == "fsc"
    then some fsc
    else if s == "file"
    then some full_file
    else none

unfoldable pub yes_no_trans : String → Option Bool
yes_no_trans s = if s == "yes" then some true else if s == "no" then some false else none

unfoldable pub restore_method_trans : String → Option RestoreMethod
restore_method_trans s =
    if s == "naive"
    then some naive_restore
    else if s == "container"
    then some container_cache
    else if s == "chunk"
    then some chunk_cache
    else if s == "faa_fixed"
    then some faa_fixed
    else if s == "faa_rolling"
    then some faa_rolling
    else none

-- A child of the parsed object: `string`, `valuestring` (null for what is not a string) and `valueint`.
pub record Param : Type 0 where
  pub name : String
  pub valuestring : Option String
  pub valueint : ℤ

-- The tests of `parse_argument`, in their order, in three parts: `rest` is the `else` of the last one.
unfoldable pub set_mtl : Param → Config → Option Config
set_mtl param c =
    let s = param.valuestring in
    if param.name == "MTL1"
    then (s >>= λ s. some (record c { mtl1 = s }))
    else if param.name == "MTL2"
    then (s >>= λ s. some (record c { mtl2 = s }))
    else if param.name == "MTL3"
    then (s >>= λ s. some (record c { mtl3 = s }))
    else if param.name == "MTL4"
    then (s >>= λ s. some (record c { mtl4 = s }))
    else if param.name == "MTL5"
    then (s >>= λ s. some (record c { mtl5 = s }))
    else if param.name == "MTL6"
    then (s >>= λ s. some (record c { mtl6 = s }))
    else some c

unfoldable pub set_metadata : Param → Config → Option Config
unfolding set_mtl
set_metadata param c =
    let s = param.valuestring in
    if param.name == "fingerprintsFilePath"
    then (s >>= λ s. some (record c { fingerprints_file_path = s }))
    else if param.name == "fileRecipesPath"
    then (s >>= λ s. some (record c { file_recipe_path = s }))
    else if param.name == "containersPath"
    then (s >>= λ s. some (record c { container_path = s }))
    else if param.name == "fullFileFingerprintsPath"
    then (s >>= λ s. some (record c { full_file_fingerprints_path = s }))
    else if param.name == "fullFileStoragePath"
    then (s >>= λ s. some (record c { full_file_storage_path = s }))
    else set_mtl param c

unfoldable pub set_param : Param → Config → Option Config
unfolding set_metadata task_type_trans cm_type_trans yes_no_trans restore_method_trans
set_param param c =
    let s = param.valuestring in
    let n = param.valueint in
    if param.name == "Task"
    then (s >>= λ s. task_type_trans s >>= λ t. some (record c { task_type = t }))
    else if param.name == "InputFile"
    then (s >>= λ s. some (record c { input_path = s }))
    else if param.name == "RestorePath"
    then (s >>= λ s. some (record c { restore_path = s }))
    else if param.name == "RestoreVersion"
    then some (record c { restore_version = n })
    else if param.name == "ChunkingMethod"
    then (s >>= λ s. cm_type_trans s >>= λ t. some (record c { chunking_method = t }))
    else if param.name == "RestoreId"
    then some (record c { restore_id = n })
    else if param.name == "DeleteId"
    then some (record c { delete_id = n })
    else if param.name == "Size"
    then some (record c { avg_chunk_size = n })
    else if param.name == "Normal"
    then some (record c { normal_level = n })
    else if param.name == "MerkleTree"
    then (s >>= λ s. yes_no_trans s >>= λ b. some (record c { merkle_tree = b }))
    else if param.name == "RestoreMethod"
    then (s >>= λ s. restore_method_trans s >>= λ t. some (record c { restore_method = t }))
    else set_metadata param c

-- The loop over the children.
unfoldable pub set_params : List Param → Config → Option Config
unfolding set_param
set_params [] c = some c
set_params (param ∷ params) c = set_param param c >>= λ c. set_params params c

-- `parse_argument`: 1001 bytes of the file are read, and a zero is put behind them.
unfoldable pub parse_argument : (Bytes → Option (List Param)) → Bytes → Config → Option Config
unfolding set_params
parse_argument cjson_parse file c =
    cjson_parse (take 1001 file ++ (0 ∷ [])) >>= λ params. set_params params c
