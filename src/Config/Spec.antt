-- ===== src/Config/Spec.antt =====
-- What a list of parameters makes of a configuration: include/config.h, `parse_argument`.
use Prim.Native.String.{String}
use text.Mathlib.Text.{◌==◌}
use c_dedup.Base.{
  Bool, true, false, Option, none, some, List, [], ◌∷◌, if◌then◌else◌, ◌>>=◌, is_some, value_or,
}
use c_dedup.Config.{
  ℤ, TaskType, task_restore, task_write, task_write_pipeline, task_delete, ChunkingMethod, cdc, fsc,
  full_file, RestoreMethod, naive_restore, container_cache, chunk_cache, faa_fixed, faa_rolling,
  Config, Param,
}

-- What the words of the file stand for.
abbrev pub task_words : List (String × TaskType)
task_words =
    ("write", task_write)
    ∷ ("write_pipeline", task_write_pipeline)
    ∷ ("restore", task_restore)
    ∷ ("delete", task_delete)
    ∷ []

abbrev pub chunking_words : List (String × ChunkingMethod)
chunking_words = ("cdc", cdc) ∷ ("fsc", fsc) ∷ ("file", full_file) ∷ []

abbrev pub yes_no_words : List (String × Bool)
yes_no_words = ("yes", true) ∷ ("no", false) ∷ []

abbrev pub restore_words : List (String × RestoreMethod)
restore_words =
    ("naive", naive_restore)
    ∷ ("container", container_cache)
    ∷ ("chunk", chunk_cache)
    ∷ ("faa_fixed", faa_fixed)
    ∷ ("faa_rolling", faa_rolling)
    ∷ []

module _ {A : Type 0} where
  abbrev pub meaning : List (String × A) → String → Option A
  meaning [] s = none
  meaning ((word, a) ∷ words) s = if s == word then some a else meaning words s

  -- The value that the last parameter of a name gives; `d` if none gives one.
  abbrev pub last_of : String → (Param → Option A) → List Param → A → A
  last_of name read [] d = d
  last_of name read (param ∷ params) d =
      last_of name read params (if param.name == name then value_or (read param) d else d)

  abbrev pub word_of : List (String × A) → Param → Option A
  word_of words param = param.valuestring >>= meaning words

abbrev pub text_of : Param → Option String
text_of param = param.valuestring

abbrev pub int_of : Param → Option ℤ
int_of param = some param.valueint

-- The names whose value must be a text, and those whose value must be one of some words.
abbrev pub text_names : List String
text_names =
    "InputFile" ∷ "RestorePath" ∷ "fingerprintsFilePath" ∷ "fileRecipesPath" ∷ "containersPath"
    ∷ "fullFileFingerprintsPath" ∷ "fullFileStoragePath" ∷ "MTL1" ∷ "MTL2" ∷ "MTL3" ∷ "MTL4"
    ∷ "MTL5" ∷ "MTL6" ∷ []

abbrev pub is_in : String → List String → Bool
is_in s [] = false
is_in s (word ∷ words) = if s == word then true else is_in s words

-- A parameter that does not end the process.
abbrev pub legal : Param → Bool
legal param =
    if is_in param.name text_names
    then is_some (text_of param)
    else if param.name == "Task"
    then is_some (word_of task_words param)
    else if param.name == "ChunkingMethod"
    then is_some (word_of chunking_words param)
    else if param.name == "MerkleTree"
    then is_some (word_of yes_no_words param)
    else if param.name == "RestoreMethod"
    then is_some (word_of restore_words param)
    else true

abbrev pub all_legal : List Param → Bool
all_legal [] = true
all_legal (param ∷ params) = if legal param then all_legal params else false

-- Every field has the value that the last parameter of its name gives it.
abbrev pub config_of : List Param → Config → Config
config_of ps c = record {
  task_type = last_of "Task" (word_of task_words) ps c.task_type;
  chunking_method = last_of "ChunkingMethod" (word_of chunking_words) ps c.chunking_method;
  restore_method = last_of "RestoreMethod" (word_of restore_words) ps c.restore_method;
  input_path = last_of "InputFile" text_of ps c.input_path;
  restore_path = last_of "RestorePath" text_of ps c.restore_path;
  restore_version = last_of "RestoreVersion" int_of ps c.restore_version;
  restore_id = last_of "RestoreId" int_of ps c.restore_id;
  delete_id = last_of "DeleteId" int_of ps c.delete_id;
  avg_chunk_size = last_of "Size" int_of ps c.avg_chunk_size;
  normal_level = last_of "Normal" int_of ps c.normal_level;
  merkle_tree = last_of "MerkleTree" (word_of yes_no_words) ps c.merkle_tree;
  fingerprints_file_path = last_of "fingerprintsFilePath" text_of ps c.fingerprints_file_path;
  file_recipe_path = last_of "fileRecipesPath" text_of ps c.file_recipe_path;
  container_path = last_of "containersPath" text_of ps c.container_path;
  full_file_fingerprints_path =
      last_of "fullFileFingerprintsPath" text_of ps c.full_file_fingerprints_path;
  full_file_storage_path = last_of "fullFileStoragePath" text_of ps c.full_file_storage_path;
  mtl1 = last_of "MTL1" text_of ps c.mtl1;
  mtl2 = last_of "MTL2" text_of ps c.mtl2;
  mtl3 = last_of "MTL3" text_of ps c.mtl3;
  mtl4 = last_of "MTL4" text_of ps c.mtl4;
  mtl5 = last_of "MTL5" text_of ps c.mtl5;
  mtl6 = last_of "MTL6" text_of ps c.mtl6;
}
