-- ===== src/Store.antt =====
-- The files of a repository, and the functions of main.cpp that create and read them.
--
-- `/container<N>`, `/container<N>r` and `/recipe<N>` are entries under N of three maps; a directory
-- listing counts its entries. A file is opened without `O_TRUNC`, so a write covers the front of what
-- was there. Reads and writes of files that exist succeed.
pub mod Laws
use c_dedup.Base.{
  ℕ, zero, suc, ◌+◌, ◌-◌, ◌*◌, ◌%◌, ◌^◌, Bool, true, false, Option, none, some, List, [], ◌∷◌, ◌++◌,
  ltb, ◌==◌, if◌then◌else◌, length, take, drop, replicate, Bytes, le_bytes, write_at, find, assign,
  value_or, nat_eq, is_some, concat, ◌>>=◌,
}

abbrev pub container_size : ℕ
container_size = 4 * 1024 * 1024

abbrev pub sha_digest_length : ℕ
sha_digest_length = 20

abbrev pub Files : Type 0
Files = List (ℕ × Bytes)

pub record Store : Type 0 where
  pub containers : Files
  pub reverse : Files
  pub recipes : Files
  pub fingerprints : Option Bytes

-- `getFilesNum` of the containers' directory, which holds the reverse files too, and of the recipes'.
unfoldable pub containers_num : Store → ℕ
containers_num s = length s.containers + length s.reverse

unfoldable pub recipes_num : Store → ℕ
recipes_num s = length s.recipes

-- `open(O_CREAT)`, `write`, `close`.
unfoldable pub put_file : ℕ → Bytes → Files → Files
put_file n new files = assign n (write_at 0 new (value_or (find n files) [])) files

-- `len` bytes of a buffer; what was never written to it is zero.
unfoldable pub from_buffer : ℕ → Bytes → Bytes
from_buffer len buf = take len buf ++ replicate (len - length buf) 0

-- `saveContainer`: the container, and beside it the number of its chunks and their fingerprints.
unfoldable pub save_container : ℕ → Bytes → ℕ → ℕ → Bytes → Store → Store
save_container container_index container_buf len rev_container_cnt rev_container_buf s = record s {
  containers = put_file container_index (from_buffer len container_buf) s.containers;
  reverse =
      put_file container_index
        (le_bytes 4 rev_container_cnt
          ++ from_buffer (rev_container_cnt * sha_digest_length) rev_container_buf)
        s.reverse;
}

-- `saveFileRecipe`: the version is the number of recipes so far.
unfoldable pub save_file_recipe : List Bytes → Store → Store
unfolding recipes_num put_file
save_file_recipe file_recipe s = record s {
  recipes = put_file (recipes_num s) (concat file_recipe) s.recipes;
}

-- `getRecipeNameFromVersion` takes the version as a `uint8_t`.
abbrev pub recipe_of_version : ℕ → ℕ
recipe_of_version version = version % 2 ^ 8

-- `fileRecipeExist`
unfoldable pub file_recipe_exist : ℕ → Store → Bool
file_recipe_exist version s = is_some (find (recipe_of_version version) s.recipes)

-- The reading loop of `getFileRecipe`: pieces of 20 bytes; a shorter last piece overwrites the front
-- of the buffer, which keeps the rest of the piece before it.
unfoldable pub recipe_pieces : ℕ → Bytes → Bytes → List Bytes
recipe_pieces zero fp_buf file = []
recipe_pieces (suc fuel) fp_buf file =
    let piece = write_at 0 (take sha_digest_length file) fp_buf in
    let rest = recipe_pieces fuel piece (drop sha_digest_length file) in
    if length file == 0 then [] else piece ∷ rest

-- `getFileRecipe`; `none` is `exit(-1)`.
unfoldable pub get_file_recipe : ℕ → Store → Option (List Bytes)
unfolding recipe_pieces
get_file_recipe version s = find (recipe_of_version version) s.recipes >>= λ file.
    some (recipe_pieces (length file + 1) (replicate sha_digest_length 0) file)
