-- ===== src/Restore/Faa.antt =====
-- The restore with a forward assembly area: include/FAA.h and the method `FAA_FIXED` of main.cpp.
--
-- `none` is a loop that has not ended within its fuel. The loop over an empty recipe, whose bound
-- wraps around in the source, is left out: the recipe has an entry at least.
use c_dedup.Base.{
  ℕ, zero, suc, ◌+◌, Bool, true, false, not, ◌&&◌, Option, none, some, List, [], ◌∷◌, ◌++◌, leb,
  ◌==◌, if◌then◌else◌, length, take, drop, Bytes, write_at, find, nat_eq, value_or, ◌>>=◌,
}
use c_dedup.Metadata.{MetadataManager, file_cache, fp_of_bytes, get_entry}
use c_dedup.Store.{Files, container_size, from_buffer}

pub record RecipeBufferEntry : Type 0 where
  pub cid : ℕ
  pub length : ℕ
  pub container_offset : ℕ
  pub faa_start : ℕ
  pub used : Bool

-- What the first step leaves: the recipe buffer, the rest of the recipe, the index and the length.
pub record Filled : Type 0 where
  pub recipe_buffer : List RecipeBufferEntry
  pub rest : List Bytes
  pub manager : MetadataManager
  pub write_length : ℕ

-- Step 1: entries of the recipe go into the buffer while their chunks fit into `FILE_CACHE` bytes.
unfoldable pub fill_recipe_buffer :
    List Bytes → MetadataManager → List RecipeBufferEntry → ℕ → Filled
fill_recipe_buffer [] m buffer start = record {
  recipe_buffer = buffer;
  rest = [];
  manager = m;
  write_length = start;
}
fill_recipe_buffer (x ∷ recipe) m buffer start =
    let ev = get_entry (fp_of_bytes x) m in
    let entry : RecipeBufferEntry = record {
      cid = ev.1.container_number;
      length = ev.1.chunk_length;
      container_offset = ev.1.offset;
      faa_start = start;
      used = false;
    } in
    let more = fill_recipe_buffer recipe ev.0 (buffer ++ entry ∷ []) (start + ev.1.chunk_length) in
    let full : Filled = record {
      recipe_buffer = buffer;
      rest = x ∷ recipe;
      manager = ev.0;
      write_length = start;
    } in
    if leb (start + ev.1.chunk_length) file_cache then more else full

-- `FAA::loadContainer`: of a missing file nothing is read, and the buffer is zero.
unfoldable pub load_container_faa : Files → ℕ → Bytes
load_container_faa containers cid = take container_size (value_or (find cid containers) [])

-- The first entry that has not been used names the container to load.
unfoldable pub next_container : List RecipeBufferEntry → Option ℕ
next_container [] = none
next_container (x ∷ buffer) = if x.used then next_container buffer else some x.cid

-- One pass over the recipe buffer with a container loaded: the buffer, the area and the size so far.
unfoldable pub copy_from_container :
    ℕ → Bytes → List RecipeBufferEntry → Bytes → List RecipeBufferEntry × Bytes
copy_from_container cid container [] area = ([], area)
copy_from_container cid container (x ∷ buffer) area =
    let hit = not x.used && (x.cid == cid) in
    let chunk = from_buffer x.length (drop x.container_offset container) in
    let area' = (if hit then write_at x.faa_start chunk area else area) in
    let rest = copy_from_container cid container buffer area' in
    ((if hit then record x { used = true } else x) ∷ rest.0, rest.1)

-- Step 2: `while(1)`, until every entry has been used.
unfoldable pub fill_area : ℕ → Files → List RecipeBufferEntry → Bytes → Option Bytes
unfolding load_container_faa next_container copy_from_container
fill_area zero containers buffer area = none
fill_area (suc fuel) containers buffer area = elim (next_container buffer) [
  | none ↦ some area
  | some cid ↦
      let pass = copy_from_container cid (load_container_faa containers cid) buffer area in
      fill_area fuel containers pass.0 pass.1
]

-- The loop over the recipe; step 3 writes the area's front to the file.
unfoldable pub restore_faa : ℕ → Files → List Bytes → MetadataManager → Bytes → Bytes → Option Bytes
unfolding fill_recipe_buffer fill_area
restore_faa zero containers recipe m area output = none
restore_faa (suc fuel) containers [] m area output = some output
restore_faa (suc fuel) containers (x ∷ recipe) m area output =
    let filled = fill_recipe_buffer (x ∷ recipe) m [] 0 in
    fill_area (length filled.recipe_buffer + 1) containers filled.recipe_buffer area >>= λ area.
    restore_faa fuel containers filled.rest filled.manager area
      (output ++ from_buffer filled.write_length area)
