-- ===== src/Delete.antt =====
-- The task `delete`: main.cpp, `del_seg`, `container_del_chunk` and the branch `TASK_DELETE`.
--
-- `none` is an `exit`, or a read that gives less than the code goes on with (a missing file, a file
-- that ends too early, a fingerprint that its reverse file does not list).
pub mod Segment
pub mod Offsets
pub mod Shelf
pub mod Reverse
pub mod Whole
pub mod Listed
pub mod Counts
pub mod Kept
pub mod Recount
pub mod Lowered
pub mod Last
pub mod Left
pub mod Without
pub mod Rounds
pub mod Task
pub mod Versions
use c_dedup.Base.{
  ℕ, zero, suc, ◌+◌, ◌-◌, ◌*◌, ◌%◌, ◌^◌, Bool, true, false, ◌&&◌, Option, none, some, List, [], ◌∷◌,
  ◌++◌, ltb, leb, ◌==◌, if◌then◌else◌, length, take, drop, Bytes, of_le, le_bytes, write_at, find,
  assign, erase, nat_eq, ◌>>=◌,
}
use c_dedup.Store.{
  Store, Files, container_size, sha_digest_length, recipe_of_version, file_recipe_exist,
  get_file_recipe,
}
use c_dedup.Metadata.{
  Sha1Fp, MetadataManager, LookupResult, unique, dedup, tuple_equaler, fp_of_bytes, dedup_lookup,
  get_entry, dec_ref_cnt, chunk_offset_dec, save,
}
use c_dedup.Backup.{open_index}

-- `del_seg`: `len` bytes from `oft` on go, by way of a temporary file; a file of which nothing is left
-- goes too. The last `read` takes `CONTAINER_SIZE` bytes at most.
unfoldable pub del_seg : ℕ → ℕ → ℕ → Files → Option Files
del_seg k oft len files = find k files >>= λ file.
    let rest = take container_size (drop len (drop oft file)) in
    if ltb (length file) oft
    then none
    else some (
        if (oft == 0) && (length rest == 0)
        then erase k files
        else assign k (take oft file ++ rest) files)

-- The loop over the fingerprints of the reverse file, from number `a` on: `cnt` are left. `d_pos` is
-- the number of the deleted one, or -1.
unfoldable pub dec_offsets :
    ℕ
    → ℕ
    → Bytes
    → Sha1Fp
    → ℕ
    → ℕ
    → Option ℕ
    → MetadataManager
    → Option (Option ℕ × MetadataManager)
dec_offsets zero a file del_sha oft len d_pos m = some (d_pos, m)
dec_offsets (suc cnt) a file del_sha oft len d_pos m =
    let sha1t = fp_of_bytes (take sha_digest_length file) in
    let next : Option (Option ℕ × MetadataManager) =
      (if tuple_equaler sha1t del_sha
        then some (some a, m)
        else (chunk_offset_dec sha1t oft len m >>= λ m. some (d_pos, m))) in
    if ltb (length file) sha_digest_length
    then none
    else (next >>= λ r.
        dec_offsets cnt (a + 1) (drop sha_digest_length file) del_sha oft len r.0 r.1)

-- The end of `container_del_chunk`: the reverse file loses a fingerprint and counts one less.
unfoldable pub unlist : ℕ → ℕ → Option ℕ → Files → Option Files
unlist ctr_id rev_container_cnt d_pos reverse = d_pos >>= λ d. find ctr_id reverse >>= λ file.
    del_seg ctr_id (4 + d * sha_digest_length) sha_digest_length (
      assign ctr_id (write_at 0 (le_bytes 4 ((rev_container_cnt + 2 ^ 32 - 1) % 2 ^ 32)) file)
        reverse)

-- `container_del_chunk`
unfoldable pub container_del_chunk :
    ℕ → Sha1Fp → ℕ → ℕ → Store → MetadataManager → Option (Store × MetadataManager)
container_del_chunk ctr_id del_sha oft len s m =
    del_seg ctr_id oft len s.containers >>= λ containers. find ctr_id s.reverse >>= λ rev.
    let rev_container_cnt = of_le (take 4 rev) in
    if rev_container_cnt == 1
    then some (record s { containers = containers; reverse = erase ctr_id s.reverse }, m)
    else (dec_offsets rev_container_cnt 0 (drop 4 rev) del_sha oft len none m >>= λ r.
        unlist ctr_id rev_container_cnt r.0 s.reverse >>= λ reverse.
        some (record s { containers = containers; reverse = reverse }, r.1))

-- One round of the loop over the recipe, for a fingerprint that the lookup has found.
unfoldable pub delete_found : Sha1Fp → Store → MetadataManager → Option (Store × MetadataManager)
delete_found fp s m =
    let ev = get_entry fp m in
    let dv = dec_ref_cnt fp ev.0 in
    dv.1 >>= λ count.
    if count == 0
    then container_del_chunk ev.1.container_number fp ev.1.offset ev.1.chunk_length s dv.0
    else some (s, dv.0)

unfoldable pub delete_by_lookup :
    LookupResult → Sha1Fp → Store → MetadataManager → Option (Store × MetadataManager)
delete_by_lookup unique fp s m = none
delete_by_lookup dedup fp s m = delete_found fp s m

unfoldable pub delete_chunks :
    List Bytes → Store → MetadataManager → Option (Store × MetadataManager)
delete_chunks [] s m = some (s, m)
delete_chunks (x ∷ file_recipe) s m =
    let fp = fp_of_bytes x in
    delete_by_lookup (dedup_lookup fp m) fp s m >>= λ r. delete_chunks file_recipe r.0 r.1

-- `TASK_DELETE`: a version that is not there is reported, and nothing changes.
unfoldable pub task_delete : ℕ → Store → Option Store
task_delete version s =
    let deleted = get_file_recipe version s >>= λ file_recipe.
    delete_chunks file_recipe s (open_index s) >>= λ r. some (record r.0 {
      recipes = erase (recipe_of_version version) r.0.recipes;
      fingerprints = some (save r.1);
    }) in
    if file_recipe_exist version s then deleted else some s
