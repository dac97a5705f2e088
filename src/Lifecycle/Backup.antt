-- ===== src/Lifecycle/Backup.antt =====
-- A whole backup and the versions of the repository: main.cpp, `TASK_WRITE`.
use c_dedup.Base.{
  refl, one_result, ℕ, ◌+◌, ◌*◌, ◌^◌, ◌≤◌, ◌<◌, ◌≡◌, sym, ap, subst, ◌∙◌, none, some, List, [],
  arith, length, Bytes, All, All-mono, find, assign, nat_eq, Distinct-assign, ◌>>=◌, value_or, map,
  concat,
}
use c_dedup.Store.{Store, containers_num, recipes_num, container_size, save_file_recipe}
use c_dedup.Metadata.{Sha1Fp, file_cache}
use c_dedup.Metadata.Index.{entry, entries_num}
use c_dedup.Metadata.Reopen.{reopened_size, entry-reopened}
use c_dedup.Chunking.{Globals, Chunking}
use c_dedup.Chunking.Split.{split_file, Fits, IsReady, longest}
use c_dedup.Backup.{Writer, start_writer, open_index, write_end, task_write, finish_write}
use c_dedup.Backup.Append.{IsSha1}
use c_dedup.Backup.Loop.{length-concat-le, Wrote, write_file-Ran}
use c_dedup.Backup.Repository.{
  IsRepository, closed, closed-recipes, start_writer-IsWriting, open_index-write_end,
  write_end-IsRepository,
}
use c_dedup.Backup.Arrays.{write_chunks-within, finish_write-within}
use c_dedup.Backup.Task.{entries_fit, same_recipes, no_recipe}
use c_dedup.Delete.Counts.{Versions, refs, uses, recipe_files}
use c_dedup.Delete.Kept.{Shelves, IsKept}
use c_dedup.Delete.Task.{Shelves-entries}
use c_dedup.Lifecycle.Shelving.{Shelving, put_file-fresh}
use c_dedup.Lifecycle.Chunks.{write_chunks-Keeps}
use c_dedup.Lifecycle.Closing.{
  Shelves-closed, reverse-closed, entries-in_range, assign-recipe_files, uses-assign,
}
use c_dedup.Lifecycle.Opening.{IsFree, kept-IsRepository, version_to_come, start_writer-Shelving}

module _ {sha1 : Bytes → Bytes} {chunks : List Bytes} {versions : Versions} {s : Store} (w : Writer)
    (kept : IsKept sha1 versions s) (free : IsFree s) (wrote : Wrote sha1 chunks (start_writer s) w)
    (fits : (entries_num (open_index s) + length chunks) * 36 ≤ file_cache)
    {shelf : ℕ → List Sha1Fp}
    (keeps : Shelving (λ fp. uses sha1 fp (assign (recipes_num s) chunks versions)) shelf 0 w) where
  recipes-write_end :
      (write_end w).recipes ≡ recipe_files sha1 (assign (recipes_num s) chunks versions)
  unfolding write_end save_file_recipe recipes_num start_writer
  recipes-write_end =
      let version = length (closed w).recipes in
      let same : (closed w).recipes ≡ s.recipes =
        closed-recipes w ∙ same_recipes sha1 s chunks w (kept-IsRepository kept free) wrote fits in
      let here : find version (closed w).recipes ≡ none =
        ap (λ r. find (length r) r) same ∙ free.recipes_free (length s.recipes) (omega arith) in
      put_file-fresh version (concat w.file_recipe) (closed w).recipes here
      ∙ ((λ i. assign (length (same i)) (concat (wrote.recipe i)) (same i))
          ∙ ((λ i. assign (length s.recipes) (concat (map sha1 chunks)) (kept.recipes i))
              ∙ assign-recipe_files sha1 (length s.recipes) chunks versions
                  (version_to_come kept free)))

  no_recipe_there : (k : ℕ) → recipes_num w.store ≤ k → find k w.store.recipes ≡ none
  no_recipe_there = no_recipe sha1 s chunks w (kept-IsRepository kept free) wrote fits

  bound : entries_num w.manager * 36 ≤ file_cache
  bound = entries_fit sha1 s chunks w (kept-IsRepository kept free) wrote fits

  repository : IsRepository sha1 (write_end w)
  repository = write_end-IsRepository w no_recipe_there sha1 wrote.next bound

  same_entries : (fp : Sha1Fp) → entry (open_index (write_end w)) fp ≡ entry w.manager fp
  same_entries fp =
      ap (λ m. entry m fp) (open_index-write_end w no_recipe_there)
      ∙ entry-reopened w.manager wrote.next.index wrote.next.added wrote.next.origin bound fp

  index_fits : entries_num (open_index (write_end w)) * 36 ≤ file_cache
  index_fits =
      let size =
        reopened_size w.manager wrote.next.index wrote.next.added wrote.next.origin bound in
      subst (λ m. entries_num m * 36 ≤ file_cache) (sym (open_index-write_end w no_recipe_there))
        (omega (arith, size, bound))

  Shelves-write_end :
      Shelves shelf (write_end w).containers (write_end w).reverse (open_index (write_end w))
  Shelves-write_end =
      Shelves-entries same_entries
        (unfold write_end save_file_recipe in Shelves-closed sha1 w wrote.next keeps)

  write_end-IsKept : IsKept sha1 (assign (recipes_num s) chunks versions) (write_end w)
  write_end-IsKept = record {
    shelf = shelf;
    distinct = Distinct-assign (recipes_num s) chunks versions kept.distinct;
    recipes = recipes-write_end;
    tracks = record {
      index = repository.index;
      loaded = repository.all_loaded;
      fits = index_fits;
      sound = repository.sound;
      counted = λ fp. ap refs (same_entries fp) ∙ keeps.counted fp;
      positive = λ fp v e. keeps.positive fp v (sym (same_entries fp) ∙ e);
      in_range =
          λ fp v e. entries-in_range sha1 w wrote.next keeps fp v (sym (same_entries fp) ∙ e);
      shelves = Shelves-write_end;
    };
  }

  write_end-IsFree : IsFree (write_end w)
  write_end-IsFree = record {
    containers_free = repository.containers_free;
    reverse_free = λ k h. reverse k h;
    recipes_free = repository.recipes_free;
  }
    where
      reverse : (k : ℕ) → containers_num (write_end w) ≤ k → find k (write_end w).reverse ≡ none
      reverse k h =
          unfold write_end save_file_recipe containers_num in
          reverse-closed sha1 w wrote.next keeps k h

-- A backup implements the addition of a version, with the chunks of the file, to the versions of a
-- repository: it ends, and it leaves a repository with just the versions before and the new one,
-- under the next number, and again no file under a number that is still to be given. There, the
-- recipes are those of the versions, the index has sound entries for just the fingerprints that they
-- refer to, each with the number of the references, and the reverse files list what the containers
-- hold. It is so if SHA-1 gives digests of 20 bytes, the chunking is set up, a chunk's length fits
-- into 16 bits, a container's number and a fingerprint's count fit into 32 bits also if each byte or
-- chunk of the file adds one, the index, with as many entries more as there are chunks, fits into
-- the `FILE_CACHE` bytes that `load` reads, and a reverse file of all the chunks fits into a container.
pub task_write-IsKept :
    (sha1 : Bytes → Bytes) (c : Chunking) (g g' : Globals) (input : Bytes) (chunks : List Bytes)
    (versions : Versions) (s : Store)
    → IsSha1 sha1
    → IsReady c g
    → longest c g < 2 ^ 16
    → IsKept sha1 versions s
    → IsFree s
    → containers_num s + length input < 2 ^ 32
    → split_file (length input + 1) c input g ≡ some (chunks, g')
    → (entries_num (open_index s) + length chunks) * 36 ≤ file_cache
    → 4 + 20 * length chunks ≤ container_size
    → ((fp : Sha1Fp) → uses sha1 fp versions + length chunks < 2 ^ 32)
    → (s' : Store) × (task_write sha1 c g input s ≡ some s')
      × IsKept sha1 (assign (recipes_num s) chunks versions) s'
      × IsFree s'
unfolding task_write start_writer
task_write-IsKept sha1 c g g' input chunks versions s is_sha1 ready short kept free small cut fits
      few count =
    let ok = start_writer-IsWriting sha1 s (kept-IsRepository kept free) (omega (arith, small)) in
    let (cuts, w, g'', e, run, whole, each, wrote, set, still) =
      write_file-Ran sha1 is_sha1 c (length input + 1) input g (start_writer s) ready short ok small
        (omega arith) in
    let same : cuts ≡ chunks =
      ap (λ r. (value_or {A = List Bytes × Globals} r ([], g)).0) (sym e ∙ cut) in
    let wrote' = subst (λ cs. Wrote sha1 cs (start_writer s) w) same wrote in
    let each' = subst (All (Fits (longest c g))) same each in
    let total : length (concat chunks) ≡ length input = ap length (ap concat (sym same) ∙ whole) in
    let number = length-concat-le (longest c g) chunks each' in
    let short_chunks =
      All-mono (Fits (longest c g)) (Fits 65535) chunks
        (λ chunk h. (h.0, omega (arith, h.1, short))) each' in
    let inside =
      write_chunks-within sha1 chunks (start_writer s) w is_sha1 ok
        (omega (arith, small, number, total)) short_chunks (omega (arith, few)) refl
        wrote'.chained in
    let (w', run', (shelf, keeps)) =
      write_chunks-Keeps sha1 chunks (λ fp. uses sha1 fp versions)
        (λ fp. uses sha1 fp (assign (recipes_num s) chunks versions)) kept.shelf (start_writer s)
        is_sha1
        (λ fp. uses-assign sha1 fp (recipes_num s) chunks versions (version_to_come kept free)) ok
        (omega (arith, small, number, total)) short_chunks
        (start_writer-Shelving kept free (length chunks) few count) in
    let one : w' ≡ w = one_result w' w (sym run' ∙ wrote'.chained) in
    let keeps' =
      subst (Shelving (λ fp. uses sha1 fp (assign (recipes_num s) chunks versions)) shelf 0) one
        keeps in
    (
      write_end w,
      ap (λ r. r >>= λ r. finish_write r.0) run ∙ finish_write-within w inside,
      write_end-IsKept w kept free wrote' fits keeps',
      write_end-IsFree w kept free wrote' fits keeps',
    )
