-- ===== src/Delete/Task.antt =====
-- A whole deletion: main.cpp, `TASK_DELETE`, from the load of the index to its save.
use c_dedup.Base.{
  ℕ, ◌*◌, ◌^◌, ◌≤◌, ◌<◌, ◌≡◌, refl, sym, ap, subst, ◌∙◌, none, some, List, [], ◌∷◌, arith, true,
  false, length, Bytes, map, All-of_find, Option-cases, Bool-cases, inl, inr, find, erase, nat_eq,
  ==_iff, Distinct-erase, erase-missing, ◌==◌,
}
use c_dedup.Store.{Store, recipe_of_version, file_recipe_exist, get_file_recipe, recipes_num}
use c_dedup.Metadata.{Sha1Fp, MetadataManager, file_cache, new_manager, save, fp_eq}
use c_dedup.Metadata.Codec.{IsFp, IsEntry}
use c_dedup.Metadata.Index.{IsIndex, entry, entries_num}
use c_dedup.Metadata.Persist.{InRange}
use c_dedup.Metadata.Reopen.{
  reopened, reopened-added, reopened_size, entry-reopened, reopened-IsIndex,
}
use c_dedup.Backup.{open_index}
use c_dedup.Backup.Append.{IsSha1}
use c_dedup.Restore.Recipe.{get_file_recipe-concat}
use c_dedup.Restore.Task.{All-digests, recipe-exists}
use c_dedup.Delete.{task_delete, delete_chunks}
use c_dedup.Delete.Counts.{
  Versions, refs, uses, recipe_files, find-recipe_files, find-recipe_files-none, erase-recipe_files,
  uses-erase,
}
use c_dedup.Delete.Kept.{Shelves, Tracks, IsKept}
use c_dedup.Delete.Rounds.{delete_chunks-Goes}

-- The same entries in another index.
pub Shelves-entries :
    {shelf : ℕ → List Sha1Fp} {containers reverse : List (ℕ × Bytes)} {m m' : MetadataManager}
    → ((j : Sha1Fp) → entry m' j ≡ entry m j)
    → Shelves shelf containers reverse m
    → Shelves shelf containers reverse m'
Shelves-entries same t = record {
  known = λ k j h. let (v, e, number) = t.known k j h in (v, same j ∙ e, number);
  only = λ j v e. t.only j v (sym (same j) ∙ e);
  apart = λ i j v w ei ej. t.apart i j v w (sym (same i) ∙ ei) (sym (same j) ∙ ej);
  once = t.once;
  reverse_files = t.reverse_files;
  reverse_small = t.reverse_small;
  small = t.small;
}

Tracks-entries :
    {sha1 : Bytes → Bytes} {want : Sha1Fp → ℕ} {shelf : ℕ → List Sha1Fp} {s : Store}
    {m m' : MetadataManager} (recipes : List (ℕ × Bytes)) (index : Bytes)
    → ((j : Sha1Fp) → entry m' j ≡ entry m j)
    → IsIndex m'
    → m'.fp_table_added ≡ []
    → entries_num m' * 36 ≤ file_cache
    → Tracks sha1 want shelf s m
    → Tracks sha1 want shelf (record s { recipes = recipes; fingerprints = some index }) m'
Tracks-entries recipes index same ok loaded fits t = record {
  index = ok;
  loaded = loaded;
  fits = fits;
  sound = λ j v e. t.sound j v (sym (same j) ∙ e);
  counted = λ j. ap refs (same j) ∙ t.counted j;
  positive = λ j v e. t.positive j v (sym (same j) ∙ e);
  in_range = λ j v e. t.in_range j v (sym (same j) ∙ e);
  shelves = Shelves-entries same t.shelves;
}

module _ {sha1 : Bytes → Bytes} {want : Sha1Fp → ℕ} {shelf : ℕ → List Sha1Fp} {s : Store}
    {m : MetadataManager} (t : Tracks sha1 want shelf s m) where
  pub origin-InRange : InRange m.fp_table_origin
  unfolding entry
  origin-InRange =
      All-of_find (λ e. IsFp e.0 × IsEntry e.1) m.fp_table_origin t.index.origin
        (λ fp v e. t.in_range fp v (rw e refl))

  added-InRange : InRange m.fp_table_added
  added-InRange = subst InRange (sym t.loaded) tt

  -- The next process starts from the same counts.
  Tracks-reopened :
      (recipes : List (ℕ × Bytes))
      → Tracks sha1 want shelf
          (record s { recipes = recipes; fingerprints = some (save m) })
          (reopened m)
  Tracks-reopened recipes =
      Tracks-entries recipes (save m) (entry-reopened m t.index added-InRange origin-InRange t.fits)
        (reopened-IsIndex m t.index added-InRange origin-InRange t.fits)
        (reopened-added m t.index added-InRange origin-InRange t.fits)
        (omega (arith, t.fits, reopened_size m t.index added-InRange origin-InRange t.fits)) t

  -- An index that counts nothing is empty.
  Tracks-empty :
      (recipes : List (ℕ × Bytes))
      → ((fp : Sha1Fp) → want fp ≡ 0)
      → Tracks sha1 want shelf
          (record s { recipes = recipes; fingerprints = some (save m) })
          new_manager
  unfolding entry find
  Tracks-empty recipes nothing =
      Tracks-entries recipes (save m)
        (λ j. elim (Option-cases (entry m j)) [
          | inl absent ↦ sym absent
          | inr (v, there) ↦
              absurd (omega (arith, t.positive j v there, t.counted j, ap refs there, nothing j))
        ])
        (record { origin = tt; added = tt; apart = λ fp h. refl }) refl (omega arith) t

-- Without recipes there are no versions.
no_recipes :
    (sha1 : Bytes → Bytes) (versions : Versions) (fp : Sha1Fp)
    → length (recipe_files sha1 versions) ≡ 0
    → uses sha1 fp versions ≡ 0
unfolding recipe_files uses
no_recipes sha1 [] fp h = refl
no_recipes sha1 ((version, chunks) ∷ versions) fp h = absurd (omega arith)

module _ (version : ℕ) (s : Store) where
  run_deleted :
      (recipe : List Bytes) (s' : Store) (m : MetadataManager)
      → file_recipe_exist version s ≡ true
      → get_file_recipe version s ≡ some recipe
      → delete_chunks recipe s (open_index s) ≡ some (s', m)
      → task_delete version s
        ≡ some (record s' {
          recipes = erase (recipe_of_version version) s'.recipes;
          fingerprints = some (save m);
        })
  unfolding task_delete
  run_deleted recipe s' m exists read run = rw (exists, read, run)

  not_there :
      find (recipe_of_version version) s.recipes ≡ none → file_recipe_exist version s ≡ false
  unfolding file_recipe_exist
  not_there e = rw e refl

  run_missing : file_recipe_exist version s ≡ false → task_delete version s ≡ some s
  unfolding task_delete
  run_missing missing = rw missing

-- The index of the process after a deletion.
pub Tracks-next :
    (sha1 : Bytes → Bytes) (versions : Versions) {shelf : ℕ → List Sha1Fp} {s : Store}
    {m : MetadataManager} (recipes : List (ℕ × Bytes))
    → recipes ≡ recipe_files sha1 versions
    → Tracks sha1 (λ fp. uses sha1 fp versions) shelf s m
    → Tracks sha1
        (λ fp. uses sha1 fp versions)
        shelf
        (record s { recipes = recipes; fingerprints = some (save m) })
        (open_index (record s { recipes = recipes; fingerprints = some (save m) }))
unfolding open_index recipes_num
Tracks-next sha1 versions recipes same t = elim (Bool-cases (length recipes == 0)) [
  | inl empty ↦
      let nothing = ap length (sym same) ∙ (==_iff (length recipes) 0).0 empty in
      rw empty (Tracks-empty t recipes (λ fp. no_recipes sha1 versions fp nothing))
  | inr others ↦ rw others (Tracks-reopened t recipes)
]

-- A deletion implements the removal of a version from the versions of a repository, also where there
-- is no such version: it does not fault, and it leaves a repository with just the other versions.
-- There, the recipes are those of the versions left, the index has sound entries for just the
-- fingerprints that they refer to, each with the number of the references, and the reverse files
-- list what the containers hold. The version fits into 8 bits.
pub task_delete-IsKept :
    (sha1 : Bytes → Bytes) (version : ℕ) (versions : Versions) (s : Store)
    → IsSha1 sha1
    → IsKept sha1 versions s
    → version < 2 ^ 8
    → (s' : Store) × (task_delete version s ≡ some s') × IsKept sha1 (erase version versions) s'
task_delete-IsKept sha1 version versions s is_sha1 kept small =
    let number : recipe_of_version version ≡ version = omega arith in
    elim (Option-cases (find version versions)) [
      | inl missing ↦
          let file : find (recipe_of_version version) s.recipes ≡ none =
            ap (λ n. find n s.recipes) number
            ∙ (ap (find version) kept.recipes
                ∙ find-recipe_files-none sha1 version versions missing) in
          (
            s,
            run_missing version s (not_there version s file),
            subst (λ vs. IsKept sha1 vs s) (sym (erase-missing version versions missing)) kept,
          )
      | inr (chunks, there) ↦
          let left = erase version versions in
          let file =
            ap (find version) kept.recipes ∙ find-recipe_files sha1 version versions chunks there in
          let read =
            get_file_recipe-concat version (map sha1 chunks) s small
              (All-digests sha1 is_sha1 chunks) file in
          let (s', m, shelf, run, t, same) =
            delete_chunks-Goes sha1 chunks (λ fp. uses sha1 fp versions) (λ fp. uses sha1 fp left)
              kept.shelf s (open_index s) kept.tracks
              (λ fp. uses-erase sha1 fp version versions chunks there) in
          let recipes : erase (recipe_of_version version) s'.recipes ≡ recipe_files sha1 left =
            (λ i. erase (number i) ((same ∙ kept.recipes) i))
            ∙ erase-recipe_files sha1 version versions in
          (
            record s' {
              recipes = erase (recipe_of_version version) s'.recipes;
              fingerprints = some (save m);
            },
            run_deleted version s (map sha1 chunks) s' m (recipe-exists version _ s small file) read
                run,
            record {
              shelf = shelf;
              distinct = Distinct-erase version versions kept.distinct;
              recipes = recipes;
              tracks =
                  Tracks-next sha1 left (erase (recipe_of_version version) s'.recipes) recipes t;
            },
          )
    ]
