-- ===== src/Delete/Versions.antt =====
-- The versions that a repository keeps, read back: main.cpp, `TASK_RESTORE`, before and after
-- `TASK_DELETE`.
use c_dedup.Base.{
  one_result, ℕ, ◌^◌, ◌<◌, ◌≡◌, refl, sym, ap, subst, ◌∙◌, false, some, List, ◌++◌, arith, length,
  drop, Bytes, All, concat, Option-cases, inl, inr, find, erase, nat_eq, ◌==◌, find-erase_ne,
}
use c_dedup.Store.{Store}
use c_dedup.Metadata.{file_cache}
use c_dedup.Metadata.Index.{entry}
use c_dedup.Backup.{open_index}
use c_dedup.Backup.Append.{IsSha1, fp_of}
use c_dedup.Backup.Chunk.{Known}
use c_dedup.Restore.{Cache, task_restore}
use c_dedup.Restore.Fetch.{IsCache}
use c_dedup.Restore.Task.{NoCollision, HasVersion, task_restore-IsReadable}
use c_dedup.Delete.{task_delete}
use c_dedup.Delete.Counts.{
  Versions, refs, occurrences, find-recipe_files, uses-erase, All-occurrences,
}
use c_dedup.Delete.Kept.{IsKept}
use c_dedup.Delete.Task.{task_delete-IsKept}

module _ (sha1 : Bytes → Bytes) (version : ℕ) (chunks : List Bytes) (versions : Versions)
    (s : Store) (kept : IsKept sha1 versions s) (there : find version versions ≡ some chunks) where
  Known-occurs :
      (chunk : Bytes)
      → 0 < occurrences sha1 (fp_of sha1 chunk) chunks
      → Known (open_index s) (fp_of sha1 chunk)
  Known-occurs chunk pos =
      let fp = fp_of sha1 chunk in
      elim (Option-cases (entry (open_index s) fp)) [
        | inl absent ↦ absurd (
            omega (
              arith,
              pos,
              uses-erase sha1 fp version versions chunks there,
              kept.tracks.counted fp,
              ap refs absent,
            ))
        | inr (v, e) ↦ rw e refl
      ]

  HasVersion-kept : HasVersion sha1 version chunks s
  HasVersion-kept = record {
    recipe = ap (find version) kept.recipes ∙ find-recipe_files sha1 version versions chunks there;
    knows =
        All-occurrences sha1 (λ chunk. Known (open_index s) (fp_of sha1 chunk)) chunks Known-occurs;
  }

module _ {State : Type 0} (sha1 : Bytes → Bytes) (source : Cache State) (version : ℕ)
    (chunks : List Bytes) (old : Bytes) where
  -- A repository restores each of its versions.
  pub task_restore-IsKept :
      (versions : Versions) (s : Store)
      → IsSha1 sha1
      → IsKept sha1 versions s
      → find version versions ≡ some chunks
      → IsCache s.containers source
      → version < 2 ^ 8
      → All (NoCollision sha1 s) chunks
      → All (λ chunk. length chunk < file_cache) chunks
      → task_restore source version old s
        ≡ some (concat chunks ++ drop (length (concat chunks)) old)
  task_restore-IsKept versions s is_sha1 kept there contract small alone short =
      task_restore-IsReadable sha1 source version chunks old s is_sha1
        (record { all_loaded = kept.tracks.loaded; sound = kept.tracks.sound })
        (HasVersion-kept sha1 version chunks versions s kept there) contract small alone short

  -- After a deletion, which leaves the store `s'`, a restore of any other version gives its chunks
  -- in order, over the front of what stood at the path, with any cache that keeps the contract. Both
  -- versions fit into 8 bits, and no other bytes of a container that is left have the SHA-1 of one of
  -- the chunks.
  task_restore-task_delete :
      (deleted : ℕ) (versions : Versions) (s s' : Store)
      → IsSha1 sha1
      → IsKept sha1 versions s
      → deleted < 2 ^ 8
      → task_delete deleted s ≡ some s'
      → find version versions ≡ some chunks
      → (deleted == version) ≡ false
      → IsCache s'.containers source
      → version < 2 ^ 8
      → All (NoCollision sha1 s') chunks
      → All (λ chunk. length chunk < file_cache) chunks
      → task_restore source version old s'
        ≡ some (concat chunks ++ drop (length (concat chunks)) old)
  task_restore-task_delete deleted versions s s' is_sha1 kept in_word run there other contract small
        alone short =
      let (s1, done, left) = task_delete-IsKept sha1 deleted versions s is_sha1 kept in_word in
      let same : s1 ≡ s' = one_result s1 s' (sym done ∙ run) in
      task_restore-IsKept (erase deleted versions) s' is_sha1
        (subst (IsKept sha1 (erase deleted versions)) same left)
        (find-erase_ne deleted version versions other ∙ there) contract small alone short
