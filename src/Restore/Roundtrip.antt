-- ===== src/Restore/Roundtrip.antt =====
-- Backups and restores of one repository: main.cpp, `TASK_WRITE` and `TASK_RESTORE`.
use c_dedup.Base.{
  one_result, ℕ, ◌+◌, ◌*◌, ◌^◌, ◌≤◌, ◌<◌, ◌≡◌, refl, sym, ap, ◌∙◌, subst, some, List, ◌++◌, arith,
  length, drop, Bytes, All, All-mono, concat, nat_eq, ◌==◌, Bool-cases, inl, inr,
}
use c_dedup.Store.{Store, containers_num, recipes_num}
use c_dedup.Metadata.{file_cache}
use c_dedup.Metadata.Index.{entries_num}
use c_dedup.Chunking.{Globals, Chunking}
use c_dedup.Chunking.Split.{split_file, Fits, IsReady, longest}
use c_dedup.Backup.{open_index, task_write}
use c_dedup.Backup.Lines.{short_chunks}
use c_dedup.Backup.Append.{IsSha1, fp_of}
use c_dedup.Backup.Chunk.{Known}
use c_dedup.Backup.Repository.{IsRepository}
use c_dedup.Backup.Task.{BackedUp, task_write-BackedUp}
use c_dedup.Restore.{task_restore}
use c_dedup.Restore.Containers.{container_cache}
use c_dedup.Restore.Containers.Laws.{container_cache-IsCache}
use c_dedup.Restore.Task.{HasVersion, NoCollision, task_restore-HasVersion}

module _ (sha1 : Bytes → Bytes) (chunks : List Bytes) (s s' : Store)
    (done : BackedUp sha1 chunks s s') where
  pub HasVersion-new : HasVersion sha1 (recipes_num s) chunks s'
  HasVersion-new = record {
    recipe = done.recipes (recipes_num s) ∙ ground arith;
    knows = done.knows;
  }

  -- The older versions are still there.
  HasVersion-kept :
      (version : ℕ) (older : List Bytes)
      → IsRepository sha1 s
      → HasVersion sha1 version older s
      → HasVersion sha1 version older s'
  HasVersion-kept version older ok has = record {
    recipe = done.recipes version ∙ elim (Bool-cases (recipes_num s == version)) [
      | inl next ↦ absurd (ground (arith, ok.recipes_free version, has.recipe))
      | inr other ↦ rw (other, has.recipe) refl
    ];
    knows =
        All-mono (λ chunk. Known (open_index s) (fp_of sha1 chunk)) _ older
          (λ chunk h. done.keeps (fp_of sha1 chunk) h) has.knows;
  }

module _ (sha1 : Bytes → Bytes) (c : Chunking) (g g' : Globals) (input : Bytes) (s s' : Store)
    (chunks : List Bytes) where
  -- What a backup wrote, the restore of its version gives back byte for byte, over the front of what
  -- stood at the path, if: SHA-1 gives digests of 20 bytes, the chunking is set up, a chunk's length
  -- fits into 16 bits and a container's number into 32, the index, with as many entries more as there
  -- are chunks, fits into the `FILE_CACHE` bytes that `load` reads, at most 100000 of the chunks have
  -- less than 40 bytes, so that the reverse buffer has room for all digests, the version fits into 8
  -- bits, and no other bytes of a container have the SHA-1 of one of the chunks.
  pub task_write-task_restore :
      (old : Bytes)
      → IsSha1 sha1
      → IsReady c g
      → longest c g < 2 ^ 16
      → IsRepository sha1 s
      → containers_num s + length input < 2 ^ 32
      → split_file (length input + 1) c input g ≡ some (chunks, g')
      → (entries_num (open_index s) + length chunks) * 36 ≤ file_cache
      → short_chunks chunks ≤ 100000
      → task_write sha1 c g input s ≡ some s'
      → recipes_num s < 2 ^ 8
      → All (NoCollision sha1 s') chunks
      → task_restore (container_cache s'.containers 128) (recipes_num s) old s'
        ≡ some (input ++ drop (length input) old)
  task_write-task_restore old is_sha1 ready short ok numbers cut fits lines run version alone =
      let (t, e, done, whole, each) =
        task_write-BackedUp sha1 c g g' input s chunks is_sha1 ready short ok numbers cut fits
          lines in
      let done' = subst (BackedUp sha1 chunks s) (one_result t s' (sym e ∙ run)) done in
      let short_each =
        All-mono (Fits (longest c g)) (λ chunk. length chunk < file_cache) chunks
          (λ chunk h. omega (arith, h.1)) each in
      task_restore-HasVersion sha1 (container_cache s'.containers 128) (recipes_num s) chunks old s'
        is_sha1 done'.repository (HasVersion-new sha1 chunks s s' done')
        (container_cache-IsCache s'.containers 128 (omega arith)) version alone short_each
      ∙ ap (λ bs. some (bs ++ drop (length bs) old)) whole

  -- A backup leaves an older version restorable: its chunks come back in order, over the front of
  -- what stood at the path. The conditions on the backup are those of its own restore, but for the
  -- collisions; the older version fits into 8 bits, its chunks are shorter than the assembling
  -- buffer, and no other bytes of a container have the SHA-1 of one of them.
  pub task_restore-kept :
      (old : Bytes) (older : List Bytes) (version : ℕ)
      → IsSha1 sha1
      → IsReady c g
      → longest c g < 2 ^ 16
      → IsRepository sha1 s
      → containers_num s + length input < 2 ^ 32
      → split_file (length input + 1) c input g ≡ some (chunks, g')
      → (entries_num (open_index s) + length chunks) * 36 ≤ file_cache
      → short_chunks chunks ≤ 100000
      → task_write sha1 c g input s ≡ some s'
      → HasVersion sha1 version older s
      → version < 2 ^ 8
      → All (NoCollision sha1 s') older
      → All (λ chunk. length chunk < file_cache) older
      → task_restore (container_cache s'.containers 128) version old s'
        ≡ some (concat older ++ drop (length (concat older)) old)
  task_restore-kept old older version is_sha1 ready short ok numbers cut fits lines run has small
        alone shorter =
      let (t, e, done, whole, each) =
        task_write-BackedUp sha1 c g g' input s chunks is_sha1 ready short ok numbers cut fits
          lines in
      let done' = subst (BackedUp sha1 chunks s) (one_result t s' (sym e ∙ run)) done in
      task_restore-HasVersion sha1 (container_cache s'.containers 128) version older old s' is_sha1
        done'.repository (HasVersion-kept sha1 chunks s s' done' version older ok has)
        (container_cache-IsCache s'.containers 128 (omega arith)) small alone shorter
