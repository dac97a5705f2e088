-- ===== src/Lifecycle/Tasks.antt =====
-- Any number of tasks on one repository, one after the other: main.cpp, `TASK_WRITE` and
-- `TASK_DELETE`, and `TASK_RESTORE` behind them.
use c_dedup.Base.{
  one_result, ℕ, ◌+◌, ◌*◌, ◌^◌, ◌≤◌, ◌<◌, ◌≡◌, sym, subst, ◌∙◌, some, List, ◌++◌, length, drop,
  Bytes, All, find, assign, erase, nat_eq, concat,
}
use c_dedup.Store.{Store, containers_num, recipes_num, container_size}
use c_dedup.Metadata.{Sha1Fp, file_cache}
use c_dedup.Metadata.Index.{entries_num}
use c_dedup.Chunking.{Globals, Chunking}
use c_dedup.Chunking.Split.{split_file, IsReady, longest}
use c_dedup.Backup.{open_index, task_write}
use c_dedup.Backup.Append.{IsSha1}
use c_dedup.Restore.{Cache, task_restore}
use c_dedup.Restore.Fetch.{IsCache}
use c_dedup.Restore.Task.{NoCollision}
use c_dedup.Delete.{task_delete}
use c_dedup.Delete.Counts.{Versions, uses}
use c_dedup.Delete.Kept.{IsKept}
use c_dedup.Delete.Task.{task_delete-IsKept}
use c_dedup.Delete.Versions.{task_restore-IsKept}
use c_dedup.Lifecycle.Opening.{IsFree}
use c_dedup.Lifecycle.Backup.{task_write-IsKept}

-- There is room for a backup of `input`, which the chunking cuts into `chunks`.
pub record HasRoom (sha1 : Bytes → Bytes) (c : Chunking) (g : Globals) (input : Bytes)
    (chunks : List Bytes) (versions : Versions) (s : Store) : Type 0 where
  pub ready : IsReady c g
  pub short : longest c g < 2 ^ 16
  pub free : IsFree s
  pub numbers : containers_num s + length input < 2 ^ 32
  pub after : Globals
  pub cut : split_file (length input + 1) c input g ≡ some (chunks, after)
  pub fits : (entries_num (open_index s) + length chunks) * 36 ≤ file_cache
  pub few : 4 + 20 * length chunks ≤ container_size
  pub count : (fp : Sha1Fp) → uses sha1 fp versions + length chunks < 2 ^ 32

-- A history: the tasks that were run on a repository of `versions`, and what versions they ask for.
pub data History (sha1 : Bytes → Bytes) (versions : Versions) (s : Store)
    : Versions → Store → Type 0 where
  untouched : History sha1 versions s versions s
  backed_up :
      (c : Chunking) (g : Globals) (input : Bytes) (chunks : List Bytes) {now : Versions}
      {t t' : Store}
      → History sha1 versions s now t
      → HasRoom sha1 c g input chunks now t
      → task_write sha1 c g input t ≡ some t'
      → History sha1 versions s (assign (recipes_num t) chunks now) t'
  deleted :
      (version : ℕ) {now : Versions} {t t' : Store}
      → History sha1 versions s now t
      → version < 2 ^ 8
      → task_delete version t ≡ some t'
      → History sha1 versions s (erase version now) t'

-- Every history leaves a repository with just the versions it asks for.
History-IsKept :
    {sha1 : Bytes → Bytes} {versions : Versions} {s : Store} {now : Versions} {t : Store}
    → IsSha1 sha1
    → IsKept sha1 versions s
    → History sha1 versions s now t
    → IsKept sha1 now t
History-IsKept is_sha1 kept untouched = kept
History-IsKept {sha1} {t = t'} is_sha1 kept (backed_up c g input chunks {now} {t} before room run) =
    let (t1, run1, after, free) =
      task_write-IsKept sha1 c g room.after input chunks now t is_sha1 room.ready room.short
        (History-IsKept is_sha1 kept before) room.free room.numbers room.cut room.fits room.few
        room.count in
    subst (IsKept sha1 (assign (recipes_num t) chunks now)) (one_result t1 t' (sym run1 ∙ run))
      after
History-IsKept {sha1} {t = t'} is_sha1 kept (deleted version {now} {t} before small run) =
    let (t1, run1, after) =
      task_delete-IsKept sha1 version now t is_sha1 (History-IsKept is_sha1 kept before) small in
    subst (IsKept sha1 (erase version now)) (one_result t1 t' (sym run1 ∙ run)) after

-- After any number of backups and deletions, in any order, a restore of a version that has been
-- backed up, or was there before, and has not been deleted since gives its chunks in order, over the
-- front of what stood at the path, with any cache that keeps the contract. Before each backup there
-- is room for it, which means that the files of the numbers to be given are free and that the words
-- and buffers hold the counts and numbers it can come to. The versions fit into 8 bits, the chunks are
-- shorter than the assembling buffer, and no other bytes of a container have the SHA-1 of one of
-- them.
pub task_restore-History :
    {State : Type 0} (sha1 : Bytes → Bytes) (source : Cache State) (version : ℕ)
    (chunks : List Bytes) (old : Bytes) (versions now : Versions) (s t : Store)
    → IsSha1 sha1
    → IsKept sha1 versions s
    → History sha1 versions s now t
    → find version now ≡ some chunks
    → IsCache t.containers source
    → version < 2 ^ 8
    → All (NoCollision sha1 t) chunks
    → All (λ chunk. length chunk < file_cache) chunks
    → task_restore source version old t ≡ some (concat chunks ++ drop (length (concat chunks)) old)
task_restore-History sha1 source version chunks old versions now s t is_sha1 kept history =
    task_restore-IsKept sha1 source version chunks old now t is_sha1
      (History-IsKept is_sha1 kept history)
