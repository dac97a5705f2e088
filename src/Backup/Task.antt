-- ===== src/Backup/Task.antt =====
-- A whole backup, from the repository the task `write` finds to the one it leaves: main.cpp,
-- `TASK_WRITE`.
use c_dedup.Base.{
  refl, ℕ, ◌+◌, ◌*◌, ◌^◌, ◌≤◌, ◌<◌, ◌≡◌, sym, ap, ◌∙◌, subst, some, List, arith, if◌then◌else◌,
  none, nat_eq, length, Bytes, All, All-mono, concat, map, find, ◌==◌, ◌>>=◌, is_some, [], value_or,
}
use c_dedup.Store.{Store, containers_num, recipes_num}
use c_dedup.Metadata.{Sha1Fp, file_cache}
use c_dedup.Metadata.Index.{entries_num}
use c_dedup.Metadata.Reopen.{entry-reopened}
use c_dedup.Chunking.{Globals, Chunking}
use c_dedup.Chunking.Split.{split_file, Fits, IsReady, longest}
use c_dedup.Backup.{Writer, start_writer, open_index, write_end, task_write, finish_write}
use c_dedup.Backup.Lines.{short_chunks}
use c_dedup.Backup.Append.{IsSha1, fp_of}
use c_dedup.Backup.Chunk.{Known}
use c_dedup.Backup.Loop.{length-concat-le, Wrote, write_file-Ran}
use c_dedup.Backup.Arrays.{write_chunks-within_half, finish_write-within}
use c_dedup.Backup.Repository.{
  IsRepository, start_writer-IsWriting, find-recipes, open_index-write_end, write_end-IsRepository,
}

-- From `s` to `s'` a file has been backed up that was cut into `chunks`.
pub record BackedUp (sha1 : Bytes → Bytes) (chunks : List Bytes) (s s' : Store) : Type 0 where
  pub repository : IsRepository sha1 s'
  pub recipes :
      (k : ℕ)
      → find k s'.recipes
        ≡ (if recipes_num s == k then some (concat (map sha1 chunks)) else find k s.recipes)
  pub keeps : (fp : Sha1Fp) → Known (open_index s) fp → Known (open_index s') fp
  pub knows : All (λ chunk. Known (open_index s') (fp_of sha1 chunk)) chunks

module _ (sha1 : Bytes → Bytes) (s : Store) (chunks : List Bytes) (w : Writer)
    (ok : IsRepository sha1 s) (wrote : Wrote sha1 chunks (start_writer s) w)
    (fits : (entries_num (open_index s) + length chunks) * 36 ≤ file_cache) where
  pub entries_fit : entries_num w.manager * 36 ≤ file_cache
  unfolding start_writer
  entries_fit = omega (arith, wrote.entries_le)

  pub same_recipes : w.store.recipes ≡ s.recipes
  unfolding start_writer
  same_recipes = wrote.recipes

  pub no_recipe : (k : ℕ) → recipes_num w.store ≤ k → find k w.store.recipes ≡ none
  unfolding recipes_num
  no_recipe k h =
      ap (find k) same_recipes ∙ ok.recipes_free k (subst (λ r. length r ≤ k) same_recipes h)

  Known-write_end : (fp : Sha1Fp) → Known w.manager fp → Known (open_index (write_end w)) fp
  Known-write_end fp h =
      let same =
        entry-reopened w.manager wrote.next.index wrote.next.added wrote.next.origin entries_fit
          fp in
      subst (λ m. Known m fp) (sym (open_index-write_end w no_recipe)) (ap is_some same ∙ h)

  write_end-recipes :
      (k : ℕ)
      → find k (write_end w).recipes
        ≡ (if recipes_num s == k then some (concat (map sha1 chunks)) else find k s.recipes)
  unfolding recipes_num start_writer
  write_end-recipes k = find-recipes w no_recipe k ∙ (λ i.
      if length (same_recipes i) == k
      then some (concat (wrote.recipe i))
      else find k (same_recipes i))

  write_end-BackedUp : BackedUp sha1 chunks s (write_end w)
  unfolding start_writer
  write_end-BackedUp = record {
    repository = write_end-IsRepository w no_recipe sha1 wrote.next entries_fit;
    recipes = write_end-recipes;
    keeps = λ fp h. Known-write_end fp (wrote.keeps fp h);
    knows =
        All-mono (λ chunk. Known w.manager (fp_of sha1 chunk)) _ chunks
          (λ chunk h. Known-write_end (fp_of sha1 chunk) h) wrote.knows;
  }

-- A backup of a repository, that is, of a store whose next numbers are free and whose index leads to
-- bytes with their fingerprints, ends and leaves one again, in which the file's recipe stands under
-- the next version and every chunk of it, and every chunk known before, is in the index; the other
-- recipes are as they were. The chunks make up the file, and each has a byte at least and the longest
-- chunk's length at most. It is so if SHA-1 gives digests of 20 bytes, the chunking is set up, a
-- chunk's length fits into 16 bits and a container's number into 32, the index, with as many entries
-- more as there are chunks, fits into the `FILE_CACHE` bytes that `load` reads, and at most 100000 of
-- the chunks have less than 40 bytes, so that the reverse buffer has room for all digests.
pub task_write-BackedUp :
    (sha1 : Bytes → Bytes) (c : Chunking) (g g' : Globals) (input : Bytes) (s : Store)
    (chunks : List Bytes)
    → IsSha1 sha1
    → IsReady c g
    → longest c g < 2 ^ 16
    → IsRepository sha1 s
    → containers_num s + length input < 2 ^ 32
    → split_file (length input + 1) c input g ≡ some (chunks, g')
    → (entries_num (open_index s) + length chunks) * 36 ≤ file_cache
    → short_chunks chunks ≤ 100000
    → (s' : Store) × (task_write sha1 c g input s ≡ some s')
      × BackedUp sha1 chunks s s'
      × (concat chunks ≡ input)
      × All (Fits (longest c g)) chunks
unfolding task_write start_writer
task_write-BackedUp sha1 c g g' input s chunks is_sha1 ready short ok small cut fits lines =
    let start = start_writer-IsWriting sha1 s ok (omega (arith, small)) in
    let (cuts, w, g'', e, run, whole, each, wrote, set, still) =
      write_file-Ran sha1 is_sha1 c (length input + 1) input g (start_writer s) ready short start
        (omega arith) (omega arith) in
    let same : chunks ≡ cuts =
      ap (λ r. (value_or {A = List Bytes × Globals} r ([], g)).0) (sym cut ∙ e) in
    let wrote' = subst (λ cs. Wrote sha1 cs (start_writer s) w) (sym same) wrote in
    let each' = subst (All (Fits (longest c g))) (sym same) each in
    let whole' : concat chunks ≡ input = ap concat same ∙ whole in
    let number = length-concat-le (longest c g) chunks each' in
    let inside =
      write_chunks-within_half sha1 chunks (start_writer s) w 0 is_sha1 start
        (omega (arith, small, number, ap length whole'))
        (All-mono (Fits (longest c g)) (Fits 65535) chunks
          (λ chunk h. (h.0, omega (arith, h.1, short))) each')
        (omega arith) (omega (arith, lines)) refl wrote'.chained in
    (
      write_end w,
      ap (λ r. r >>= λ r. finish_write r.0) run ∙ finish_write-within w inside,
      write_end-BackedUp sha1 s chunks w ok wrote' fits,
      whole',
      each',
    )
