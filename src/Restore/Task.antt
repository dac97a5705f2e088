-- ===== src/Restore/Task.antt =====
-- A whole restore, and the round trip of a backup and a restore: main.cpp, `TASK_WRITE` and
-- `TASK_RESTORE`.
use c_dedup.Base.{
  ℕ, ◌+◌, ◌%◌, ◌^◌, ◌≤◌, ◌<◌, ◌≡◌, inl, inr, refl, sym, ap, ◌∙◌, none, some, List, [], ◌∷◌, ◌++◌,
  arith, ltb, if◌then◌else◌, length, take, drop, window, Bytes, All, concat, write_at,
  write_at_front, find, nat_eq, false, Option-cases, map, true, window-take, length-take,
  length-drop,
}
use c_dedup.Metadata.{Sha1Fp, EntryValue, fp_eq, file_cache}
use c_dedup.Metadata.Index.{entry}
use c_dedup.Store.{from_buffer, Store, Files, container_size, file_recipe_exist}
use c_dedup.Backup.{open_index}
use c_dedup.Backup.Sound.{Holds, Sound}
use c_dedup.Backup.Append.{IsSha1, fp_of}
use c_dedup.Backup.Chunk.{Known}
use c_dedup.Backup.Repository.{IsRepository, on_disk}
use c_dedup.Restore.{Cache, task_restore, restore_chunks, start_restorer, flush_assembling_buffer}
use c_dedup.Restore.Fetch.{fetch, substr, IsCache}
use c_dedup.Restore.Recipe.{IsDigest, get_file_recipe-concat}
use c_dedup.Restore.Loop.{Restorable, restore_chunks-assembled, assembled}

-- No other bytes within a container have the SHA-1 of `chunk`.
abbrev pub NoCollision : (Bytes → Bytes) → Store → Bytes → Type 0
NoCollision sha1 s chunk =
    (k off len : ℕ) (content : Bytes)
    → find k s.containers ≡ some content
    → fp_of sha1 (window off len content) ≡ fp_of sha1 chunk
    → window off len content ≡ chunk

-- The repository has a version that was cut into `chunks`.
pub record HasVersion (sha1 : Bytes → Bytes) (version : ℕ) (chunks : List Bytes) (s : Store)
    : Type 0 where
  pub recipe : find version s.recipes ≡ some (concat (map sha1 chunks))
  pub knows : All (λ chunk. Known (open_index s) (fp_of sha1 chunk)) chunks

abbrev with_digests : (Bytes → Bytes) → List Bytes → List (Bytes × Bytes)
with_digests sha1 chunks = map (λ chunk. (sha1 chunk, chunk)) chunks

substr-within :
    (off len n : ℕ) (bs : Bytes)
    → off + len ≤ n
    → off + len ≤ length bs
    → substr off len (take n bs) ≡ some (window off len bs)
unfolding substr
substr-within off len n bs h within =
    let inside : ltb (length (take n bs)) off ≡ false = ground (arith, length-take n bs) in
    ap (λ b. if b then none else some (window off len (take n bs))) inside
    ∙ ap some (window-take n off len bs h within)

-- An entry's place holds what the index promises.
fetch-Holds :
    (containers : Files) (v : EntryValue) (content : Bytes)
    → find v.container_number containers ≡ some content
    → v.offset + v.chunk_length ≤ length content
    → v.offset + v.chunk_length ≤ container_size
    → fetch containers v ≡ some (window v.offset v.chunk_length content)
unfolding fetch
fetch-Holds containers v content e within reach =
    rw e (substr-within v.offset v.chunk_length container_size content reach within)

-- What a restore needs of the index: it is loaded, and it leads to bytes with its fingerprints.
pub record IsReadable (sha1 : Bytes → Bytes) (s : Store) : Type 0 where
  pub all_loaded : (open_index s).fp_table_added ≡ []
  pub sound : Sound sha1 (on_disk s) (open_index s)

module _ (sha1 : Bytes → Bytes) (s : Store) (ok : IsReadable sha1 s) where
  Known-find :
      (fp : Sha1Fp)
      → Known (open_index s) fp
      → (v : EntryValue) × (find fp (open_index s).fp_table_origin ≡ some v)
        × Holds sha1 (on_disk s) fp v
  unfolding entry
  Known-find fp h = elim (Option-cases (find fp (open_index s).fp_table_origin)) [
    | inl missing ↦ absurd (ground (arith, ap (find fp) ok.all_loaded))
    | inr (v, e) ↦ (v, e, ok.sound fp v (rw e refl))
  ]

  Known-Restorable :
      (chunk : Bytes)
      → NoCollision sha1 s chunk
      → length chunk < file_cache
      → Known (open_index s) (fp_of sha1 chunk)
      → Restorable s.containers (open_index s) (sha1 chunk) chunk
  Known-Restorable chunk alone short h =
      let (v, e, held) = Known-find (fp_of sha1 chunk) h in
      let whole =
        alone v.container_number v.offset v.chunk_length held.content held.stored held.matches in
      record {
        value = v;
        entered = e;
        size = omega (
          arith,
          held.within,
          ap length whole,
          length-take v.chunk_length (drop v.offset held.content),
          length-drop v.offset held.content,
        );
        short = short;
        there =
            fetch-Holds s.containers v held.content held.stored held.within held.reach
            ∙ ap some whole;
      }

  Known-all :
      (chunks : List Bytes)
      → All (NoCollision sha1 s) chunks
      → All (λ chunk. length chunk < file_cache) chunks
      → All (λ chunk. Known (open_index s) (fp_of sha1 chunk)) chunks
      → All
          (λ (x : Bytes × Bytes). Restorable s.containers (open_index s) x.0 x.1)
          (with_digests sha1 chunks)
  Known-all [] alone short known = tt
  Known-all (chunk ∷ chunks) alone short known =
      (Known-Restorable chunk alone.0 short.0 known.0, Known-all chunks alone.1 short.1 known.1)

digests :
    (sha1 : Bytes → Bytes) (chunks : List Bytes)
    → map (λ (x : Bytes × Bytes). x.0) (with_digests sha1 chunks) ≡ map sha1 chunks
digests sha1 [] = refl
digests sha1 (chunk ∷ chunks) = ap (◌∷◌ (sha1 chunk)) (digests sha1 chunks)

pieces :
    (sha1 : Bytes → Bytes) (chunks : List Bytes)
    → map (λ (x : Bytes × Bytes). x.1) (with_digests sha1 chunks) ≡ chunks
pieces sha1 [] = refl
pieces sha1 (chunk ∷ chunks) = ap (◌∷◌ chunk) (pieces sha1 chunks)

pub All-digests :
    (sha1 : Bytes → Bytes) → IsSha1 sha1 → (chunks : List Bytes) → All IsDigest (map sha1 chunks)
All-digests sha1 is_sha1 [] = tt
All-digests sha1 is_sha1 (chunk ∷ chunks) =
    (is_sha1.digest_length chunk, All-digests sha1 is_sha1 chunks)

pub recipe-exists :
    (version : ℕ) (file : Bytes) (s : Store)
    → version < 2 ^ 8
    → find version s.recipes ≡ some file
    → file_recipe_exist version s ≡ true
unfolding file_recipe_exist
recipe-exists version file s small e =
    let same : version % 2 ^ 8 ≡ version = omega arith in rw (same, e) refl

pub task_restore-IsReadable :
    {State : Type 0} (sha1 : Bytes → Bytes) (source : Cache State) (version : ℕ)
    (chunks : List Bytes) (old : Bytes) (s : Store)
    → IsSha1 sha1
    → IsReadable sha1 s
    → HasVersion sha1 version chunks s
    → IsCache s.containers source
    → version < 2 ^ 8
    → All (NoCollision sha1 s) chunks
    → All (λ chunk. length chunk < file_cache) chunks
    → task_restore source version old s ≡ some (concat chunks ++ drop (length (concat chunks)) old)
unfolding task_restore start_restorer flush_assembling_buffer from_buffer
task_restore-IsReadable sha1 source version chunks old s is_sha1 ok has contract small alone short =
    let xs = with_digests sha1 chunks in
    let recipe =
      get_file_recipe-concat version (map sha1 chunks) s small (All-digests sha1 is_sha1 chunks)
        has.recipe in
    let (r, run, whole) =
      restore_chunks-assembled s.containers source contract (open_index s) xs
        (start_restorer source s) (Known-all sha1 s ok chunks alone short has.knows)
        (contract.starts, refl) in
    let exists = recipe-exists version (concat (map sha1 chunks)) s small has.recipe in
    let all_of_it : assembled r ≡ concat chunks = whole ∙ ap concat (pieces sha1 chunks) in
    let run' =
      ap (λ ds. restore_chunks source ds (start_restorer source s)) (sym (digests sha1 chunks))
      ∙ run in
    rw (exists, recipe, run')
      (ap some (ap (λ out. write_at 0 out old) all_of_it ∙ write_at_front (concat chunks) old))

-- A restore of a version of a repository gives its chunks in order, over the front of what stood at
-- the path, with any cache that keeps the contract. The version fits into 8 bits, SHA-1 gives digests
-- of 20 bytes, the chunks are shorter than the assembling buffer, and no other bytes of a container
-- have the SHA-1 of one of them.
pub task_restore-HasVersion :
    {State : Type 0} (sha1 : Bytes → Bytes) (source : Cache State) (version : ℕ)
    (chunks : List Bytes) (old : Bytes) (s : Store)
    → IsSha1 sha1
    → IsRepository sha1 s
    → HasVersion sha1 version chunks s
    → IsCache s.containers source
    → version < 2 ^ 8
    → All (NoCollision sha1 s) chunks
    → All (λ chunk. length chunk < file_cache) chunks
    → task_restore source version old s ≡ some (concat chunks ++ drop (length (concat chunks)) old)
task_restore-HasVersion sha1 source version chunks old s is_sha1 ok has contract small alone short =
    task_restore-IsReadable sha1 source version chunks old s is_sha1
      (record { all_loaded = ok.all_loaded; sound = ok.sound }) has contract small alone short
