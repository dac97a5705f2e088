-- ===== src/Delete/Counts.antt =====
-- How often the versions that are left refer to a chunk: the `ref_cnt` of src/MetadataManager.cpp,
-- against the recipes of main.cpp.
use c_dedup.Base.{
  true, ℕ, ◌+◌, ◌<◌, ◌≡◌, refl, Option, none, some, List, [], ◌∷◌, arith, if◌then◌else◌, Bytes, All,
  concat, map, find, erase, nat_eq, ◌==◌, Bool-cases, inl, inr,
}
use c_dedup.Metadata.{Sha1Fp, EntryValue, tuple_equaler, tuple_equaler_iff}
use c_dedup.Store.{Files}
use c_dedup.Backup.Append.{fp_of}

-- The versions of a repository, with the chunks of each.
abbrev pub Versions : Type 0
Versions = List (ℕ × List Bytes)

-- The count of an entry; nothing refers to a chunk without one.
abbrev pub refs : Option EntryValue → ℕ
refs none = 0
refs (some v) = v.ref_cnt

pub same_fp : (fp : Sha1Fp) → tuple_equaler fp fp ≡ true
same_fp fp = (tuple_equaler_iff fp fp).1 refl

module _ (sha1 : Bytes → Bytes) where
  -- The recipes of the versions.
  unfoldable pub recipe_files : Versions → Files
  recipe_files [] = []
  recipe_files ((version, chunks) ∷ versions) =
      (version, concat (map sha1 chunks)) ∷ recipe_files versions

  -- How many of the chunks have the fingerprint.
  unfoldable pub occurrences : Sha1Fp → List Bytes → ℕ
  occurrences fp [] = 0
  occurrences fp (chunk ∷ chunks) =
      if tuple_equaler (fp_of sha1 chunk) fp
      then occurrences fp chunks + 1
      else occurrences fp chunks

  unfoldable pub uses : Sha1Fp → Versions → ℕ
  uses fp [] = 0
  uses fp ((version, chunks) ∷ versions) = occurrences fp chunks + uses fp versions

  pub find-recipe_files :
      (version : ℕ) (versions : Versions) (chunks : List Bytes)
      → find version versions ≡ some chunks
      → find version (recipe_files versions) ≡ some (concat (map sha1 chunks))
  unfolding recipe_files find
  find-recipe_files version [] chunks e = absurd (ground arith)
  find-recipe_files version ((v, c) ∷ versions) chunks e = elim (Bool-cases (v == version)) [
    | inl same ↦ let here : c ≡ chunks = ground arith in rw (same, here) refl
    | inr other ↦ rw other (find-recipe_files version versions chunks (ground arith))
  ]

  pub find-recipe_files-none :
      (version : ℕ) (versions : Versions)
      → find version versions ≡ none
      → find version (recipe_files versions) ≡ none
  unfolding recipe_files find
  find-recipe_files-none version [] e = refl
  find-recipe_files-none version ((v, c) ∷ versions) e =
      ground (arith, find-recipe_files-none version versions)

  pub erase-recipe_files :
      (version : ℕ) (versions : Versions)
      → erase version (recipe_files versions) ≡ recipe_files (erase version versions)
  unfolding recipe_files erase
  erase-recipe_files version [] = refl
  erase-recipe_files version ((v, c) ∷ versions) = elim (Bool-cases (v == version)) [
    | inl same ↦ rw same refl
    | inr other ↦ rw other (λ i. (v, concat (map sha1 c)) ∷ erase-recipe_files version versions i)
  ]

  -- A version's chunks are among the uses, and the other versions' are the rest.
  pub uses-erase :
      (fp : Sha1Fp) (version : ℕ) (versions : Versions) (chunks : List Bytes)
      → find version versions ≡ some chunks
      → uses fp versions ≡ occurrences fp chunks + uses fp (erase version versions)
  unfolding uses find erase
  uses-erase fp version [] chunks e = absurd (ground arith)
  uses-erase fp version ((v, c) ∷ versions) chunks e = elim (Bool-cases (v == version)) [
    | inl same ↦ let here : c ≡ chunks = ground arith in rw (same, here, uses) refl
    | inr other ↦
        let rest = uses-erase fp version versions chunks (ground arith) in
        rw (other, uses) (omega (arith, rest))
  ]

  -- What holds of a chunk that occurs holds of each.
  pub All-occurrences {ρ} :
      (P : Bytes → Type ρ) (chunks : List Bytes)
      → ((chunk : Bytes) → 0 < occurrences (fp_of sha1 chunk) chunks → P chunk)
      → All P chunks
  unfolding occurrences
  All-occurrences P [] f = tt
  All-occurrences P (x ∷ chunks) f = (
    f x (rw (same_fp (fp_of sha1 x), occurrences) (omega arith)),
    All-occurrences P chunks (λ chunk h. f chunk (ground arith)),
  )
