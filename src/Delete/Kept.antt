-- ===== src/Delete/Kept.antt =====
-- What a repository keeps for the versions that are in it: the index of src/MetadataManager.cpp, and
-- the containers, reverse files and recipes of main.cpp.
use c_dedup.Base.{
  ℕ, ◌+◌, ◌*◌, ◌≤◌, ◌<◌, ◌≡◌, true, false, some, List, [], length, Bytes, All, find, nat_eq,
  Distinct,
}
use c_dedup.Store.{Store, Files, container_size}
use c_dedup.Metadata.{Sha1Fp, EntryValue, MetadataManager, tuple_equaler, file_cache}
use c_dedup.Metadata.Codec.{IsFp, IsEntry}
use c_dedup.Metadata.Index.{IsIndex, entry, entries_num}
use c_dedup.Backup.{open_index}
use c_dedup.Backup.Sound.{Sound}
use c_dedup.Backup.Repository.{on_disk}
use c_dedup.Delete.Offsets.{listed, Once}
use c_dedup.Delete.Shelf.{IsSmall, Apart}
use c_dedup.Delete.Reverse.{reverse_file}
use c_dedup.Delete.Counts.{Versions, refs, recipe_files, uses}

-- `shelf k` are the fingerprints of the chunks in container `k`, in the order of its reverse file.
-- Two chunks of a container have no byte in common.
pub record Shelves (shelf : ℕ → List Sha1Fp) (containers reverse : Files) (m : MetadataManager)
    : Type 0 where
  pub known :
      (k : ℕ) (j : Sha1Fp)
      → listed j (shelf k) ≡ true
      → (v : EntryValue) × (entry m j ≡ some v) × (v.container_number ≡ k)
  pub only :
      (j : Sha1Fp) (v : EntryValue)
      → entry m j ≡ some v
      → listed j (shelf v.container_number) ≡ true
  pub apart :
      (i j : Sha1Fp) (v w : EntryValue)
      → entry m i ≡ some v
      → entry m j ≡ some w
      → tuple_equaler i j ≡ false
      → v.container_number ≡ w.container_number
      → Apart w.offset w.chunk_length v
  pub once : (k : ℕ) → Once (shelf k)
  pub reverse_files :
      (k : ℕ) → 0 < length (shelf k) → find k reverse ≡ some (reverse_file (shelf k))
  pub reverse_small : (k : ℕ) → 4 + 20 * length (shelf k) ≤ container_size
  pub small : All IsSmall containers

-- A loaded index that is sound, has an entry for each fingerprint that is wanted and for no other,
-- and counts how often it is wanted.
pub record Tracks (sha1 : Bytes → Bytes) (want : Sha1Fp → ℕ) (shelf : ℕ → List Sha1Fp) (s : Store)
    (m : MetadataManager) : Type 0 where
  pub index : IsIndex m
  pub loaded : m.fp_table_added ≡ []
  pub fits : entries_num m * 36 ≤ file_cache
  pub sound : Sound sha1 (on_disk s) m
  pub counted : (fp : Sha1Fp) → refs (entry m fp) ≡ want fp
  pub positive : (fp : Sha1Fp) (v : EntryValue) → entry m fp ≡ some v → 0 < v.ref_cnt
  pub in_range : (fp : Sha1Fp) (v : EntryValue) → entry m fp ≡ some v → IsFp fp × IsEntry v
  pub shelves : Shelves shelf s.containers s.reverse m

-- A repository with just these versions. The recipes are the versions' digests, and the index
-- counts how often they refer to each fingerprint.
pub record IsKept (sha1 : Bytes → Bytes) (versions : Versions) (s : Store) : Type 0 where
  pub shelf : ℕ → List Sha1Fp
  pub distinct : Distinct versions
  pub recipes : s.recipes ≡ recipe_files sha1 versions
  pub tracks : Tracks sha1 (λ fp. uses sha1 fp versions) shelf s (open_index s)
