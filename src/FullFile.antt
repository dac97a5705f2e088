-- ===== src/FullFile.antt =====
-- File-level deduplication: src/full_file_deduplicater.cpp and include/full_file_deduplicater.h.
--
-- The file of fingerprints is a list of bytes, the stored files a map from their number. `none` is a
-- read behind the end of the array that the fingerprints are read into. The input file and the files
-- of the repository can be opened, and the storage path does not end in a slash.
pub mod Table
pub mod Rows
pub mod Scan
pub mod Lookup
pub mod Methods
use c_dedup.Base.{
  ℕ, zero, suc, ◌+◌, ◌-◌, ◌*◌, ◌/◌, ◌%◌, ◌^◌, Bool, true, false, ◌&&◌, Option, none, some, List, [],
  ◌∷◌, ◌++◌, ltb, ◌==◌, if◌then◌else◌, length, take, drop, window, replicate, Bytes, le_bytes,
  of_le, write_at, find, assign, erase, value_or, nat_eq, ◌>>=◌,
}
use c_dedup.Store.{Files, put_file}
use c_dedup.Metadata.{file_cache}

abbrev pub full_file_cache : ℕ
full_file_cache = 1024 * 1024 * 1024

abbrev pub file_fingerprints_cache : ℕ
file_fingerprints_cache = 24 * 100

abbrev pub hash_length : ℕ
hash_length = 20

abbrev pub count_length : ℕ
count_length = 4

abbrev pub entry_length : ℕ
entry_length = 24

-- The class's variables; a `file_id` of -1 is `none`.
pub record FullFileDeduplicater : Type 0 where
  pub files_num : ℕ
  pub file_id : Option ℕ
  pub file_exist : Bool

pub record FileStore : Type 0 where
  pub fingerprints : Bytes
  pub storage : Files

-- The constructor, with `init_files_num`.
unfoldable pub new_full_file_deduplicater : FileStore → FullFileDeduplicater
new_full_file_deduplicater fs = record {
  files_num = length fs.fingerprints / entry_length;
  file_id = none;
  file_exist = false;
}

-- `uint32not0`
unfoldable pub uint32not0 : Bytes → Bool
uint32not0 [] = false
uint32not0 (a ∷ []) = false
uint32not0 (a ∷ b ∷ []) = false
uint32not0 (a ∷ b ∷ c ∷ []) = false
uint32not0 (a ∷ b ∷ c ∷ d ∷ rest) =
    if (a == 0) && ((b == 0) && ((c == 0) && (d == 0))) then false else true

-- `file_uint32chg`: the file, and the new number.
unfoldable pub file_uint32chg : ℕ → ℕ → Bytes → Bytes × ℕ
file_uint32chg offset delta file =
    let ut = (of_le (window offset 4 file) + delta) % 2 ^ 32 in
    (write_at offset (le_bytes 4 ut) file, ut)

-- The inner loop of a scan, over the bytes of a hash.
unfoldable pub equal_bytes : Bytes → Bytes → Bool
equal_bytes [] ys = true
equal_bytes (x ∷ xs) [] = false
equal_bytes (x ∷ xs) (y ∷ ys) = let rest = equal_bytes xs ys in if x == y then rest else false

-- The loop of `scan_and_insert_hash` and of `scan_and_delete_hash`, from entry `i` on.
unfoldable pub scan_entries : ℕ → ℕ → Bytes → Bytes → Option (Option ℕ)
scan_entries zero i hash cache = some none
scan_entries (suc files) i hash cache =
    let rest = scan_entries files (i + 1) hash (drop entry_length cache) in
    if ltb (length cache) entry_length
    then none
    else (if equal_bytes hash (window 0 hash_length cache)
          && uint32not0 (window hash_length count_length cache)
        then some (some i)
        else rest)

-- The array that the fingerprints are read into.
unfoldable pub fingerprints_array : Bytes → Bytes
fingerprints_array file =
    take file_fingerprints_cache file ++ replicate (file_fingerprints_cache - length file) 0

-- `scan_and_insert_hash`, with `insert_hash`.
unfoldable pub scan_and_insert_hash :
    Bytes → FullFileDeduplicater → Bytes → Option (ℕ × FullFileDeduplicater × Bytes)
scan_and_insert_hash hash d file =
    scan_entries d.files_num 0 hash (fingerprints_array file) >>= λ r. elim r [
      | some i ↦
          let chg = file_uint32chg (i * entry_length + hash_length) 1 file in
          some (chg.1, record d { file_id = some i; file_exist = true }, chg.0)
      | none ↦ some (
        1,
        record d { file_id = some d.files_num; file_exist = false },
        file ++ (hash ++ le_bytes 4 1),
      )
    ]

-- `scan_and_delete_hash`; the number is 0 if the hash is not there.
unfoldable pub scan_and_delete_hash : Bytes → FullFileDeduplicater → Bytes → Option (ℕ × Bytes)
scan_and_delete_hash hash d file =
    scan_entries d.files_num 0 hash (fingerprints_array file) >>= λ r. elim r [
      | some i ↦
          let chg = file_uint32chg (i * entry_length + hash_length) (2 ^ 32 - 1) file in
          some (chg.1, chg.0)
      | none ↦ some (0, file)
    ]

module _ (sha1 : Bytes → Bytes) where
  -- `compute_file_hash`
  unfoldable pub compute_file_hash : Bytes → Bytes
  compute_file_hash file = sha1 (take file_cache file)

  -- `writeFile`, with `save_file`.
  unfoldable pub write_file :
      Bytes → FullFileDeduplicater → FileStore → Option (FullFileDeduplicater × FileStore)
  write_file input d fs = scan_and_insert_hash (compute_file_hash input) d fs.fingerprints >>= λ r.
      let fs' = record fs { fingerprints = r.2 } in
      if r.1.file_exist
      then some (r.1, fs')
      else (r.1.file_id >>= λ id.
          some (r.1, record fs' { storage = put_file id (take full_file_cache input) fs'.storage }))

  -- `restoreFile`, over what stood at the path.
  unfoldable pub restore_file : ℕ → Bytes → FileStore → Bytes
  restore_file file_id old fs =
      write_at 0 (take full_file_cache (value_or (find file_id fs.storage) [])) old

  -- `deleteFile`: of a file that is not there the hash stays zero.
  unfoldable pub delete_file : ℕ → FullFileDeduplicater → FileStore → Option FileStore
  delete_file file_id d fs =
      let hash : Bytes = elim (find file_id fs.storage) [
        | some file ↦ compute_file_hash file
        | none ↦ replicate hash_length 0
      ] in
      scan_and_delete_hash hash d fs.fingerprints >>= λ r.
      let fs' = record fs { fingerprints = r.1 } in
      some (if r.0 == 0 then record fs' { storage = erase file_id fs.storage } else fs')
