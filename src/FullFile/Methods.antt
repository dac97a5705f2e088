-- ===== src/FullFile/Methods.antt =====
-- The methods on the file of fingerprints, and a file that is written and restored:
-- src/full_file_deduplicater.cpp.
use c_dedup.Base.{
  length-append, sym, All-split, All-append, ◌<◌, ◌*◌, ℕ, zero, suc, ◌+◌, ◌-◌, ◌%◌, ◌^◌, ◌≤◌, ◌≡◌,
  refl, ap, ◌∙◌, true, false, none, some, [], ◌∷◌, ◌++◌, arith, ◌==◌, length, take, drop, All,
  Bytes, write_at, write_at_front, append-nil, take_of_length-le, find, find-assign, assign, nat_eq,
}
use c_dedup.Store.{put_file}
use c_dedup.FullFile.{
  FullFileDeduplicater, FileStore, full_file_cache, scan_and_insert_hash, scan_and_delete_hash,
  compute_file_hash, write_file, restore_file, new_full_file_deduplicater,
}
use c_dedup.FullFile.Table.{Table, encode, IsRow, length-encode}
use c_dedup.FullFile.Rows.{IsOther, row_of-none, row_of-first, set_row-first, count_of-first}
use c_dedup.Backup.Append.{IsSha1}
use c_dedup.Metadata.{file_cache}
use c_dedup.FullFile.Lookup.{IsTable, insert-row_of, delete-row_of}

module _ (hash : Bytes) (size : length hash ≡ 20) (d : FullFileDeduplicater) where
  -- On the bytes of a table of 100 rows at most, and a hash of 20 bytes: where the row of the hash
  -- stands that is the first of them in use, its count is raised by one, modulo 2^32, and the object
  -- has the number of that row; where no row of the hash is in use, a new one with one reference goes
  -- behind the others, and the object has its number. No other row changes, and the result is the
  -- count.
  pub scan_and_insert_hash-encode :
      ((pre post : Table) (n : ℕ)
        → IsTable (pre ++ (hash, n) ∷ post) d
        → 0 < n
        → All (IsOther hash) pre
        → scan_and_insert_hash hash d (encode (pre ++ (hash, n) ∷ post))
          ≡ some (
            (n + 1) % 2 ^ 32,
            record d { file_id = some (length pre); file_exist = true },
            encode (pre ++ (hash, (n + 1) % 2 ^ 32) ∷ post),
          ))
      × ((table : Table)
          → IsTable table d
          → All (IsOther hash) table
          → scan_and_insert_hash hash d (encode table)
            ≡ some (
              1,
              record d { file_id = some (length table); file_exist = false },
              encode (table ++ (hash, 1) ∷ []),
            ))
  scan_and_insert_hash-encode = (
    λ pre post n ok pos others.
        (insert-row_of (pre ++ (hash, n) ∷ post) hash d ok).0 (length pre)
          (row_of-first hash size n post pos pre ok.rows others)
        ∙ (λ i. some (
          (count_of-first hash size n post pos pre ok.rows others i + 1) % 2 ^ 32,
          record d { file_id = some (length pre); file_exist = true },
          encode (set_row-first hash size n post pos (λ n. (n + 1) % 2 ^ 32) pre ok.rows others i),
        )),
    λ table ok others.
        (insert-row_of table hash d ok).1 (row_of-none hash size table 0 ok.rows others),
  )

  -- On the bytes of a table of 100 rows at most, and a hash of 20 bytes: where the row of the hash
  -- stands that is the first of them in use, its count is lowered by one, no other row changes, and
  -- the result is the count; where no row of the hash is in use, the file stays as it is, and the
  -- result is 0.
  pub scan_and_delete_hash-encode :
      ((pre post : Table) (n : ℕ)
        → IsTable (pre ++ (hash, n + 1) ∷ post) d
        → All (IsOther hash) pre
        → scan_and_delete_hash hash d (encode (pre ++ (hash, n + 1) ∷ post))
          ≡ some (n, encode (pre ++ (hash, n) ∷ post)))
      × ((table : Table)
          → IsTable table d
          → All (IsOther hash) table
          → scan_and_delete_hash hash d (encode table) ≡ some (0, encode table))
  scan_and_delete_hash-encode = (
    λ pre post n ok others.
        let pos : 0 < n + 1 = omega arith in
        let row = (All-split IsRow pre ((hash, n + 1) ∷ post) ok.rows).1.0 in
        let less : ((n + 1) + (2 ^ 32 - 1)) % 2 ^ 32 ≡ n = omega (arith, row.1) in
        (delete-row_of (pre ++ (hash, n + 1) ∷ post) hash d ok).0 (length pre)
          (row_of-first hash size (n + 1) post pos pre ok.rows others)
        ∙ ((λ i. some (
          (count_of-first hash size (n + 1) post pos pre ok.rows others i + (2 ^ 32 - 1)) % 2 ^ 32,
          encode (
              set_row-first hash size (n + 1) post pos (λ n. (n + (2 ^ 32 - 1)) % 2 ^ 32) pre
                ok.rows others i),
        ))
            ∙ ap (λ n. some (n, encode (pre ++ (hash, n) ∷ post))) less),
    λ table ok others.
        (delete-row_of table hash d ok).1 (row_of-none hash size table 0 ok.rows others),
  )

same_key : (k : ℕ) → (k == k) ≡ true
same_key k = ground arith

drop-nil : (n : ℕ) → drop {A = ℕ} n [] ≡ []
drop-nil zero = refl
drop-nil (suc n) = refl

write_front : (new : Bytes) → write_at 0 new [] ≡ new
unfolding write_at
write_front new = write_at_front new [] ∙ (ap (◌++◌ new) (drop-nil (length new)) ∙ append-nil new)

module _ (sha1 : Bytes → Bytes) (input : Bytes) (table : Table) (d : FullFileDeduplicater)
    (fs : FileStore) (is_sha1 : IsSha1 sha1) (ok : IsTable table d)
    (there : fs.fingerprints ≡ encode table) where
  size : length (compute_file_hash sha1 input) ≡ 20
  unfolding compute_file_hash
  size = is_sha1.digest_length (take file_cache input)

  -- A file whose hash has no row in use is stored under the next number, and the restore of that number gives
  -- it back, over the front of what stood at the path.
  pub write_file-restore_file :
      (old : Bytes)
      → All (IsOther (compute_file_hash sha1 input)) table
      → find (length table) fs.storage ≡ none
      → length input ≤ full_file_cache
      → (d' : FullFileDeduplicater) × (fs' : FileStore) × (write_file sha1 input d fs
          ≡ some (d', fs'))
        × (d'.file_id ≡ some (length table))
        × (fs'.fingerprints ≡ encode (table ++ (compute_file_hash sha1 input, 1) ∷ []))
        × (restore_file sha1 (length table) old fs' ≡ input ++ drop (length input) old)
  unfolding write_file restore_file put_file
  write_file-restore_file old new free small =
      let hash = compute_file_hash sha1 input in
      let run =
        ap (scan_and_insert_hash hash d) there
        ∙ (scan_and_insert_hash-encode hash size d).1 table ok new in
      let whole : take full_file_cache input ≡ input =
        take_of_length-le full_file_cache input small in
      (
        record d { file_id = some (length table); file_exist = false },
        record fs {
          fingerprints = encode (table ++ (hash, 1) ∷ []);
          storage = assign (length table) input fs.storage;
        },
        rw (run, free, whole, write_front input) refl,
        refl,
        refl,
        rw
            (
              find-assign (length table) (length table) input fs.storage,
              same_key (length table),
              whole,
            )
            (write_at_front input old),
      )

-- A file of which a copy has been stored under the number of a row of its hash, the first in use, is
-- not stored again: the row counts one reference more, and the object has its number.
write_file-known :
    (sha1 : Bytes → Bytes) (input : Bytes) (pre post : Table) (n : ℕ) (d : FullFileDeduplicater)
    (fs : FileStore)
    → IsSha1 sha1
    → IsTable (pre ++ (compute_file_hash sha1 input, n) ∷ post) d
    → fs.fingerprints ≡ encode (pre ++ (compute_file_hash sha1 input, n) ∷ post)
    → 0 < n
    → All (IsOther (compute_file_hash sha1 input)) pre
    → write_file sha1 input d fs
      ≡ some (
        record d { file_id = some (length pre); file_exist = true },
        record fs {
          fingerprints = encode (pre ++ (compute_file_hash sha1 input, (n + 1) % 2 ^ 32) ∷ post);
        },
      )
unfolding write_file compute_file_hash
write_file-known sha1 input pre post n d fs is_sha1 ok there pos others =
    let hash = compute_file_hash sha1 input in
    let size = is_sha1.digest_length (take file_cache input) in
    let run =
      ap (scan_and_insert_hash hash d) there
      ∙ (scan_and_insert_hash-encode hash size d).0 pre post n ok pos others in
    rw run refl

entries :
    (fs : FileStore) (n : ℕ)
    → length fs.fingerprints ≡ 24 * n
    → (new_full_file_deduplicater fs).files_num ≡ n
unfolding new_full_file_deduplicater
entries fs n h = omega (arith, h)

-- A new file is stored once: the next process, which is given the same file, finds it under the
-- number it was given, counts a second reference in its row and leaves the stored files alone, and
-- the restore of that number gives the file back, over the front of what stood at the path. At first
-- no row of the file's hash is in use, no stored file has the next number, the table has less than
-- 100 rows, and the file fits into the cache; SHA-1 gives digests of 20 bytes.
pub write_file-twice :
    (sha1 : Bytes → Bytes) (input old : Bytes) (table : Table) (d : FullFileDeduplicater)
    (fs : FileStore)
    → IsSha1 sha1
    → IsTable table d
    → fs.fingerprints ≡ encode table
    → All (IsOther (compute_file_hash sha1 input)) table
    → find (length table) fs.storage ≡ none
    → length input ≤ full_file_cache
    → length table < 100
    → (d1 : FullFileDeduplicater) × (d2 : FullFileDeduplicater) × (fs1 : FileStore)
      × (fs2 : FileStore) × (write_file sha1 input d fs ≡ some (d1, fs1))
      × (write_file sha1 input (new_full_file_deduplicater fs1) fs1 ≡ some (d2, fs2))
      × (d2.file_id ≡ d1.file_id)
      × (fs2.storage ≡ fs1.storage)
      × (fs2.fingerprints ≡ encode (table ++ (compute_file_hash sha1 input, 2) ∷ []))
      × (restore_file sha1 (length table) old fs2 ≡ input ++ drop (length input) old)
unfolding restore_file
write_file-twice sha1 input old table d fs is_sha1 ok there new free small room =
    let hash = compute_file_hash sha1 input in
    let (d1, fs1, run, id, prints, back) =
      write_file-restore_file sha1 input table d fs is_sha1 ok there old new free small in
    let rows =
      All-append IsRow table ((hash, 1) ∷ []) ok.rows
        ((size sha1 input table d fs is_sha1 ok there, omega arith), tt) in
    let counted : length (table ++ (hash, 1) ∷ []) ≡ length table + 1 =
      length-append table ((hash, 1) ∷ []) in
    let bytes = ap length prints ∙ length-encode (table ++ (hash, 1) ∷ []) rows in
    let next : IsTable (table ++ (hash, 1) ∷ []) (new_full_file_deduplicater fs1) = record {
      rows = rows;
      few = omega (arith, counted, room);
      files_num = entries fs1 (length (table ++ (hash, 1) ∷ [])) bytes;
    } in
    (
      d1,
      record (new_full_file_deduplicater fs1) { file_id = some (length table); file_exist = true },
      fs1,
      record fs1 { fingerprints = encode (table ++ (hash, 2) ∷ []) },
      run,
      write_file-known sha1 input table [] 1 (new_full_file_deduplicater fs1) fs1 is_sha1 next
          prints (omega arith) new,
      sym id,
      refl,
      refl,
      back,
    )
