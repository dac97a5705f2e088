-- ===== src/FullFile/Lookup.antt =====
-- The two scans on the file of fingerprints, by the row that the loop finds:
-- src/full_file_deduplicater.cpp.
use c_dedup.Base.{
  ℕ, ◌+◌, ◌-◌, ◌%◌, ◌^◌, ◌≤◌, ◌≡◌, refl, ap, ◌∙◌, true, false, none, some, [], ◌∷◌, ◌++◌, arith,
  length, replicate, All, Bytes, append-nil, take_of_length-le, nat_eq,
}
use c_dedup.FullFile.{
  FullFileDeduplicater, fingerprints_array, scan_entries, scan_and_insert_hash,
  scan_and_delete_hash,
}
use c_dedup.FullFile.Table.{
  Table, encode, IsRow, row_of, set_row, count_of, length-encode, encode-append,
}
use c_dedup.FullFile.Scan.{scan_entries-row_of, changed}

-- A file of fingerprints that the array has room for, and an object that has counted its entries.
pub record IsTable (table : Table) (d : FullFileDeduplicater) : Type 0 where
  pub rows : All IsRow table
  pub few : length table ≤ 100
  pub files_num : d.files_num ≡ length table

array :
    (table : Table)
    → All IsRow table
    → length table ≤ 100
    → fingerprints_array (encode table) ≡ encode table ++ replicate (2400 - length (encode table)) 0
unfolding fingerprints_array
array table rows few =
    ap (λ bs. bs ++ replicate (2400 - length (encode table)) 0)
      (take_of_length-le 2400 (encode table) (omega (arith, length-encode table rows)))

module _ (table : Table) (hash : Bytes) (d : FullFileDeduplicater) (ok : IsTable table d) where
  scanned :
      scan_entries d.files_num 0 hash (fingerprints_array (encode table))
      ≡ some (row_of hash 0 table)
  scanned =
      ap (λ n. scan_entries n 0 hash (fingerprints_array (encode table))) ok.files_num
      ∙ (ap (scan_entries (length table) 0 hash) (array table ok.rows ok.few)
          ∙ scan_entries-row_of table 0 hash (replicate (2400 - length (encode table)) 0) ok.rows)

  pub insert-row_of :
      ((k : ℕ)
        → row_of hash 0 table ≡ some k
        → scan_and_insert_hash hash d (encode table)
          ≡ some (
            (count_of hash table + 1) % 2 ^ 32,
            record d { file_id = some k; file_exist = true },
            encode (set_row hash (λ n. (n + 1) % 2 ^ 32) table),
          ))
      × (row_of hash 0 table ≡ none
          → scan_and_insert_hash hash d (encode table)
            ≡ some (
              1,
              record d { file_id = some (length table); file_exist = false },
              encode (table ++ (hash, 1) ∷ []),
            ))
  unfolding scan_and_insert_hash
  insert-row_of = (
    λ k e. rw (scanned, e, changed table hash k 1 ok.rows e) refl,
    λ e. rw (scanned, e, ok.files_num, encode-append table ((hash, 1) ∷ []), append-nil),
  )

  pub delete-row_of :
      ((k : ℕ)
        → row_of hash 0 table ≡ some k
        → scan_and_delete_hash hash d (encode table)
          ≡ some (
            (count_of hash table + (2 ^ 32 - 1)) % 2 ^ 32,
            encode (set_row hash (λ n. (n + (2 ^ 32 - 1)) % 2 ^ 32) table),
          ))
      × (row_of hash 0 table ≡ none
          → scan_and_delete_hash hash d (encode table) ≡ some (0, encode table))
  unfolding scan_and_delete_hash
  delete-row_of = (
    λ k e. rw (scanned, e, changed table hash k (2 ^ 32 - 1) ok.rows e) refl,
    λ e. rw (scanned, e) refl,
  )
