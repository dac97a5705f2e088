-- ===== src/Tests/Files.antt =====
-- Two whole files, the second of which is there already.
use c_dedup.Base.{
  ap, ℕ, ◌≡◌, refl, true, false, none, some, [], ◌∷◌, ◌++◌, replicate, arith, find, nat_eq, Bytes,
}
use c_dedup.FullFile.{
  FullFileDeduplicater, FileStore, scan_and_insert_hash, scan_and_delete_hash, write_file,
  restore_file, compute_file_hash, new_full_file_deduplicater,
}
use c_dedup.FullFile.Table.{Table, encode}
use c_dedup.FullFile.Rows.{IsOther}
use c_dedup.FullFile.Lookup.{IsTable}
use c_dedup.FullFile.Methods.{
  scan_and_insert_hash-encode, scan_and_delete_hash-encode, write_file-restore_file,
  write_file-twice,
}
use c_dedup.Tests.Toy.{toy_sha1, toy_sha1-IsSha1, same, first_chunk, last_chunk}

abbrev first_hash : Bytes
first_hash = replicate 20 1

abbrev one_row : Table
one_row = (first_hash, 3) ∷ []

abbrev counted : FullFileDeduplicater
counted = record { files_num = 1; file_id = none; file_exist = false }

abbrev one_file : FileStore
one_file = record { fingerprints = encode one_row; storage = (0, first_chunk) ∷ [] }

one_row-IsTable : IsTable one_row counted
one_row-IsTable = record { rows = ((refl, omega arith), tt); few = omega arith; files_num = refl }

abbrev first_byte : Bytes → ℕ
first_byte [] = 0
first_byte (b ∷ bs) = b

new : IsOther (compute_file_hash toy_sha1 last_chunk) (first_hash, 3)
unfolding compute_file_hash toy_sha1 same
new e = absurd (omega (arith, ap first_byte e))

free : find 1 one_file.storage ≡ none
unfolding find
free = refl

write_file-restore_file_example :
    (d' : FullFileDeduplicater) × (fs' : FileStore) × (write_file toy_sha1 last_chunk counted
        one_file
      ≡ some (d', fs'))
    × (d'.file_id ≡ some 1)
    × (fs'.fingerprints ≡ encode (one_row ++ (compute_file_hash toy_sha1 last_chunk, 1) ∷ []))
    × (restore_file toy_sha1 1 (9 ∷ 9 ∷ []) fs' ≡ 3 ∷ 9 ∷ [])
write_file-restore_file_example =
    write_file-restore_file toy_sha1 last_chunk one_row counted one_file toy_sha1-IsSha1
      one_row-IsTable refl (9 ∷ 9 ∷ []) (new, tt) free (omega arith)

write_file-twice_example :
    (d1 : FullFileDeduplicater) × (d2 : FullFileDeduplicater) × (fs1 : FileStore)
    × (fs2 : FileStore) × (write_file toy_sha1 last_chunk counted one_file ≡ some (d1, fs1))
    × (write_file toy_sha1 last_chunk (new_full_file_deduplicater fs1) fs1 ≡ some (d2, fs2))
    × (d2.file_id ≡ d1.file_id)
    × (fs2.storage ≡ fs1.storage)
    × (fs2.fingerprints ≡ encode (one_row ++ (compute_file_hash toy_sha1 last_chunk, 2) ∷ []))
    × (restore_file toy_sha1 1 (9 ∷ 9 ∷ []) fs2 ≡ 3 ∷ 9 ∷ [])
write_file-twice_example =
    write_file-twice toy_sha1 last_chunk (9 ∷ 9 ∷ []) one_row counted one_file toy_sha1-IsSha1
      one_row-IsTable refl (new, tt) free (omega arith) (omega arith)

-- A row of the hash that is not in use stands before the one that is.
abbrev two_rows : Table
two_rows = (first_hash, 0) ∷ (first_hash, 3) ∷ []

abbrev counted_two : FullFileDeduplicater
counted_two = record { files_num = 2; file_id = none; file_exist = false }

two_rows-IsTable : IsTable two_rows counted_two
two_rows-IsTable = record {
  rows = ((refl, omega arith), ((refl, omega arith), tt));
  few = omega arith;
  files_num = refl;
}

scan_and_insert_hash-encode_example :
    scan_and_insert_hash first_hash counted_two (encode two_rows)
    ≡ some (
      4,
      record counted_two { file_id = some 1; file_exist = true },
      encode ((first_hash, 0) ∷ (first_hash, 4) ∷ []),
    )
scan_and_insert_hash-encode_example =
    (scan_and_insert_hash-encode first_hash refl counted_two).0 ((first_hash, 0) ∷ []) [] 3
      two_rows-IsTable (omega arith) (λ e. refl, tt)

scan_and_delete_hash-encode_example :
    scan_and_delete_hash first_hash counted_two (encode two_rows)
    ≡ some (2, encode ((first_hash, 0) ∷ (first_hash, 2) ∷ []))
scan_and_delete_hash-encode_example =
    (scan_and_delete_hash-encode first_hash refl counted_two).0 ((first_hash, 0) ∷ []) [] 2
      two_rows-IsTable (λ e. refl, tt)
