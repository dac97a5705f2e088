-- ===== src/Tests/Deletes.antt =====
-- A container of two chunks, from which the first is deleted.
use c_dedup.Base.{
  ◌<◌, ◌≡◌, ◌+◌, refl, sym, subst, true, false, none, some, [], ◌∷◌, arith, of_le, ◌≤◌, length,
  find, nat_eq, inr,
}
use c_dedup.Store.{Store}
use c_dedup.Metadata.{
  Sha1Fp, EntryValue, MetadataManager, tuple_equaler, tuple_equaler_iff, fp_of_bytes,
}
use c_dedup.Metadata.Codec.{IsFp}
use c_dedup.Metadata.Index.{IsIndex, entry}
use c_dedup.Backup.Sound.{Sound, Holds}
use c_dedup.Backup.Repository.{on_disk}
use c_dedup.Delete.{container_del_chunk}
use c_dedup.Delete.Shelf.{Shares}
use c_dedup.Delete.Reverse.{reverse_file}
use c_dedup.Delete.Whole.{IsShelf, container_del_chunk-Sound}
use c_dedup.Tests.Toy.{toy_sha1, same}

-- The fingerprints of the two chunks: digests of bytes 1, and of bytes 2.
abbrev pub deleted : Sha1Fp
deleted = record { fp1 = 72340172838076673; fp2 = 16843009; fp3 = 16843009; fp4 = 16843009 }

abbrev pub kept : Sha1Fp
kept = record { fp1 = 144680345676153346; fp2 = 33686018; fp3 = 33686018; fp4 = 33686018 }

abbrev second : EntryValue
second = record {
  container_number = 0;
  offset = 2;
  chunk_length = 1;
  container_inner_index = 1;
  ref_cnt = 1;
}

abbrev index : MetadataManager
index = record { fp_table_origin = (kept, second) ∷ []; fp_table_added = [] }

index-IsIndex : IsIndex index
unfolding find
index-IsIndex = record { origin = (refl, tt); added = tt; apart = λ fp h. refl }

abbrev store : Store
store = record {
  containers = (0, 1 ∷ 2 ∷ 3 ∷ []) ∷ [];
  reverse = (0, reverse_file (deleted ∷ kept ∷ [])) ∷ [];
  recipes = [];
  fingerprints = none;
}

pub deleted-IsFp : IsFp deleted
deleted-IsFp = record { fp1 = omega arith; fp2 = omega arith; fp3 = omega arith; fp4 = omega arith }

pub kept-IsFp : IsFp kept
kept-IsFp = record { fp1 = omega arith; fp2 = omega arith; fp3 = omega arith; fp4 = omega arith }

entry_there : entry index kept ≡ some second
unfolding entry find tuple_equaler
entry_there = refl

differs : tuple_equaler kept deleted ≡ false
unfolding tuple_equaler
differs = refl

-- There is one entry.
only_kept :
    (fp : Sha1Fp) (v : EntryValue)
    → entry index fp ≡ some v
    → (tuple_equaler kept fp ≡ true) × (v ≡ second)
unfolding entry find
only_kept fp v e = ground arith

store-Sound : Sound toy_sha1 (on_disk store) index
unfolding find toy_sha1 same fp_of_bytes of_le
store-Sound fp v e =
    let (here, at) = only_kept fp v e in
    subst (λ w. Holds toy_sha1 (on_disk store) fp w) (sym at)
      (record {
        content = 1 ∷ 2 ∷ 3 ∷ [];
        stored = refl;
        within = omega arith;
        nonempty = omega arith;
        reach = omega arith;
        matches = (tuple_equaler_iff kept fp).0 here;
      })

store-Shares : Shares 0 0 2 (kept ∷ []) index
store-Shares = record {
  known = λ j h.
      let same : kept ≡ j = ground (arith, tuple_equaler_iff kept j) in
      (second, subst (λ j. entry index j ≡ some second) same entry_there, refl);
  only = λ j v e number.
      let (here, at) = only_kept j v e in
      (rw here refl, inr (subst (λ v. 0 + 2 ≤ v.offset) (sym at) (omega arith)));
}

store-IsShelf : IsShelf 0 [] (kept ∷ []) deleted 0 2 store index
unfolding find
store-IsShelf = record {
  content = 1 ∷ 2 ∷ 3 ∷ [];
  stored = refl;
  within = omega arith;
  small = omega arith;
  nonempty = omega arith;
  reverse = refl;
  reverse_small = omega arith;
  del_in_range = deleted-IsFp;
  in_range = (kept-IsFp, tt);
  known = (rw entry_there refl, tt);
  once = (refl, tt);
  del_once = rw differs refl;
  shares = store-Shares;
}

container_del_chunk-Sound_example :
    (s' : Store) × (m' : MetadataManager) × (container_del_chunk 0 deleted 0 2 store index
      ≡ some (s', m'))
    × IsIndex m'
    × Sound toy_sha1 (on_disk s') m'
    × (0 < length (kept ∷ []) → find 0 s'.reverse ≡ some (reverse_file (kept ∷ [])))
container_del_chunk-Sound_example =
    container_del_chunk-Sound toy_sha1 0 [] (kept ∷ []) deleted 0 2 store index store-IsShelf
      index-IsIndex store-Sound
