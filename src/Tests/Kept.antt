-- ===== src/Tests/Kept.antt =====
-- A repository of two versions, whose chunks stand in one container.
use c_dedup.Base.{
  ℕ, ◌<◌, ◌≡◌, ◌⊎◌, refl, sym, subst, ap, true, false, none, some, List, [], ◌∷◌, arith, ◌==◌,
  if◌then◌else◌, length, of_le, find, nat_eq, inl, inr, Bool-cases, ==_iff,
}
use c_dedup.Store.{Store}
use c_dedup.Metadata.{
  Sha1Fp, EntryValue, MetadataManager, tuple_equaler, tuple_equaler_iff, fp_of_bytes, save, fp_eq,
}
use c_dedup.Metadata.Codec.{IsFp, IsEntry}
use c_dedup.Metadata.Index.{IsIndex, entry}
use c_dedup.Backup.Append.{fp_of}
use c_dedup.Backup.Sound.{Sound, Holds}
use c_dedup.Backup.Repository.{on_disk}
use c_dedup.Delete.Offsets.{listed, Once}
use c_dedup.Delete.Shelf.{Apart}
use c_dedup.Delete.Reverse.{reverse_file}
use c_dedup.Delete.Counts.{Versions, refs, uses, occurrences, recipe_files, same_fp}
use c_dedup.Delete.Kept.{Shelves, Tracks, IsKept}
use c_dedup.Delete.Task.{Tracks-next}
use c_dedup.Tests.Toy.{toy_sha1, first_chunk, last_chunk, same}
use c_dedup.Tests.Deletes.{deleted, kept, deleted-IsFp, kept-IsFp}

abbrev pub versions : Versions
versions = (0, first_chunk ∷ first_chunk ∷ last_chunk ∷ []) ∷ (1, last_chunk ∷ []) ∷ []

abbrev first : EntryValue
first = record {
  container_number = 0;
  offset = 0;
  chunk_length = 2;
  container_inner_index = 0;
  ref_cnt = 2;
}

abbrev second : EntryValue
second = record {
  container_number = 0;
  offset = 2;
  chunk_length = 1;
  container_inner_index = 1;
  ref_cnt = 2;
}

abbrev index : MetadataManager
index = record { fp_table_origin = (deleted, first) ∷ (kept, second) ∷ []; fp_table_added = [] }

abbrev shelf : ℕ → List Sha1Fp
shelf k = if k == 0 then deleted ∷ kept ∷ [] else []

abbrev files : Store
files = record {
  containers = (0, 1 ∷ 2 ∷ 3 ∷ []) ∷ [];
  reverse = (0, reverse_file (deleted ∷ kept ∷ [])) ∷ [];
  recipes = [];
  fingerprints = none;
}

abbrev pub store : Store
store = record files { recipes = recipe_files toy_sha1 versions; fingerprints = some (save index) }

differ : tuple_equaler deleted kept ≡ false
unfolding tuple_equaler
differ = refl

differ_back : tuple_equaler kept deleted ≡ false
unfolding tuple_equaler
differ_back = refl

index-IsIndex : IsIndex index
unfolding find tuple_equaler
index-IsIndex = record { origin = (refl, (refl, tt)); added = tt; apart = λ fp h. refl }

first_there : entry index deleted ≡ some first
unfolding entry find tuple_equaler
first_there = refl

second_there : entry index kept ≡ some second
unfolding entry find tuple_equaler
second_there = refl

entries :
    (fp : Sha1Fp) (v : EntryValue)
    → entry index fp ≡ some v
    → ((deleted ≡ fp) × (first ≡ v)) ⊎ ((kept ≡ fp) × (second ≡ v))
unfolding entry find
entries fp v e = elim (Bool-cases (tuple_equaler deleted fp)) [
  | inl same ↦ inl ((tuple_equaler_iff deleted fp).0 same, ground arith)
  | inr other ↦ elim (Bool-cases (tuple_equaler kept fp)) [
    | inl same ↦ inr ((tuple_equaler_iff kept fp).0 same, ground arith)
    | inr neither ↦ absurd (ground arith)
  ]
]

-- What holds of the two entries holds of each.
each {ℓ} :
    (P : Sha1Fp → EntryValue → Type ℓ)
    → P deleted first
    → P kept second
    → (fp : Sha1Fp) (v : EntryValue) → entry index fp ≡ some v
    → P fp v
each P p q fp v e = elim (entries fp v e) [
  | inl (key, value) ↦ subst (λ (x : Sha1Fp × EntryValue). P x.0 x.1) (λ i. (key i, value i)) p
  | inr (key, value) ↦ subst (λ (x : Sha1Fp × EntryValue). P x.0 x.1) (λ i. (key i, value i)) q
]

first_fp : fp_of toy_sha1 first_chunk ≡ deleted
unfolding toy_sha1 same fp_of_bytes of_le
first_fp = refl

last_fp : fp_of toy_sha1 last_chunk ≡ kept
unfolding toy_sha1 same fp_of_bytes of_le
last_fp = refl

counts : (fp : Sha1Fp) → refs (entry index fp) ≡ uses toy_sha1 fp versions
unfolding entry find uses occurrences
counts fp =
    rw (first_fp, last_fp)
      (elim (Bool-cases (tuple_equaler deleted fp)) [
        | inl same ↦
            let key : deleted ≡ fp = (tuple_equaler_iff deleted fp).0 same in
            let other : tuple_equaler kept fp ≡ false =
              subst (λ x. tuple_equaler kept x ≡ false) key differ_back in
            rw (same, other) refl
        | inr other ↦ elim (Bool-cases (tuple_equaler kept fp)) [
          | inl same ↦ rw (other, same) refl
          | inr neither ↦ rw (other, neither) refl
        ]
      ])

index-Sound : Sound toy_sha1 (on_disk files) index
unfolding find toy_sha1 same fp_of_bytes of_le
index-Sound =
    each (Holds toy_sha1 (on_disk files))
      (record {
        content = 1 ∷ 2 ∷ 3 ∷ [];
        stored = refl;
        within = omega arith;
        nonempty = omega arith;
        reach = omega arith;
        matches = refl;
      })
      (record {
        content = 1 ∷ 2 ∷ 3 ∷ [];
        stored = refl;
        within = omega arith;
        nonempty = omega arith;
        reach = omega arith;
        matches = refl;
      })

on_shelf : (k : ℕ) → (k == 0) ≡ true → shelf k ≡ deleted ∷ kept ∷ []
on_shelf k h = rw h refl

off_shelf : (k : ℕ) → (k == 0) ≡ false → shelf k ≡ []
off_shelf k h = rw h refl

index-Shelves : Shelves shelf files.containers files.reverse index
unfolding find tuple_equaler
index-Shelves = record {
  known = λ k j h. elim (Bool-cases (k == 0)) [
    | inl zeroth ↦
        let number = sym ((==_iff k 0).0 zeroth) in
        elim (Bool-cases (tuple_equaler deleted j)) [
          | inl here ↦
              let key : deleted ≡ j = (tuple_equaler_iff deleted j).0 here in
              (first, subst (λ x. entry index x ≡ some first) key first_there, number)
          | inr other ↦
              let key : kept ≡ j = ground (arith, h, on_shelf k zeroth, tuple_equaler_iff kept j) in
              (second, subst (λ x. entry index x ≡ some second) key second_there, number)
        ]
    | inr none_there ↦ absurd (ground (arith, h, off_shelf k none_there))
  ];
  only = each (λ j v. listed j (shelf v.container_number) ≡ true) refl refl;
  apart = λ i j v w ei ej.
      each
        (λ i v.
          tuple_equaler i j ≡ false
          → v.container_number ≡ w.container_number
          → Apart w.offset w.chunk_length v)
        (each
          (λ j w.
            tuple_equaler deleted j ≡ false
            → 0 ≡ w.container_number
            → Apart w.offset w.chunk_length first)
          (λ h e. absurd (ground (arith, h, same_fp deleted))) (λ h e. inl (omega arith)) j w ej)
        (each
          (λ j w.
            tuple_equaler kept j ≡ false
            → 0 ≡ w.container_number
            → Apart w.offset w.chunk_length second)
          (λ h e. inr (omega arith)) (λ h e. absurd (ground (arith, h, same_fp kept))) j w ej)
        i v ei;
  once = λ k. elim (Bool-cases (k == 0)) [
    | inl zeroth ↦ subst Once (sym (on_shelf k zeroth)) (rw differ_back refl, (refl, tt))
    | inr none_there ↦ subst Once (sym (off_shelf k none_there)) tt
  ];
  reverse_files = λ k. elim (Bool-cases (k == 0)) [
    | inl zeroth ↦ λ h.
        subst (λ n. find n files.reverse ≡ some (reverse_file (shelf n)))
          (sym ((==_iff k 0).0 zeroth)) refl
    | inr none_there ↦ λ h. absurd (omega (arith, h, ap length (off_shelf k none_there)))
  ];
  reverse_small = λ k. elim (Bool-cases (k == 0)) [
    | inl zeroth ↦ rw zeroth (omega arith)
    | inr none_there ↦ rw none_there (omega arith)
  ];
  small = (omega arith, tt);
}

first-IsEntry : IsEntry first
first-IsEntry = record {
  container_number = omega arith;
  offset = omega arith;
  chunk_length = omega arith;
  container_inner_index = omega arith;
  ref_cnt = omega arith;
}

second-IsEntry : IsEntry second
second-IsEntry = record {
  container_number = omega arith;
  offset = omega arith;
  chunk_length = omega arith;
  container_inner_index = omega arith;
  ref_cnt = omega arith;
}

files-Tracks : Tracks toy_sha1 (λ fp. uses toy_sha1 fp versions) shelf files index
files-Tracks = record {
  index = index-IsIndex;
  loaded = refl;
  fits = omega arith;
  sound = index-Sound;
  counted = counts;
  positive = each (λ fp v. 0 < v.ref_cnt) (omega arith) (omega arith);
  in_range =
      each (λ fp v. IsFp fp × IsEntry v) (deleted-IsFp, first-IsEntry) (kept-IsFp, second-IsEntry);
  shelves = index-Shelves;
}

pub store-IsKept : IsKept toy_sha1 versions store
unfolding find
store-IsKept = record {
  shelf = shelf;
  distinct = (refl, (refl, tt));
  recipes = refl;
  tracks = Tracks-next toy_sha1 versions (recipe_files toy_sha1 versions) refl files-Tracks;
}
