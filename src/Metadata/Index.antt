-- ===== src/Metadata/Index.antt =====
-- The two maps of src/MetadataManager.cpp as one finite map, and what each method does to it.
use c_dedup.Base.{
  ◌+◌, length, length-assign, ℕ, ◌-◌, ◌≡◌, refl, ap, ◌∙◌, true, Option, none, some, arith, ltb,
  if◌then◌else◌, find, assign, erase, emplace, Distinct, or_else, is_some, find-assign,
  find-emplace, find-erase_ne, find-erase_self, Distinct-assign, Distinct-emplace, Distinct-erase,
  Option-cases, Bool-cases, inl, inr,
}
use c_dedup.Metadata.{
  Sha1Fp, EntryValue, MetadataManager, unique, dedup, fp_eq, tuple_equaler, tuple_equaler_iff,
  dedup_lookup, add_new_entry, add_ref_cnt, dec_ref_cnt, chunk_offset_dec, inc_ref, dec_offset,
}

-- The entry of a fingerprint in either map.
unfoldable pub entry : MetadataManager → Sha1Fp → Option EntryValue
unfolding find
entry m fp = or_else (find fp m.fp_table_origin) (find fp m.fp_table_added)

-- No key stands twice in a map, and none in both.
pub record IsIndex (m : MetadataManager) : Type 0 where
  pub origin : Distinct m.fp_table_origin
  pub added : Distinct m.fp_table_added
  pub apart :
      (fp : Sha1Fp) → is_some (find fp m.fp_table_origin) ≡ true → find fp m.fp_table_added ≡ none

-- The entries after a write of `v` at `fp`.
abbrev pub Updated : MetadataManager → Sha1Fp → Option EntryValue → MetadataManager → Type 0
Updated m fp v m' = (j : Sha1Fp) → entry m' j ≡ (if tuple_equaler fp j then v else entry m j)

pub dedup_lookup-entry :
    (fp : Sha1Fp) (m : MetadataManager)
    → dedup_lookup fp m ≡ (if is_some (entry m fp) then dedup else unique)
unfolding dedup_lookup entry
dedup_lookup-entry fp m = ground arith

abbrev pub with_entry : Sha1Fp → EntryValue → MetadataManager → MetadataManager
with_entry fp v m = record m { fp_table_added = emplace fp v m.fp_table_added }

pub add_new_entry-with_entry :
    (fp : Sha1Fp) (v : EntryValue) (m : MetadataManager)
    → dedup_lookup fp m ≡ unique
    → add_new_entry fp v m ≡ some (with_entry fp v m)
unfolding dedup_lookup add_new_entry
add_new_entry-with_entry fp v m new = ground arith

pub with_entry-Updated :
    (fp : Sha1Fp) (v : EntryValue) (m : MetadataManager)
    → IsIndex m
    → dedup_lookup fp m ≡ unique
    → IsIndex (with_entry fp v m) × Updated m fp (some v) (with_entry fp v m)
unfolding dedup_lookup entry
with_entry-Updated fp v m ok new = (
  record {
    origin = ok.origin;
    added = Distinct-emplace fp v m.fp_table_added ok.added;
    apart = λ j h.
        ground (arith, find-emplace fp j v m.fp_table_added, ok.apart j, tuple_equaler_iff fp j);
  },
  λ j. ground (arith, find-emplace fp j v m.fp_table_added, tuple_equaler_iff fp j),
)

-- A fingerprint that the lookup calls unique can be added: the assertion holds, the entry is there
-- afterwards, every other entry is as before, and the maps stay apart.
pub add_new_entry-Updated :
    (fp : Sha1Fp) (v : EntryValue) (m : MetadataManager)
    → IsIndex m
    → dedup_lookup fp m ≡ unique
    → (m' : MetadataManager) × (add_new_entry fp v m ≡ some m')
      × IsIndex m'
      × Updated m fp (some v) m'
add_new_entry-Updated fp v m ok new =
    let (index, up) = with_entry-Updated fp v m ok new in
    (with_entry fp v m, add_new_entry-with_entry fp v m new, index, up)

-- A write through an iterator into one of the maps.
module _ (fp : Sha1Fp) (v w : EntryValue) (m : MetadataManager) (ok : IsIndex m) where
  set_origin-Updated :
      find fp m.fp_table_origin ≡ some w
      → IsIndex (record m { fp_table_origin = assign fp v m.fp_table_origin })
        × Updated m fp (some v) (record m { fp_table_origin = assign fp v m.fp_table_origin })
  unfolding entry
  set_origin-Updated e = (
    record {
      origin = Distinct-assign fp v m.fp_table_origin ok.origin;
      added = ok.added;
      apart = λ j h. ground (
        arith,
        find-assign fp j v m.fp_table_origin,
        ok.apart j,
        ok.apart fp,
        tuple_equaler_iff fp j,
      );
    },
    λ j. ground (arith, find-assign fp j v m.fp_table_origin, tuple_equaler_iff fp j),
  )

  set_added-Updated :
      find fp m.fp_table_added ≡ some w
      → IsIndex (record m { fp_table_added = assign fp v m.fp_table_added })
        × Updated m fp (some v) (record m { fp_table_added = assign fp v m.fp_table_added })
  unfolding entry
  set_added-Updated e = (
    record {
      origin = ok.origin;
      added = Distinct-assign fp v m.fp_table_added ok.added;
      apart = λ j h. ground (
        arith,
        find-assign fp j v m.fp_table_added,
        ok.apart j,
        ok.apart fp,
        tuple_equaler_iff fp j,
      );
    },
    λ j. ground (
      arith,
      find-assign fp j v m.fp_table_added,
      ok.apart fp,
      ok.apart j,
      tuple_equaler_iff fp j,
    ),
  )

  erase_origin-Updated :
      find fp m.fp_table_origin ≡ some w
      → IsIndex (record m { fp_table_origin = erase fp m.fp_table_origin })
        × Updated m fp none (record m { fp_table_origin = erase fp m.fp_table_origin })
  unfolding entry
  erase_origin-Updated e = (
    record {
      origin = Distinct-erase fp m.fp_table_origin ok.origin;
      added = ok.added;
      apart = λ j h. ground (
        arith,
        find-erase_ne fp j m.fp_table_origin,
        find-erase_self fp m.fp_table_origin ok.origin,
        ok.apart j,
        ok.apart fp,
        tuple_equaler_iff fp j,
      );
    },
    λ j. ground (
      arith,
      find-erase_ne fp j m.fp_table_origin,
      find-erase_self fp m.fp_table_origin ok.origin,
      ok.apart j,
      ok.apart fp,
      tuple_equaler_iff fp j,
    ),
  )

-- `addRefCnt` on a known fingerprint raises its count by one (modulo 2 ^ 32), returns the new count,
-- and changes nothing else.
pub add_ref_cnt-Updated :
    (fp : Sha1Fp) (v : EntryValue) (m : MetadataManager)
    → IsIndex m
    → entry m fp ≡ some v
    → IsIndex (add_ref_cnt fp m).0
      × Updated m fp (some (inc_ref v)) (add_ref_cnt fp m).0
      × ((add_ref_cnt fp m).1 ≡ some (inc_ref v).ref_cnt)
unfolding add_ref_cnt entry
add_ref_cnt-Updated fp v m ok e = elim (Option-cases (find fp m.fp_table_added)) [
  | inl absent ↦
      let here : find fp m.fp_table_origin ≡ some v = ground arith in
      rw (absent, here, add_ref_cnt)
        (let r = set_origin-Updated fp (inc_ref v) v m ok here in (r.0, r.1, refl))
  | inr (w, there) ↦
      let same : w ≡ v = ground (arith, ok.apart fp) in
      let found : find fp m.fp_table_added ≡ some v = there ∙ ap some same in
      rw (found, add_ref_cnt)
        (let r = set_added-Updated fp (inc_ref v) v m ok found in (r.0, r.1, refl))
]

abbrev pub entries_num : MetadataManager → ℕ
entries_num m = length m.fp_table_added + length m.fp_table_origin

pub add_ref_cnt-entries_num :
    (fp : Sha1Fp) (m : MetadataManager) → entries_num (add_ref_cnt fp m).0 ≡ entries_num m
unfolding add_ref_cnt
add_ref_cnt-entries_num fp m = elim (Option-cases (find fp m.fp_table_added)) [
  | inl absent ↦ elim (Option-cases (find fp m.fp_table_origin)) [
    | inl missing ↦ rw (absent, missing, add_ref_cnt)
    | inr (v, there) ↦
        rw (absent, there, add_ref_cnt)
          (ground (arith, length-assign fp (inc_ref v) m.fp_table_origin))
  ]
  | inr (v, there) ↦
      rw (there, add_ref_cnt) (ground (arith, length-assign fp (inc_ref v) m.fp_table_added))
]

-- `decRefCnt` on a loaded fingerprint: above one, the count falls by one; otherwise the entry goes
-- away and 0 is returned. Nothing else changes.
pub dec_ref_cnt-Updated :
    (fp : Sha1Fp) (v : EntryValue) (m : MetadataManager)
    → IsIndex m
    → find fp m.fp_table_origin ≡ some v
    → IsIndex (dec_ref_cnt fp m).0
      × Updated m fp
          (if ltb 1 v.ref_cnt then some (record v { ref_cnt = v.ref_cnt - 1 }) else none)
          (dec_ref_cnt fp m).0
      × ((dec_ref_cnt fp m).1 ≡ some (if ltb 1 v.ref_cnt then v.ref_cnt - 1 else 0))
unfolding dec_ref_cnt
dec_ref_cnt-Updated fp v m ok e = elim (Bool-cases (ltb 1 v.ref_cnt)) [
  | inl shared ↦
      rw (e, shared, dec_ref_cnt)
        (let r = set_origin-Updated fp (record v { ref_cnt = v.ref_cnt - 1 }) v m ok e in
          (r.0, r.1, refl))
  | inr last ↦
      rw (e, last, dec_ref_cnt) (let r = erase_origin-Updated fp v v m ok e in (r.0, r.1, refl))
]

-- `chunkOffsetDec` on a known fingerprint does not exit; it moves the chunk down by `len` if it lay
-- behind `oft`, and changes nothing else.
pub chunk_offset_dec-Updated :
    (fp : Sha1Fp) (oft len : ℕ) (v : EntryValue) (m : MetadataManager)
    → IsIndex m
    → entry m fp ≡ some v
    → (m' : MetadataManager) × (chunk_offset_dec fp oft len m ≡ some m')
      × IsIndex m'
      × Updated m fp (some (dec_offset oft len v)) m'
unfolding chunk_offset_dec entry
chunk_offset_dec-Updated fp oft len v m ok e = elim (Option-cases (find fp m.fp_table_origin)) [
  | inl absent ↦
      let there : find fp m.fp_table_added ≡ some v = ground arith in
      let r = set_added-Updated fp (dec_offset oft len v) v m ok there in
      (
        record m { fp_table_added = assign fp (dec_offset oft len v) m.fp_table_added },
        rw (absent, there, chunk_offset_dec),
        r.0,
        r.1,
      )
  | inr (w, here) ↦
      let same : w ≡ v = ground arith in
      let found : find fp m.fp_table_origin ≡ some v = here ∙ ap some same in
      let r = set_origin-Updated fp (dec_offset oft len v) v m ok found in
      (
        record m { fp_table_origin = assign fp (dec_offset oft len v) m.fp_table_origin },
        rw (found, chunk_offset_dec),
        r.0,
        r.1,
      )
]
