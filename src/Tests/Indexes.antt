-- ===== src/Tests/Indexes.antt =====
-- The index on two entries, one loaded and one added.
use c_dedup.Base.{◌≡◌, refl, none, some, [], ◌∷◌, arith, find, Distinct}
use c_dedup.Metadata.{
  Sha1Fp, EntryValue, MetadataManager, new_manager, fp_eq, unique, tuple_equaler, dedup_lookup,
  load, save,
}
use c_dedup.Metadata.Codec.{IsEntry}
use c_dedup.Metadata.Persist.{InRange, find-load-save}
use c_dedup.Metadata.Index.{IsIndex, entry}
use c_dedup.Metadata.Counts.{add_times, dec_times, with_count, ref_cnt_lifetime}

abbrev fp_loaded : Sha1Fp
fp_loaded = record { fp1 = 1; fp2 = 2; fp3 = 3; fp4 = 4 }

abbrev fp_added : Sha1Fp
fp_added = record { fp1 = 5; fp2 = 6; fp3 = 7; fp4 = 8 }

abbrev fp_new : Sha1Fp
fp_new = record { fp1 = 5; fp2 = 6; fp3 = 7; fp4 = 9 }

abbrev value : EntryValue
value = record {
  container_number = 0;
  offset = 100;
  chunk_length = 50;
  container_inner_index = 1;
  ref_cnt = 2;
}

abbrev two : MetadataManager
two = record { fp_table_origin = (fp_loaded, value) ∷ []; fp_table_added = (fp_added, value) ∷ [] }

two-IsIndex : IsIndex two
unfolding find tuple_equaler
two-IsIndex = record { origin = (refl, tt); added = (refl, tt); apart = λ fp h. ground arith }

loaded_alone : Distinct two.fp_table_origin
unfolding find
loaded_alone = (refl, tt)

value-IsEntry : IsEntry value
value-IsEntry = record {
  container_number = omega arith;
  offset = omega arith;
  chunk_length = omega arith;
  container_inner_index = omega arith;
  ref_cnt = omega arith;
}

origin-InRange : InRange two.fp_table_origin
origin-InRange = (
  (
    record { fp1 = omega arith; fp2 = omega arith; fp3 = omega arith; fp4 = omega arith },
    value-IsEntry,
  ),
  tt,
)

added-InRange : InRange two.fp_table_added
added-InRange = (
  (
    record { fp1 = omega arith; fp2 = omega arith; fp3 = omega arith; fp4 = omega arith },
    value-IsEntry,
  ),
  tt,
)

find-load-save_example :
    (find fp_added (load (some (save two)) new_manager).fp_table_origin ≡ some value)
    × ((load (some (save two)) new_manager).fp_table_added ≡ [])
unfolding find tuple_equaler
find-load-save_example = find-load-save two fp_added added-InRange origin-InRange (omega arith)

loaded : entry two fp_loaded ≡ some value
unfolding entry find tuple_equaler
loaded = refl

added : entry two fp_added ≡ some value
unfolding entry find tuple_equaler
added = refl

not_there : dedup_lookup fp_new two ≡ unique
unfolding dedup_lookup find tuple_equaler
not_there = refl

loaded_first : find fp_loaded two.fp_table_origin ≡ some value
unfolding find tuple_equaler
loaded_first = refl

not_added : find fp_loaded two.fp_table_added ≡ none
unfolding find tuple_equaler
not_added = refl

ref_cnt_lifetime_example :
    (find fp_loaded (dec_times 4 fp_loaded (add_times 3 fp_loaded two)).fp_table_origin
      ≡ some (with_count value 1))
    × (find fp_loaded (dec_times 5 fp_loaded (add_times 3 fp_loaded two)).fp_table_origin ≡ none)
ref_cnt_lifetime_example =
    ref_cnt_lifetime fp_loaded 3 4 value two loaded_alone not_added loaded_first (omega arith)
      (omega arith) (omega arith)
