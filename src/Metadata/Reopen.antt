-- ===== src/Metadata/Reopen.antt =====
-- The index of the next process: src/MetadataManager.cpp, `save` and then `load`.
use c_dedup.Base.{
  ap, ◌+◌, length, length-append, length-emplace-le, ◌*◌, ◌≤◌, ◌≡◌, refl, sym, subst, some, [], ◌∷◌,
  ◌++◌, arith, All-append, All-emplace, Distinct, Distinct-emplace, find, emplace,
}
use c_dedup.Metadata.{Sha1Fp, FpTable, MetadataManager, new_manager, file_cache, load, save, fp_eq}
use c_dedup.Metadata.Codec.{IsFp, IsEntry}
use c_dedup.Metadata.Persist.{InRange, emplace_all, load-save, find-load-save}
use c_dedup.Metadata.Index.{IsIndex, entry, entries_num}

abbrev pub reopened : MetadataManager → MetadataManager
reopened m = load (some (save m)) new_manager

length-emplace_all-le : (t table : FpTable) → length (emplace_all t table) ≤ length t + length table
unfolding emplace_all
length-emplace_all-le [] table = omega arith
length-emplace_all-le ((fp, v) ∷ t) table =
    omega (arith, length-emplace_all-le t _, length-emplace-le fp v table)

Distinct-emplace_all : (t table : FpTable) → Distinct table → Distinct (emplace_all t table)
unfolding emplace_all
Distinct-emplace_all [] table d = d
Distinct-emplace_all ((fp, v) ∷ t) table d =
    Distinct-emplace_all t (emplace fp v table) (Distinct-emplace fp v table d)

InRange-emplace_all :
    (t table : FpTable) → InRange t → InRange table → InRange (emplace_all t table)
unfolding emplace_all
InRange-emplace_all [] table ok h = h
InRange-emplace_all ((fp, v) ∷ t) table ok h =
    InRange-emplace_all t (emplace fp v table) ok.1
      (All-emplace (λ x. IsFp x.0 × IsEntry x.1) fp v table ok.0 h)

module _ (m : MetadataManager) (index : IsIndex m) (added : InRange m.fp_table_added)
    (origin : InRange m.fp_table_origin) (fits : entries_num m * 36 ≤ file_cache) where
  pub reopened-added : (reopened m).fp_table_added ≡ []
  unfolding load
  reopened-added = refl

  -- It has no more entries.
  pub reopened_size : entries_num (reopened m) ≤ entries_num m
  reopened_size = omega (
    arith,
    ap length reopened-added,
    ap length (load-save m added origin fits),
    length-emplace_all-le (m.fp_table_added ++ m.fp_table_origin) [],
    length-append m.fp_table_added m.fp_table_origin,
  )

  -- The next process has the same entries.
  pub entry-reopened : (fp : Sha1Fp) → entry (reopened m) fp ≡ entry m fp
  unfolding entry load
  entry-reopened fp = ground (arith, (find-load-save m fp added origin fits).0, index.apart fp)

  pub reopened-IsIndex : IsIndex (reopened m)
  unfolding load find
  reopened-IsIndex = record {
    origin =
        subst Distinct (sym (load-save m added origin fits))
          (Distinct-emplace_all (m.fp_table_added ++ m.fp_table_origin) [] tt);
    added = tt;
    apart = λ fp h. refl;
  }

  pub reopened-InRange : InRange (reopened m).fp_table_origin
  reopened-InRange = subst InRange (sym (load-save m added origin fits)) (
      InRange-emplace_all (m.fp_table_added ++ m.fp_table_origin) []
        (All-append (λ e. IsFp e.0 × IsEntry e.1) m.fp_table_added m.fp_table_origin added origin)
        tt)
