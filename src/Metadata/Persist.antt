-- ===== src/Metadata/Persist.antt =====
-- The index survives `save` and `load`: src/MetadataManager.cpp.
use c_dedup.Base.{
  ◌+◌, ◌*◌, ◌/◌, ◌≤◌, ◌≡◌, refl, sym, ap, ◌∙◌, some, [], ◌∷◌, ◌++◌, arith, length, length-append,
  take_of_length-le, take, All, All-append, All-assign, All-find, find, assign, Option-cases, inl,
  inr, find-emplace, find-append, or_else, emplace, append_assoc,
}
use c_dedup.Metadata.{
  Sha1Fp, EntryValue, FpTable, inc_ref, add_ref_cnt, MetadataManager, new_manager, file_cache,
  load_entries, load, save_table, save, fp_eq, tuple_equaler_iff, fp_bytes, value_bytes,
}
use c_dedup.Metadata.Codec.{
  IsFp, IsEntry, length-fp_bytes, length-value_bytes, fp_of_bytes-fp_bytes,
  value_of_bytes-value_bytes, drop-entry_bytes,
}

-- Every key and every value of a table is in the range of its C type.
abbrev pub InRange : FpTable → Type 0
InRange = All (λ e. IsFp e.0 × IsEntry e.1)

pub length-save_table : (t : FpTable) → length (save_table t) ≡ length t * 36
unfolding save_table
length-save_table [] = refl
length-save_table ((fp, v) ∷ t) = omega (
  arith,
  length-append (fp_bytes fp) (value_bytes v ++ save_table t),
  length-append (value_bytes v) (save_table t),
  length-fp_bytes fp,
  length-value_bytes v,
  length-save_table t,
)

save_table-append : (s t : FpTable) → save_table (s ++ t) ≡ save_table s ++ save_table t
unfolding save_table
save_table-append [] t = refl
save_table-append ((fp, v) ∷ s) t = simp (save_table-append s t, append_assoc)

-- What the loop of `load` puts into the map, as a fold.
unfoldable pub emplace_all : FpTable → FpTable → FpTable
emplace_all [] table = table
emplace_all ((fp, v) ∷ t) table = emplace_all t (emplace fp v table)

load_entries-save_table :
    (t table : FpTable)
    → InRange t
    → load_entries (length t) (save_table t) table ≡ emplace_all t table
unfolding load_entries save_table emplace_all
load_entries-save_table [] table ok = refl
load_entries-save_table ((fp, v) ∷ t) table ok =
    (λ i. load_entries (length t) (drop-entry_bytes fp v (save_table t) i) (
      emplace (fp_of_bytes-fp_bytes fp (value_bytes v ++ save_table t) ok.0.0 i)
        (value_of_bytes-value_bytes fp v (save_table t) ok.0.1 i) table))
    ∙ load_entries-save_table t (emplace fp v table) ok.1

pub find-emplace_all :
    (k : Sha1Fp) (t table : FpTable)
    → find k (emplace_all t table) ≡ or_else (find k table) (find k t)
unfolding find emplace_all
find-emplace_all k [] table = ground arith
find-emplace_all k ((fp, v) ∷ t) table = ground (
  arith,
  find-emplace_all k t (emplace fp v table),
  find-emplace fp k v table,
  tuple_equaler_iff fp k,
)

load-save_table :
    (t : FpTable)
    → InRange t
    → length t * 36 ≤ file_cache
    → (load (some (save_table t)) new_manager).fp_table_origin ≡ emplace_all t []
unfolding load
load-save_table t ok fits =
    let whole : take file_cache (save_table t) ≡ save_table t =
      take_of_length-le file_cache (save_table t) (omega (arith, length-save_table t)) in
    let count : length (save_table t) / 36 ≡ length t = omega (arith, length-save_table t) in
    (λ i. load_entries (length (whole i) / 36) (whole i) [])
    ∙ ((λ i. load_entries (count i) (save_table t) []) ∙ load_entries-save_table t [] ok)

-- The loaded entries after `save` and `load`, as a fold over what was saved.
pub load-save :
    (m : MetadataManager)
    → InRange m.fp_table_added
    → InRange m.fp_table_origin
    → (length m.fp_table_added + length m.fp_table_origin) * 36 ≤ file_cache
    → (load (some (save m)) new_manager).fp_table_origin
      ≡ emplace_all (m.fp_table_added ++ m.fp_table_origin) []
unfolding save
load-save m added origin fits =
    let both = m.fp_table_added ++ m.fp_table_origin in
    let ok =
      All-append (λ e. IsFp e.0 × IsEntry e.1) m.fp_table_added m.fp_table_origin added origin in
    let size : length both * 36 ≤ file_cache =
      omega (arith, length-append m.fp_table_added m.fp_table_origin) in
    ap (λ bs. (load (some bs) new_manager).fp_table_origin)
      (sym (save_table-append m.fp_table_added m.fp_table_origin))
    ∙ load-save_table both ok size

-- What a new process finds after `save` and `load`: an added entry, or else a loaded one, with
-- every field; and it finds nothing else.
pub find-load-save :
    (m : MetadataManager) (fp : Sha1Fp)
    → InRange m.fp_table_added
    → InRange m.fp_table_origin
    → (length m.fp_table_added + length m.fp_table_origin) * 36 ≤ file_cache
    → (find fp (load (some (save m)) new_manager).fp_table_origin
        ≡ or_else (find fp m.fp_table_added) (find fp m.fp_table_origin))
      × ((load (some (save m)) new_manager).fp_table_added ≡ [])
unfolding load save find
find-load-save m fp added origin fits = (
  ap (find fp) (load-save m added origin fits)
      ∙ (find-emplace_all fp (m.fp_table_added ++ m.fp_table_origin) []
          ∙ find-append fp m.fp_table_added m.fp_table_origin),
  refl,
)

-- The words stay in range under the methods that a backup calls.
inc_ref-IsEntry : (v : EntryValue) → IsEntry v → IsEntry (inc_ref v)
inc_ref-IsEntry v h = record {
  container_number = h.container_number;
  offset = h.offset;
  chunk_length = h.chunk_length;
  container_inner_index = h.container_inner_index;
  ref_cnt = omega arith;
}

assign-InRange :
    (fp : Sha1Fp) (v : EntryValue) (t : FpTable)
    → InRange t
    → find fp t ≡ some v
    → InRange (assign fp (inc_ref v) t)
assign-InRange fp v t ok e =
    let (key, value) = All-find (λ x. IsFp x.0 × IsEntry x.1) fp t ok e in
    All-assign (λ x. IsFp x.0 × IsEntry x.1) fp (inc_ref v) t (key, inc_ref-IsEntry v value) ok

pub add_ref_cnt-InRange :
    (fp : Sha1Fp) (m : MetadataManager)
    → InRange m.fp_table_origin
    → InRange m.fp_table_added
    → InRange (add_ref_cnt fp m).0.fp_table_origin × InRange (add_ref_cnt fp m).0.fp_table_added
unfolding add_ref_cnt
add_ref_cnt-InRange fp m origin added = elim (Option-cases (find fp m.fp_table_added)) [
  | inl absent ↦ elim (Option-cases (find fp m.fp_table_origin)) [
    | inl missing ↦ rw (absent, missing, add_ref_cnt) (origin, added)
    | inr (v, there) ↦
        rw (absent, there, add_ref_cnt) (assign-InRange fp v m.fp_table_origin origin there, added)
  ]
  | inr (v, there) ↦
      rw (there, add_ref_cnt) (origin, assign-InRange fp v m.fp_table_added added there)
]
