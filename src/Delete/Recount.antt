-- ===== src/Delete/Recount.antt =====
-- A chunk that more than one version, or place in a version, refers to: main.cpp, `TASK_DELETE`, and
-- src/MetadataManager.cpp, `decRefCnt`, above one.
use c_dedup.Base.{
  ◌⊎◌, ℕ, suc, ◌+◌, ◌≤◌, ◌<◌, ◌≡◌, refl, sym, ap, subst, ◌∙◌, true, some, List, [], arith,
  if◌then◌else◌, Bytes, Bool-cases, inl, inr,
}
use c_dedup.Store.{Store, Files}
use c_dedup.Metadata.{Sha1Fp, EntryValue, MetadataManager, tuple_equaler, tuple_equaler_iff}
use c_dedup.Metadata.Codec.{IsEntry}
use c_dedup.Metadata.Index.{IsIndex, entry, entries_num, Updated}
use c_dedup.Backup.Sound.{Holds, Holds-recount}
use c_dedup.Backup.Repository.{on_disk}
use c_dedup.Delete.Offsets.{listed}
use c_dedup.Delete.Shelf.{Apart}
use c_dedup.Delete.Counts.{refs}
use c_dedup.Delete.Kept.{Shelves, Tracks}

-- An entry at the same place, whose count may be another.
record IsRecount (v w : EntryValue) : Type 0 where
  container : w.container_number ≡ v.container_number
  offset : w.offset ≡ v.offset
  size : w.chunk_length ≡ v.chunk_length
  number : w.container_inner_index ≡ v.container_inner_index

recounted : (v w : EntryValue) → IsRecount v w → record v { ref_cnt = w.ref_cnt } ≡ w
recounted v w r = λ i. record {
  container_number = sym r.container i;
  offset = sym r.offset i;
  chunk_length = sym r.size i;
  container_inner_index = sym r.number i;
  ref_cnt = w.ref_cnt;
}

Apart-recount :
    (u x w y : EntryValue)
    → IsRecount u x
    → IsRecount w y
    → Apart w.offset w.chunk_length u
    → Apart y.offset y.chunk_length x
Apart-recount u x w y r q apart = elim apart [
  | inl h ↦ inl (omega (arith, r.offset, r.size, q.offset))
  | inr h ↦ inr (omega (arith, r.offset, q.size, q.offset))
]

IsEntry-recount : (u w : EntryValue) → IsRecount u w → IsEntry u → w.ref_cnt ≤ u.ref_cnt → IsEntry w
IsEntry-recount u w r ok fewer = record {
  container_number = omega (arith, r.container, ok.container_number);
  offset = omega (arith, r.offset, ok.offset);
  chunk_length = omega (arith, r.size, ok.chunk_length);
  container_inner_index = omega (arith, r.number, ok.container_inner_index);
  ref_cnt = omega (arith, fewer, ok.ref_cnt);
}

module _ (fp : Sha1Fp) (v : EntryValue) (count : ℕ) (m m' : MetadataManager)
    (here : entry m fp ≡ some v) (up : Updated m fp (some (record v { ref_cnt = count })) m') where
  -- Each entry was there before, at its place.
  before :
      (j : Sha1Fp) (w : EntryValue)
      → entry m' j ≡ some w
      → (u : EntryValue) × (entry m j ≡ some u)
        × IsRecount u w
        × (((w.ref_cnt ≡ count) × (u.ref_cnt ≡ v.ref_cnt)) ⊎ (w.ref_cnt ≡ u.ref_cnt))
  before j w e = elim (Bool-cases (tuple_equaler fp j)) [
    | inl same ↦
        let key : fp ≡ j = (tuple_equaler_iff fp j).0 same in
        let value : record v { ref_cnt = count } ≡ w = ground (arith, up j) in
        (
          v,
          ap (entry m) (sym key) ∙ here,
          record {
            container = ap (λ x. x.container_number) (sym value);
            offset = ap (λ x. x.offset) (sym value);
            size = ap (λ x. x.chunk_length) (sym value);
            number = ap (λ x. x.container_inner_index) (sym value);
          },
          inl (ap (λ x. x.ref_cnt) (sym value), refl),
        )
    | inr other ↦ (
      w,
      sym (up j ∙ rw other) ∙ e,
      record { container = refl; offset = refl; size = refl; number = refl },
      inr refl,
    )
  ]

  after :
      (j : Sha1Fp) (u : EntryValue)
      → entry m j ≡ some u
      → (w : EntryValue) × (entry m' j ≡ some w) × (w.container_number ≡ u.container_number)
  after j u e = elim (Bool-cases (tuple_equaler fp j)) [
    | inl same ↦
        let key : fp ≡ j = (tuple_equaler_iff fp j).0 same in
        let value : v ≡ u = ground (arith, ap (entry m) key) in
        (record v { ref_cnt = count }, up j ∙ rw same refl, ap (λ x. x.container_number) value)
    | inr other ↦ (u, up j ∙ rw other e, refl)
  ]

  pub Shelves-recount :
      {shelf : ℕ → List Sha1Fp} {containers reverse : Files}
      → Shelves shelf containers reverse m
      → Shelves shelf containers reverse m'
  Shelves-recount {shelf} shelves = record {
    known = λ k j h.
        let (u, e, number) = shelves.known k j h in
        let (w, there, same) = after j u e in (w, there, same ∙ number);
    only = λ j w e.
        let (u, there, same, _) = before j w e in
        subst (λ k. listed j (shelf k) ≡ true) (sym same.container) (shelves.only j u there);
    apart = λ i j x y ei ej other number.
        let (u, eu, su, _) = before i x ei in
        let (w, ew, sw, _) = before j y ej in
        Apart-recount u x w y su sw
          (shelves.apart i j u w eu ew other (sym su.container ∙ (number ∙ sw.container)));
    once = shelves.once;
    reverse_files = shelves.reverse_files;
    reverse_small = shelves.reverse_small;
    small = shelves.small;
  }

  -- One reference less: everything but the count is as it was.
  pub Tracks-recount :
      (sha1 : Bytes → Bytes) (want want' : Sha1Fp → ℕ) {shelf : ℕ → List Sha1Fp} {s : Store}
      → Tracks sha1 want shelf s m
      → IsIndex m'
      → m'.fp_table_added ≡ []
      → entries_num m' ≤ entries_num m
      → 0 < count
      → suc count ≡ v.ref_cnt
      → ((j : Sha1Fp) → want j ≡ (if tuple_equaler fp j then want' j + 1 else want' j))
      → Tracks sha1 want' shelf s m'
  Tracks-recount sha1 want want' {s = s} t index loaded size pos less wants = record {
    index = index;
    loaded = loaded;
    fits = omega (arith, t.fits);
    sound = λ j w e.
        let (u, there, same, _) = before j w e in
        subst (Holds sha1 (on_disk s) j) (recounted u w same)
          (Holds-recount sha1 w.ref_cnt (t.sound j u there));
    counted = λ j. elim (Bool-cases (tuple_equaler fp j)) [
      | inl same ↦
          let was : v.ref_cnt ≡ want j =
            sym (ap refs here)
            ∙ (ap (λ x. refs (entry m x)) ((tuple_equaler_iff fp j).0 same) ∙ t.counted j) in
          let now : entry m' j ≡ some (record v { ref_cnt = count }) = up j ∙ rw same refl in
          let rest : want j ≡ want' j + 1 = wants j ∙ rw same refl in
          omega (arith, was, ap refs now, rest, less)
      | inr other ↦
          let stays : entry m' j ≡ entry m j = up j ∙ rw other refl in
          let rest : want j ≡ want' j = wants j ∙ rw other refl in
          ap refs stays ∙ (t.counted j ∙ rest)
    ];
    positive = λ j w e.
        let (u, there, same, number) = before j w e in
        let was = t.positive j u there in
        elim number [
          | inl (falls, _) ↦ omega (arith, falls, pos)
          | inr stays ↦ omega (arith, stays, was)
        ];
    in_range = λ j w e.
        let (u, there, same, number) = before j w e in
        let (key, value) = t.in_range j u there in
        let fewer : w.ref_cnt ≤ u.ref_cnt = (elim number [
          | inl (falls, first) ↦ omega (arith, falls, first, less)
          | inr stays ↦ omega (arith, stays)
        ]) in
        (key, IsEntry-recount u w same value fewer);
    shelves = Shelves-recount t.shelves;
  }
