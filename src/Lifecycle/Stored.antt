-- ===== src/Lifecycle/Stored.antt =====
-- One chunk of a backup, and what the repository keeps of it: main.cpp, the inner loop of
-- `TASK_WRITE`.
use c_dedup.Base.{
  ℕ, suc, ◌+◌, ◌%◌, ◌^◌, ◌<◌, ◌≡◌, refl, sym, ap, ◌∙◌, some, List, arith, if◌then◌else◌, Bytes,
  nat_eq, Bool-cases, inl, inr, Option-cases,
}
use c_dedup.Metadata.{
  Sha1Fp, EntryValue, MetadataManager, tuple_equaler, tuple_equaler_iff, dedup_lookup, dedup,
  add_ref_cnt, inc_ref,
}
use c_dedup.Metadata.Index.{IsIndex, entry, Updated, add_ref_cnt-Updated, dedup_lookup-entry}
use c_dedup.Backup.{Writer, note_chunk, count_duplicate}
use c_dedup.Delete.Counts.{refs}
use c_dedup.Delete.Recount.{Shelves-recount}
use c_dedup.Lifecycle.Shelving.{Shelving}

-- One more is wanted.
abbrev pub Wanted : Sha1Fp → (Sha1Fp → ℕ) → (Sha1Fp → ℕ) → Type 0
Wanted fp want want' = (j : Sha1Fp) → want' j ≡ (if tuple_equaler fp j then want j + 1 else want j)

-- The recipe and the statistics have no part in it.
pub Shelving-note :
    {want : Sha1Fp → ℕ} {shelf : ℕ → List Sha1Fp} {left : ℕ} (chunk sha_buf : Bytes) (w : Writer)
    → Shelving want shelf left w
    → Shelving want shelf left (note_chunk chunk sha_buf w)
unfolding note_chunk
Shelving-note chunk sha_buf w s = record {
  counted = s.counted;
  positive = s.positive;
  shelves = s.shelves;
  fresh = s.fresh;
  count = s.count;
  listed_there = s.listed_there;
  few = s.few;
  in_word = s.in_word;
}

-- The counts after a write of one entry.
module _ (fp : Sha1Fp) (v : EntryValue) (m m' : MetadataManager) (want want' : Sha1Fp → ℕ)
    (up : Updated m fp (some v) m') (wants : Wanted fp want want') where
  pub counted-Updated :
      ((j : Sha1Fp) → refs (entry m j) ≡ want j)
      → v.ref_cnt ≡ want fp + 1
      → (j : Sha1Fp) → refs (entry m' j) ≡ want' j
  counted-Updated counted one j = elim (Bool-cases (tuple_equaler fp j)) [
    | inl same ↦
        let key : fp ≡ j = (tuple_equaler_iff fp j).0 same in
        let now : entry m' j ≡ some v = up j ∙ rw same refl in
        let rest : want' j ≡ want j + 1 = wants j ∙ rw same refl in
        omega (arith, ap refs now, rest, one, ap want key)
    | inr other ↦
        let stays : entry m' j ≡ entry m j = up j ∙ rw other refl in
        let rest : want' j ≡ want j = wants j ∙ rw other refl in
        ap refs stays ∙ (counted j ∙ sym rest)
  ]

  pub positive-Updated :
      ((j : Sha1Fp) (w : EntryValue) → entry m j ≡ some w → 0 < w.ref_cnt)
      → 0 < v.ref_cnt
      → (j : Sha1Fp) (w : EntryValue) → entry m' j ≡ some w
      → 0 < w.ref_cnt
  positive-Updated positive pos j w e = elim (Bool-cases (tuple_equaler fp j)) [
    | inl same ↦
        let now : some v ≡ some w = sym (up j ∙ rw same refl) ∙ e in omega (arith, pos, ap refs now)
    | inr other ↦ positive j w (sym (up j ∙ rw other refl) ∙ e)
  ]

  pub in_word-Updated :
      (left : ℕ)
      → ((j : Sha1Fp) → want j + suc left < 2 ^ 32)
      → (j : Sha1Fp) → want' j + left < 2 ^ 32
  in_word-Updated left small j = elim (Bool-cases (tuple_equaler fp j)) [
    | inl same ↦
        let rest : want' j ≡ want j + 1 = wants j ∙ rw same refl in omega (arith, rest, small j)
    | inr other ↦
        let rest : want' j ≡ want j = wants j ∙ rw other refl in omega (arith, rest, small j)
  ]

-- A duplicate is counted.
pub Shelving-duplicate :
    {want : Sha1Fp → ℕ} {shelf : ℕ → List Sha1Fp} {left : ℕ} (want' : Sha1Fp → ℕ) (fp : Sha1Fp)
    (chunk : Bytes) (w : Writer)
    → IsIndex w.manager
    → dedup_lookup fp w.manager ≡ dedup
    → Wanted fp want want'
    → Shelving want shelf (suc left) w
    → Shelving want' shelf left (count_duplicate fp chunk w)
unfolding count_duplicate
Shelving-duplicate {want} {shelf} {left} want' fp chunk w index old wants s =
    elim (Option-cases (entry w.manager fp)) [
      | inl absent ↦ absurd (ground (arith, dedup_lookup-entry fp w.manager))
      | inr (v, here) ↦
          let m' = (add_ref_cnt fp w.manager).0 in
          let up = (add_ref_cnt-Updated fp v w.manager index here).1 in
          let was : v.ref_cnt ≡ want fp = sym (ap refs here) ∙ s.counted fp in
          let u = inc_ref v in
          let now : (v.ref_cnt + 1) % 2 ^ 32 ≡ want fp + 1 = omega (arith, was, s.in_word fp) in
          record {
            counted = counted-Updated fp u w.manager m' want want' up wants s.counted now;
            positive =
                positive-Updated fp u w.manager m' want want' up wants s.positive
                  (omega (arith, now));
            shelves =
                Shelves-recount fp v ((v.ref_cnt + 1) % 2 ^ 32) w.manager m' here up s.shelves;
            fresh = s.fresh;
            count = s.count;
            listed_there = s.listed_there;
            few = omega (arith, s.few);
            in_word = in_word-Updated fp u w.manager m' want want' up wants left s.in_word;
          }
    ]
