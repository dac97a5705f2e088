-- ===== src/Metadata/Counts.antt =====
-- The life of an entry under reference counting: src/MetadataManager.cpp, `addRefCnt`, `decRefCnt`.
use c_dedup.Base.{
  ℕ, zero, suc, ◌+◌, ◌-◌, ◌^◌, ◌≤◌, ◌<◌, ◌≡◌, ap, ◌∙◌, false, none, some, arith, ltb, find, assign,
  Distinct, find-assign, find-erase_self, Distinct-assign, Distinct-erase, Bool-cases, inl, inr,
  lt→ltb,
}
use c_dedup.Metadata.{
  Sha1Fp, EntryValue, MetadataManager, fp_eq, tuple_equaler_iff, add_ref_cnt, dec_ref_cnt, inc_ref,
}

-- `n` deletions of a reference, and `n` further ones written.
unfoldable pub dec_times : ℕ → Sha1Fp → MetadataManager → MetadataManager
dec_times zero fp m = m
dec_times (suc n) fp m = dec_times n fp (dec_ref_cnt fp m).0

unfoldable pub add_times : ℕ → Sha1Fp → MetadataManager → MetadataManager
add_times zero fp m = m
add_times (suc n) fp m = add_times n fp (add_ref_cnt fp m).0

abbrev pub with_count : EntryValue → ℕ → EntryValue
with_count v n = record v { ref_cnt = n }

module _ (fp : Sha1Fp) where
  dec_shared :
      (v : EntryValue) (m : MetadataManager)
      → find fp m.fp_table_origin ≡ some v
      → 1 < v.ref_cnt
      → find fp (dec_ref_cnt fp m).0.fp_table_origin ≡ some (with_count v (v.ref_cnt - 1))
  unfolding dec_ref_cnt
  dec_shared v m e h =
      rw (e, lt→ltb 1 v.ref_cnt h, dec_ref_cnt)
        (ground (
          arith,
          find-assign fp fp (with_count v (v.ref_cnt - 1)) m.fp_table_origin,
          tuple_equaler_iff fp fp,
        ))

  dec_last :
      (v : EntryValue) (m : MetadataManager)
      → Distinct m.fp_table_origin
      → find fp m.fp_table_origin ≡ some v
      → v.ref_cnt ≤ 1
      → find fp (dec_ref_cnt fp m).0.fp_table_origin ≡ none
  unfolding dec_ref_cnt
  dec_last v m d e h =
      let last : ltb 1 v.ref_cnt ≡ false = ground arith in
      rw (e, last, dec_ref_cnt) (find-erase_self fp m.fp_table_origin d)

  dec-Distinct :
      (v : EntryValue) (m : MetadataManager)
      → Distinct m.fp_table_origin
      → find fp m.fp_table_origin ≡ some v
      → Distinct (dec_ref_cnt fp m).0.fp_table_origin
  unfolding dec_ref_cnt
  dec-Distinct v m d e = elim (Bool-cases (ltb 1 v.ref_cnt)) [
    | inl shared ↦ rw (e, shared, dec_ref_cnt) (Distinct-assign fp _ m.fp_table_origin d)
    | inr last ↦ rw (e, last, dec_ref_cnt) (Distinct-erase fp m.fp_table_origin d)
  ]

  dec_times-shared :
      (n : ℕ) (v : EntryValue) (m : MetadataManager)
      → find fp m.fp_table_origin ≡ some v
      → n < v.ref_cnt
      → find fp (dec_times n fp m).fp_table_origin ≡ some (with_count v (v.ref_cnt - n))
  unfolding dec_times
  dec_times-shared zero v m e h = e ∙ ap (λ k. some (with_count v k)) (omega arith)
  dec_times-shared (suc n) v m e h =
      dec_times-shared n (with_count v (v.ref_cnt - 1)) (dec_ref_cnt fp m).0
        (dec_shared v m e (omega arith)) (omega arith)
      ∙ ap (λ k. some (with_count v k)) (omega arith)

  -- One reference deleted at a time, an entry lasts as long as its count.
  dec_times-gone :
      (n : ℕ) (v : EntryValue) (m : MetadataManager)
      → Distinct m.fp_table_origin
      → find fp m.fp_table_origin ≡ some v
      → v.ref_cnt ≡ suc n
      → find fp (dec_times (suc n) fp m).fp_table_origin ≡ none
  unfolding dec_times
  dec_times-gone zero v m d e h = dec_last v m d e (omega arith)
  dec_times-gone (suc n) v m d e h =
      dec_times-gone n (with_count v (v.ref_cnt - 1)) (dec_ref_cnt fp m).0 (dec-Distinct v m d e)
        (dec_shared v m e (omega arith)) (omega arith)

  add_ref_once :
      (v : EntryValue) (m : MetadataManager)
      → find fp m.fp_table_added ≡ none
      → find fp m.fp_table_origin ≡ some v
      → (add_ref_cnt fp m).0
        ≡ record m { fp_table_origin = assign fp (inc_ref v) m.fp_table_origin }
  unfolding add_ref_cnt
  add_ref_once v m none_added e = rw (none_added, e, add_ref_cnt)

  add_times-find :
      (n : ℕ) (v : EntryValue) (m : MetadataManager)
      → Distinct m.fp_table_origin
      → find fp m.fp_table_added ≡ none
      → find fp m.fp_table_origin ≡ some v
      → v.ref_cnt + n < 2 ^ 32
      → (find fp (add_times n fp m).fp_table_origin ≡ some (with_count v (v.ref_cnt + n)))
        × Distinct (add_times n fp m).fp_table_origin
  unfolding add_times
  add_times-find zero v m d none_added e h = (e ∙ ap (λ k. some (with_count v k)) (omega arith), d)
  add_times-find (suc n) v m d none_added e h =
      rw (add_times, add_ref_once v m none_added e)
        (let m' = record m { fp_table_origin = assign fp (inc_ref v) m.fp_table_origin } in
          let here : find fp m'.fp_table_origin ≡ some (with_count v (v.ref_cnt + 1)) =
            ground
              (arith, find-assign fp fp (inc_ref v) m.fp_table_origin, tuple_equaler_iff fp fp) in
          let r =
            add_times-find n (with_count v (v.ref_cnt + 1)) m'
              (Distinct-assign fp (inc_ref v) m.fp_table_origin d) none_added here (omega arith) in
          (r.0 ∙ ap (λ k. some (with_count v k)) (omega arith), r.1))

-- A stored chunk written `n` more times keeps its place under `k` deletions, fewer than all, with the
-- count of those left, and its entry goes with the last, provided that the 32-bit count does not wrap.
pub ref_cnt_lifetime :
    (fp : Sha1Fp) (n k : ℕ) (v : EntryValue) (m : MetadataManager)
    → Distinct m.fp_table_origin
    → find fp m.fp_table_added ≡ none
    → find fp m.fp_table_origin ≡ some v
    → 1 ≤ v.ref_cnt
    → v.ref_cnt + n < 2 ^ 32
    → k < v.ref_cnt + n
    → (find fp (dec_times k fp (add_times n fp m)).fp_table_origin
        ≡ some (with_count v (v.ref_cnt + n - k)))
      × (find fp (dec_times (v.ref_cnt + n) fp (add_times n fp m)).fp_table_origin ≡ none)
ref_cnt_lifetime fp n k v m d none_added e pos h below =
    let (there, dist) = add_times-find fp n v m d none_added e h in
    let total : v.ref_cnt + n ≡ suc (v.ref_cnt + n - 1) = omega arith in
    (
      dec_times-shared fp k (with_count v (v.ref_cnt + n)) (add_times n fp m) there below,
      rw total (
          dec_times-gone fp (v.ref_cnt + n - 1) (with_count v (v.ref_cnt + n)) (add_times n fp m)
            dist there total),
    )
