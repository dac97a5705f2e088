-- ===== src/Delete/Rounds.antt =====
-- The loop of a deletion over a recipe: main.cpp, `TASK_DELETE`.
use c_dedup.Base.{
  Bool, Option, tests, pos→ne_zero, ◌==◌, ℕ, ◌+◌, ◌-◌, ◌≤◌, ◌<◌, ◌≡◌, refl, sym, ap, subst, ◌∙◌,
  true, false, none, some, List, [], ◌∷◌, arith, ltb, if◌then◌else◌, length, Bytes, map, Bool-cases,
  Option-cases, inl, inr, find, length-assign, erase,
}
use c_dedup.Store.{Store}
use c_dedup.Metadata.{
  Sha1Fp, EntryValue, MetadataManager, FpTable, tuple_equaler, dec_ref_cnt, get_entry, dedup_lookup,
  dedup, fp_eq,
}
use c_dedup.Metadata.Index.{entry, entries_num, Updated, dec_ref_cnt-Updated, dedup_lookup-entry}
use c_dedup.Backup.Append.{fp_of}
use c_dedup.Delete.{delete_found, delete_by_lookup, delete_chunks, container_del_chunk}
use c_dedup.Delete.Whole.{container_del_chunk-Deleted}
use c_dedup.Delete.Listed.{listed-split}
use c_dedup.Delete.Counts.{refs, occurrences, same_fp}
use c_dedup.Delete.Kept.{Tracks}
use c_dedup.Delete.Recount.{Tracks-recount}
use c_dedup.Delete.Last.{LastReference, shelf_without, IsShelf-last, others}
use c_dedup.Delete.Without.{Tracks-last}

length-erase-le : (fp : Sha1Fp) (t : FpTable) → length (erase fp t) ≤ length t
unfolding erase
length-erase-le fp [] = omega arith
length-erase-le fp ((i, w) ∷ t) = ground (arith, length-erase-le fp t)

-- `decRefCnt` adds nothing to the index.
dec_ref_cnt-size :
    (fp : Sha1Fp) (v : EntryValue) (m : MetadataManager)
    → find fp m.fp_table_origin ≡ some v
    → ((dec_ref_cnt fp m).0.fp_table_added ≡ m.fp_table_added)
      × (entries_num (dec_ref_cnt fp m).0 ≤ entries_num m)
unfolding dec_ref_cnt
dec_ref_cnt-size fp v m e = elim (Bool-cases (ltb 1 v.ref_cnt)) [
  | inl shared ↦
      rw (e, shared, dec_ref_cnt)
        (
          refl,
          ground (arith, length-assign fp (record v { ref_cnt = v.ref_cnt - 1 }) m.fp_table_origin),
        )
  | inr last ↦ rw (e, last, dec_ref_cnt) (refl, omega (arith, length-erase-le fp m.fp_table_origin))
]

module _ (fp : Sha1Fp) (v : EntryValue) (s : Store) (m : MetadataManager)
    (e : find fp m.fp_table_origin ≡ some v) where
  looked_up : get_entry fp m ≡ (m, v)
  unfolding get_entry
  looked_up = rw (e, get_entry)

  run_shared :
      (count : ℕ)
      → (dec_ref_cnt fp m).1 ≡ some count
      → (count == 0) ≡ false
      → delete_found fp s m ≡ some (s, (dec_ref_cnt fp m).0)
  unfolding delete_found
  run_shared count c some_left = rw (looked_up, c, some_left)

  run_last :
      (dec_ref_cnt fp m).1 ≡ some 0
      → delete_found fp s m
        ≡ container_del_chunk v.container_number fp v.offset v.chunk_length s (dec_ref_cnt fp m).0
  unfolding delete_found
  run_last c = rw (looked_up, c)

zero_more : (n : ℕ) → 0 + n ≡ n
zero_more n = omega arith

one_more : (b : Bool) (n k : ℕ) → (if b then n + 1 else n) + k ≡ (if b then n + k + 1 else n + k)
one_more true n k = omega arith
one_more false n k = refl

module _ (sha1 : Bytes → Bytes) where
  -- What a round leaves.
  abbrev Goes : (Sha1Fp → ℕ) → Store → Option (Store × MetadataManager) → Type 0
  Goes want s run =
      (s' : Store) × (m' : MetadataManager) × (shelf : ℕ → List Sha1Fp) × (run ≡ some (s', m'))
      × Tracks sha1 want shelf s' m'
      × (s'.recipes ≡ s.recipes)

  -- A fingerprint that is wanted has an entry, which the process has loaded.
  wanted :
      {want : Sha1Fp → ℕ} {shelf : ℕ → List Sha1Fp} {s : Store} {m : MetadataManager} (fp : Sha1Fp)
      → Tracks sha1 want shelf s m
      → 0 < want fp
      → (v : EntryValue) × (entry m fp ≡ some v) × (find fp m.fp_table_origin ≡ some v)
  unfolding entry find
  wanted {m = m} fp t pos = elim (Option-cases (entry m fp)) [
    | inl absent ↦ absurd (omega (arith, pos, t.counted fp, ap refs absent))
    | inr (v, here) ↦ (v, here, ground (arith, here, ap (find fp) t.loaded))
  ]

  some_want :
      (fp : Sha1Fp) (want want' : Sha1Fp → ℕ)
      → want fp ≡ (if tuple_equaler fp fp then want' fp + 1 else want' fp)
      → 0 < want fp
  some_want fp want want' h =
      omega (arith, subst (λ b. want fp ≡ (if b then want' fp + 1 else want' fp)) (same_fp fp) h)

  delete_found-Goes :
      (fp : Sha1Fp) (want want' : Sha1Fp → ℕ) {shelf : ℕ → List Sha1Fp} (s : Store)
      (m : MetadataManager)
      → Tracks sha1 want shelf s m
      → ((j : Sha1Fp) → want j ≡ (if tuple_equaler fp j then want' j + 1 else want' j))
      → Goes want' s (delete_found fp s m)
  delete_found-Goes fp want want' {shelf} s m t wants =
      let (v, here, e) = wanted fp t (some_want fp want want' (wants fp)) in
      let (index, up, count) = dec_ref_cnt-Updated fp v m t.index e in
      let (added, size) = dec_ref_cnt-size fp v m e in
      elim (Bool-cases (ltb 1 v.ref_cnt)) [
        | inl shared ↦
            let falls : (dec_ref_cnt fp m).1 ≡ some (v.ref_cnt - 1) = count ∙ rw shared refl in
            let kept : Updated m fp (some (record v { ref_cnt = v.ref_cnt - 1 }))
                (dec_ref_cnt fp m).0 =
              λ j. up j ∙ rw shared refl in
            (
              s,
              (dec_ref_cnt fp m).0,
              shelf,
              run_shared fp v s m e (v.ref_cnt - 1) falls
                  (pos→ne_zero (v.ref_cnt - 1) (omega (tests, shared))),
              Tracks-recount fp v (v.ref_cnt - 1) m (dec_ref_cnt fp m).0 here kept sha1 want want' t
                  index (added ∙ t.loaded) size (omega (tests, shared)) (omega (tests, shared))
                  wants,
              refl,
            )
        | inr last ↦
            let one : v.ref_cnt ≡ 1 = ground (arith, last, t.positive fp v here) in
            let zero_left : (dec_ref_cnt fp m).1 ≡ some 0 = count ∙ rw last refl in
            let gone : Updated m fp none (dec_ref_cnt fp m).0 = λ j. up j ∙ rw last refl in
            let (pre, post, split) =
              listed-split fp (shelf v.container_number) (t.shelves.only fp v here) in
            let d : LastReference sha1 want shelf s m fp (dec_ref_cnt fp m).0 = record {
              tracks = t;
              value = v;
              here = here;
              up = gone;
              pre = pre;
              post = post;
              split = split;
            } in
            let (s', m', run, r) =
              container_del_chunk-Deleted sha1 v.container_number pre post fp v.offset
                v.chunk_length s (dec_ref_cnt fp m).0 (IsShelf-last d) index
                (λ j w there. t.sound j w (others d j w there).0) in
            (
              s',
              m',
              shelf_without d,
              run_last fp v s m e zero_left ∙ run,
              Tracks-last d r want' one wants (added ∙ t.loaded) size,
              r.recipes,
            )
      ]

  delete_chunk-Goes :
      (chunk : Bytes) (want want' : Sha1Fp → ℕ) {shelf : ℕ → List Sha1Fp} (s : Store)
      (m : MetadataManager)
      → Tracks sha1 want shelf s m
      → ((j : Sha1Fp)
          → want j ≡ (if tuple_equaler (fp_of sha1 chunk) j then want' j + 1 else want' j))
      → Goes want' s (delete_by_lookup (dedup_lookup (fp_of sha1 chunk) m) (fp_of sha1 chunk) s m)
  unfolding delete_by_lookup
  delete_chunk-Goes chunk want want' s m t wants =
      let fp = fp_of sha1 chunk in
      let (v, here, _) = wanted fp t (some_want fp want want' (wants fp)) in
      let found : dedup_lookup fp m ≡ dedup = dedup_lookup-entry fp m ∙ rw here refl in
      subst (λ l. Goes want' s (delete_by_lookup l fp s m)) (sym found)
        (delete_found-Goes fp want want' s m t wants)

  -- The loop over a recipe takes its chunks' references away, and no other.
  pub delete_chunks-Goes :
      (chunks : List Bytes) (want want' : Sha1Fp → ℕ) (shelf : ℕ → List Sha1Fp) (s : Store)
      (m : MetadataManager)
      → Tracks sha1 want shelf s m
      → ((j : Sha1Fp) → want j ≡ occurrences sha1 j chunks + want' j)
      → Goes want' s (delete_chunks (map sha1 chunks) s m)
  unfolding delete_chunks occurrences
  delete_chunks-Goes [] want want' shelf s m t wants =
      let same = λ (j : Sha1Fp). wants j ∙ zero_more (want' j) in
      (s, m, shelf, refl, subst (λ w. Tracks sha1 w shelf s m) (λ i j. same j i) t, refl)
  delete_chunks-Goes (chunk ∷ chunks) want want' shelf s m t wants =
      let between = λ (j : Sha1Fp). occurrences sha1 j chunks + want' j in
      let (s1, m1, shelf1, run, t1, same) = delete_chunk-Goes chunk want between s m t (λ j.
        wants j
        ∙ one_more (tuple_equaler (fp_of sha1 chunk) j) (occurrences sha1 j chunks) (want' j)) in
      let (s2, m2, shelf2, rest, t2, still) =
        delete_chunks-Goes chunks between want' shelf1 s1 m1 t1 (λ j. refl) in
      (s2, m2, shelf2, rw (run, rest), t2, still ∙ same)
