-- ===== src/Lifecycle/Closing.antt =====
-- The end of a backup, and the next process: main.cpp, `TASK_WRITE` from `writend` on.
use c_dedup.Base.{
  ==_iff, ℕ, ◌+◌, ◌≤◌, ◌≡◌, refl, sym, ap, ◌∙◌, false, none, some, List, [], ◌∷◌, arith, ltb,
  if◌then◌else◌, length, Bytes, All-find, map, concat, Bool-cases, Option-cases, inl, inr, find,
  assign, nat_eq, ◌==◌,
}
use c_dedup.Store.{containers_num}
use c_dedup.Metadata.{Sha1Fp, EntryValue, fp_eq}
use c_dedup.Metadata.Codec.{IsFp, IsEntry}
use c_dedup.Metadata.Index.{entry}
use c_dedup.Backup.{Writer}
use c_dedup.Backup.Flush.{IsWriting, contents, saved, containers_num-save_container}
use c_dedup.Backup.Repository.{closed}
use c_dedup.Delete.Offsets.{listed}
use c_dedup.Delete.Counts.{Versions, uses, occurrences, recipe_files}
use c_dedup.Delete.Kept.{Shelves}
use c_dedup.Lifecycle.Shelving.{Shelving, find-saved, saved-IsSmall, nothing_on, find-opened}

empty_of_length : (xs : Bytes) → length xs ≡ 0 → xs ≡ []
empty_of_length [] h = refl
empty_of_length (x ∷ xs) h = absurd (omega (arith, h))

-- With nothing in the buffer the open container has no chunk.
none_in_buffer :
    (sha1 : Bytes → Bytes) {want : Sha1Fp → ℕ} {shelf : ℕ → List Sha1Fp} (w : Writer)
    → IsWriting sha1 w
    → Shelving want shelf 0 w
    → w.container_buf ≡ []
    → shelf w.container_index ≡ []
unfolding contents
none_in_buffer sha1 {shelf = shelf} w ok s empty = nothing_on (shelf w.container_index) (λ j.
    elim (Bool-cases (listed j (shelf w.container_index))) [
      | inl on ↦
          let (v, there, number) = s.shelves.known w.container_index j on in
          let held = ok.sound j v there in
          let here : some w.container_buf ≡ some held.content =
            sym (
              ap (contents w) number
              ∙ rw ((==_iff w.container_index w.container_index).1 refl) refl)
            ∙ held.stored in
          absurd (ground (arith, held.within, held.nonempty, here, ap length empty))
      | inr off ↦ off
    ])

module _ (sha1 : Bytes → Bytes) {want : Sha1Fp → ℕ} {shelf : ℕ → List Sha1Fp} (w : Writer)
    (ok : IsWriting sha1 w) (s : Shelving want shelf 0 w) where
  Shelves-saved : Shelves shelf (saved w).containers (saved w).reverse w.manager
  Shelves-saved = record {
    known = s.shelves.known;
    only = s.shelves.only;
    apart = s.shelves.apart;
    once = s.shelves.once;
    reverse_files = λ k pos. find-saved sha1 w ok s k ∙ s.shelves.reverse_files k pos;
    reverse_small = s.shelves.reverse_small;
    small = saved-IsSmall sha1 w ok s;
  }

  Shelves-unsaved :
      shelf w.container_index ≡ [] → Shelves shelf w.store.containers w.store.reverse w.manager
  Shelves-unsaved empty = record {
    known = s.shelves.known;
    only = s.shelves.only;
    apart = s.shelves.apart;
    once = s.shelves.once;
    reverse_files = λ k pos. elim (Bool-cases (w.container_index == k)) [
      | inl here ↦
          let same : w.container_index ≡ k = (==_iff w.container_index k).0 here in
          absurd (omega (arith, pos, ap length empty, ap (λ n. length (shelf n)) same))
      | inr other ↦
          sym (find-opened shelf w.container_index k w.store.reverse ∙ rw other refl)
          ∙ s.shelves.reverse_files k pos
    ];
    reverse_small = s.shelves.reverse_small;
    small = s.shelves.small;
  }

  -- The shelves with the files after the last flush.
  pub Shelves-closed : Shelves shelf (closed w).containers (closed w).reverse w.manager
  Shelves-closed = elim (Bool-cases (ltb 0 w.container_buf_pointer)) [
    | inl full ↦ rw full Shelves-saved
    | inr empty ↦
        let none : w.container_buf ≡ [] =
          empty_of_length w.container_buf (ground (arith, ok.pointer)) in
        rw empty (Shelves-unsaved (none_in_buffer sha1 w ok s none))
  ]

  -- No reverse file stands where the next container will be saved.
  pub reverse-closed : (k : ℕ) → containers_num (closed w) ≤ k → find k (closed w).reverse ≡ none
  reverse-closed k h = elim (Bool-cases (ltb 0 w.container_buf_pointer)) [
    | inl full ↦
        let same = ap (λ b. (if b then saved w else w.store)) full in
        let count = ap containers_num same in
        let behind : (w.container_index == k) ≡ false =
          ground (arith, h, count, containers_num-save_container sha1 w ok) in
        ap (λ r. find k r.reverse) same
        ∙ (find-saved sha1 w ok s k
            ∙ (find-opened shelf w.container_index k w.store.reverse
                ∙ rw behind
                    (s.fresh k (omega (arith, h, count, containers_num-save_container sha1 w ok)))))
    | inr empty ↦
        let same = ap (λ b. (if b then saved w else w.store)) empty in
        let count = ap containers_num same in
        ap (λ r. find k r.reverse) same ∙ s.fresh k (omega (arith, h, count, ok.counted))
  ]

  -- The words of every entry are in range.
  pub entries-in_range :
      (fp : Sha1Fp) (v : EntryValue) → entry w.manager fp ≡ some v → IsFp fp × IsEntry v
  unfolding entry
  entries-in_range fp v e = elim (Option-cases (find fp w.manager.fp_table_origin)) [
    | inl absent ↦
        All-find (λ x. IsFp x.0 × IsEntry x.1) fp w.manager.fp_table_added ok.added
          (sym (rw absent refl) ∙ e)
    | inr (u, here) ↦
        All-find (λ x. IsFp x.0 × IsEntry x.1) fp w.manager.fp_table_origin ok.origin
          (here ∙ (sym (rw here refl) ∙ e))
  ]

pub assign-recipe_files :
    (sha1 : Bytes → Bytes) (version : ℕ) (chunks : List Bytes) (versions : Versions)
    → find version versions ≡ none
    → assign version (concat (map sha1 chunks)) (recipe_files sha1 versions)
      ≡ recipe_files sha1 (assign version chunks versions)
unfolding assign recipe_files find
assign-recipe_files sha1 version chunks [] h = refl
assign-recipe_files sha1 version chunks ((v, c) ∷ versions) h = elim (Bool-cases (v == version)) [
  | inl same ↦ absurd (ground arith)
  | inr other ↦
      rw (other, recipe_files)
        (ap (λ r. (v, concat (map sha1 c)) ∷ r)
          (assign-recipe_files sha1 version chunks versions (ground arith)))
]

pub uses-assign :
    (sha1 : Bytes → Bytes) (fp : Sha1Fp) (version : ℕ) (chunks : List Bytes) (versions : Versions)
    → find version versions ≡ none
    → uses sha1 fp (assign version chunks versions)
      ≡ occurrences sha1 fp chunks + uses sha1 fp versions
unfolding assign uses find
uses-assign sha1 fp version chunks [] h = refl
uses-assign sha1 fp version chunks ((v, c) ∷ versions) h = elim (Bool-cases (v == version)) [
  | inl same ↦ absurd (ground arith)
  | inr other ↦
      rw (other, uses) (omega (arith, uses-assign sha1 fp version chunks versions (ground arith)))
]
