-- ===== src/Lifecycle/Placed.antt =====
-- A chunk is put on a shelf: what its entry and its line in the reverse file of the open container
-- do to the shelves. main.cpp, `saveChunkToContainer`.
use c_dedup.Base.{
  one_result, ◌⊎◌, ℕ, ◌+◌, ◌*◌, ◌≤◌, ◌<◌, ◌≡◌, refl, sym, ap, subst, ◌∙◌, true, false, none, some,
  List, [], ◌∷◌, ◌++◌, arith, if◌then◌else◌, length, find, nat_eq, ◌==◌, ==_iff, Bool-cases, inl,
  inr, length-append,
}
use c_dedup.Store.{Files, container_size}
use c_dedup.Metadata.{Sha1Fp, EntryValue, MetadataManager, tuple_equaler, tuple_equaler_iff}
use c_dedup.Metadata.Index.{entry, Updated}
use c_dedup.Delete.Offsets.{listed, Once}
use c_dedup.Delete.Listed.{listed-append, Once-snoc}
use c_dedup.Delete.Shelf.{Apart, same_key}
use c_dedup.Delete.Reverse.{reverse_file}
use c_dedup.Delete.Counts.{same_fp}
use c_dedup.Delete.Kept.{Shelves}
use c_dedup.Lifecycle.Shelving.{opened, find-opened}

-- The shelves with one chunk more on the `k`-th.
abbrev pub one_more : (ℕ → List Sha1Fp) → ℕ → Sha1Fp → ℕ → List Sha1Fp
one_more shelf k fp i = if k == i then shelf i ++ fp ∷ [] else shelf i

pub one_more-here :
    (shelf : ℕ → List Sha1Fp) (k : ℕ) (fp : Sha1Fp) (i : ℕ)
    → (k == i) ≡ true
    → one_more shelf k fp i ≡ shelf i ++ fp ∷ []
one_more-here shelf k fp i h = rw h refl

module _ (shelf : ℕ → List Sha1Fp) (containers reverse : Files) (m m' : MetadataManager)
    (fp : Sha1Fp) (placed : EntryValue) (k : ℕ) (number : placed.container_number ≡ k)
    (absent : entry m fp ≡ none) (up : Updated m fp (some placed) m')
    (in_front : (j : Sha1Fp) (v : EntryValue)
      → entry m j ≡ some v
      → v.container_number ≡ k
      → v.offset + v.chunk_length ≤ placed.offset)
    (room : 4 + 20 * (length (shelf k) + 1) ≤ container_size)
    (t : Shelves shelf containers (opened shelf k reverse) m) where
  abbrev shelf_with : ℕ → List Sha1Fp
  shelf_with = one_more shelf k fp

  shelf_here : (i : ℕ) → (k == i) ≡ true → shelf_with i ≡ shelf i ++ fp ∷ []
  shelf_here = one_more-here shelf k fp

  not_listed : (i : ℕ) → listed fp (shelf i) ≡ false
  not_listed i = elim (Bool-cases (listed fp (shelf i))) [
    | inl on ↦ let (v, there, at) = t.known i fp on in absurd (ground (arith, there, absent))
    | inr off ↦ off
  ]

  shelf_elsewhere : (i : ℕ) → (k == i) ≡ false → shelf_with i ≡ shelf i
  shelf_elsewhere i h = rw h refl

  -- What was listed stays so, and the new one is.
  listed_with : (i : ℕ) (j : Sha1Fp) → listed j (shelf i) ≡ true → listed j (shelf_with i) ≡ true
  listed_with i j on = elim (Bool-cases (k == i)) [
    | inl here ↦
        ap (listed j) (shelf_here i here) ∙ (listed-append j (shelf i) (fp ∷ []) ∙ rw on refl)
    | inr other ↦ ap (listed j) (shelf_elsewhere i other) ∙ on
  ]

  listed_new : listed fp (shelf_with k) ≡ true
  listed_new =
      ap (listed fp) (shelf_here k (same_key k))
      ∙ (listed-append fp (shelf k) (fp ∷ []) ∙ rw (not_listed k, same_fp fp) refl)

  -- An entry afterwards is the new one or an old one.
  old_or_new :
      (j : Sha1Fp) (v : EntryValue)
      → entry m' j ≡ some v
      → ((fp ≡ j) × (placed ≡ v)) ⊎ ((entry m j ≡ some v) × (tuple_equaler fp j ≡ false))
  old_or_new j v e = elim (Bool-cases (tuple_equaler fp j)) [
    | inl same ↦
        let now : some placed ≡ some v = sym (up j ∙ rw same refl) ∙ e in
        inl ((tuple_equaler_iff fp j).0 same, one_result placed v now)
    | inr other ↦ inr (sym (up j ∙ rw other refl) ∙ e, other)
  ]

  still : (j : Sha1Fp) (v : EntryValue) → entry m j ≡ some v → entry m' j ≡ some v
  still j v there = elim (Bool-cases (tuple_equaler fp j)) [
    | inl same ↦
        let key : fp ≡ j = (tuple_equaler_iff fp j).0 same in
        absurd (ground (arith, there, absent, ap (entry m) key))
    | inr other ↦ up j ∙ rw other there
  ]

  now_there : entry m' fp ≡ some placed
  now_there = up fp ∙ rw (same_fp fp) refl

  known_with :
      (i : ℕ) (j : Sha1Fp)
      → listed j (shelf_with i) ≡ true
      → (v : EntryValue) × (entry m' j ≡ some v) × (v.container_number ≡ i)
  known_with i j on = elim (Bool-cases (listed j (shelf i))) [
    | inl before ↦ let (v, there, at) = t.known i j before in (v, still j v there, at)
    | inr off ↦ elim (Bool-cases (k == i)) [
      | inl here ↦
          let among : listed j (shelf i ++ fp ∷ []) ≡ true =
            ap (listed j) (sym (shelf_here i here)) ∙ on in
          let key : fp ≡ j =
            ground
              (arith, among, off, listed-append j (shelf i) (fp ∷ []), tuple_equaler_iff fp j) in
          (placed, ap (entry m') (sym key) ∙ now_there, number ∙ (==_iff k i).0 here)
      | inr other ↦ absurd (ground (arith, off, ap (listed j) (shelf_elsewhere i other), on))
    ]
  ]

  Apart-with :
      (i j : Sha1Fp) (v u : EntryValue)
      → entry m' i ≡ some v
      → entry m' j ≡ some u
      → tuple_equaler i j ≡ false
      → v.container_number ≡ u.container_number
      → Apart u.offset u.chunk_length v
  Apart-with i j v u ei ej differ same = elim (old_or_new i v ei) [
    | inl (ki, vi) ↦ elim (old_or_new j u ej) [
      | inl (kj, vj) ↦ absurd (ground (arith, differ, tuple_equaler_iff i j, ki, kj))
      | inr (tj, _) ↦
          let at : u.container_number ≡ k =
            sym same ∙ (sym (ap (λ x. x.container_number) vi) ∙ number) in
          let front = in_front j u tj at in inr (omega (arith, front, ap (λ x. x.offset) vi))
    ]
    | inr (ti, _) ↦ elim (old_or_new j u ej) [
      | inl (kj, vj) ↦
          let at : v.container_number ≡ k =
            same ∙ (sym (ap (λ x. x.container_number) vj) ∙ number) in
          let front = in_front i v ti at in inl (omega (arith, front, ap (λ x. x.offset) vj))
      | inr (tj, _) ↦ t.apart i j v u ti tj differ same
    ]
  ]

  only_with :
      (j : Sha1Fp) (v : EntryValue)
      → entry m' j ≡ some v
      → listed j (shelf_with v.container_number) ≡ true
  only_with j v e = elim (old_or_new j v e) [
    | inl (key, value) ↦
        subst (λ (x : Sha1Fp × EntryValue). listed x.0 (shelf_with x.1.container_number) ≡ true)
          (λ i. (key i, value i)) (ap (λ n. listed fp (shelf_with n)) number ∙ listed_new)
    | inr (there, _) ↦ listed_with v.container_number j (t.only j v there)
  ]

  pub Shelves-with : Shelves shelf_with containers (opened shelf_with k reverse) m'
  Shelves-with = record {
    known = known_with;
    only = only_with;
    apart = Apart-with;
    once = λ i. elim (Bool-cases (k == i)) [
      | inl here ↦
          subst Once (sym (shelf_here i here)) (Once-snoc fp (shelf i) (t.once i) (not_listed i))
      | inr other ↦ subst Once (sym (shelf_elsewhere i other)) (t.once i)
    ];
    reverse_files = λ i pos. find-opened shelf_with k i reverse ∙ elim (Bool-cases (k == i)) [
      | inl here ↦ rw here refl
      | inr other ↦
          let same = shelf_elsewhere i other in
          let before = t.reverse_files i (subst (λ fps. 0 < length fps) same pos) in
          let file : find i reverse ≡ some (reverse_file (shelf i)) =
            sym (find-opened shelf k i reverse ∙ rw other refl) ∙ before in
          rw other file
    ];
    reverse_small = λ i. elim (Bool-cases (k == i)) [
      | inl here ↦
          let at = (==_iff k i).0 here in
          omega (
            arith,
            room,
            ap length (shelf_here k (same_key k)),
            length-append (shelf k) (fp ∷ []),
            ap (λ i. length (shelf_with i)) at,
          )
      | inr other ↦ omega (arith, t.reverse_small i, ap length (shelf_elsewhere i other))
    ];
    small = t.small;
  }
