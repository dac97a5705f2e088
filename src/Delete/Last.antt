-- ===== src/Delete/Last.antt =====
-- A chunk that nothing refers to any more: main.cpp, `TASK_DELETE` and `container_del_chunk`, and
-- src/MetadataManager.cpp, `decRefCnt` at one.
use c_dedup.Base.{
  ℕ, ◌+◌, ◌*◌, ◌≤◌, ◌<◌, ◌≡◌, refl, sym, ap, subst, ◌∙◌, true, false, none, some, List, ◌∷◌, ◌++◌,
  arith, if◌then◌else◌, length, Bytes, All-find, Bool-cases, inl, inr, ◌==◌, nat_eq, length-append,
}
use c_dedup.Store.{Store, container_size}
use c_dedup.Metadata.{Sha1Fp, EntryValue, MetadataManager, tuple_equaler, tuple_equaler_iff}
use c_dedup.Metadata.Codec.{IsFp}
use c_dedup.Metadata.Index.{entry, Updated}
use c_dedup.Backup.Chunk.{Known}
use c_dedup.Delete.Offsets.{listed, Once}
use c_dedup.Delete.Shelf.{IsSmall, Shares}
use c_dedup.Delete.Reverse.{reverse_file}
use c_dedup.Delete.Whole.{IsShelf}
use c_dedup.Delete.Listed.{listed-without, Once-without, All-listed}
use c_dedup.Delete.Kept.{Tracks}

-- The last reference to the fingerprint: it has gone out of the index, from `m` to `m1`, and its
-- container's reverse file lists it between `pre` and `post`.
pub record LastReference (sha1 : Bytes → Bytes) (want : Sha1Fp → ℕ) (shelf : ℕ → List Sha1Fp)
    (s : Store) (m : MetadataManager) (fp : Sha1Fp) (m1 : MetadataManager) : Type 0 where
  pub tracks : Tracks sha1 want shelf s m
  pub value : EntryValue
  pub here : entry m fp ≡ some value
  pub up : Updated m fp none m1
  pub pre : List Sha1Fp
  pub post : List Sha1Fp
  pub split : shelf value.container_number ≡ pre ++ fp ∷ post

module _ {sha1 : Bytes → Bytes} {want : Sha1Fp → ℕ} {shelf : ℕ → List Sha1Fp} {s : Store}
    {m : MetadataManager} {fp : Sha1Fp} {m1 : MetadataManager}
    (d : LastReference sha1 want shelf s m fp m1) where
  pub others :
      (j : Sha1Fp) (w : EntryValue)
      → entry m1 j ≡ some w
      → (entry m j ≡ some w) × (tuple_equaler fp j ≡ false)
  others j w e = ground (arith, d.up j)

  pub stays : (j : Sha1Fp) → tuple_equaler fp j ≡ false → entry m1 j ≡ entry m j
  stays j other = d.up j ∙ rw other refl

  pub alone : Once (d.pre ++ d.post) × (listed fp (d.pre ++ d.post) ≡ false)
  alone =
      Once-without fp d.pre d.post
        (subst Once d.split (d.tracks.shelves.once d.value.container_number))

  pub not_itself : (j : Sha1Fp) → listed j (d.pre ++ d.post) ≡ true → tuple_equaler fp j ≡ false
  not_itself j h = elim (Bool-cases (tuple_equaler fp j)) [
    | inl same ↦
        let key : fp ≡ j = (tuple_equaler_iff fp j).0 same in
        absurd (ground (arith, alone.1, ap (λ x. listed x (d.pre ++ d.post)) key))
    | inr other ↦ other
  ]

  pub without :
      (j : Sha1Fp)
      → tuple_equaler fp j ≡ false
      → listed j (shelf d.value.container_number) ≡ listed j (d.pre ++ d.post)
  without j other = ap (listed j) d.split ∙ listed-without j fp d.pre d.post other

  -- The chunks beside it in its container.
  pub beside :
      (j : Sha1Fp)
      → listed j (d.pre ++ d.post) ≡ true
      → (w : EntryValue) × (entry m1 j ≡ some w) × (w.container_number ≡ d.value.container_number)
  beside j h =
      let other = not_itself j h in
      let (w, e, number) =
        d.tracks.shelves.known d.value.container_number j (without j other ∙ h) in
      (w, stays j other ∙ e, number)

  shares : Shares d.value.container_number d.value.offset d.value.chunk_length (d.pre ++ d.post) m1
  shares = record {
    known = beside;
    only = λ j w e number.
        let (there, other) = others j w e in
        let on_shelf : listed j (shelf d.value.container_number) ≡ true =
          ap (λ k. listed j (shelf k)) (sym number) ∙ d.tracks.shelves.only j w there in
        let not_same : tuple_equaler j fp ≡ false =
          ground (arith, tuple_equaler_iff fp j, tuple_equaler_iff j fp) in
        (
          sym (without j other) ∙ on_shelf,
          d.tracks.shelves.apart j fp w d.value there d.here not_same number,
        );
  }

  pub IsShelf-last :
      IsShelf d.value.container_number d.pre d.post fp d.value.offset d.value.chunk_length s m1
  IsShelf-last =
      let held = d.tracks.sound fp d.value d.here in
      record {
        content = held.content;
        stored = held.stored;
        within = held.within;
        small =
            All-find IsSmall d.value.container_number s.containers d.tracks.shelves.small
              held.stored;
        nonempty = held.nonempty;
        reverse =
            d.tracks.shelves.reverse_files d.value.container_number (
              subst (λ fps. 0 < length fps) (sym d.split)
                (omega (arith, length-append d.pre (fp ∷ d.post))))
            ∙ ap (λ fps. some (reverse_file fps)) d.split;
        reverse_small =
            subst (λ fps. 4 + 20 * length fps ≤ container_size) d.split
              (d.tracks.shelves.reverse_small d.value.container_number);
        del_in_range = (d.tracks.in_range fp d.value d.here).0;
        in_range =
            All-listed IsFp (d.pre ++ d.post) (λ j h.
              let (w, e, number) = beside j h in (d.tracks.in_range j w (others j w e).0).0);
        known =
            All-listed (Known m1) (d.pre ++ d.post)
              (λ j h. let (w, e, number) = beside j h in rw e refl);
        once = alone.0;
        del_once = alone.1;
        shares = shares;
      }

  -- The shelves without it.
  abbrev pub shelf_without : ℕ → List Sha1Fp
  shelf_without k = if d.value.container_number == k then d.pre ++ d.post else shelf k

  pub shelf_here :
      (k : ℕ) → (d.value.container_number == k) ≡ true → shelf_without k ≡ d.pre ++ d.post
  shelf_here k h = rw h refl

  pub shelf_elsewhere :
      (k : ℕ) → (d.value.container_number == k) ≡ false → shelf_without k ≡ shelf k
  shelf_elsewhere k h = rw h refl
