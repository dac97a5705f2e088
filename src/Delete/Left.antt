-- ===== src/Delete/Left.antt =====
-- The entries that are left once a chunk is deleted: main.cpp, `container_del_chunk`, and
-- src/MetadataManager.cpp, `chunkOffsetDec`.
use c_dedup.Base.{
  ℕ, ◌≡◌, ◌⊎◌, refl, sym, ap, subst, ◌∙◌, true, false, some, List, ◌++◌, arith, Bytes, Bool-cases,
  inl, inr, ◌==◌, ==_iff, nat_eq,
}
use c_dedup.Store.{Store}
use c_dedup.Metadata.{
  Sha1Fp, EntryValue, MetadataManager, tuple_equaler, tuple_equaler_iff, dec_offset,
}
use c_dedup.Metadata.Codec.{IsEntry}
use c_dedup.Metadata.Index.{entry}
use c_dedup.Delete.Offsets.{listed}
use c_dedup.Delete.Shelf.{Apart}
use c_dedup.Delete.Whole.{Deleted}
use c_dedup.Delete.Lowered.{dec_offset-stays, dec_offset-IsEntry, Apart-dec_offset}
use c_dedup.Delete.Last.{LastReference, others, stays, not_itself, without, beside}

module _ {sha1 : Bytes → Bytes} {want : Sha1Fp → ℕ} {shelf : ℕ → List Sha1Fp} {s : Store}
    {m : MetadataManager} {fp : Sha1Fp} {m1 : MetadataManager}
    (d : LastReference sha1 want shelf s m fp m1) {s' : Store} {m' : MetadataManager}
    (r : Deleted sha1 d.value.container_number
      (d.pre ++ d.post)
      d.value.offset
      d.value.chunk_length
      s
      m1
      s'
      m') where
  -- Where an entry that is left was before.
  pub record Left (j : Sha1Fp) (w : EntryValue) : Type 0 where
    pub was : EntryValue
    pub there : entry m j ≡ some was
    pub other : tuple_equaler fp j ≡ false
    pub place :
        (w ≡ dec_offset d.value.offset d.value.chunk_length was)
          × (was.container_number ≡ d.value.container_number)
        ⊎ ((w ≡ was) × ((d.value.container_number == was.container_number) ≡ false))

  pub left : (j : Sha1Fp) (w : EntryValue) → entry m' j ≡ some w → Left j w
  left j w e = elim (Bool-cases (listed j (d.pre ++ d.post))) [
    | inl on ↦
        let (u, there, number) = beside d j on in
        let value : dec_offset d.value.offset d.value.chunk_length u ≡ w =
          ground (arith, e, r.moves j, on, there) in
        record {
          was = u;
          there = (others d j u there).0;
          other = not_itself d j on;
          place = inl (sym value, number);
        }
    | inr off ↦
        let there : entry m1 j ≡ some w = sym (r.moves j ∙ rw off refl) ∙ e in
        let (old, other) = others d j w there in
        record {
          was = w;
          there = old;
          other = other;
          place = inr (refl, elsewhere j w old other off);
        }
  ]
    where
      elsewhere :
          (j : Sha1Fp) (w : EntryValue)
          → entry m j ≡ some w
          → tuple_equaler fp j ≡ false
          → listed j (d.pre ++ d.post) ≡ false
          → (d.value.container_number == w.container_number) ≡ false
      elsewhere j w old other off =
          elim (Bool-cases (d.value.container_number == w.container_number)) [
            | inl same ↦
                let number = (==_iff d.value.container_number w.container_number).0 same in
                let on : listed j (shelf d.value.container_number) ≡ true =
                  ap (λ k. listed j (shelf k)) number ∙ d.tracks.shelves.only j w old in
                absurd (ground (arith, sym (without d j other) ∙ on, off))
            | inr differs ↦ differs
          ]

  -- The fields that the deletion leaves.
  pub fields :
      (j : Sha1Fp) (w : EntryValue) (l : Left j w)
      → (w.container_number ≡ l.was.container_number)
        × (w.ref_cnt ≡ l.was.ref_cnt)
        × (IsEntry l.was → IsEntry w)
  fields j w l = elim l.place [
    | inl (value, _) ↦
        let same = dec_offset-stays d.value.offset d.value.chunk_length l.was in
        (
          ap (λ x. x.container_number) value ∙ same.0,
          ap (λ x. x.ref_cnt) value ∙ same.3,
          λ ok.
              subst IsEntry (sym value)
                (dec_offset-IsEntry d.value.offset d.value.chunk_length l.was ok),
        )
    | inr (value, _) ↦ (
      ap (λ x. x.container_number) value,
      ap (λ x. x.ref_cnt) value,
      λ ok. subst IsEntry (sym value) ok,
    )
  ]

  -- The entries that stay, and their counts.
  pub right :
      (j : Sha1Fp) (u : EntryValue)
      → entry m j ≡ some u
      → tuple_equaler fp j ≡ false
      → (w : EntryValue) × (entry m' j ≡ some w)
        × (w.container_number ≡ u.container_number)
        × (w.ref_cnt ≡ u.ref_cnt)
  right j u e other =
      let there : entry m1 j ≡ some u = stays d j other ∙ e in
      elim (Bool-cases (listed j (d.pre ++ d.post))) [
        | inl on ↦
            let same = dec_offset-stays d.value.offset d.value.chunk_length u in
            (
              dec_offset d.value.offset d.value.chunk_length u,
              r.moves j ∙ rw (on, there) refl,
              same.0,
              same.3,
            )
        | inr off ↦ (u, r.moves j ∙ rw off there, refl, refl)
      ]

  pub Apart-left :
      (i j : Sha1Fp) (x y : EntryValue) (a : Left i x) (b : Left j y)
      → tuple_equaler i j ≡ false
      → x.container_number ≡ y.container_number
      → Apart y.offset y.chunk_length x
  Apart-left i j x y a b differ number =
      let (nx, _, _) = fields i x a in
      let (ny, _, _) = fields j y b in
      let was = a.was in
      let shared : a.was.container_number ≡ b.was.container_number = sym nx ∙ (number ∙ ny) in
      let apart = d.tracks.shelves.apart i j a.was b.was a.there b.there differ shared in
      elim a.place [
        | inl (vx, kx) ↦ elim b.place [
          | inl (vy, ky) ↦
              subst (λ y. Apart y.offset y.chunk_length x) (sym vy)
                (subst
                  (Apart (dec_offset d.value.offset d.value.chunk_length b.was).offset
                    (dec_offset d.value.offset d.value.chunk_length b.was).chunk_length)
                  (sym vx)
                  (Apart-dec_offset d.value.offset d.value.chunk_length a.was b.was
                    (d.tracks.sound fp d.value d.here).nonempty
                    (d.tracks.sound i a.was a.there).nonempty
                    (d.tracks.sound j b.was b.there).nonempty
                    (d.tracks.in_range i a.was a.there).1.offset
                    (d.tracks.in_range j b.was b.there).1.offset (clear i a.was a.there a.other kx)
                    (clear j b.was b.there b.other ky) apart))
          | inr (vy, far) ↦ absurd (ground (arith, far, kx, shared))
        ]
        | inr (vx, far) ↦ elim b.place [
          | inl (vy, ky) ↦ absurd (ground (arith, far, ky, shared))
          | inr (vy, _) ↦
              subst (λ y. Apart y.offset y.chunk_length x) (sym vy)
                (subst (Apart b.was.offset b.was.chunk_length) (sym vx) apart)
        ]
      ]
    where
      clear :
          (j : Sha1Fp) (u : EntryValue)
          → entry m j ≡ some u
          → tuple_equaler fp j ≡ false
          → u.container_number ≡ d.value.container_number
          → Apart d.value.offset d.value.chunk_length u
      clear j u e other number =
          d.tracks.shelves.apart j fp u d.value e d.here
            (ground (arith, tuple_equaler_iff fp j, tuple_equaler_iff j fp)) number
