-- ===== src/Delete/Without.antt =====
-- What the repository keeps once a chunk is deleted: main.cpp, `container_del_chunk`.
use c_dedup.Base.{
  ℕ, ◌+◌, ◌*◌, ◌≤◌, ◌<◌, ◌≡◌, refl, sym, ap, subst, ◌∙◌, true, false, none, some, List, [], ◌∷◌,
  ◌++◌, arith, if◌then◌else◌, length, Bytes, Bool-cases, Option-cases, inl, inr, ◌==◌, ==_iff, find,
  nat_eq, length-append,
}
use c_dedup.Store.{Store, container_size}
use c_dedup.Metadata.{Sha1Fp, EntryValue, MetadataManager, tuple_equaler, tuple_equaler_iff}
use c_dedup.Metadata.Index.{entry, entries_num}
use c_dedup.Delete.Offsets.{listed, Once}
use c_dedup.Delete.Reverse.{reverse_file}
use c_dedup.Delete.Whole.{Deleted}
use c_dedup.Delete.Counts.{refs}
use c_dedup.Delete.Kept.{Shelves, Tracks}
use c_dedup.Delete.Last.{
  LastReference, others, alone, not_itself, without, beside, shelf_without, shelf_here,
  shelf_elsewhere,
}
use c_dedup.Delete.Left.{left, fields, right, Apart-left}

module _ {sha1 : Bytes → Bytes} {want : Sha1Fp → ℕ} {shelf : ℕ → List Sha1Fp} {s : Store}
    {m : MetadataManager} {fp : Sha1Fp} {m1 : MetadataManager}
    (d : LastReference sha1 want shelf s m fp m1) {s' : Store} {m' : MetadataManager}
    (r : Deleted sha1 d.value.container_number
      (d.pre ++ d.post)
      d.value.offset
      d.value.chunk_length
      s
      m1
      s'
      m') where
  pub Shelves-last : Shelves (shelf_without d) s'.containers s'.reverse m'
  Shelves-last = record {
    known = known;
    only = λ j w e.
        let l = left d r j w e in
        let number = (fields d r j w l).0 in
        let on = d.tracks.shelves.only j l.was l.there in
        ap (λ k. listed j (shelf_without d k)) number ∙ still j l.was.container_number l.other on;
    apart = λ i j x y ex ey differ number.
        Apart-left d r i j x y (left d r i x ex) (left d r j y ey) differ number;
    once = λ k. elim (Bool-cases (d.value.container_number == k)) [
      | inl same ↦ subst Once (sym (shelf_here d k same)) (alone d).0
      | inr other ↦ subst Once (sym (shelf_elsewhere d k other)) (d.tracks.shelves.once k)
    ];
    reverse_files = λ k. elim (Bool-cases (d.value.container_number == k)) [
      | inl same ↦
          subst (λ fps. 0 < length fps → find k s'.reverse ≡ some (reverse_file fps))
            (sym (shelf_here d k same))
            (subst
              (λ k.
                0 < length (d.pre ++ d.post)
                → find k s'.reverse ≡ some (reverse_file (d.pre ++ d.post)))
              ((==_iff d.value.container_number k).0 same) r.reverse)
      | inr other ↦
          subst (λ fps. 0 < length fps → find k s'.reverse ≡ some (reverse_file fps))
            (sym (shelf_elsewhere d k other))
            (λ pos. r.elsewhere k other ∙ d.tracks.shelves.reverse_files k pos)
    ];
    reverse_small = λ k. elim (Bool-cases (d.value.container_number == k)) [
      | inl same ↦
          subst (λ fps. 4 + 20 * length fps ≤ container_size) (sym (shelf_here d k same))
            (omega (
              arith,
              subst (λ fps. 4 + 20 * length fps ≤ container_size) d.split
                  (d.tracks.shelves.reverse_small d.value.container_number),
              length-append d.pre d.post,
              length-append d.pre (fp ∷ d.post),
            ))
      | inr other ↦
          subst (λ fps. 4 + 20 * length fps ≤ container_size) (sym (shelf_elsewhere d k other))
            (d.tracks.shelves.reverse_small k)
    ];
    small = r.small d.tracks.shelves.small;
  }
    where
      still :
          (j : Sha1Fp) (k : ℕ)
          → tuple_equaler fp j ≡ false
          → listed j (shelf k) ≡ true
          → listed j (shelf_without d k) ≡ true
      still j k other on = elim (Bool-cases (d.value.container_number == k)) [
        | inl same ↦
            let number = (==_iff d.value.container_number k).0 same in
            ap (listed j) (shelf_here d k same)
            ∙ (sym (without d j other) ∙ (ap (λ k. listed j (shelf k)) number ∙ on))
        | inr differs ↦ ap (listed j) (shelf_elsewhere d k differs) ∙ on
      ]

      known :
          (k : ℕ) (j : Sha1Fp)
          → listed j (shelf_without d k) ≡ true
          → (w : EntryValue) × (entry m' j ≡ some w) × (w.container_number ≡ k)
      known k j on = elim (Bool-cases (d.value.container_number == k)) [
        | inl same ↦
            let number = (==_iff d.value.container_number k).0 same in
            let among : listed j (d.pre ++ d.post) ≡ true =
              ap (listed j) (sym (shelf_here d k same)) ∙ on in
            let (u, there, place) = beside d j among in
            let (w, now, at, _) = right d r j u (others d j u there).0 (not_itself d j among) in
            (w, now, at ∙ (place ∙ number))
        | inr differs ↦
            let among : listed j (shelf k) ≡ true =
              ap (listed j) (sym (shelf_elsewhere d k differs)) ∙ on in
            let (u, there, place) = d.tracks.shelves.known k j among in
            let other : tuple_equaler fp j ≡ false = foreign k j u there place differs in
            let (w, now, at, _) = right d r j u there other in (w, now, at ∙ place)
      ]
        where
          foreign :
              (k : ℕ) (j : Sha1Fp) (u : EntryValue)
              → entry m j ≡ some u
              → u.container_number ≡ k
              → (d.value.container_number == k) ≡ false
              → tuple_equaler fp j ≡ false
          foreign k j u e place differs = elim (Bool-cases (tuple_equaler fp j)) [
            | inl same ↦
                let key : fp ≡ j = (tuple_equaler_iff fp j).0 same in
                let value : some d.value ≡ some u = sym d.here ∙ (ap (entry m) key ∙ e) in
                absurd (ground (arith, value, place, differs))
            | inr other ↦ other
          ]

  pub Tracks-last :
      (want' : Sha1Fp → ℕ)
      → d.value.ref_cnt ≡ 1
      → ((j : Sha1Fp) → want j ≡ (if tuple_equaler fp j then want' j + 1 else want' j))
      → m1.fp_table_added ≡ []
      → entries_num m1 ≤ entries_num m
      → Tracks sha1 want' (shelf_without d) s' m'
  Tracks-last want' one wants loaded size = record {
    index = r.index;
    loaded = (r.size loaded).0;
    fits = omega (
      arith,
      d.tracks.fits,
      size,
      (r.size loaded).1,
      ap length (r.size loaded).0,
      ap length loaded,
    );
    sound = r.sound;
    counted = λ j. counts j;
    positive = λ j w e.
        let l = left d r j w e in
        subst (λ n. 0 < n) (sym (fields d r j w l).1) (d.tracks.positive j l.was l.there);
    in_range = λ j w e.
        let l = left d r j w e in
        let (key, value) = d.tracks.in_range j l.was l.there in (key, (fields d r j w l).2 value);
    shelves = Shelves-last;
  }
    where
      counts : (j : Sha1Fp) → refs (entry m' j) ≡ want' j
      counts j = elim (Option-cases (entry m' j)) [
        | inl absent ↦ elim (Bool-cases (tuple_equaler fp j)) [
          | inl same ↦
              let key : fp ≡ j = (tuple_equaler_iff fp j).0 same in
              let was : d.value.ref_cnt ≡ want j =
                sym (ap refs d.here) ∙ (ap (λ x. refs (entry m x)) key ∙ d.tracks.counted j) in
              let rest : want j ≡ want' j + 1 = wants j ∙ rw same refl in
              ap refs absent ∙ omega (arith, was, rest, one)
          | inr other ↦
              let rest : want j ≡ want' j = wants j ∙ rw other refl in
              let gone : entry m j ≡ none = missing j absent other in
              ap refs (absent ∙ sym gone) ∙ (d.tracks.counted j ∙ rest)
        ]
        | inr (w, there) ↦
            let l = left d r j w there in
            let rest : want j ≡ want' j = wants j ∙ rw l.other refl in
            ap refs there
            ∙ ((fields d r j w l).1 ∙ (sym (ap refs l.there) ∙ (d.tracks.counted j ∙ rest)))
      ]
        where
          missing : (j : Sha1Fp) → entry m' j ≡ none → tuple_equaler fp j ≡ false → entry m j ≡ none
          missing j absent other = elim (Option-cases (entry m j)) [
            | inl gone ↦ gone
            | inr (u, there) ↦
                let (w, now, _, _) = right d r j u there other in
                absurd (ground (arith, now, absent))
          ]
