-- ===== src/Backup/Sound.antt =====
-- What the index promises: every entry leads to stored bytes whose SHA-1 is its key.
use c_dedup.Base.{
  ℕ, ◌+◌, ◌≤◌, ◌<◌, ◌≡◌, sym, ap, ◌∙◌, subst, Option, some, [], ◌++◌, arith, length, window, Bytes,
  length-append, take-drop-append, Bool-cases, inl, inr, append-nil,
}
use c_dedup.Store.{container_size}
use c_dedup.Metadata.{
  Sha1Fp, EntryValue, MetadataManager, fp_of_bytes, tuple_equaler, tuple_equaler_iff,
}
use c_dedup.Metadata.Index.{entry, Updated}

-- The content of a container by its number.
abbrev pub Containers : Type 0
Containers = ℕ → Option Bytes

module _ (sha1 : Bytes → Bytes) where
  -- The entry's bytes lie within its container and its largest size, there is at least one, and they have that SHA-1.
  pub record Holds (file : Containers) (fp : Sha1Fp) (v : EntryValue) : Type 0 where
    pub content : Bytes
    pub stored : file v.container_number ≡ some content
    pub within : v.offset + v.chunk_length ≤ length content
    pub nonempty : 0 < v.chunk_length
    pub reach : v.offset + v.chunk_length ≤ container_size
    pub matches : fp_of_bytes (sha1 (window v.offset v.chunk_length content)) ≡ fp

  abbrev pub Sound : Containers → MetadataManager → Type 0
  Sound file m = (fp : Sha1Fp) (v : EntryValue) → entry m fp ≡ some v → Holds file fp v

-- Containers only grow: each keeps what it held, at the same place.
abbrev pub Grows : Containers → Containers → Type 0
Grows old new =
    (k : ℕ) (content : Bytes)
    → old k ≡ some content
    → (rest : Bytes) × (new k ≡ some (content ++ rest))

module _ (sha1 : Bytes → Bytes) {old new : Containers} (grows : Grows old new) where
  pub Holds-Grows : {fp : Sha1Fp} {v : EntryValue} → Holds sha1 old fp v → Holds sha1 new fp v
  Holds-Grows {fp} {v} h =
      let (rest, there) = grows v.container_number h.content h.stored in
      record {
        content = h.content ++ rest;
        stored = there;
        within = omega (arith, h.within, length-append h.content rest);
        nonempty = h.nonempty;
        reach = h.reach;
        matches =
            ap (λ bs. fp_of_bytes (sha1 bs))
              (take-drop-append v.offset v.chunk_length h.content rest h.within)
            ∙ h.matches;
      }

  pub Sound-Grows : (m : MetadataManager) → Sound sha1 old m → Sound sha1 new m
  Sound-Grows m sound fp v e = Holds-Grows (sound fp v e)

  -- A new entry beside the old ones.
  pub Sound-Updated :
      (m m' : MetadataManager) (fp : Sha1Fp) (v : EntryValue)
      → Sound sha1 old m
      → Updated m fp (some v) m'
      → Holds sha1 new fp v
      → Sound sha1 new m'
  Sound-Updated m m' fp v sound up here j w e = elim (Bool-cases (tuple_equaler fp j)) [
    | inl same ↦
        let key : fp ≡ j = (tuple_equaler_iff fp j).0 same in
        let value : v ≡ w = ground (arith, up j) in
        subst (λ (x : Sha1Fp × EntryValue). Holds sha1 new x.0 x.1) (λ i. (key i, value i)) here
    | inr other ↦ Holds-Grows (sound j w (ground (arith, up j)))
  ]

-- The count of references has no part in it.
pub Holds-recount :
    (sha1 : Bytes → Bytes) {file : Containers} {fp : Sha1Fp} {v : EntryValue} (n : ℕ)
    → Holds sha1 file fp v
    → Holds sha1 file fp (record v { ref_cnt = n })
Holds-recount sha1 n h = record {
  content = h.content;
  stored = h.stored;
  within = h.within;
  nonempty = h.nonempty;
  reach = h.reach;
  matches = h.matches;
}

pub Grows-refl : (file : Containers) → Grows file file
Grows-refl file k content e = ([], e ∙ ap some (sym (append-nil content)))
