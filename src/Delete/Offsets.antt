-- ===== src/Delete/Offsets.antt =====
-- The loop of `container_del_chunk` over the fingerprints that a reverse file lists: main.cpp.
use c_dedup.Base.{
  ℕ, suc, ◌+◌, ◌≡◌, refl, ap, ◌∙◌, Bool, true, false, Option, none, some, List, [], ◌∷◌, ◌++◌,
  arith, ltb, if◌then◌else◌, length, take, drop, Bytes, All, All-mono, Option-cases, inl, inr,
  length-append, le_bytes, find, length-assign,
}
use c_dedup.Metadata.{
  Sha1Fp, EntryValue, MetadataManager, fp_bytes, fp_of_bytes, tuple_equaler, tuple_equaler_iff,
  chunk_offset_dec, dec_offset, fp_eq,
}
use c_dedup.Metadata.Codec.{IsFp, length-fp_bytes, fp_of_bytes-fp_bytes}
use c_dedup.Metadata.Index.{IsIndex, entry, chunk_offset_dec-Updated}
use c_dedup.Backup.Chunk.{Known, Known-Updated}
use c_dedup.Store.{sha_digest_length}
use c_dedup.Delete.{dec_offsets}

-- A loaded index stays a loaded one, of the same size.
abbrev pub SameSize : MetadataManager → MetadataManager → Type 0
SameSize m m' =
    m.fp_table_added ≡ []
    → (m'.fp_table_added ≡ []) × (length m'.fp_table_origin ≡ length m.fp_table_origin)

chunk_offset_dec-SameSize :
    (fp : Sha1Fp) (oft len : ℕ) (m m' : MetadataManager)
    → chunk_offset_dec fp oft len m ≡ some m'
    → SameSize m m'
unfolding chunk_offset_dec find
chunk_offset_dec-SameSize fp oft len m m' e loaded =
    elim (Option-cases (find fp m.fp_table_origin)) [
      | inl absent ↦
          let missing : find fp m.fp_table_added ≡ none = ap (find fp) loaded in
          absurd (ground arith)
      | inr (v, there) ↦
          let size = length-assign fp (dec_offset oft len v) m.fp_table_origin in ground arith
    ]

-- The bytes of a reverse file behind its count.
abbrev pub listing : List Sha1Fp → Bytes
listing [] = []
listing (fp ∷ fps) = fp_bytes fp ++ listing fps

abbrev pub listed : Sha1Fp → List Sha1Fp → Bool
listed j [] = false
listed j (fp ∷ fps) = if tuple_equaler fp j then true else listed j fps

-- No fingerprint is listed twice.
abbrev pub Once : List Sha1Fp → Type 0
Once [] = Unit
Once (fp ∷ fps) = (listed fp fps ≡ false) × Once fps

-- The next fingerprint of a listing, and what is left of it.
next_fp :
    (fp : Sha1Fp) (tail : Bytes)
    → IsFp fp
    → fp_of_bytes (take sha_digest_length (fp_bytes fp ++ tail)) ≡ fp
next_fp fp tail ok = fp_of_bytes-fp_bytes fp tail ok

next_drop : (fp : Sha1Fp) (tail : Bytes) → drop sha_digest_length (fp_bytes fp ++ tail) ≡ tail
unfolding fp_bytes le_bytes
next_drop fp tail = refl

next_enough :
    (fp : Sha1Fp) (tail : Bytes) → ltb (length (fp_bytes fp ++ tail)) sha_digest_length ≡ false
next_enough fp tail = ground (arith, length-append (fp_bytes fp) tail, length-fp_bytes fp)

SameSize-trans : (a b c : MetadataManager) → SameSize a b → SameSize b c → SameSize a c
SameSize-trans a b c f g loaded =
    let (first, size) = f loaded in let (last, same) = g first in (last, same ∙ size)

module _ (oft len : ℕ) where
  abbrev pub moved : Option EntryValue → Option EntryValue
  moved none = none
  moved (some v) = some (dec_offset oft len v)

  -- Every entry that `fps` lists has moved down; the others are as before.
  abbrev pub Moved : List Sha1Fp → MetadataManager → MetadataManager → Type 0
  Moved fps m m' =
      (j : Sha1Fp) → entry m' j ≡ (if listed j fps then moved (entry m j) else entry m j)

module _ (del : Sha1Fp) (oft len : ℕ) where
  step-kept :
      (c a : ℕ) (fp : Sha1Fp) (tail : Bytes) (d : Option ℕ) (m m' : MetadataManager)
      → IsFp fp
      → tuple_equaler fp del ≡ false
      → chunk_offset_dec fp oft len m ≡ some m'
      → dec_offsets (suc c) a (fp_bytes fp ++ tail) del oft len d m
        ≡ dec_offsets c (a + 1) tail del oft len d m'
  unfolding dec_offsets
  step-kept c a fp tail d m m' ok other e =
      rw (next_fp fp tail ok, next_drop fp tail, next_enough fp tail, other, e)

  step-deleted :
      (c a : ℕ) (tail : Bytes) (d : Option ℕ) (m : MetadataManager)
      → IsFp del
      → dec_offsets (suc c) a (fp_bytes del ++ tail) del oft len d m
        ≡ dec_offsets c (a + 1) tail del oft len (some a) m
  unfolding dec_offsets
  step-deleted c a tail d m ok =
      let same : tuple_equaler del del ≡ true = ground (arith, tuple_equaler_iff del del) in
      rw (next_fp del tail ok, next_drop del tail, next_enough del tail, same)

  -- One fingerprint: its entry moves, and what the rest of the loop moves adds to it.
  record Moves (fp : Sha1Fp) (fps : List Sha1Fp) (m m' : MetadataManager) : Type 0 where
    runs : chunk_offset_dec fp oft len m ≡ some m'
    size : SameSize m m'
    index : IsIndex m'
    known : All (Known m') fps
    joins : (m'' : MetadataManager) → Moved oft len fps m' m'' → Moved oft len (fp ∷ fps) m m''

  moves :
      (fp : Sha1Fp) (fps : List Sha1Fp) (m : MetadataManager)
      → IsIndex m
      → Known m fp
      → All (Known m) fps
      → listed fp fps ≡ false
      → (m' : MetadataManager) × Moves fp fps m m'
  unfolding entry
  moves fp fps m ok known all once = elim (Option-cases (entry m fp)) [
    | inl absent ↦ ground arith
    | inr (v, here) ↦
        let r = chunk_offset_dec-Updated fp oft len v m ok here in
        let keeps = Known-Updated m r.0 fp (dec_offset oft len v) r.3 in
        (
          r.0,
          record {
            runs = r.1;
            size = chunk_offset_dec-SameSize fp oft len m r.0 r.1;
            index = r.2;
            known = All-mono (Known m) (Known r.0) fps keeps.0 all;
            joins = λ m'' rest j. ground (arith, rest j, r.3 j, once, here, tuple_equaler_iff fp j);
          },
        )
  ]

  run :
      (fps : List Sha1Fp) (a : ℕ) (d : Option ℕ) (m : MetadataManager)
      → IsIndex m
      → All IsFp fps
      → All (Known m) fps
      → Once fps
      → listed del fps ≡ false
      → (m' : MetadataManager) × (dec_offsets (length fps) a (listing fps) del oft len d m
          ≡ some (d, m'))
        × IsIndex m'
        × Moved oft len fps m m'
        × SameSize m m'
  unfolding dec_offsets
  run [] a d m ok fine known once other = (m, refl, ok, λ j. refl, λ loaded. (loaded, refl))
  run (fp ∷ fps) a d m ok fine known once other =
      let step = moves fp fps m ok known.0 known.1 once.0 in
      let differs : tuple_equaler fp del ≡ false =
        ground (arith, tuple_equaler_iff fp del, tuple_equaler_iff del fp) in
      let rest =
        run fps (a + 1) d step.0 step.1.index fine.1 step.1.known once.1
          (ground (arith, tuple_equaler_iff del fp)) in
      (
        rest.0,
        step-kept (length fps) a fp (listing fps) d m step.0 fine.0 differs step.1.runs ∙ rest.1,
        rest.2,
        step.1.joins rest.0 rest.3,
        SameSize-trans m step.0 rest.0 step.1.size rest.4,
      )

  -- The loop over a reverse file that lists the deleted fingerprint once finds its number, and moves
  -- every other entry that is listed, and no other.
  pub dec_offsets-listing :
      (pre post : List Sha1Fp) (a : ℕ) (d : Option ℕ) (m : MetadataManager)
      → IsIndex m
      → IsFp del
      → All IsFp (pre ++ post)
      → All (Known m) (pre ++ post)
      → Once (pre ++ post)
      → listed del (pre ++ post) ≡ false
      → (m' : MetadataManager) × (dec_offsets
            (length (pre ++ del ∷ post))
            a
            (listing (pre ++ del ∷ post))
            del
            oft
            len
            d
            m
          ≡ some (some (a + length pre), m'))
        × IsIndex m'
        × Moved oft len (pre ++ post) m m'
        × SameSize m m'
  dec_offsets-listing [] post a d m ok del_ok fine known once other =
      let rest = run post (a + 1) (some a) m ok fine known once other in
      let e : a ≡ a + 0 = omega arith in
      (
        rest.0,
        step-deleted (length post) a (listing post) d m del_ok
            ∙ (rest.1 ∙ ap (λ k. some (some k, rest.0)) e),
        rest.2,
        rest.3,
        rest.4,
      )
  dec_offsets-listing (fp ∷ pre) post a d m ok del_ok fine known once other =
      let step = moves fp (pre ++ post) m ok known.0 known.1 once.0 in
      let differs : tuple_equaler fp del ≡ false =
        ground (arith, tuple_equaler_iff fp del, tuple_equaler_iff del fp) in
      let rest =
        dec_offsets-listing pre post (a + 1) d step.0 step.1.index del_ok fine.1 step.1.known once.1
          (ground (arith, tuple_equaler_iff del fp)) in
      let e : a + 1 + length pre ≡ a + suc (length pre) = omega arith in
      (
        rest.0,
        step-kept (length (pre ++ del ∷ post)) a fp (listing (pre ++ del ∷ post)) d m step.0 fine.0
              differs step.1.runs
            ∙ (rest.1 ∙ ap (λ k. some (some k, rest.0)) e),
        rest.2,
        step.1.joins rest.0 rest.3,
        SameSize-trans m step.0 rest.0 step.1.size rest.4,
      )
