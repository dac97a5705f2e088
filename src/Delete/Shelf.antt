-- ===== src/Delete/Shelf.antt =====
-- The container that a chunk is deleted from: main.cpp, `del_seg`, and src/MetadataManager.cpp,
-- `chunkOffsetDec`.
use c_dedup.Base.{
  ℕ, zero, suc, ◌+◌, ◌-◌, ◌%◌, ◌^◌, ◌≤◌, ◌<◌, ◌≡◌, ◌⊎◌, inl, inr, refl, sym, ap, subst, ◌∙◌, List,
  [], ◌∷◌, ◌++◌, arith, ltb, ◌==◌, ◌&&◌, Bool, true, false, some, length, take, drop, window, Bytes,
  length-drop, take_of_length-le, find, assign, erase, nat_eq, find-assign, find-erase_ne,
  Bool-cases, ==_iff, All, All-erase, All-assign, length-append, length-take,
}
use c_dedup.Store.{Files, container_size}
use c_dedup.Metadata.{Sha1Fp, EntryValue, MetadataManager, dec_offset, fp_of_bytes}
use c_dedup.Metadata.Index.{entry}
use c_dedup.Backup.Sound.{Holds, Sound}
use c_dedup.Delete.{del_seg}
use c_dedup.Delete.Segment.{cut_out, window-cut_out_before, window-cut_out_after, length-cut_out}
use c_dedup.Delete.Offsets.{listed, Moved}

-- A file that `del_seg` reads to its end.
abbrev pub IsSmall : ℕ × Bytes → Type 0
IsSmall file = length file.1 ≤ container_size

-- What `del_seg` makes of the files: file `k` without the bytes, unless nothing is left, and the rest.
pub record Cut (k oft len : ℕ) (content : Bytes) (files files' : Files) : Type 0 where
  pub there : 0 < length (cut_out oft len content) → find k files' ≡ some (cut_out oft len content)
  pub elsewhere : (j : ℕ) → (k == j) ≡ false → find j files' ≡ find j files
  pub sizes : All IsSmall files → All IsSmall files'

pub same_key : (k : ℕ) → (k == k) ≡ true
same_key k = ground arith

far_from : (k n : ℕ) (b : Bool) → b ≡ false → (n ≡ k → b ≡ true) → (k == n) ≡ false
far_from k n b h f = elim (Bool-cases (k == n)) [
  | inl same ↦ let e = f (sym ((==_iff k n).0 same)) in absurd (ground arith)
  | inr differs ↦ differs
]

long_enough : (n oft : ℕ) → oft ≤ n → ltb n oft ≡ false
long_enough n oft h = ground arith

nothing_left :
    (oft : ℕ) (xs ys : Bytes)
    → ((oft == 0) && (length ys == 0)) ≡ true
    → length (take oft xs ++ ys) ≡ 0
nothing_left zero xs [] h = refl
nothing_left zero xs (y ∷ ys) h = ground arith
nothing_left (suc oft) xs ys h = ground arith

-- The subtraction of the code, modulo 2^32, for an entry behind the deleted bytes.
pub sub_in_range :
    (off len : ℕ) → len ≤ off → off < 2 ^ 32 → (off + 2 ^ 32 - len) % 2 ^ 32 ≡ off - len
sub_in_range off len le small = omega arith

module _ (k oft len : ℕ) (content : Bytes) (files : Files) where
  pub del_seg-Cut :
      find k files ≡ some content
      → oft ≤ length content
      → length content ≤ container_size
      → (files' : Files) × (del_seg k oft len files ≡ some files')
        × Cut k oft len content files files'
  unfolding del_seg
  del_seg-Cut e fits small =
      let rest = drop len (drop oft content) in
      let whole : take container_size rest ≡ rest =
        take_of_length-le container_size rest
          (omega (arith, length-drop len (drop oft content), length-drop oft content)) in
      let left : length (cut_out oft len content) ≤ container_size = omega (
        arith,
        length-append (take oft content) rest,
        length-take oft content,
        length-drop len (drop oft content),
        length-drop oft content,
      ) in
      let enough : ltb (length content) oft ≡ false = long_enough (length content) oft fits in
      elim (Bool-cases ((oft == 0) && (length rest == 0))) [
        | inl empty ↦ (
          erase k files,
          rw (e, whole, enough, empty),
          record {
            there = λ pos. absurd (omega (arith, pos, nothing_left oft content rest empty));
            elsewhere = λ j other. find-erase_ne k j files other;
            sizes = λ all. All-erase IsSmall k files all;
          },
        )
        | inr some_left ↦ (
          assign k (cut_out oft len content) files,
          rw (e, whole, enough, some_left),
          record {
            there = λ pos. find-assign k k (cut_out oft len content) files ∙ rw (same_key k);
            elsewhere = λ j other. find-assign k j (cut_out oft len content) files ∙ rw other;
            sizes = λ all. All-assign IsSmall k (cut_out oft len content) files left all;
          },
        )
      ]

-- Where the bytes of an entry lie if those from `oft` on, `len` of them, are not among them.
abbrev pub Apart : ℕ → ℕ → EntryValue → Type 0
Apart oft len v = (v.offset + v.chunk_length ≤ oft) ⊎ (oft + len ≤ v.offset)

-- `fps` are the fingerprints of the entries in container `k`, beside the deleted one, and their bytes
-- are apart from its bytes.
pub record Shares (k oft len : ℕ) (fps : List Sha1Fp) (m : MetadataManager) : Type 0 where
  pub known :
      (j : Sha1Fp)
      → listed j fps ≡ true
      → (v : EntryValue) × (entry m j ≡ some v) × (v.container_number ≡ k)
  pub only :
      (j : Sha1Fp) (v : EntryValue)
      → entry m j ≡ some v
      → v.container_number ≡ k
      → (listed j fps ≡ true) × Apart oft len v

module _ (sha1 : Bytes → Bytes) (k oft len : ℕ) (content : Bytes) (files files' : Files) where
  -- An entry of the container still leads to its bytes after `chunkOffsetDec`.
  Holds-dec_offset :
      (fp : Sha1Fp) (v : EntryValue)
      → find k files ≡ some content
      → oft + len ≤ length content
      → length content ≤ container_size
      → 0 < len
      → Cut k oft len content files files'
      → v.container_number ≡ k
      → Apart oft len v
      → Holds sha1 (λ j. find j files) fp v
      → Holds sha1 (λ j. find j files') fp (dec_offset oft len v)
  Holds-dec_offset fp v e fits small pos cut here apart h =
      let same : h.content ≡ content = ground arith in
      let within : v.offset + v.chunk_length ≤ length content =
        subst (λ c. v.offset + v.chunk_length ≤ length c) same h.within in
      let matches : fp_of_bytes (sha1 (window v.offset v.chunk_length content)) ≡ fp =
        subst (λ c. fp_of_bytes (sha1 (window v.offset v.chunk_length c)) ≡ fp) same h.matches in
      let there : 0 < length (cut_out oft len content)
          → find v.container_number files' ≡ some (cut_out oft len content) =
        λ pos. ap (λ n. find n files') here ∙ cut.there pos in
      let left = length-cut_out oft len content fits in
      elim apart [
        | inl before ↦
            let stays : ltb oft v.offset ≡ false = ground (arith, h.nonempty, before) in
            rw stays (record {
              content = cut_out oft len content;
              stored = there (omega (arith, left, before, fits, h.nonempty));
              within = omega (arith, left, before, fits);
              nonempty = h.nonempty;
              reach = h.reach;
              matches =
                  ap (λ bs. fp_of_bytes (sha1 bs))
                    (window-cut_out_before oft len v.offset v.chunk_length content before within)
                  ∙ matches;
            })
        | inr behind ↦
            let moves : ltb oft v.offset ≡ true = ground (arith, pos, behind) in
            let offset =
              sub_in_range v.offset len (omega (arith, behind)) (omega (arith, within, small)) in
            rw (moves, offset)
              (record {
                content = cut_out oft len content;
                stored = there (omega (arith, left, behind, within, h.nonempty));
                within = omega (arith, left, behind, within);
                nonempty = h.nonempty;
                reach = omega (arith, h.reach);
                matches =
                    ap (λ bs. fp_of_bytes (sha1 bs))
                      (window-cut_out_after oft len v.offset v.chunk_length content behind
                        (omega (arith, within)))
                    ∙ matches;
              })
      ]

  -- The index stays sound: the container's entries move with their bytes, and the others stay.
  pub Sound-Moved :
      (fps : List Sha1Fp) (m m' : MetadataManager)
      → find k files ≡ some content
      → oft + len ≤ length content
      → length content ≤ container_size
      → 0 < len
      → Cut k oft len content files files'
      → Shares k oft len fps m
      → Moved oft len fps m m'
      → Sound sha1 (λ j. find j files) m
      → Sound sha1 (λ j. find j files') m'
  Sound-Moved fps m m' e fits small pos cut shares moves sound j w there =
      elim (Bool-cases (listed j fps)) [
        | inl here ↦
            let (v, found, number) = shares.known j here in
            let apart = (shares.only j v found number).1 in
            let same : some w ≡ some (dec_offset oft len v) =
              sym there ∙ (moves j ∙ rw (here, found)) in
            let value : w ≡ dec_offset oft len v = ground arith in
            subst (Holds sha1 (λ j. find j files') j) (sym value)
              (Holds-dec_offset j v e fits small pos cut number apart (sound j v found))
        | inr other ↦
            let found : entry m j ≡ some w = sym (moves j ∙ rw other) ∙ there in
            let far =
              far_from k w.container_number (listed j fps) other
                (λ number. (shares.only j w found number).0) in
            let h = sound j w found in
            record {
              content = h.content;
              stored = cut.elsewhere w.container_number far ∙ h.stored;
              within = h.within;
              nonempty = h.nonempty;
              reach = h.reach;
              matches = h.matches;
            }
      ]
