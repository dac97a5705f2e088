-- ===== src/Delete/Whole.antt =====
-- A chunk leaves its container: main.cpp, `container_del_chunk`.
use c_dedup.Base.{
  ℕ, ◌+◌, ◌*◌, ◌≤◌, ◌<◌, ◌≡◌, refl, ap, ◌∙◌, List, [], ◌∷◌, ◌++◌, arith, Option, none, some, length,
  take, drop, Bytes, of_le, find, nat_eq, ◌==◌, erase, true, false, Bool-cases, inl, inr, All,
  ==_iff, length-append, find-erase_ne, false,
}
use c_dedup.Store.{Store, Files, container_size}
use c_dedup.Metadata.{Sha1Fp, MetadataManager}
use c_dedup.Metadata.Codec.{IsFp}
use c_dedup.Metadata.Index.{IsIndex}
use c_dedup.Backup.Chunk.{Known}
use c_dedup.Backup.Sound.{Sound}
use c_dedup.Backup.Repository.{on_disk}
use c_dedup.Delete.{container_del_chunk, del_seg, dec_offsets, unlist}
use c_dedup.Delete.Offsets.{listed, Once, Moved, SameSize, dec_offsets-listing}
use c_dedup.Delete.Shelf.{IsSmall, del_seg-Cut, Shares, Sound-Moved}
use c_dedup.Delete.Reverse.{reverse_file, unlist-reverse_file, count_of, drop_of}

-- A container that holds a chunk of fingerprint `del`, `len` bytes from `oft` on, which has no entry
-- any more; its reverse file lists that one between `pre` and `post`, and those that still have one.
pub record IsShelf (k : ℕ) (pre post : List Sha1Fp) (del : Sha1Fp) (oft len : ℕ) (s : Store)
    (m : MetadataManager) : Type 0 where
  pub content : Bytes
  pub stored : find k s.containers ≡ some content
  pub within : oft + len ≤ length content
  pub small : length content ≤ container_size
  pub nonempty : 0 < len
  pub reverse : find k s.reverse ≡ some (reverse_file (pre ++ del ∷ post))
  pub reverse_small : 4 + 20 * length (pre ++ del ∷ post) ≤ container_size
  pub del_in_range : IsFp del
  pub in_range : All IsFp (pre ++ post)
  pub known : All (Known m) (pre ++ post)
  pub once : Once (pre ++ post)
  pub del_once : listed del (pre ++ post) ≡ false
  pub shares : Shares k oft len (pre ++ post) m

nothing_listed : (fps : List Sha1Fp) (j : Sha1Fp) → length fps ≡ 0 → listed j fps ≡ false
nothing_listed [] j h = refl
nothing_listed (fp ∷ fps) j h = absurd (omega arith)

module _ (k oft len : ℕ) (del : Sha1Fp) (s : Store) (m : MetadataManager) where
  run_alone :
      (containers : Files) (rev : Bytes) (n : ℕ)
      → del_seg k oft len s.containers ≡ some containers
      → find k s.reverse ≡ some rev
      → of_le (take 4 rev) ≡ n
      → (n == 1) ≡ true
      → container_del_chunk k del oft len s m
        ≡ some (record s { containers = containers; reverse = erase k s.reverse }, m)
  unfolding container_del_chunk
  run_alone containers rev n run there count one = rw (run, there, count, one)

  run_more :
      (containers reverse : Files) (rev : Bytes) (n : ℕ) (d : Option ℕ) (m' : MetadataManager)
      → del_seg k oft len s.containers ≡ some containers
      → find k s.reverse ≡ some rev
      → of_le (take 4 rev) ≡ n
      → (n == 1) ≡ false
      → dec_offsets n 0 (drop 4 rev) del oft len none m ≡ some (d, m')
      → unlist k n d s.reverse ≡ some reverse
      → container_del_chunk k del oft len s m
        ≡ some (record s { containers = containers; reverse = reverse }, m')
  unfolding container_del_chunk
  run_more containers reverse rev n d m' run there count more dec un =
      rw (run, there, count, more, dec, un)

-- What deleting the chunk makes of the store and the index.
pub record Deleted (sha1 : Bytes → Bytes) (k : ℕ) (fps : List Sha1Fp) (oft len : ℕ) (s : Store)
    (m : MetadataManager) (s' : Store) (m' : MetadataManager) : Type 0 where
  pub index : IsIndex m'
  pub sound : Sound sha1 (on_disk s') m'
  pub moves : Moved oft len fps m m'
  pub size : SameSize m m'
  pub small : All IsSmall s.containers → All IsSmall s'.containers
  pub reverse : 0 < length fps → find k s'.reverse ≡ some (reverse_file fps)
  pub elsewhere : (j : ℕ) → (k == j) ≡ false → find j s'.reverse ≡ find j s.reverse
  pub recipes : s'.recipes ≡ s.recipes

pub container_del_chunk-Deleted :
    (sha1 : Bytes → Bytes) (k : ℕ) (pre post : List Sha1Fp) (del : Sha1Fp) (oft len : ℕ)
    → (s : Store) (m : MetadataManager) → IsShelf k pre post del oft len s m
    → IsIndex m
    → Sound sha1 (on_disk s) m
    → (s' : Store) × (m' : MetadataManager) × (container_del_chunk k del oft len s m
        ≡ some (s', m'))
      × Deleted sha1 k (pre ++ post) oft len s m s' m'
container_del_chunk-Deleted sha1 k pre post del oft len s m shelf ok sound =
    let all = pre ++ del ∷ post in
    let whole = length-append pre (del ∷ post) in
    let others = length-append pre post in
    let cut =
      del_seg-Cut k oft len shelf.content s.containers shelf.stored (omega (arith, shelf.within))
        shelf.small in
    let count = count_of all (omega (arith, shelf.reverse_small)) in
    elim (Bool-cases (length all == 1)) [
      | inl one ↦
          let alone : length (pre ++ post) ≡ 0 =
            omega (arith, (==_iff (length all) 1).0 one, whole, others) in
          let stays : Moved oft len (pre ++ post) m m =
            λ j. rw (nothing_listed (pre ++ post) j alone) in
          (
            record s { containers = cut.0; reverse = erase k s.reverse },
            m,
            run_alone k oft len del s m cut.0 (reverse_file all) (length all) cut.1 shelf.reverse
                count one,
            record {
              index = ok;
              sound =
                  Sound-Moved sha1 k oft len shelf.content s.containers cut.0 (pre ++ post) m m
                    shelf.stored shelf.within shelf.small shelf.nonempty cut.2 shelf.shares stays
                    sound;
              moves = stays;
              size = λ loaded. (loaded, refl);
              small = cut.2.sizes;
              reverse = λ pos. absurd (omega (arith, pos, alone));
              elsewhere = λ j other. find-erase_ne k j s.reverse other;
              recipes = refl;
            },
          )
      | inr more ↦
          let r =
            dec_offsets-listing del oft len pre post 0 none m ok shelf.del_in_range shelf.in_range
              shelf.known shelf.once shelf.del_once in
          let number : 0 + length pre ≡ length pre = omega arith in
          let u = unlist-reverse_file pre post del k s.reverse shelf.reverse shelf.reverse_small in
          (
            record s { containers = cut.0; reverse = u.0 },
            r.0,
            run_more k oft len del s m cut.0 u.0 (reverse_file all) (length all) (some (length pre))
                r.0 cut.1 shelf.reverse count more
                (rw (drop_of all) (r.1 ∙ ap (λ d. some (some d, r.0)) number)) u.1,
            record {
              index = r.2;
              sound =
                  Sound-Moved sha1 k oft len shelf.content s.containers cut.0 (pre ++ post) m r.0
                    shelf.stored shelf.within shelf.small shelf.nonempty cut.2 shelf.shares r.3
                    sound;
              moves = r.3;
              size = r.4;
              small = cut.2.sizes;
              reverse = λ pos. u.2;
              elsewhere = u.3;
              recipes = refl;
            },
          )
    ]

-- Deleting a chunk keeps the index sound: every entry that is left, of whichever container, leads to
-- bytes with its fingerprint. The reverse file, if another chunk is left, lists the others.
pub container_del_chunk-Sound :
    (sha1 : Bytes → Bytes) (k : ℕ) (pre post : List Sha1Fp) (del : Sha1Fp) (oft len : ℕ)
    → (s : Store) (m : MetadataManager) → IsShelf k pre post del oft len s m
    → IsIndex m
    → Sound sha1 (on_disk s) m
    → (s' : Store) × (m' : MetadataManager) × (container_del_chunk k del oft len s m
        ≡ some (s', m'))
      × IsIndex m'
      × Sound sha1 (on_disk s') m'
      × (0 < length (pre ++ post) → find k s'.reverse ≡ some (reverse_file (pre ++ post)))
container_del_chunk-Sound sha1 k pre post del oft len s m shelf ok sound =
    let (s', m', run, r) =
      container_del_chunk-Deleted sha1 k pre post del oft len s m shelf ok sound in
    (s', m', run, r.index, r.sound, r.reverse)
