-- ===== src/Delete/Reverse.antt =====
-- The reverse file after a deletion: main.cpp, the end of `container_del_chunk`.
use c_dedup.Base.{
  ℕ, ◌+◌, ◌-◌, ◌*◌, ◌%◌, ◌^◌, ◌≤◌, ◌<◌, ◌≡◌, refl, sym, ap, subst, ◌∙◌, List, [], ◌∷◌, ◌++◌, arith,
  some, length, take, drop, Bytes, le_bytes, of_le, of_le-le_bytes, write_at, write_at_front,
  length-append, take-append, drop-append, append_assoc, find, assign, nat_eq, find-assign, ◌==◌,
  false,
}
use c_dedup.Store.{Files, container_size}
use c_dedup.Metadata.{Sha1Fp, fp_bytes}
use c_dedup.Metadata.Codec.{length-fp_bytes}
use c_dedup.Delete.{unlist, del_seg}
use c_dedup.Delete.Segment.{cut_out}
use c_dedup.Delete.Offsets.{listing}
use c_dedup.Delete.Shelf.{del_seg-Cut, same_key}

-- A reverse file: how many fingerprints, and the fingerprints.
abbrev pub reverse_file : List Sha1Fp → Bytes
reverse_file fps = le_bytes 4 (length fps) ++ listing fps

pub listing-append : (xs ys : List Sha1Fp) → listing (xs ++ ys) ≡ listing xs ++ listing ys
listing-append [] ys = refl
listing-append (x ∷ xs) ys =
    ap (◌++◌ (fp_bytes x)) (listing-append xs ys)
    ∙ sym (append_assoc (fp_bytes x) (listing xs) (listing ys))

pub length-listing : (fps : List Sha1Fp) → length (listing fps) ≡ 20 * length fps
length-listing [] = refl
length-listing (fp ∷ fps) =
    omega (arith, length-append (fp_bytes fp) (listing fps), length-fp_bytes fp, length-listing fps)

length-le_bytes : (n : ℕ) → length (le_bytes 4 n) ≡ 4
unfolding le_bytes
length-le_bytes n = refl

drop-count : (n : ℕ) (rest : Bytes) → drop 4 (le_bytes 4 n ++ rest) ≡ rest
unfolding le_bytes
drop-count n rest = refl

drop-fp_bytes : (fp : Sha1Fp) (rest : Bytes) → drop 20 (fp_bytes fp ++ rest) ≡ rest
unfolding fp_bytes le_bytes
drop-fp_bytes fp rest = refl

write_count :
    (count n : ℕ) (rest : Bytes)
    → write_at 0 (le_bytes 4 count) (le_bytes 4 n ++ rest) ≡ le_bytes 4 count ++ rest
unfolding le_bytes
write_count count n rest = write_at_front (le_bytes 4 count) (le_bytes 4 n ++ rest)

unlist_run :
    (k n d : ℕ) (file file' : Bytes) (reverse reverse' : Files)
    → find k reverse ≡ some file
    → write_at 0 (le_bytes 4 ((n + 2 ^ 32 - 1) % 2 ^ 32)) file ≡ file'
    → del_seg k (4 + d * 20) 20 (assign k file' reverse) ≡ some reverse'
    → unlist k n (some d) reverse ≡ some reverse'
unfolding unlist
unlist_run k n d file file' reverse reverse' e w run = rw (e, w, run)

module _ (pre post : List Sha1Fp) (del : Sha1Fp) where
  -- The fingerprint in the middle is cut out.
  cut_out-listing :
      (count : ℕ)
      → cut_out (4 + length pre * 20) 20 (le_bytes 4 count ++ listing (pre ++ del ∷ post))
        ≡ le_bytes 4 count ++ listing (pre ++ post)
  cut_out-listing count =
      let front = le_bytes 4 count ++ listing pre in
      let back = fp_bytes del ++ listing post in
      let at : 4 + length pre * 20 ≡ length front = omega (
        arith,
        length-append (le_bytes 4 count) (listing pre),
        length-le_bytes count,
        length-listing pre,
      ) in
      let split : le_bytes 4 count ++ listing (pre ++ del ∷ post) ≡ front ++ back =
        ap (◌++◌ (le_bytes 4 count)) (listing-append pre (del ∷ post))
        ∙ sym (append_assoc (le_bytes 4 count) (listing pre) back) in
      ap (cut_out (4 + length pre * 20) 20) split
      ∙ ((rw (
        take-append (4 + length pre * 20) front back at,
        drop-append (4 + length pre * 20) front back at,
        drop-fp_bytes del (listing post),
      ))
          ∙ (append_assoc (le_bytes 4 count) (listing pre) (listing post)
              ∙ ap (◌++◌ (le_bytes 4 count)) (sym (listing-append pre post))))

  -- The reverse file then lists the others, with their number.
  pub unlist-reverse_file :
      (k : ℕ) (reverse : Files)
      → find k reverse ≡ some (reverse_file (pre ++ del ∷ post))
      → 4 + 20 * length (pre ++ del ∷ post) ≤ container_size
      → (reverse' : Files) × (unlist k (length (pre ++ del ∷ post)) (some (length pre)) reverse
          ≡ some reverse')
        × (find k reverse' ≡ some (reverse_file (pre ++ post)))
        × ((j : ℕ) → (k == j) ≡ false → find j reverse' ≡ find j reverse)
  unlist-reverse_file k reverse e small =
      let all = pre ++ del ∷ post in
      let whole = length-append pre (del ∷ post) in
      let others = length-append pre post in
      let count : (length all + 2 ^ 32 - 1) % 2 ^ 32 ≡ length (pre ++ post) =
        omega (arith, whole, others, small) in
      let file = le_bytes 4 (length (pre ++ post)) ++ listing all in
      let size : length file ≡ 4 + 20 * length all = omega (
        arith,
        length-append (le_bytes 4 (length (pre ++ post))) (listing all),
        length-le_bytes (length (pre ++ post)),
        length-listing all,
      ) in
      let there : find k (assign k file reverse) ≡ some file =
        find-assign k k file reverse ∙ rw (same_key k) in
      let r =
        del_seg-Cut k (4 + length pre * 20) 20 file (assign k file reverse) there
          (omega (arith, size, whole)) (omega (arith, size, small)) in
      let left = cut_out-listing (length (pre ++ post)) in
      let some_left : 0 < length (cut_out (4 + length pre * 20) 20 file) =
        subst (λ bs. 0 < length bs) (sym left)
          (omega (
            arith,
            length-append (le_bytes 4 (length (pre ++ post))) (listing (pre ++ post)),
            length-le_bytes (length (pre ++ post)),
          )) in
      (
        r.0,
        unlist_run k (length all) (length pre) (reverse_file all) file reverse r.0 e
            (rw count (write_count (length (pre ++ post)) (length all) (listing all))) r.1,
        r.2.there some_left ∙ ap some left,
        λ j other. r.2.elsewhere j other ∙ (find-assign k j file reverse ∙ rw other),
      )

-- What the code reads of a reverse file.
pub count_of :
    (fps : List Sha1Fp) → length fps < 2 ^ 32 → of_le (take 4 (reverse_file fps)) ≡ length fps
count_of fps h =
    ap of_le
      (take-append 4 (le_bytes 4 (length fps)) (listing fps) (sym (length-le_bytes (length fps))))
    ∙ of_le-le_bytes 4 (length fps) h

pub drop_of : (fps : List Sha1Fp) → drop 4 (reverse_file fps) ≡ listing fps
drop_of fps = drop-count (length fps) (listing fps)
