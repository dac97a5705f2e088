-- ===== src/Lifecycle/Digests.antt =====
-- A digest as a fingerprint and back, and the buffer of the reverse file: src/MetadataManager.cpp and
-- main.cpp, `saveChunkToContainer`.
use c_dedup.Base.{
  ◌+◌, ◌-◌, ◌≡◌, ◌≤◌, ℕ, zero, suc, refl, sym, ap, ◌∙◌, subst, [], ◌∷◌, ◌++◌, arith, length, take,
  drop, Bytes, AreBytes, le_bytes, of_le, le_bytes-of_le, length-take, length-drop,
  take-append-drop, AreBytes-drop, AreBytes-take, take_of_length-le, write_at, take-append,
  length-append, append_assoc,
}
use c_dedup.Metadata.{fp_bytes, fp_of_bytes}

word :
    (n : ℕ) (bs : Bytes) → AreBytes bs → n ≤ length bs → le_bytes n (of_le (take n bs)) ≡ take n bs
word n bs h enough =
    let size : length (take n bs) ≡ n = omega (arith, length-take n bs) in
    subst (λ k. le_bytes k (of_le (take n bs)) ≡ take n bs) size
      (le_bytes-of_le (take n bs) (AreBytes-take n bs h))

zero_more : (n : ℕ) → n ≡ 0 + n
zero_more n = omega arith

suc_more : (m n : ℕ) → suc (m + n) ≡ suc m + n
suc_more m n = omega arith

drop-nil : (n : ℕ) → drop {A = ℕ} n [] ≡ []
drop-nil zero = refl
drop-nil (suc n) = refl

drop-drop : (m n : ℕ) (bs : Bytes) → drop n (drop m bs) ≡ drop (m + n) bs
drop-drop zero n bs = ap (λ k. drop k bs) (zero_more n)
drop-drop (suc m) n [] = drop-nil n ∙ sym (drop-nil (suc m + n))
drop-drop (suc m) n (b ∷ bs) = drop-drop m n bs ∙ ap (λ k. drop k (b ∷ bs)) (suc_more m n)

-- The bytes of a digest, from the fingerprint that they were copied to.
pub fp_bytes-fp_of_bytes :
    (bs : Bytes) → AreBytes bs → length bs ≡ 20 → fp_bytes (fp_of_bytes bs) ≡ bs
unfolding fp_bytes fp_of_bytes
fp_bytes-fp_of_bytes bs h size =
    let part = λ (m : ℕ). AreBytes-drop m bs h in
    let last : take 4 (drop 16 bs) ≡ drop 16 bs =
      take_of_length-le 4 (drop 16 bs) (omega (arith, length-drop 16 bs, size)) in
    let third : take 4 (drop 12 bs) ++ drop 16 bs ≡ drop 12 bs =
      ap (◌++◌ (take 4 (drop 12 bs))) (sym (drop-drop 12 4 bs)) ∙ take-append-drop 4 (drop 12 bs) in
    let second : take 4 (drop 8 bs) ++ drop 12 bs ≡ drop 8 bs =
      ap (◌++◌ (take 4 (drop 8 bs))) (sym (drop-drop 8 4 bs)) ∙ take-append-drop 4 (drop 8 bs) in
    rw (
      word 8 bs h (omega (arith, size)),
      word 4 (drop 8 bs) (part 8) (omega (arith, length-drop 8 bs, size)),
      word 4 (drop 12 bs) (part 12) (omega (arith, length-drop 12 bs, size)),
      word 4 (drop 16 bs) (part 16) (omega (arith, length-drop 16 bs, size)),
      last,
      third,
      second,
      take-append-drop 8 bs,
    )

-- A write behind the front leaves the front.
pub take-write_at :
    (off n : ℕ) (new bs : Bytes)
    → off ≤ length bs
    → n ≡ off + length new
    → take n (write_at off new bs) ≡ take off bs ++ new
unfolding write_at
take-write_at off n new bs h e =
    let rest = drop (off + length new) bs in
    let nothing : off - length bs ≡ 0 = omega arith in
    let size : n ≡ length (take off bs ++ new) =
      omega (arith, length-append (take off bs) new, length-take off bs) in
    rw nothing (
      ap (take n) (sym (append_assoc (take off bs) new rest))
      ∙ take-append n (take off bs ++ new) rest size)
