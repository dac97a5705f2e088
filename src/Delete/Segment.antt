-- ===== src/Delete/Segment.antt =====
-- What is left of a container's content after a deletion: main.cpp, `del_seg`, and
-- src/MetadataManager.cpp, `chunkOffsetDec`.
use c_dedup.Base.{
  ℕ, zero, suc, ◌+◌, ◌-◌, ◌≤◌, ◌≡◌, refl, sym, ap, ◌∙◌, [], ◌∷◌, ◌++◌, arith, length, take, drop,
  window, Bytes, length-take, length-drop, take-drop-append, drop-append, length-append,
  window-take,
}

drop-nil : (n : ℕ) → drop {A = ℕ} n [] ≡ []
drop-nil zero = refl
drop-nil (suc n) = refl

-- `len` bytes from `oft` on are gone.
abbrev pub cut_out : ℕ → ℕ → Bytes → Bytes
cut_out oft len content = take oft content ++ drop len (drop oft content)

drop-drop : (n m : ℕ) (bs : Bytes) → drop m (drop n bs) ≡ drop (n + m) bs
drop-drop zero m bs = let e : m ≡ 0 + m = omega arith in ap (λ k. drop k bs) e
drop-drop (suc n) zero [] = sym (drop-nil (suc n + 0))
drop-drop (suc n) (suc m) [] = sym (drop-nil (suc n + suc m))
drop-drop (suc n) m (b ∷ bs) =
    let e : suc (n + m) ≡ suc n + m = omega arith in drop-drop n m bs ∙ ap (λ k. drop k (b ∷ bs)) e

-- Behind the first part only the second is left.
drop-append-le : (xs ys : Bytes) (n d : ℕ) → n ≡ length xs + d → drop n (xs ++ ys) ≡ drop d ys
drop-append-le xs ys n d e =
    ap (λ k. drop k (xs ++ ys)) e
    ∙ (sym (drop-drop (length xs) d (xs ++ ys)) ∙ ap (drop d) (drop-append (length xs) xs ys refl))

-- A chunk before the deleted one stays where it is.
pub window-cut_out_before :
    (oft len off n : ℕ) (content : Bytes)
    → off + n ≤ oft
    → off + n ≤ length content
    → window off n (cut_out oft len content) ≡ window off n content
window-cut_out_before oft len off n content before within =
    take-drop-append off n (take oft content) (drop len (drop oft content))
      (omega (arith, length-take oft content))
    ∙ window-take oft off n content before within

-- A chunk behind it has moved down by its length.
pub window-cut_out_after :
    (oft len off n : ℕ) (content : Bytes)
    → oft + len ≤ off
    → off ≤ length content
    → window (off - len) n (cut_out oft len content) ≡ window off n content
window-cut_out_after oft len off n content behind within =
    let d = off - (oft + len) in
    let start : off - len ≡ length (take oft content) + d =
      omega (arith, length-take oft content) in
    let whole : oft + (len + d) ≡ off = omega arith in
    ap (take n) (
      drop-append-le (take oft content) (drop len (drop oft content)) (off - len) d start
      ∙ (drop-drop len d (drop oft content)
          ∙ (drop-drop oft (len + d) content ∙ ap (λ k. drop k content) whole)))

pub length-cut_out :
    (oft len : ℕ) (content : Bytes)
    → oft + len ≤ length content
    → length (cut_out oft len content) + len ≡ length content
length-cut_out oft len content h = omega (
  arith,
  length-append (take oft content) (drop len (drop oft content)),
  length-take oft content,
  length-drop len (drop oft content),
  length-drop oft content,
)
