-- ===== src/Delete/Listed.antt =====
-- The fingerprints that a reverse file lists, without the one that is deleted: main.cpp,
-- `container_del_chunk`.
use c_dedup.Base.{
  ◌≡◌, refl, ap, ◌∙◌, true, false, List, [], ◌∷◌, ◌++◌, arith, if◌then◌else◌, All, Bool-cases, inl,
  inr, sym,
}
use c_dedup.Metadata.{Sha1Fp, tuple_equaler, tuple_equaler_iff}
use c_dedup.Delete.Offsets.{listed, Once}

listed_self : (j : Sha1Fp) → tuple_equaler j j ≡ true
listed_self j = (tuple_equaler_iff j j).1 refl

pub listed-append :
    (j : Sha1Fp) (xs ys : List Sha1Fp)
    → listed j (xs ++ ys) ≡ (if listed j xs then true else listed j ys)
listed-append j [] ys = refl
listed-append j (x ∷ xs) ys = ground (arith, listed-append j xs ys)

-- The place of a fingerprint in a list.
pub listed-split :
    (j : Sha1Fp) (fps : List Sha1Fp)
    → listed j fps ≡ true
    → (pre : List Sha1Fp) × (post : List Sha1Fp) × (fps ≡ pre ++ j ∷ post)
listed-split j [] h = absurd (ground arith)
listed-split j (fp ∷ fps) h = elim (Bool-cases (tuple_equaler fp j)) [
  | inl same ↦ ([], fps, ap (λ x. x ∷ fps) ((tuple_equaler_iff fp j).0 same))
  | inr other ↦
      let (pre, post, e) = listed-split j fps (ground arith) in (fp ∷ pre, post, ap (◌∷◌ fp) e)
]

-- Without it, the list has the others.
pub listed-without :
    (i j : Sha1Fp) (pre post : List Sha1Fp)
    → tuple_equaler j i ≡ false
    → listed i (pre ++ j ∷ post) ≡ listed i (pre ++ post)
listed-without i j [] post h = rw h
listed-without i j (x ∷ pre) post h = ground (arith, listed-without i j pre post h)

pub Once-without :
    (j : Sha1Fp) (pre post : List Sha1Fp)
    → Once (pre ++ j ∷ post)
    → Once (pre ++ post) × (listed j (pre ++ post) ≡ false)
Once-without j [] post (other, once) = (once, other)
Once-without j (x ∷ pre) post (other, once) =
    let (rest, out) = Once-without j pre post once in
    let apart : tuple_equaler j x ≡ false =
      ground (arith, listed-append x pre (j ∷ post), tuple_equaler_iff j x) in
    let alone : listed x (pre ++ post) ≡ false = sym (listed-without x j pre post apart) ∙ other in
    ((alone, rest), ground (arith, tuple_equaler_iff j x, tuple_equaler_iff x j))

pub All-listed {ρ} :
    (P : Sha1Fp → Type ρ) (fps : List Sha1Fp)
    → ((j : Sha1Fp) → listed j fps ≡ true → P j)
    → All P fps
All-listed P [] f = tt
All-listed P (fp ∷ fps) f =
    (f fp (rw (listed_self fp) refl), All-listed P fps (λ j h. f j (ground arith)))

pub Once-snoc :
    (j : Sha1Fp) (fps : List Sha1Fp) → Once fps → listed j fps ≡ false → Once (fps ++ j ∷ [])
Once-snoc j [] once new = (refl, tt)
Once-snoc j (fp ∷ fps) (out, once) new =
    let apart : tuple_equaler j fp ≡ false =
      ground (arith, new, tuple_equaler_iff fp j, tuple_equaler_iff j fp) in
    (
      listed-append fp fps (j ∷ []) ∙ rw (out, apart) refl,
      Once-snoc j fps once (ground (arith, new)),
    )
