-- ===== src/Chunking/Locality.antt =====
-- A cut depends on the bytes up to it and on no others: src/fastcdc.cpp.
use c_dedup.Base.{
  ℕ, zero, suc, ◌+◌, ◌-◌, ◌≤◌, ◌<◌, ◌≡◌, refl, sym, ap, ◌∙◌, Bytes, get_or, arith, ltb, Bool-cases,
  inl, inr, if◌then◌else◌, min, subst,
}
use c_dedup.Chunking.{Globals, roll, at_boundary, fast_cdc_with_nc}
use c_dedup.Chunking.Fingerprint.{hash}
use c_dedup.Chunking.Boundary.{IsCut, boundary}
use c_dedup.Chunking.Cut.{IsSized, fast_cdc_with_nc-IsCut}

-- Two buffers agree at every position up to `r`.
abbrev pub AgreeTo : ℕ → Bytes → Bytes → Type 0
AgreeTo r p q = (j : ℕ) → j ≤ r → get_or p j 0 ≡ get_or q j 0

hash-agree :
    (k : ℕ) (p q : Bytes) (i f r : ℕ) → AgreeTo r p q → i + k ≤ r + 1 → hash k p i f ≡ hash k q i f
unfolding hash
hash-agree zero p q i f r same h = refl
hash-agree (suc k) p q i f r same h =
    hash-agree k p q (i + 1) (roll f (get_or p i 0)) r same (omega arith)
    ∙ ap (λ b. hash k q (i + 1) (roll f b)) (same i (omega arith))

boundary-agree :
    (g : Globals) (p q : Bytes) (mid r j : ℕ)
    → AgreeTo r p q
    → g.min_size ≤ j
    → j ≤ r
    → boundary g p mid j ≡ boundary g q mid j
boundary-agree g p q mid r j same lo hi =
    ap (at_boundary (if ltb j mid then g.mask_front else g.mask_back))
      (hash-agree (j + 1 - g.min_size) p q g.min_size 0 r same (omega arith))

-- There is one first boundary.
pub IsCut-unique :
    {g : Globals} {p : Bytes} {mid n r s : ℕ} → IsCut g p mid n r → IsCut g p mid n s → r ≡ s
IsCut-unique {g} {p} {mid} {n} {r} {s} c d = elim (Bool-cases (ltb r s)) [
  | inl below ↦
      let lt : r < s = ground arith in
      absurd (ground (arith, c.stop (omega (arith, d.upper)), d.clear r c.lower lt))
  | inr not_below ↦ elim (Bool-cases (ltb s r)) [
    | inl above ↦
        let lt : s < r = ground arith in
        absurd (ground (arith, d.stop (omega (arith, c.upper)), c.clear s d.lower lt))
    | inr not_above ↦ ground arith
  ]
]

-- A first boundary stays one when bytes behind it change.
pub IsCut-agree :
    {g : Globals} {p q : Bytes} {mid n r : ℕ}
    → AgreeTo r p q
    → IsCut g p mid n r
    → IsCut g q mid n r
IsCut-agree {g} {p} {q} {mid} {n} {r} same c = record {
  lower = c.lower;
  upper = c.upper;
  clear = λ j lo hi. sym (boundary-agree g p q mid r j same lo (omega arith)) ∙ c.clear j lo hi;
  stop = λ h. sym (boundary-agree g p q mid r r same c.lower (omega arith)) ∙ c.stop h;
}

-- Where both buffers hold more than `MaxSize` bytes and agree up to the cut in the one, the cut in
-- the other is at the same place: what follows a chunk does not move its end.
pub fast_cdc_with_nc-local :
    (p q : Bytes) (n m : ℕ) (g : Globals)
    → IsSized g
    → g.max_size < n
    → g.max_size < m
    → AgreeTo (fast_cdc_with_nc p n g).0 p q
    → (fast_cdc_with_nc q m g).0 ≡ (fast_cdc_with_nc p n g).0
fast_cdc_with_nc-local p q n m g ok hn hm same =
    let at : (k : ℕ) → g.max_size < k → min g.fastcdc_avg_size k ≡ g.fastcdc_avg_size =
      λ k h. omega (arith, ok.min_avg, ok.avg_max) in
    IsCut-unique (over q m hm) (IsCut-agree same (over p n hn))
  where
    over :
        (b : Bytes) (k : ℕ)
        → g.max_size < k
        → IsCut g b g.fastcdc_avg_size g.max_size (fast_cdc_with_nc b k g).0
    over b k h =
        subst (λ (c : ℕ × ℕ). IsCut g b c.0 c.1 (fast_cdc_with_nc b k g).0)
          (λ i. (mid_eq i, end_eq i)) ((fast_cdc_with_nc-IsCut b k g ok).2 lt)
      where
        lt : g.min_size < k
        lt = omega (arith, ok.min_avg, ok.avg_max)

        mid_eq : min g.fastcdc_avg_size k ≡ g.fastcdc_avg_size
        mid_eq = omega (arith, ok.avg_max)

        end_eq : min k g.max_size ≡ g.max_size
        end_eq = omega arith
