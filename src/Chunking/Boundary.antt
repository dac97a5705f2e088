-- ===== src/Chunking/Boundary.antt =====
-- The two loops of the chunking functions of src/fastcdc.cpp end at the first boundary.
use c_dedup.Base.{
  ℕ, suc, ◌+◌, ◌-◌, ◌≤◌, ◌<◌, ◌≡◌, ap, ◌∙◌, subst, Bool, true, false, ltb, if◌then◌else◌, Bytes,
  arith, Bool-cases, inl, inr, lt→ltb,
}
use c_dedup.Chunking.{Globals, at_boundary, Scan, cut, through, scan, scan_or, scan_both}
use c_dedup.Chunking.Fingerprint.{hash, hash-add, Outcome, scan-Outcome}

-- The fingerprint that the code tests at position `j`, and whether it is a boundary there: up to
-- `mid` by the front mask, from `mid` on by the back mask.
abbrev pub fingerprint_at : Globals → Bytes → ℕ → ℕ
fingerprint_at g p j = hash (j + 1 - g.min_size) p g.min_size 0

abbrev pub boundary : Globals → Bytes → ℕ → ℕ → Bool
boundary g p mid j =
    at_boundary (if ltb j mid then g.mask_front else g.mask_back) (fingerprint_at g p j)

-- `r` is the first boundary from `MinSize` on, or `n` if there is none before `n`.
pub record IsCut (g : Globals) (p : Bytes) (mid n r : ℕ) : Type 0 where
  pub lower : g.min_size ≤ r
  pub upper : r ≤ n
  pub clear : (j : ℕ) → g.min_size ≤ j → j < r → boundary g p mid j ≡ false
  pub stop : r < n → boundary g p mid r ≡ true

module _ (g : Globals) (p : Bytes) (mid : ℕ) (ordered : g.min_size ≤ mid) where
  boundary-front :
      (j : ℕ)
      → g.min_size ≤ j
      → j < mid
      → boundary g p mid j ≡ at_boundary g.mask_front (hash (suc (j - g.min_size)) p g.min_size 0)
  boundary-front j lo hi =
      let count : j + 1 - g.min_size ≡ suc (j - g.min_size) = omega arith in
      rw (lt→ltb j mid hi) (ap (λ k. at_boundary g.mask_front (hash k p g.min_size 0)) count)

  boundary-back :
      (j : ℕ)
      → mid ≤ j
      → boundary g p mid j
        ≡ at_boundary g.mask_back
            (hash (suc (j - mid)) p mid (hash (mid - g.min_size) p g.min_size 0))
  boundary-back j lo =
      let late : ltb j mid ≡ false = ground arith in
      let count : j + 1 - g.min_size ≡ mid - g.min_size + suc (j - mid) = omega arith in
      let start : g.min_size + (mid - g.min_size) ≡ mid = omega arith in
      rw late (
        ap (at_boundary g.mask_back) (
          ap (λ k. hash k p g.min_size 0) count
          ∙ (hash-add (mid - g.min_size) (suc (j - mid)) p g.min_size 0
              ∙ ap (λ i. hash (suc (j - mid)) p i (hash (mid - g.min_size) p g.min_size 0)) start)))

  abbrev pub after : ℕ
  after = hash (mid - g.min_size) p g.min_size 0

  abbrev pub FrontClear : ℕ → Type 0
  FrontClear d = (e : ℕ) → e < d → at_boundary g.mask_front (hash (suc e) p g.min_size 0) ≡ false

  pub clear_front :
      (d : ℕ)
      → d ≤ mid - g.min_size
      → FrontClear d
      → (j : ℕ) → g.min_size ≤ j
      → j < g.min_size + d
      → boundary g p mid j ≡ false
  clear_front d le front j lo hi =
      boundary-front j lo (omega arith) ∙ front (j - g.min_size) (omega arith)

  clear_both :
      (d : ℕ)
      → FrontClear (mid - g.min_size)
      → ((e : ℕ) → e < d → at_boundary g.mask_back (hash (suc e) p mid after) ≡ false)
      → (j : ℕ) → g.min_size ≤ j
      → j < mid + d
      → boundary g p mid j ≡ false
  clear_both d front back j lo hi = elim (Bool-cases (ltb j mid)) [
    | inl early ↦ clear_front (mid - g.min_size) (omega arith) front j lo (ground arith)
    | inr late ↦ boundary-back j (ground arith) ∙ back (j - mid) (ground arith)
  ]

  -- The second loop, after a first loop that met no boundary.
  pub back-IsCut :
      (n : ℕ) (s : Scan)
      → mid ≤ n
      → FrontClear (mid - g.min_size)
      → Outcome (n - mid) g.mask_back p mid after s
      → IsCut g p mid n (scan_or s n)
  back-IsCut n (cut r) le front (d, e, h, here, before) = record {
    lower = omega arith;
    upper = omega arith;
    clear = λ j lo hi. clear_both d front before j lo (omega arith);
    stop = λ h.
        let back : r - mid ≡ d = omega arith in
        boundary-back r (omega arith)
        ∙ (ap (λ k. at_boundary g.mask_back (hash (suc k) p mid after)) back ∙ here);
  }
  back-IsCut n (through f) le front (e, before) = record {
    lower = omega arith;
    upper = omega arith;
    clear = λ j lo hi. clear_both (n - mid) front before j lo (omega arith);
    stop = λ h. absurd (omega arith);
  }

  pub front-IsCut :
      (n : ℕ) (s : Scan)
      → mid ≤ n
      → Outcome (mid - g.min_size) g.mask_front p g.min_size 0 s
      → IsCut g p mid n
          (elim s [ cut i ↦ i | through f ↦ scan_or (scan (n - mid) g.mask_back p mid f) n ])
  front-IsCut n (cut r) le (d, e, h, here, before) = record {
    lower = omega arith;
    upper = omega arith;
    clear = λ j lo hi. clear_front d (omega arith) before j lo (omega arith);
    stop = λ _.
        let back : r - g.min_size ≡ d = omega arith in
        boundary-front r (omega arith) (omega arith)
        ∙ (ap (λ k. at_boundary g.mask_front (hash (suc k) p g.min_size 0)) back ∙ here);
  }
  front-IsCut n (through f) le (e, before) = rw e (
      back-IsCut n (scan (n - mid) g.mask_back p mid after) le before
        (scan-Outcome (n - mid) g.mask_back p mid after))

  pub scan_both-IsCut : (n : ℕ) → mid ≤ n → IsCut g p mid n (scan_both g p mid n)
  unfolding scan_both
  scan_both-IsCut n le =
      let start : mid ≡ (if ltb g.min_size mid then mid else g.min_size) = ground arith in
      subst
        (λ i. IsCut g p mid n (elim (scan (mid - g.min_size) g.mask_front p g.min_size 0) [
          | cut r ↦ r
          | through f ↦ scan_or (scan (n - i) g.mask_back p i f) n
        ]))
        start
        (front-IsCut n (scan (mid - g.min_size) g.mask_front p g.min_size 0) le
          (scan-Outcome (mid - g.min_size) g.mask_front p g.min_size 0))
