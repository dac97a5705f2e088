-- ===== src/Chunking/Cut.antt =====
-- Where the chunking functions of src/fastcdc.cpp cut, against a description without loops.
use c_dedup.Base.{
  ◌⊎◌, ℕ, ◌-◌, ◌≤◌, ◌<◌, ◌≡◌, refl, subst, ltb, leb, Bytes, arith, Bool-cases, inl, inr, min,
}
use c_dedup.Chunking.{
  Globals, Scan, cut, through, scan, scan_or, fast_cdc_with_nc, fast_cdc_without_nc,
  fing_gear_08kb_64,
}
use c_dedup.Chunking.Fingerprint.{Outcome, scan-Outcome}
use c_dedup.Chunking.Boundary.{IsCut, front-IsCut, clear_front, scan_both-IsCut}

recast :
    {g : Globals} {p : Bytes} {a b c d r : ℕ} → a ≡ b → c ≡ d → IsCut g p a c r → IsCut g p b d r
recast {g} {p} {r} e f = subst (λ (m : ℕ × ℕ). IsCut g p m.0 m.1 r) (λ i. (e i, f i))

-- The sizes are in order, as `fastCDC_init` sets them.
pub record IsSized (g : Globals) : Type 0 where
  pub min_avg : g.min_size ≤ g.fastcdc_avg_size
  pub avg_max : g.fastcdc_avg_size ≤ g.max_size

pub fast_cdc_with_nc-IsCut :
    (p : Bytes) (n : ℕ) (g : Globals)
    → IsSized g
    → IsSized (fast_cdc_with_nc p n g).1
      × (n ≤ g.min_size → (fast_cdc_with_nc p n g).0 ≡ n)
      × (g.min_size < n
          → IsCut g p (min g.fastcdc_avg_size n) (min n g.max_size) (fast_cdc_with_nc p n g).0)
unfolding fast_cdc_with_nc
fast_cdc_with_nc-IsCut p n g ok = elim (Bool-cases (leb n g.min_size)) [
  | inl few ↦ rw (few, fast_cdc_with_nc) (ok, λ _. refl, λ h. absurd (ground arith))
  | inr more ↦ elim (Bool-cases (ltb g.max_size n)) [
    | inl over ↦
        rw (more, over, fast_cdc_with_nc)
          (
            ok,
            λ h. absurd (ground arith),
            λ h.
                recast (ground arith) (ground arith)
                  (scan_both-IsCut g p g.fastcdc_avg_size ok.min_avg g.max_size ok.avg_max),
          )
    | inr fits ↦ elim (Bool-cases (leb n g.fastcdc_avg_size)) [
      | inl short ↦
          rw (more, fits, short, fast_cdc_with_nc)
            (
              record { min_avg = ground arith; avg_max = ground arith },
              λ h. absurd (ground arith),
              λ h.
                  recast (ground arith) (ground arith)
                    (scan_both-IsCut g p n (omega arith) n (omega arith)),
            )
      | inr long ↦
          rw (more, fits, long, fast_cdc_with_nc)
            (
              ok,
              λ h. absurd (ground arith),
              λ h.
                  recast (ground arith) (ground arith)
                    (scan_both-IsCut g p g.fastcdc_avg_size ok.min_avg n (ground arith)),
            )
    ]
  ]
]

-- A single loop up to `n` with one mask.
one_loop-IsCut :
    (g : Globals) (p : Bytes) (n : ℕ) (s : Scan)
    → g.min_size ≤ n
    → Outcome (n - g.min_size) g.mask_front p g.min_size 0 s
    → IsCut g p n n (scan_or s n)
one_loop-IsCut g p n (cut r) le o = front-IsCut g p n le n (cut r) (omega arith) o
one_loop-IsCut g p n (through f) le (e, before) = record {
  lower = le;
  upper = omega arith;
  clear = λ j lo hi. clear_front g p n le (n - g.min_size) (omega arith) before j lo (omega arith);
  stop = λ h. absurd (omega arith);
}

abbrev one_mask : Globals → Globals
one_mask g = record g { mask_front = fing_gear_08kb_64 }

single-IsCut :
    (g : Globals) (p : Bytes) (n m : ℕ)
    → g.min_size ≤ m
    → m ≡ n
    → IsCut (one_mask g) p n n (scan_or (scan (m - g.min_size) fing_gear_08kb_64 p g.min_size 0) m)
single-IsCut g p n m lo e = recast e e (
    one_loop-IsCut (one_mask g) p m (scan (m - g.min_size) fing_gear_08kb_64 p g.min_size 0) lo
      (scan-Outcome (m - g.min_size) fing_gear_08kb_64 p g.min_size 0))

pub fast_cdc_without_nc-IsCut :
    (p : Bytes) (n : ℕ) (g : Globals)
    → g.min_size ≤ g.max_size
    → ((fast_cdc_without_nc p n g).1 ≡ g)
      × (n ≤ g.min_size → (fast_cdc_without_nc p n g).0 ≡ n)
      × (g.min_size < n
          → IsCut
              (record g { mask_front = fing_gear_08kb_64 })
              p
              (min n g.max_size)
              (min n g.max_size)
              (fast_cdc_without_nc p n g).0)
unfolding fast_cdc_without_nc
fast_cdc_without_nc-IsCut p n g ok = elim (Bool-cases (leb n g.min_size)) [
  | inl few ↦ rw (few, fast_cdc_without_nc) (refl, λ _. refl, λ h. absurd (ground arith))
  | inr more ↦
      rw (more, fast_cdc_without_nc)
        (
          refl,
          λ h. absurd (ground arith),
          λ h. single-IsCut g p (min n g.max_size) _ (ground arith) (ground arith),
        )
]

-- Up to `MinSize` bytes are one chunk. Of more, the chunk ends at the first content boundary from
-- `MinSize` on, with the front mask below the average size (or below `n`, if that is smaller) and
-- the back mask above, or at `n` or `MaxSize`, whichever is smaller. The sizes stay in order.
pub fast_cdc_with_nc-first_boundary :
    (p : Bytes) (n : ℕ) (g : Globals)
    → IsSized g
    → IsSized (fast_cdc_with_nc p n g).1
      × (((n ≤ g.min_size) × ((fast_cdc_with_nc p n g).0 ≡ n))
          ⊎ ((g.min_size < n)
              × IsCut g p (min g.fastcdc_avg_size n) (min n g.max_size) (fast_cdc_with_nc p n g).0))
fast_cdc_with_nc-first_boundary p n g ok =
    let (ok', few, more) = fast_cdc_with_nc-IsCut p n g ok in
    elim (Bool-cases (leb n g.min_size)) [
      | inl small ↦ let le : n ≤ g.min_size = ground arith in (ok', inl (le, few le))
      | inr large ↦ let lt : g.min_size < n = ground arith in (ok', inr (lt, more lt))
    ]

-- Without normalisation: up to `MinSize` bytes are one chunk; of more, the chunk ends at the first
-- boundary from `MinSize` on, or at `n` or `MaxSize`, whichever is smaller; one mask throughout, and no global variable is written.
pub fast_cdc_without_nc-first_boundary :
    (p : Bytes) (n : ℕ) (g : Globals)
    → g.min_size ≤ g.max_size
    → ((fast_cdc_without_nc p n g).1 ≡ g)
      × (((n ≤ g.min_size) × ((fast_cdc_without_nc p n g).0 ≡ n))
          ⊎ ((g.min_size < n)
              × IsCut
                  (record g { mask_front = fing_gear_08kb_64 })
                  p
                  (min n g.max_size)
                  (min n g.max_size)
                  (fast_cdc_without_nc p n g).0))
fast_cdc_without_nc-first_boundary p n g ok =
    let (same, few, more) = fast_cdc_without_nc-IsCut p n g ok in
    elim (Bool-cases (leb n g.min_size)) [
      | inl small ↦ let le : n ≤ g.min_size = ground arith in (same, inl (le, few le))
      | inr large ↦ let lt : g.min_size < n = ground arith in (same, inr (lt, more lt))
    ]
