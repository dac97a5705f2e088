-- ===== src/Chunking/Fingerprint.antt =====
-- The rolling fingerprint of src/fastcdc.cpp and what one scanning loop reports of it.
use c_dedup.Base.{
  ℕ, zero, suc, ◌+◌, ◌<◌, ◌≡◌, refl, ap, ◌∙◌, true, false, get_or, Bytes, arith, Bool-cases, inl,
  inr,
}
use c_dedup.Chunking.{roll, at_boundary, Scan, cut, through, scan}

-- The fingerprint after `k` bytes from position `i`.
unfoldable pub hash : ℕ → Bytes → ℕ → ℕ → ℕ
hash zero p i fingerprint = fingerprint
hash (suc k) p i fingerprint = hash k p (i + 1) (roll fingerprint (get_or p i 0))

pub hash-add :
    (k m : ℕ) (p : Bytes) (i f : ℕ) → hash (k + m) p i f ≡ hash m p (i + k) (hash k p i f)
unfolding hash
hash-add zero m p i f = (λ j. hash (start j) p (here j) f)
  where
    start : 0 + m ≡ m
    start = omega arith

    here : i ≡ i + 0
    here = omega arith
hash-add (suc k) m p i f =
    ap (λ n. hash n p i f) step
    ∙ (hash-add k m p (i + 1) (roll f (get_or p i 0))
        ∙ ap (λ n. hash m p n (hash k p (i + 1) (roll f (get_or p i 0)))) there)
  where
    step : suc k + m ≡ suc (k + m)
    step = omega arith

    there : i + 1 + k ≡ i + suc k
    there = omega arith

-- What a scan over `k` positions from `i` says of the fingerprints that it met.
abbrev pub Outcome : ℕ → ℕ → Bytes → ℕ → ℕ → Scan → Type 0
Outcome k mask p i f (cut j) =
    (d : ℕ) × (j ≡ i + d)
    × (d < k)
    × (at_boundary mask (hash (suc d) p i f) ≡ true)
    × ((e : ℕ) → e < d → at_boundary mask (hash (suc e) p i f) ≡ false)
Outcome k mask p i f (through g) =
    (g ≡ hash k p i f) × ((e : ℕ) → e < k → at_boundary mask (hash (suc e) p i f) ≡ false)

module _ (mask : ℕ) (p : Bytes) (i f : ℕ) where
  abbrev Clear : ℕ → Type 0
  Clear e = at_boundary mask (hash (suc e) p i f) ≡ false

  quiet_before :
      {d : ℕ}
      → Clear 0
      → ((e : ℕ)
          → e < d
          → at_boundary mask (hash (suc e) p (i + 1) (roll f (get_or p i 0))) ≡ false)
      → (e : ℕ) → e < suc d
      → Clear e
  unfolding hash
  quiet_before first later zero h = first
  quiet_before first later (suc e) h = later e (omega arith)

  Outcome-step :
      (k : ℕ) (s : Scan)
      → Clear 0
      → Outcome k mask p (i + 1) (roll f (get_or p i 0)) s
      → Outcome (suc k) mask p i f s
  unfolding hash
  Outcome-step k (cut j) first (d, e, h, here, before) =
      (suc d, omega arith, omega arith, here, quiet_before first before)
  Outcome-step k (through g) first (e, before) = (e, quiet_before first before)

pub scan-Outcome : (k mask : ℕ) (p : Bytes) (i f : ℕ) → Outcome k mask p i f (scan k mask p i f)
unfolding scan hash
scan-Outcome zero mask p i f = (refl, λ e h. absurd (omega arith))
scan-Outcome (suc k) mask p i f = elim (Bool-cases (at_boundary mask (roll f (get_or p i 0)))) [
  | inl here ↦ rw (here, scan) (0, omega arith, omega arith, here, λ e h. absurd (omega arith))
  | inr clear ↦
      rw (clear, scan)
        (Outcome-step mask p i f k (scan k mask p (i + 1) (roll f (get_or p i 0))) clear
          (scan-Outcome k mask p (i + 1) (roll f (get_or p i 0))))
]
