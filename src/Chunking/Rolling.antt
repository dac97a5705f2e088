-- ===== src/Chunking/Rolling.antt =====
-- The rolling fingerprint of src/fastcdc.cpp forgets all but the last 64 bytes.
use native.Mathlib.Nat.{pow-suc}
use c_dedup.Base.{
  ℕ, zero, suc, ◌+◌, ◌-◌, ◌*◌, ◌/◌, ◌%◌, ◌^◌, ◌≤◌, ◌<◌, ◌≡◌, sym, ap, ◌∙◌, Bytes, get_or, arith,
}
use c_dedup.Chunking.{roll}
use c_dedup.Chunking.Gear.{gear_v2}
use c_dedup.Chunking.Fingerprint.{hash, hash-add}

mod_step :
    (f g t h : ℕ)
    → ((f * 2 + g) % 2 ^ 64 * t + h) % 2 ^ 64 ≡ (f * (t * 2) + (g % 2 ^ 64 * t + h)) % 2 ^ 64
mod_step f g t h =
    let whole : f * 2 + g ≡ 2 ^ 64 * ((f * 2 + g) / 2 ^ 64) + (f * 2 + g) % 2 ^ 64 = omega arith in
    let part : g ≡ 2 ^ 64 * (g / 2 ^ 64) + g % 2 ^ 64 = omega arith in
    omega (arith, ap (λ (z : ℕ). z * t) whole, ap (λ (z : ℕ). z * t) part)

linear_step :
    (from_f from_0 f g t h : ℕ)
    → from_f % 2 ^ 64 ≡ ((f * 2 + g) % 2 ^ 64 * t + h) % 2 ^ 64
    → from_0 % 2 ^ 64 ≡ ((0 * 2 + g) % 2 ^ 64 * t + h) % 2 ^ 64
    → from_f % 2 ^ 64 ≡ (f * (t * 2) + from_0) % 2 ^ 64
linear_step from_f from_0 f g t h a b = omega (arith, mod_step f g t h, mod_step 0 g t h)

hash-linear :
    (k : ℕ) (p : Bytes) (i f : ℕ) → hash k p i f % 2 ^ 64 ≡ (f * 2 ^ k + hash k p i 0) % 2 ^ 64
unfolding hash roll
hash-linear zero p i f = omega arith
hash-linear (suc k) p i f =
    let b = get_or p i 0 in
    linear_step (hash k p (i + 1) (roll f b)) (hash k p (i + 1) (roll 0 b)) f (get_or gear_v2 b 0)
      (2 ^ k) (hash k p (i + 1) 0) (hash-linear k p (i + 1) (roll f b))
      (hash-linear k p (i + 1) (roll 0 b))
    ∙ ap (λ t. (f * t + hash k p (i + 1) (roll 0 b)) % 2 ^ 64) (sym (pow-suc 2 k))

hash-lt : (k : ℕ) (p : Bytes) (i f : ℕ) → hash (suc k) p i f < 2 ^ 64
unfolding hash roll
hash-lt zero p i f = omega arith
hash-lt (suc k) p i f = hash-lt k p (i + 1) (roll f (get_or p i 0))

-- After 64 bytes nothing is left of the fingerprint that the scan started from.
hash-64 : (p : Bytes) (i f : ℕ) → hash 64 p i f ≡ hash 64 p i 0
hash-64 p i f = omega (arith, hash-linear 64 p i f, hash-lt 63 p i f, hash-lt 63 p i 0)

-- The fingerprint at any position that the scan reaches after at least 64 bytes is that of the last
-- 64 bytes alone, wherever the scan started.
pub hash_window : (k : ℕ) (p : Bytes) (i f : ℕ) → 64 ≤ k → hash k p i f ≡ hash 64 p (i + k - 64) 0
hash_window k p i f h =
    let parts : k ≡ k - 64 + 64 = omega arith in
    let start : i + (k - 64) ≡ i + k - 64 = omega arith in
    ap (λ n. hash n p i f) parts
    ∙ (hash-add (k - 64) 64 p i f
        ∙ (hash-64 p (i + (k - 64)) (hash (k - 64) p i f) ∙ ap (λ n. hash 64 p n 0) start))
