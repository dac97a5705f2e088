-- ===== src/Base/Words.antt =====
-- Bytes as numbers below 256, little-endian words, and windows of a buffer or of a file.
use Prim.Native.Nat.{ℕ, zero, suc, ◌+◌, ◌-◌, ◌*◌, ◌/◌, ◌%◌, ◌^◌, ◌≤◌, ◌<◌}
use mathlib.Core.Path.{◌≡◌, refl, sym, ap, ap₂, ◌∙◌}
use mathlib.Core.List.{List, [], ◌∷◌, ◌++◌, append-nil}
use native.Mathlib.Nat.{pow-suc}
use native.Mathlib.Omega.{arith}
use c_dedup.Base.Lists.{
  length, take, drop, replicate, All, take_of_length-le, drop_of_length-le, take-append-drop,
  take-drop-append, length-take,
}

abbrev pub Bytes : Type 0
Bytes = List ℕ

abbrev pub AreBytes : Bytes → Type 0
AreBytes = All (λ b. b < 256)

-- The bytes of a `w`-byte unsigned word, the lowest first, and the word that bytes stand for.
unfoldable pub le_bytes : ℕ → ℕ → Bytes
le_bytes zero n = []
le_bytes (suc w) n = n % 256 ∷ le_bytes w (n / 256)

unfoldable pub of_le : Bytes → ℕ
of_le [] = 0
of_le (b ∷ bs) = b + 256 * of_le bs

pub length-le_bytes : (w n : ℕ) → length (le_bytes w n) ≡ w
unfolding le_bytes
length-le_bytes zero n = refl
length-le_bytes (suc w) n = ap suc (length-le_bytes w (n / 256))

pub of_le-le_bytes : (w n : ℕ) → n < 256 ^ w → of_le (le_bytes w n) ≡ n
unfolding le_bytes of_le
of_le-le_bytes zero n h = omega arith
of_le-le_bytes (suc w) n h =
    let fits : n < 256 * 256 ^ w = omega (arith, h, pow-suc 256 w) in
    omega (arith, of_le-le_bytes w (n / 256) (omega arith))

pub le_bytes-of_le : (bs : Bytes) → AreBytes bs → le_bytes (length bs) (of_le bs) ≡ bs
unfolding le_bytes of_le
le_bytes-of_le [] h = refl
le_bytes-of_le (b ∷ bs) h =
    ap₂ ◌∷◌ (omega (arith, h.0))
      (ap (le_bytes (length bs)) (omega (arith, h.0)) ∙ le_bytes-of_le bs h.1)

-- `memcpy` out of a buffer or a `read` at an offset: the bytes from `off`, at most `len`.
abbrev pub window : ℕ → ℕ → Bytes → Bytes
window off len bs = take len (drop off bs)

-- `memcpy` into a zeroed buffer or a `write` at an offset. What lies beyond the list is zero.
unfoldable pub write_at : ℕ → Bytes → Bytes → Bytes
write_at off new bs =
    take off bs ++ (replicate (off - length bs) 0 ++ (new ++ drop (off + length new) bs))

-- A write at the end of what was written appends.
pub write_at_end : (off : ℕ) (new bs : Bytes) → off ≡ length bs → write_at off new bs ≡ bs ++ new
unfolding write_at
write_at_end off new bs h =
    let full : off - length bs ≡ 0 = omega arith in
    rw (
      take_of_length-le off bs (omega arith),
      full,
      drop_of_length-le (off + length new) bs (omega arith),
      append-nil,
    )

-- A write at the start covers the front.
pub write_at_front : (new bs : Bytes) → write_at 0 new bs ≡ new ++ drop (length new) bs
unfolding write_at
write_at_front new bs =
    let none_before : 0 - length bs ≡ 0 = omega arith in
    let at_length : 0 + length new ≡ length new = omega arith in
    λ i. replicate (none_before i) 0 ++ (new ++ drop (at_length i) bs)

pow_pos : (n : ℕ) → 0 < 256 ^ n
pow_pos zero = omega arith
pow_pos (suc n) = omega (arith, pow_pos n, pow-suc 256 n)

-- A word read from at most `n` bytes.
pub of_le-take-lt : (n : ℕ) (bs : Bytes) → AreBytes bs → of_le (take n bs) < 256 ^ n
unfolding of_le
of_le-take-lt zero bs h = omega arith
of_le-take-lt (suc n) [] h = omega (arith, pow_pos (suc n))
of_le-take-lt (suc n) (b ∷ bs) h = omega (arith, h.0, of_le-take-lt n bs h.1, pow-suc 256 n)

pub AreBytes-drop : (n : ℕ) (bs : Bytes) → AreBytes bs → AreBytes (drop n bs)
AreBytes-drop zero bs h = h
AreBytes-drop (suc n) [] h = tt
AreBytes-drop (suc n) (b ∷ bs) h = AreBytes-drop n bs h.1

pub AreBytes-take : (n : ℕ) (bs : Bytes) → AreBytes bs → AreBytes (take n bs)
AreBytes-take zero bs h = tt
AreBytes-take (suc n) [] h = tt
AreBytes-take (suc n) (b ∷ bs) h = (h.0, AreBytes-take n bs h.1)

-- A window that ends within the first `n` bytes does not see the others.
pub window-take :
    (n off len : ℕ) (bs : Bytes)
    → off + len ≤ n
    → off + len ≤ length bs
    → window off len (take n bs) ≡ window off len bs
window-take n off len bs h within =
    sym (take-drop-append off len (take n bs) (drop n bs) (omega (arith, length-take n bs)))
    ∙ ap (window off len) (take-append-drop n bs)
