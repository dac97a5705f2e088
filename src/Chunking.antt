-- ===== src/Chunking.antt =====
-- Content-defined and fixed-size chunking: src/fastcdc.cpp, and the function pointer `chunking`.
--
-- A buffer is a list of bytes; `n` is the number of bytes that the caller offers. The global
-- variables of the file are the record `Globals`, which the chunking functions pass on, since
-- `FastCDC_with_NC` writes to one of them. `MD5` is a parameter of `fast_cdc_init`.
pub mod Gear
pub mod Fingerprint
pub mod Boundary
pub mod Cut
pub mod Rolling
pub mod Locality
pub mod Split
use Prim.Native.Nat.{bit_and}
use c_dedup.Base.{
  ℕ, zero, suc, ◌+◌, ◌-◌, ◌*◌, ◌/◌, ◌%◌, ◌^◌, Bool, true, false, Option, none, some, List, [], ◌∷◌,
  map, ltb, leb, ◌==◌, if◌then◌else◌, get_or, take, drop, replicate, length, Bytes, of_le, window,
}
use c_dedup.Chunking.Gear.{gear_v2}

abbrev pub mask14 : ℕ
mask14 = 0x0000d9f003520000

abbrev pub mask12 : ℕ
mask12 = 0x0000d90003570000

abbrev pub mask15 : ℕ
mask15 = 0x0000d9f003530000

abbrev pub mask11 : ℕ
mask11 = 0x0000d90003530000

abbrev pub mask16 : ℕ
mask16 = 0x0000d9f003570000

abbrev pub mask10 : ℕ
mask10 = 0x0000d90003520000

abbrev pub fing_gear_08kb_64 : ℕ
fing_gear_08kb_64 = 0x0000d93003530000

pub record Globals : Type 0 where
  pub g_global_matrix : List ℕ
  pub g_global_matrix_left : List ℕ
  pub learv2 : List ℕ
  pub mask_front : ℕ
  pub mask_back : ℕ
  pub min_size : ℕ
  pub max_size : ℕ
  pub fastcdc_avg_size : ℕ
  pub min_size_divide_by_2 : ℕ

-- The first loop of `fastCDC_init`, from symbol `i` on, `k` symbols left.
unfoldable pub init_matrix : (Bytes → Bytes) → ℕ → ℕ → List ℕ
init_matrix md5 zero i = []
init_matrix md5 (suc k) i = of_le (window 0 4 (md5 (replicate 64 i))) ∷ init_matrix md5 k (i + 1)

-- The masks for a normalisation level; at level 0 and at an unknown level they stay.
unfoldable pub select_masks : ℕ → Globals → Globals
select_masks nc_level g =
    if nc_level == 1
    then record g { mask_front = mask14; mask_back = mask12 }
    else (if nc_level == 2
        then record g { mask_front = mask15; mask_back = mask11 }
        else (if nc_level == 3 then record g { mask_front = mask16; mask_back = mask10 } else g))

unfoldable pub fast_cdc_init : (Bytes → Bytes) → ℕ → ℕ → Globals → Globals
unfolding init_matrix select_masks
fast_cdc_init md5 fas nc_level g =
    let matrix = init_matrix md5 256 0 in
    let sized = record g {
      g_global_matrix = matrix;
      g_global_matrix_left = map (λ x. x * 2 % 2 ^ 32) matrix;
      learv2 = map (λ x. x * 2 % 2 ^ 64) gear_v2;
      min_size = fas / 4;
      max_size = fas * 4 % 2 ^ 32;
      fastcdc_avg_size = fas;
    } in
    record (select_masks nc_level sized) { min_size_divide_by_2 = fas / 4 / 2 }

-- `(fingerprint << 1) + (GEARv2[p[i]])` in 64 bits.
unfoldable pub roll : ℕ → ℕ → ℕ
roll fingerprint b = (fingerprint * 2 + get_or gear_v2 b 0) % 2 ^ 64

-- `!(fingerprint & mask)`
unfoldable pub at_boundary : ℕ → ℕ → Bool
at_boundary mask fingerprint = bit_and fingerprint mask == 0

-- How a scanning loop ends: by `return i`, or by its test, with the fingerprint so far.
pub data Scan : Type 0 where
  cut : ℕ → Scan
  through : ℕ → Scan

-- `while (i < limit) { roll; if boundary return i; i++; }` with `limit - i` rounds.
unfoldable pub scan : ℕ → ℕ → Bytes → ℕ → ℕ → Scan
scan zero mask p i fingerprint = through fingerprint
scan (suc rounds) mask p i fingerprint =
    let rolled = roll fingerprint (get_or p i 0) in
    let rest = scan rounds mask p (i + 1) rolled in if at_boundary mask rolled then cut i else rest

-- The second loop's outcome as a value of the function.
abbrev pub scan_or : Scan → ℕ → ℕ
scan_or (cut i) n = i
scan_or (through fingerprint) n = n

-- Both loops: from `MinSize` to `mid` with the one mask, on to `n` with the other.
unfoldable pub scan_both : Globals → Bytes → ℕ → ℕ → ℕ
scan_both g p mid n = elim (scan (mid - g.min_size) g.mask_front p g.min_size 0) [
  | cut i ↦ i
  | through fingerprint ↦
      let i = (if ltb g.min_size mid then mid else g.min_size) in
      scan_or (scan (n - i) g.mask_back p i fingerprint) n
]

unfoldable pub fast_cdc_with_nc : Bytes → ℕ → Globals → ℕ × Globals
fast_cdc_with_nc p n g =
    if leb n g.min_size
    then (n, g)
    else (if ltb g.max_size n
        then (scan_both g p g.fastcdc_avg_size g.max_size, g)
        else (if leb n g.fastcdc_avg_size
            then (scan_both g p n n, record g { fastcdc_avg_size = n })
            else (scan_both g p g.fastcdc_avg_size n, g)))

unfoldable pub fast_cdc_without_nc : Bytes → ℕ → Globals → ℕ × Globals
fast_cdc_without_nc p n g =
    if leb n g.min_size
    then (n, g)
    else (let n' = (if ltb g.max_size n then g.max_size else n) in
        (scan_or (scan (n' - g.min_size) fing_gear_08kb_64 p g.min_size 0) n', g))

-- `FSC_512`, `FSC_4`, `FSC_8` and `FSC_16`, by their size in bytes.
unfoldable pub fsc : ℕ → Bytes → ℕ → Globals → ℕ × Globals
fsc size p n g = ((if leb size n then size else n), g)

-- What the pointer `chunking` can point to.
pub data Chunking : Type 0 where
  with_nc without_nc : Chunking
  fixed : ℕ → Chunking

unfoldable pub run_chunking : Chunking → Bytes → ℕ → Globals → ℕ × Globals
run_chunking with_nc p n g = fast_cdc_with_nc p n g
run_chunking without_nc p n g = fast_cdc_without_nc p n g
run_chunking (fixed size) p n g = fsc size p n g
