-- ===== src/Chunking/Split.antt =====
-- The loop that every writer of the program runs: cut a chunk off the front until nothing is left.
-- main.cpp, the loop of the Merkle branch and the inner loop of the plain one; src/fastcdc.cpp for
-- the bounds on a chunk.
use c_dedup.Base.{
  ◌>>=◌, ◌==◌, ◌+◌, ℕ, zero, suc, ◌≤◌, ◌<◌, ◌≡◌, refl, ap, ◌∙◌, Bytes, arith, ltb, leb, lt→ltb,
  Bool-cases, inl, inr, if◌then◌else◌, min, subst, Option, some, none, List, [], ◌∷◌, ◌++◌, length,
  take, drop, concat, All, length-take, length-drop, take-append-drop,
}
use c_dedup.Metadata.{file_cache}
use c_dedup.Chunking.{
  Globals, Chunking, with_nc, without_nc, fixed, run_chunking, fast_cdc_with_nc, fsc,
}
use c_dedup.Chunking.Boundary.{IsCut}
use c_dedup.Chunking.Cut.{IsSized, fast_cdc_with_nc-IsCut, fast_cdc_without_nc-IsCut}

abbrev pub cons_chunk : Bytes → Option (List Bytes × Globals) → Option (List Bytes × Globals)
cons_chunk chunk none = none
cons_chunk chunk (some (chunks, g)) = some (chunk ∷ chunks, g)

-- The chunks of a buffer. `none` is a loop that has not ended within the fuel.
unfoldable pub split : ℕ → Chunking → Bytes → Globals → Option (List Bytes × Globals)
split zero c p g = none
split (suc fuel) c p g =
    let cut = run_chunking c p (length p) g in
    let rest = split fuel c (drop cut.0 p) cut.1 in
    if ltb 0 (length p) then cons_chunk (take cut.0 p) rest else some ([], g)

-- The chunks of a file that is read by `FILE_CACHE` bytes at a time.
abbrev pub prepend : List Bytes → Option (List Bytes × Globals) → Option (List Bytes × Globals)
prepend chunks none = none
prepend chunks (some (more, g)) = some (chunks ++ more, g)

unfoldable pub split_file : ℕ → Chunking → Bytes → Globals → Option (List Bytes × Globals)
split_file zero c file g = none
split_file (suc fuel) c file g =
    let block = take file_cache file in
    let next = split (length block + 1) c block g >>= λ r.
    prepend r.0 (split_file fuel c (drop file_cache file) r.1) in
    if length block == 0 then some ([], g) else next

-- The globals are set up so that a chunk is never empty.
abbrev pub IsReady : Chunking → Globals → Type 0
IsReady with_nc g = IsSized g × (0 < g.min_size)
IsReady without_nc g = (g.min_size ≤ g.max_size) × (0 < g.min_size)
IsReady (fixed size) g = 0 < size

-- The length of the longest chunk.
abbrev pub longest : Chunking → Globals → ℕ
longest with_nc g = g.max_size
longest without_nc g = g.max_size
longest (fixed size) g = size

with_nc-sizes :
    (p : Bytes) (n : ℕ) (g : Globals)
    → ((fast_cdc_with_nc p n g).1.min_size ≡ g.min_size)
      × ((fast_cdc_with_nc p n g).1.max_size ≡ g.max_size)
unfolding fast_cdc_with_nc
with_nc-sizes p n g = ground arith

cut_range :
    (g : Globals) (n : ℕ) {g' : Globals} {p : Bytes} {mid r : ℕ}
    → 0 < n
    → 0 < g.min_size
    → g'.min_size ≡ g.min_size
    → g.min_size ≤ g.max_size
    → (n ≤ g.min_size → r ≡ n)
    → (g.min_size < n → IsCut g' p mid (min n g.max_size) r)
    → (0 < r) × (r ≤ n) × (r ≤ g.max_size)
cut_range g n {r} h pos same le few more = elim (Bool-cases (leb n g.min_size)) [
  | inl small ↦ let e : r ≡ n = few (ground arith) in rw e (ground arith)
  | inr large ↦
      let c = more (ground arith) in
      (omega (arith, c.lower), omega (arith, c.upper), omega (arith, c.upper))
]

-- A chunk that holds something, and at most `top` bytes.
abbrev pub Fits : ℕ → Bytes → Type 0
Fits top chunk = (0 < length chunk) × (length chunk ≤ top)

pub run_chunking_bounds :
    (c : Chunking) (p : Bytes) (n : ℕ) (g : Globals)
    → IsReady c g
    → 0 < n
    → (0 < (run_chunking c p n g).0)
      × ((run_chunking c p n g).0 ≤ n)
      × ((run_chunking c p n g).0 ≤ longest c g)
      × IsReady c (run_chunking c p n g).1
      × (longest c (run_chunking c p n g).1 ≡ longest c g)
unfolding run_chunking
run_chunking_bounds with_nc p n g (ok, pos) h =
    let (ok', few, more) = fast_cdc_with_nc-IsCut p n g ok in
    let (low, high, top) =
      cut_range g n h pos refl (omega (arith, ok.min_avg, ok.avg_max)) few more in
    let (same_min, same_max) = with_nc-sizes p n g in (low, high, top, (ok', omega arith), same_max)
run_chunking_bounds without_nc p n g (ok, pos) h =
    let (same, few, more) = fast_cdc_without_nc-IsCut p n g ok in
    let (low, high, top) = cut_range g n h pos refl ok few more in
    (low, high, top, rw same (ok, pos), ap (λ g. g.max_size) same)
run_chunking_bounds (fixed size) p n g pos h = unfold fsc in ground arith

pub split_step :
    (fuel : ℕ) (c : Chunking) (p : Bytes) (g : Globals)
    → 0 < length p
    → split (suc fuel) c p g
      ≡ cons_chunk (take (run_chunking c p (length p) g).0 p) (
          split fuel c (drop (run_chunking c p (length p) g).0 p) (run_chunking c p (length p) g).1)
unfolding split
split_step fuel c p g h = rw (lt→ltb 0 (length p) h)

-- With as much fuel as bytes, and one more, the loop ends; the chunks are the buffer in order, and
-- each is non-empty and at most the longest.
pub split_total :
    (fuel : ℕ) (c : Chunking) (p : Bytes) (g : Globals)
    → IsReady c g
    → length p < fuel
    → (chunks : List Bytes) × (g' : Globals) × (split fuel c p g ≡ some (chunks, g'))
      × (concat chunks ≡ p)
      × All (Fits (longest c g)) chunks
      × IsReady c g'
      × (longest c g' ≡ longest c g)
unfolding split
split_total zero c p g ready h = absurd (omega arith)
split_total (suc fuel) c [] g ready h = ([], g, refl, refl, tt, ready, refl)
split_total (suc fuel) c (x ∷ xs) g ready h =
    let p : Bytes = x ∷ xs in
    let (low, high, top, ready', same) = run_chunking_bounds c p (length p) g ready (omega arith) in
    let r = run_chunking c p (length p) g in
    let (chunks, g', run, whole, each, ready'', same') =
      split_total fuel c (drop r.0 p) r.1 ready' (omega (arith, length-drop r.0 p)) in
    (
      take r.0 p ∷ chunks,
      g',
      split_step fuel c p g (omega arith) ∙ ap (cons_chunk (take r.0 p)) run,
      ap (◌++◌ (take r.0 p)) whole ∙ take-append-drop r.0 p,
      (
        (omega (arith, length-take r.0 p), omega (arith, length-take r.0 p)),
        subst (λ top. All (Fits top) chunks) same each,
      ),
      ready'',
      same' ∙ same,
    )
