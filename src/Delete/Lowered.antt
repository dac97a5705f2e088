-- ===== src/Delete/Lowered.antt =====
-- The places of a container's other chunks once one is cut out: src/MetadataManager.cpp,
-- `chunkOffsetDec`.
use c_dedup.Base.{
  ℕ, ◌+◌, ◌^◌, ◌≤◌, ◌<◌, ◌≡◌, ◌⊎◌, refl, inl, inr, arith, ltb, true, false, Bool-cases,
}
use c_dedup.Metadata.{EntryValue, dec_offset}
use c_dedup.Metadata.Codec.{IsEntry}
use c_dedup.Delete.Shelf.{Apart, sub_in_range}

-- Where a chunk of `size` bytes at `old` goes when `len` bytes from `oft` on are cut out.
abbrev pub Lowered : ℕ → ℕ → ℕ → ℕ → ℕ → Type 0
Lowered oft len size old new =
    ((new ≡ old) × (old + size ≤ oft)) ⊎ ((new + len ≡ old) × (oft + len ≤ old))

-- Two chunks that were apart stay apart.
Lowered-apart :
    (oft len a a' m b b' n : ℕ)
    → 0 < m
    → 0 < n
    → Lowered oft len m a a'
    → Lowered oft len n b b'
    → (a + m ≤ b) ⊎ (b + n ≤ a)
    → (a' + m ≤ b') ⊎ (b' + n ≤ a')
Lowered-apart oft len a a' m b b' n hm hn (inl p) (inl q) (inl h) = inl (omega (arith, p, q))
Lowered-apart oft len a a' m b b' n hm hn (inl p) (inl q) (inr h) = inr (omega (arith, p, q))
Lowered-apart oft len a a' m b b' n hm hn (inl p) (inr q) (inl h) = inl (omega (arith, p, q))
Lowered-apart oft len a a' m b b' n hm hn (inl p) (inr q) (inr h) = inl (omega (arith, p, q))
Lowered-apart oft len a a' m b b' n hm hn (inr p) (inl q) (inl h) = inr (omega (arith, p, q))
Lowered-apart oft len a a' m b b' n hm hn (inr p) (inl q) (inr h) = inr (omega (arith, p, q))
Lowered-apart oft len a a' m b b' n hm hn (inr p) (inr q) (inl h) = inl (omega (arith, p, q))
Lowered-apart oft len a a' m b b' n hm hn (inr p) (inr q) (inr h) = inr (omega (arith, p, q))

-- The fields that `chunkOffsetDec` leaves.
pub dec_offset-stays :
    (oft len : ℕ) (v : EntryValue)
    → ((dec_offset oft len v).container_number ≡ v.container_number)
      × ((dec_offset oft len v).chunk_length ≡ v.chunk_length)
      × ((dec_offset oft len v).container_inner_index ≡ v.container_inner_index)
      × ((dec_offset oft len v).ref_cnt ≡ v.ref_cnt)
dec_offset-stays oft len v = elim (Bool-cases (ltb oft v.offset)) [
  | inl moves ↦ rw moves (refl, refl, refl, refl)
  | inr stays ↦ rw stays (refl, refl, refl, refl)
]

pub dec_offset-IsEntry : (oft len : ℕ) (v : EntryValue) → IsEntry v → IsEntry (dec_offset oft len v)
dec_offset-IsEntry oft len v ok = elim (Bool-cases (ltb oft v.offset)) [
  | inl moves ↦ rw moves (record {
    container_number = ok.container_number;
    offset = omega arith;
    chunk_length = ok.chunk_length;
    container_inner_index = ok.container_inner_index;
    ref_cnt = ok.ref_cnt;
  })
  | inr stays ↦ rw stays ok
]

dec_offset-Lowered :
    (oft len : ℕ) (v : EntryValue)
    → 0 < len
    → 0 < v.chunk_length
    → v.offset < 2 ^ 32
    → Apart oft len v
    → Lowered oft len v.chunk_length v.offset (dec_offset oft len v).offset
dec_offset-Lowered oft len v pos some_bytes small (inl below) =
    let stays : ltb oft v.offset ≡ false = ground (arith, below, some_bytes) in
    rw stays (inl (refl, below))
dec_offset-Lowered oft len v pos some_bytes small (inr behind) =
    let moves : ltb oft v.offset ≡ true = ground (arith, pos, behind) in
    let offset = sub_in_range v.offset len (omega (arith, behind)) small in
    rw moves (inr (omega (arith, offset, behind), behind))

pub Apart-dec_offset :
    (oft len : ℕ) (v w : EntryValue)
    → 0 < len
    → 0 < v.chunk_length
    → 0 < w.chunk_length
    → v.offset < 2 ^ 32
    → w.offset < 2 ^ 32
    → Apart oft len v
    → Apart oft len w
    → Apart w.offset w.chunk_length v
    → Apart (dec_offset oft len w).offset (dec_offset oft len w).chunk_length (dec_offset oft len v)
Apart-dec_offset oft len v w pos hv hw sv sw av aw apart =
    let size_v = (dec_offset-stays oft len v).1 in
    let size_w = (dec_offset-stays oft len w).1 in
    let both =
      Lowered-apart oft len v.offset (dec_offset oft len v).offset v.chunk_length w.offset
        (dec_offset oft len w).offset w.chunk_length hv hw
        (dec_offset-Lowered oft len v pos hv sv av) (dec_offset-Lowered oft len w pos hw sw aw)
        apart in
    elim both [ inl h ↦ inl (omega (arith, h, size_v)) | inr h ↦ inr (omega (arith, h, size_w)) ]
