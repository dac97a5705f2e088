-- ===== src/Metadata/Codec.antt =====
-- The bytes of one index entry: src/MetadataManager.cpp, `save` and `load`.
use c_dedup.Base.{
  ◌^◌, ◌<◌, ◌≡◌, refl, ◌++◌, length, Bytes, le_bytes, of_le-le_bytes, AreBytes, AreBytes-drop,
  of_le-take-lt, window, drop,
}
use c_dedup.Metadata.{Sha1Fp, EntryValue, fp_bytes, fp_of_bytes, value_bytes, value_of_bytes}

-- The words of a fingerprint and of an entry are in the range of their C types.
pub record IsFp (fp : Sha1Fp) : Type 0 where
  pub fp1 : fp.fp1 < 2 ^ 64
  pub fp2 : fp.fp2 < 2 ^ 32
  pub fp3 : fp.fp3 < 2 ^ 32
  pub fp4 : fp.fp4 < 2 ^ 32

pub record IsEntry (v : EntryValue) : Type 0 where
  pub container_number : v.container_number < 2 ^ 32
  pub offset : v.offset < 2 ^ 32
  pub chunk_length : v.chunk_length < 2 ^ 16
  pub container_inner_index : v.container_inner_index < 2 ^ 16
  pub ref_cnt : v.ref_cnt < 2 ^ 32

pub length-fp_bytes : (fp : Sha1Fp) → length (fp_bytes fp) ≡ 20
unfolding fp_bytes le_bytes
length-fp_bytes fp = refl

pub length-value_bytes : (v : EntryValue) → length (value_bytes v) ≡ 16
unfolding value_bytes le_bytes
length-value_bytes v = refl

pub fp_of_bytes-fp_bytes :
    (fp : Sha1Fp) (rest : Bytes) → IsFp fp → fp_of_bytes (window 0 20 (fp_bytes fp ++ rest)) ≡ fp
unfolding fp_bytes fp_of_bytes le_bytes
fp_of_bytes-fp_bytes fp rest ok = λ i. record {
  fp1 = of_le-le_bytes 8 fp.fp1 ok.fp1 i;
  fp2 = of_le-le_bytes 4 fp.fp2 ok.fp2 i;
  fp3 = of_le-le_bytes 4 fp.fp3 ok.fp3 i;
  fp4 = of_le-le_bytes 4 fp.fp4 ok.fp4 i;
}

pub value_of_bytes-value_bytes :
    (fp : Sha1Fp) (v : EntryValue) (rest : Bytes)
    → IsEntry v
    → value_of_bytes (window 20 16 (fp_bytes fp ++ (value_bytes v ++ rest))) ≡ v
unfolding fp_bytes value_bytes value_of_bytes le_bytes
value_of_bytes-value_bytes fp v rest ok = λ i. record {
  container_number = of_le-le_bytes 4 v.container_number ok.container_number i;
  offset = of_le-le_bytes 4 v.offset ok.offset i;
  chunk_length = of_le-le_bytes 2 v.chunk_length ok.chunk_length i;
  container_inner_index = of_le-le_bytes 2 v.container_inner_index ok.container_inner_index i;
  ref_cnt = of_le-le_bytes 4 v.ref_cnt ok.ref_cnt i;
}

pub drop-entry_bytes :
    (fp : Sha1Fp) (v : EntryValue) (rest : Bytes)
    → drop 36 (fp_bytes fp ++ (value_bytes v ++ rest)) ≡ rest
unfolding fp_bytes value_bytes le_bytes
drop-entry_bytes fp v rest = refl

-- A fingerprint copied out of bytes is in range.
pub fp_of_bytes-IsFp : (bs : Bytes) → AreBytes bs → IsFp (fp_of_bytes bs)
unfolding fp_of_bytes
fp_of_bytes-IsFp bs h = record {
  fp1 = of_le-take-lt 8 bs h;
  fp2 = of_le-take-lt 4 (drop 8 bs) (AreBytes-drop 8 bs h);
  fp3 = of_le-take-lt 4 (drop 12 bs) (AreBytes-drop 12 bs h);
  fp4 = of_le-take-lt 4 (drop 16 bs) (AreBytes-drop 16 bs h);
}
