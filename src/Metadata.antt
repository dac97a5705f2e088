-- ===== src/Metadata.antt =====
-- The fingerprint index: include/MetadataManager.h and src/MetadataManager.cpp.
--
-- The two `unordered_map`s are association lists, which iterate from the front; the order in which
-- the C++ maps iterate is unspecified, and the laws speak of lookups. The index file is a byte
-- string, or `none` where it does not exist. Words are below `2 ^ 32` (or `2 ^ 16`, `2 ^ 64`) and
-- wrap where the source adds to them.
pub mod Codec
pub mod Persist
pub mod Index
pub mod Counts
pub mod Reopen
use c_dedup.Base.{
  ℕ, zero, suc, ◌+◌, ◌-◌, ◌*◌, ◌/◌, ◌%◌, ◌^◌, Bool, true, false, ◌&&◌, Option, none, some, List, [],
  ◌∷◌, ◌++◌, ltb, ◌==◌, if◌then◌else◌, length, take, drop, Bytes, le_bytes, of_le, window, Eq, find,
  assign, emplace, erase, ◌↔◌, ◌≡◌, arith, ==_iff, is_some,
}

abbrev pub file_cache : ℕ
file_cache = 256 * 1024 * 1024

abbrev pub meta_data_size : ℕ
meta_data_size = 36

abbrev pub sha1_length : ℕ
sha1_length = 20

abbrev pub value_length : ℕ
value_length = 16

pub data LookupResult : Type 0 where
  unique dedup : LookupResult

-- `struct SHA1FP`: 20 packed bytes.
pub record Sha1Fp : Type 0 where
  pub fp1 : ℕ
  pub fp2 : ℕ
  pub fp3 : ℕ
  pub fp4 : ℕ

-- `struct ENTRY_VALUE`: 16 bytes, with no padding between its fields.
pub record EntryValue : Type 0 where
  pub container_number : ℕ
  pub offset : ℕ
  pub chunk_length : ℕ
  pub container_inner_index : ℕ
  pub ref_cnt : ℕ

-- `TupleEqualer`
unfoldable pub tuple_equaler : Sha1Fp → Sha1Fp → Bool
tuple_equaler a b = (a.fp1 == b.fp1) && ((a.fp2 == b.fp2) && ((a.fp3 == b.fp3) && (a.fp4 == b.fp4)))

pub tuple_equaler_iff : (a b : Sha1Fp) → (tuple_equaler a b ≡ true) ↔ (a ≡ b)
unfolding tuple_equaler
tuple_equaler_iff a b = ground arith

instance abbrev pub fp_eq : Eq Sha1Fp
fp_eq = record { beq = tuple_equaler; beq_iff = tuple_equaler_iff }

abbrev pub FpTable : Type 0
FpTable = List (Sha1Fp × EntryValue)

pub record MetadataManager : Type 0 where
  pub fp_table_origin : FpTable
  pub fp_table_added : FpTable

-- The constructor: both maps are empty.
abbrev pub new_manager : MetadataManager
new_manager = record { fp_table_origin = []; fp_table_added = [] }

-- The bytes that `save` writes for a key and a value, and what `load` copies out of them.
unfoldable pub fp_bytes : Sha1Fp → Bytes
fp_bytes fp = le_bytes 8 fp.fp1 ++ (le_bytes 4 fp.fp2 ++ (le_bytes 4 fp.fp3 ++ le_bytes 4 fp.fp4))

unfoldable pub fp_of_bytes : Bytes → Sha1Fp
fp_of_bytes bs = record {
  fp1 = of_le (window 0 8 bs);
  fp2 = of_le (window 8 4 bs);
  fp3 = of_le (window 12 4 bs);
  fp4 = of_le (window 16 4 bs);
}

unfoldable pub value_bytes : EntryValue → Bytes
value_bytes v =
    le_bytes 4 v.container_number
    ++ (le_bytes 4 v.offset
        ++ (le_bytes 2 v.chunk_length
            ++ (le_bytes 2 v.container_inner_index ++ le_bytes 4 v.ref_cnt)))

unfoldable pub value_of_bytes : Bytes → EntryValue
value_of_bytes bs = record {
  container_number = of_le (window 0 4 bs);
  offset = of_le (window 4 4 bs);
  chunk_length = of_le (window 8 2 bs);
  container_inner_index = of_le (window 10 2 bs);
  ref_cnt = of_le (window 12 4 bs);
}

-- The loop of `load`: `count` entries, from the front of the cache.
unfoldable pub load_entries : ℕ → Bytes → FpTable → FpTable
load_entries zero metadata_cache table = table
load_entries (suc count) metadata_cache table =
    load_entries count (drop meta_data_size metadata_cache) (
      emplace (fp_of_bytes (window 0 sha1_length metadata_cache))
        (value_of_bytes (window sha1_length value_length metadata_cache)) table)

-- `load`: one `read` of at most `FILE_CACHE` bytes; a failing `open` reads nothing.
unfoldable pub load : Option Bytes → MetadataManager → MetadataManager
load none m = m
load (some file) m =
    let metadata_cache = take file_cache file in
    record m {
      fp_table_origin =
          load_entries (length metadata_cache / meta_data_size) metadata_cache m.fp_table_origin;
    }

unfoldable pub save_table : FpTable → Bytes
save_table [] = []
save_table ((fp, v) ∷ table) = fp_bytes fp ++ (value_bytes v ++ save_table table)

-- `save`: the file is truncated and written, the added entries first.
unfoldable pub save : MetadataManager → Bytes
save m = save_table m.fp_table_added ++ save_table m.fp_table_origin

unfoldable pub dedup_lookup : Sha1Fp → MetadataManager → LookupResult
dedup_lookup sha1 m =
    if is_some (find sha1 m.fp_table_origin)
    then dedup
    else (if is_some (find sha1 m.fp_table_added) then dedup else unique)

-- `addNewEntry`; `none` is a failed `assert`.
unfoldable pub add_new_entry : Sha1Fp → EntryValue → MetadataManager → Option MetadataManager
add_new_entry sha1 value m =
    if is_some (find sha1 m.fp_table_added)
    then none
    else some (record m { fp_table_added = emplace sha1 value m.fp_table_added })

abbrev pub inc_ref : EntryValue → EntryValue
inc_ref v = record v { ref_cnt = (v.ref_cnt + 1) % 2 ^ 32 }

-- `addRefCnt`: the count after the call. `none` is the end of the function without a `return`, for a
-- key in neither map (there `find` gives `end()`, whose comparison across the maps is taken to hold).
unfoldable pub add_ref_cnt : Sha1Fp → MetadataManager → MetadataManager × Option ℕ
add_ref_cnt sha1 m = elim (find sha1 m.fp_table_added) [
  | some v ↦ (
    record m { fp_table_added = assign sha1 (inc_ref v) m.fp_table_added },
    some (inc_ref v).ref_cnt,
  )
  | none ↦ elim (find sha1 m.fp_table_origin) [
    | some v ↦ (
      record m { fp_table_origin = assign sha1 (inc_ref v) m.fp_table_origin },
      some (inc_ref v).ref_cnt,
    )
    | none ↦ (m, none)
  ]
]

-- `decRefCnt`: it looks in the loaded entries alone.
unfoldable pub dec_ref_cnt : Sha1Fp → MetadataManager → MetadataManager × Option ℕ
dec_ref_cnt sha1 m = elim (find sha1 m.fp_table_origin) [
  | some v ↦
      if ltb 1 v.ref_cnt
      then (
        record m {
          fp_table_origin = assign sha1 (record v { ref_cnt = v.ref_cnt - 1 }) m.fp_table_origin;
        },
        some (v.ref_cnt - 1),
      )
      else (record m { fp_table_origin = erase sha1 m.fp_table_origin }, some 0)
  | none ↦ (m, none)
]

abbrev pub zero_entry : EntryValue
zero_entry = record {
  container_number = 0;
  offset = 0;
  chunk_length = 0;
  container_inner_index = 0;
  ref_cnt = 0;
}

-- `getEntry`: `operator[]` on the loaded entries, which adds a zero entry for a missing key.
unfoldable pub get_entry : Sha1Fp → MetadataManager → MetadataManager × EntryValue
get_entry sha1 m = elim (find sha1 m.fp_table_origin) [
  | some v ↦ (m, v)
  | none ↦ (record m { fp_table_origin = emplace sha1 zero_entry m.fp_table_origin }, zero_entry)
]

-- The two assignments of `chunkOffsetDec`: `offset` is an unsigned 32-bit word.
abbrev pub dec_offset : ℕ → ℕ → EntryValue → EntryValue
dec_offset oft len v =
    if ltb oft v.offset then record v { offset = (v.offset + 2 ^ 32 - len) % 2 ^ 32 } else v

-- `chunkOffsetDec`; `none` is `exit(-1)`.
unfoldable pub chunk_offset_dec : Sha1Fp → ℕ → ℕ → MetadataManager → Option MetadataManager
chunk_offset_dec sha1 oft len m = elim (find sha1 m.fp_table_origin) [
  | some v ↦
      some (record m { fp_table_origin = assign sha1 (dec_offset oft len v) m.fp_table_origin })
  | none ↦ elim (find sha1 m.fp_table_added) [
    | some v ↦
        some (record m { fp_table_added = assign sha1 (dec_offset oft len v) m.fp_table_added })
    | none ↦ none
  ]
]
