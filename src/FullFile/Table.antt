-- ===== src/FullFile/Table.antt =====
-- The file of fingerprints as a table of hashes with their counts: src/full_file_deduplicater.cpp.
use c_dedup.Base.{
  ℕ, ◌+◌, ◌-◌, ◌*◌, ◌/◌, ◌%◌, ◌^◌, ◌≤◌, ◌<◌, ◌≡◌, refl, sym, ap, subst, ◌∙◌, true, false, ◌&&◌,
  Option, none, some, List, [], ◌∷◌, ◌++◌, arith, ◌==◌, if◌then◌else◌, length, take, drop, window,
  All, Bytes, le_bytes, write_at, take-append, drop-append, append_assoc, length-append, ==_iff,
  Bool-cases, inl, inr,
}
use c_dedup.FullFile.{uint32not0, equal_bytes}

abbrev pub Table : Type 0
Table = List (Bytes × ℕ)

abbrev pub entry_bytes : Bytes × ℕ → Bytes
entry_bytes (hash, count) = hash ++ le_bytes 4 count

-- The bytes of a table.
abbrev pub encode : Table → Bytes
encode [] = []
encode (row ∷ table) = entry_bytes row ++ encode table

-- A row of 20 bytes and a 32-bit count.
abbrev pub IsRow : Bytes × ℕ → Type 0
IsRow row = (length row.0 ≡ 20) × (row.1 < 2 ^ 32)

-- The number of the first row of a hash that is in use, counted from `i`.
abbrev pub row_of : Bytes → ℕ → Table → Option ℕ
row_of hash i [] = none
row_of hash i (row ∷ table) =
    if equal_bytes hash row.0 && (if row.1 == 0 then false else true)
    then some i
    else row_of hash (i + 1) table

-- The table with another count in that row.
abbrev pub set_row : Bytes → (ℕ → ℕ) → Table → Table
set_row hash f [] = []
set_row hash f (row ∷ table) =
    if equal_bytes hash row.0 && (if row.1 == 0 then false else true)
    then (row.0, f row.1) ∷ table
    else row ∷ set_row hash f table

-- The count in that row; 0 if there is none.
abbrev pub count_of : Bytes → Table → ℕ
count_of hash [] = 0
count_of hash (row ∷ table) =
    if equal_bytes hash row.0 && (if row.1 == 0 then false else true)
    then row.1
    else count_of hash table

pub length-encode : (table : Table) → All IsRow table → length (encode table) ≡ 24 * length table
unfolding le_bytes
length-encode [] rows = refl
length-encode (row ∷ table) rows = omega (
  arith,
  length-append (row.0 ++ le_bytes 4 row.1) (encode table),
  length-append row.0 (le_bytes 4 row.1),
  rows.0.0,
  length-encode table rows.1,
)

pub four_bytes : (n : ℕ) → length (le_bytes 4 n) ≡ 4
unfolding le_bytes
four_bytes n = refl

not_zero : (n : ℕ) → (n == 0) ≡ false → n ≡ 0 → ⊥
not_zero n h e = ground arith

-- Four bytes that are all zero are the number 0.
zero_bytes :
    (n : ℕ)
    → n < 2 ^ 32
    → n % 256 ≡ 0
    → n / 256 % 256 ≡ 0
    → n / 256 / 256 % 256 ≡ 0
    → n / 256 / 256 / 256 % 256 ≡ 0
    → n ≡ 0
zero_bytes n h a b c d = omega arith

not_all_zero :
    (a b c d : ℕ)
    → (a ≡ 0 → b ≡ 0 → c ≡ 0 → d ≡ 0 → ⊥)
    → (if (a == 0) && ((b == 0) && ((c == 0) && (d == 0))) then false else true) ≡ true
not_all_zero a b c d h = elim (Bool-cases ((a == 0) && ((b == 0) && ((c == 0) && (d == 0))))) [
  | inl all_zero ↦ absurd (h (ground arith) (ground arith) (ground arith) (ground arith))
  | inr other ↦ rw other
]

pub uint32not0-le_bytes :
    (n : ℕ) → n < 2 ^ 32 → uint32not0 (le_bytes 4 n) ≡ (if n == 0 then false else true)
unfolding uint32not0 le_bytes
uint32not0-le_bytes n h = elim (Bool-cases (n == 0)) [
  | inl all_zero ↦
      subst (λ n. uint32not0 (le_bytes 4 n) ≡ (if n == 0 then false else true))
        (sym ((==_iff n 0).0 all_zero)) refl
  | inr other ↦
      not_all_zero (n % 256) (n / 256 % 256) (n / 256 / 256 % 256) (n / 256 / 256 / 256 % 256)
        (λ a b c d. absurd (not_zero n other (zero_bytes n h a b c d)))
      ∙ rw other
]

-- What a scan reads of a row in front.
pub row_windows :
    (hash : Bytes) (count : ℕ) (rest : Bytes)
    → length hash ≡ 20
    → (window 0 20 ((hash ++ le_bytes 4 count) ++ rest) ≡ hash)
      × (window 20 4 ((hash ++ le_bytes 4 count) ++ rest) ≡ le_bytes 4 count)
      × (drop 24 ((hash ++ le_bytes 4 count) ++ rest) ≡ rest)
      × (24 ≤ length ((hash ++ le_bytes 4 count) ++ rest))
row_windows hash count rest size =
    let at : 20 ≡ length hash = sym size in
    let whole = append_assoc hash (le_bytes 4 count) rest in
    let four = four_bytes count in
    let row : length (hash ++ le_bytes 4 count) ≡ 24 =
      omega (arith, length-append hash (le_bytes 4 count), size, four) in
    (
      ap (take 20) whole ∙ take-append 20 hash (le_bytes 4 count ++ rest) at,
      ap (λ bs. take 4 (drop 20 bs)) whole
          ∙ (ap (take 4) (drop-append 20 hash (le_bytes 4 count ++ rest) at)
              ∙ take-append 4 (le_bytes 4 count) rest (sym four)),
      drop-append 24 (hash ++ le_bytes 4 count) rest (sym row),
      omega (arith, length-append (hash ++ le_bytes 4 count) rest, row),
    )

-- A write over bytes in the middle.
pub write_at_mid :
    (off : ℕ) (xs old ys new : Bytes)
    → off ≡ length xs
    → length old ≡ length new
    → write_at off new (xs ++ (old ++ ys)) ≡ xs ++ (new ++ ys)
unfolding write_at
write_at_mid off xs old ys new at same =
    let inside : off - length (xs ++ (old ++ ys)) ≡ 0 =
      omega (arith, length-append xs (old ++ ys), at) in
    let behind : off + length new ≡ length (xs ++ old) =
      omega (arith, length-append xs old, at, same) in
    let left : drop (off + length new) (xs ++ (old ++ ys)) ≡ ys =
      ap (drop (off + length new)) (sym (append_assoc xs old ys))
      ∙ drop-append (off + length new) (xs ++ old) ys behind in
    rw (take-append off xs (old ++ ys) at, inside, left)

pub encode-append : (xs ys : Table) → encode (xs ++ ys) ≡ encode xs ++ encode ys
encode-append [] ys = refl
encode-append (row ∷ xs) ys =
    ap (◌++◌ (entry_bytes row)) (encode-append xs ys)
    ∙ sym (append_assoc (entry_bytes row) (encode xs) (encode ys))
