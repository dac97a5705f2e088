-- ===== src/FullFile/Scan.antt =====
-- The two scans on the bytes of a table: src/full_file_deduplicater.cpp.
use c_dedup.Base.{
  ℕ, ◌+◌, ◌*◌, ◌%◌, ◌^◌, ◌≤◌, ◌<◌, ◌≡◌, refl, sym, ap, ◌∙◌, Bool, true, false, ◌&&◌, Option, some,
  [], ◌∷◌, ◌++◌, arith, ltb, ◌==◌, if◌then◌else◌, length, take, window, All, Bytes, le_bytes, of_le,
  of_le-le_bytes, write_at, take-append, drop-append, append_assoc, length-append, Bool-cases, inl,
  inr,
}
use c_dedup.FullFile.{equal_bytes, scan_entries, file_uint32chg}
use c_dedup.FullFile.Table.{
  Table, encode, IsRow, row_of, set_row, length-encode, uint32not0-le_bytes, row_windows,
  write_at_mid, four_bytes, count_of, encode-append,
}

long_enough : (n : ℕ) → 24 ≤ n → ltb n 24 ≡ false
long_enough n h = ground arith

some_if :
    (b : Bool) (x y : Option ℕ) (r : Option (Option ℕ))
    → r ≡ some y
    → (if b then some x else r) ≡ some (if b then x else y)
some_if true x y r e = refl
some_if false x y r e = e

pub scan_entries-row_of :
    (table : Table) (i : ℕ) (hash pad : Bytes)
    → All IsRow table
    → scan_entries (length table) i hash (encode table ++ pad) ≡ some (row_of hash i table)
unfolding scan_entries
scan_entries-row_of [] i hash pad rows = refl
scan_entries-row_of ((h, n) ∷ table) i hash pad rows =
    let rest = encode table ++ pad in
    let (front, back, left, enough) = row_windows h n rest rows.0.0 in
    let whole : encode ((h, n) ∷ table) ++ pad ≡ (h ++ le_bytes 4 n) ++ rest =
      append_assoc (h ++ le_bytes 4 n) (encode table) pad in
    rw
      (
        whole,
        long_enough (length ((h ++ le_bytes 4 n) ++ rest)) enough,
        front,
        back,
        left,
        uint32not0-le_bytes n rows.0.1,
      )
      (some_if (equal_bytes hash h && (if n == 0 then false else true)) (some i)
        (row_of hash (i + 1) table) (scan_entries (length table) (i + 1) hash rest)
        (scan_entries-row_of table (i + 1) hash pad rows.1))

found_here :
    (b : Bool) (i k : ℕ) (y : Option ℕ) → b ≡ true → (if b then some i else y) ≡ some k → k ≡ i
found_here true i k y h e = ground arith
found_here false i k y h e = absurd (ground arith)

found_later : (b : Bool) (x y z : Option ℕ) → b ≡ false → (if b then x else y) ≡ z → y ≡ z
found_later true x y z h e = absurd (ground arith)
found_later false x y z h e = e

-- The row that a scan finds, and what is before and behind it.
record Split (table : Table) (hash : Bytes) (i k : ℕ) : Type 0 where
  pre : Table
  post : Table
  key : Bytes
  count : ℕ
  whole : table ≡ pre ++ (key, count) ∷ post
  place : k ≡ i + length pre
  set : (f : ℕ → ℕ) → set_row hash f table ≡ pre ++ (key, f count) ∷ post
  counted : count_of hash table ≡ count
  rows : All IsRow pre
  row : IsRow (key, count)

row_of-Split :
    (table : Table) (hash : Bytes) (i k : ℕ)
    → All IsRow table
    → row_of hash i table ≡ some k
    → Split table hash i k
row_of-Split [] hash i k rows e = absurd (ground arith)
row_of-Split ((h, n) ∷ table) hash i k rows e =
    elim (Bool-cases (equal_bytes hash h && (if n == 0 then false else true))) [
      | inl here ↦ record {
        pre = [];
        post = table;
        key = h;
        count = n;
        whole = refl;
        place = omega (
          arith,
          found_here (equal_bytes hash h && (if n == 0 then false else true)) i k
              (row_of hash (i + 1) table) here e,
        );
        set = λ f. rw here refl;
        counted = rw here refl;
        rows = tt;
        row = rows.0;
      }
      | inr other ↦
          let r = row_of-Split table hash (i + 1) k rows.1 (
            found_later (equal_bytes hash h && (if n == 0 then false else true)) (some i)
              (row_of hash (i + 1) table) (some k) other e) in
          record {
            pre = (h, n) ∷ r.pre;
            post = r.post;
            key = r.key;
            count = r.count;
            whole = ap (◌∷◌ (h, n)) r.whole;
            place = omega (arith, r.place);
            set = λ f. rw (other, r.set f) refl;
            counted = rw other r.counted;
            rows = (rows.0, r.rows);
            row = r.row;
          }
    ]

module _ (pre post : Table) (key : Bytes) where
  encode-split :
      (n : ℕ)
      → encode (pre ++ (key, n) ∷ post) ≡ (encode pre ++ key) ++ (le_bytes 4 n ++ encode post)
  encode-split n =
      encode-append pre ((key, n) ∷ post)
      ∙ (ap (◌++◌ (encode pre)) (append_assoc key (le_bytes 4 n) (encode post))
          ∙ sym (append_assoc (encode pre) key (le_bytes 4 n ++ encode post)))

  -- The change of a count in the file.
  file_uint32chg-encode :
      (off delta n : ℕ)
      → off ≡ length (encode pre ++ key)
      → n < 2 ^ 32
      → file_uint32chg off delta (encode (pre ++ (key, n) ∷ post))
        ≡ (encode (pre ++ (key, (n + delta) % 2 ^ 32) ∷ post), (n + delta) % 2 ^ 32)
  unfolding file_uint32chg
  file_uint32chg-encode off delta n at small =
      let front = encode pre ++ key in
      let n' = (n + delta) % 2 ^ 32 in
      let old : of_le (window off 4 (encode (pre ++ (key, n) ∷ post))) ≡ n =
        ap (λ bs. of_le (window off 4 bs)) (encode-split n)
        ∙ (ap (λ bs. of_le (take 4 bs)) (drop-append off front (le_bytes 4 n ++ encode post) at)
            ∙ (ap of_le (take-append 4 (le_bytes 4 n) (encode post) (sym (four_bytes n)))
                ∙ of_le-le_bytes 4 n small)) in
      let new : write_at off (le_bytes 4 n') (encode (pre ++ (key, n) ∷ post))
          ≡ encode (pre ++ (key, n') ∷ post) =
        ap (write_at off (le_bytes 4 n')) (encode-split n)
        ∙ (write_at_mid off front (le_bytes 4 n) (encode post) (le_bytes 4 n') at
              (four_bytes n ∙ sym (four_bytes n'))
            ∙ sym (encode-split n')) in
      rw (old, new)

-- The change of the count in the row that a scan finds.
pub changed :
    (table : Table) (hash : Bytes) (k delta : ℕ)
    → All IsRow table
    → row_of hash 0 table ≡ some k
    → file_uint32chg (k * 24 + 20) delta (encode table) ≡ (
      encode (set_row hash (λ n. (n + delta) % 2 ^ 32) table),
      (count_of hash table + delta) % 2 ^ 32,
    )
changed table hash k delta rows e =
    let r = row_of-Split table hash 0 k rows e in
    let at : k * 24 + 20 ≡ length (encode r.pre ++ r.key) =
      omega
        (arith, length-append (encode r.pre) r.key, length-encode r.pre r.rows, r.row.0, r.place) in
    ap (λ t. file_uint32chg (k * 24 + 20) delta (encode t)) r.whole
    ∙ (file_uint32chg-encode r.pre r.post r.key (k * 24 + 20) delta r.count at r.row.1
        ∙ rw (r.set (λ n. (n + delta) % 2 ^ 32), r.counted))
