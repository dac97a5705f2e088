-- ===== src/FullFile/Rows.antt =====
-- The rows of a hash, found by the loops of src/full_file_deduplicater.cpp: the first one that is in
-- use, described without the code's comparison of bytes.
use c_dedup.Base.{
  ℕ, ◌+◌, ◌<◌, ◌≡◌, refl, sym, ap, ◌∙◌, Bool, true, false, ◌&&◌, none, some, [], ◌∷◌, ◌++◌, arith,
  ◌==◌, if◌then◌else◌, length, All, Bytes, Bool-cases, inl, inr, ==_iff,
}
use c_dedup.FullFile.{equal_bytes}
use c_dedup.FullFile.Table.{Table, IsRow, row_of, set_row, count_of}

-- A row that is not in use, or of another hash.
abbrev pub IsOther : Bytes → Bytes × ℕ → Type 0
IsOther hash row = row.0 ≡ hash → row.1 ≡ 0

equal_bytes_sound : (xs ys : Bytes) → length xs ≡ length ys → equal_bytes xs ys ≡ true → ys ≡ xs
unfolding equal_bytes
equal_bytes_sound [] [] size e = refl
equal_bytes_sound [] (y ∷ ys) size e = absurd (omega (arith, size))
equal_bytes_sound (x ∷ xs) [] size e = absurd (omega (arith, size))
equal_bytes_sound (x ∷ xs) (y ∷ ys) size e = elim (Bool-cases (x == y)) [
  | inl same ↦
      let key : x ≡ y = (==_iff x y).0 same in
      let rest = equal_bytes_sound xs ys (omega (arith, size)) (ground arith) in
      λ i. sym key i ∷ rest i
  | inr other ↦ absurd (ground arith)
]

equal_bytes_refl : (xs : Bytes) → equal_bytes xs xs ≡ true
unfolding equal_bytes
equal_bytes_refl [] = refl
equal_bytes_refl (x ∷ xs) = rw ((==_iff x x).1 refl) (equal_bytes_refl xs)

-- The test of both loops for a row.
abbrev test : Bytes → Bytes → ℕ → Bool
test hash h n = equal_bytes hash h && (if n == 0 then false else true)

no_count : (b : Bool) → (b && false) ≡ false
no_count true = refl
no_count false = refl

module _ (hash : Bytes) (size : length hash ≡ 20) where
  test-other : (h : Bytes) (n : ℕ) → length h ≡ 20 → IsOther hash (h, n) → test hash h n ≡ false
  test-other h n sized other = elim (Bool-cases (equal_bytes hash h)) [
    | inl same ↦
        let unused : (n == 0) ≡ true =
          (==_iff n 0).1 (other (equal_bytes_sound hash h (size ∙ sym sized) same)) in
        rw unused (no_count (equal_bytes hash h))
    | inr differs ↦ rw differs refl
  ]

  test-here : (n : ℕ) → 0 < n → test hash hash n ≡ true
  test-here n pos =
      let used : (n == 0) ≡ false = ground (arith, pos) in rw (equal_bytes_refl hash, used) refl

  pub row_of-none :
      (table : Table) (i : ℕ)
      → All IsRow table
      → All (IsOther hash) table
      → row_of hash i table ≡ none
  row_of-none [] i rows others = refl
  row_of-none ((h, n) ∷ table) i rows others =
      rw (test-other h n rows.0.0 others.0) (row_of-none table (i + 1) rows.1 others.1)

  module _ (n : ℕ) (post : Table) (pos : 0 < n) where
    row_of-from :
        (pre : Table) (i : ℕ)
        → All IsRow (pre ++ (hash, n) ∷ post)
        → All (IsOther hash) pre
        → row_of hash i (pre ++ (hash, n) ∷ post) ≡ some (i + length pre)
    row_of-from [] i rows others = rw (test-here n pos) (ap some (omega arith))
    row_of-from ((h, m) ∷ pre) i rows others =
        rw (test-other h m rows.0.0 others.0)
          (row_of-from pre (i + 1) rows.1 others.1 ∙ ap some (omega arith))

    pub row_of-first :
        (pre : Table)
        → All IsRow (pre ++ (hash, n) ∷ post)
        → All (IsOther hash) pre
        → row_of hash 0 (pre ++ (hash, n) ∷ post) ≡ some (length pre)
    row_of-first pre rows others = row_of-from pre 0 rows others ∙ ap some (omega arith)

    pub set_row-first :
        (f : ℕ → ℕ) (pre : Table)
        → All IsRow (pre ++ (hash, n) ∷ post)
        → All (IsOther hash) pre
        → set_row hash f (pre ++ (hash, n) ∷ post) ≡ pre ++ (hash, f n) ∷ post
    set_row-first f [] rows others = rw (test-here n pos) refl
    set_row-first f ((h, m) ∷ pre) rows others =
        rw (test-other h m rows.0.0 others.0)
          (ap (λ t. (h, m) ∷ t) (set_row-first f pre rows.1 others.1))

    pub count_of-first :
        (pre : Table)
        → All IsRow (pre ++ (hash, n) ∷ post)
        → All (IsOther hash) pre
        → count_of hash (pre ++ (hash, n) ∷ post) ≡ n
    count_of-first [] rows others = rw (test-here n pos) refl
    count_of-first ((h, m) ∷ pre) rows others =
        rw (test-other h m rows.0.0 others.0) (count_of-first pre rows.1 others.1)
