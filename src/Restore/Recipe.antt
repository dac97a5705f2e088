-- ===== src/Restore/Recipe.antt =====
-- A recipe comes back as it was written: main.cpp, `saveFileRecipe` and `getFileRecipe`.
use c_dedup.Base.{
  ℕ, zero, suc, ◌+◌, ◌%◌, ◌^◌, ◌<◌, ◌≡◌, refl, sym, ap, ◌∙◌, some, List, [], ◌∷◌, ◌++◌, arith,
  length, replicate, Bytes, All, concat, write_at, write_at_front, find, nat_eq, length-append,
  length-replicate, append-nil, drop_of_length-le, take-append, drop-append, take, drop,
  pos→ne_zero,
}
use c_dedup.Store.{Store, recipe_pieces, get_file_recipe}

abbrev pub IsDigest : Bytes → Type 0
IsDigest x = length x ≡ 20

piece_whole : (x buf : Bytes) → IsDigest x → IsDigest buf → write_at 0 x buf ≡ x
piece_whole x buf h b =
    write_at_front x buf
    ∙ (ap (◌++◌ x) (drop_of_length-le (length x) buf (omega arith)) ∙ append-nil x)

pub recipe_pieces-concat :
    (fuel : ℕ) (buf : Bytes) (xs : List Bytes)
    → All IsDigest xs
    → IsDigest buf
    → length (concat xs) < fuel
    → recipe_pieces fuel buf (concat xs) ≡ xs
unfolding recipe_pieces
recipe_pieces-concat zero buf xs each b h = absurd (omega arith)
recipe_pieces-concat (suc fuel) buf [] each b h = refl
recipe_pieces-concat (suc fuel) buf (x ∷ xs) each b h =
    let piece : write_at 0 (take 20 (x ++ concat xs)) buf ≡ x =
      ap (λ p. write_at 0 p buf) (take-append 20 x (concat xs) (sym each.0))
      ∙ piece_whole x buf each.0 b in
    let rest : drop 20 (x ++ concat xs) ≡ concat xs = drop-append 20 x (concat xs) (sym each.0) in
    let size = length-append x (concat xs) in
    rw (piece, rest, pos→ne_zero (length (x ++ concat xs)) (omega (arith, each.0)))
      (ap (◌∷◌ x) (recipe_pieces-concat fuel x xs each.1 each.0 (omega (arith, each.0))))

-- The digests written to a recipe are read back, if the version fits into the 8 bits it is passed in.
pub get_file_recipe-concat :
    (version : ℕ) (xs : List Bytes) (s : Store)
    → version < 2 ^ 8
    → All IsDigest xs
    → find version s.recipes ≡ some (concat xs)
    → get_file_recipe version s ≡ some xs
unfolding get_file_recipe
get_file_recipe-concat version xs s small each e =
    let same : version % 2 ^ 8 ≡ version = omega arith in
    rw (same, e)
      (ap some (
        recipe_pieces-concat (length (concat xs) + 1) (replicate 20 0) xs each
          (length-replicate {A = ℕ} 20 0) (omega arith)))
