-- ===== src/Tests/Toy.antt =====
-- Small data: a function with digests of 20 bytes in place of SHA-1, a file and repositories.
use c_dedup.Base.{
  ℕ, zero, suc, ◌<◌, ◌≡◌, ◌≢◌, refl, ap, ◌∙◌, sym, Bool, true, false, none, some, [], ◌∷◌, ◌==◌,
  if◌then◌else◌, replicate, Bytes, AreBytes, Bool-cases, inl, inr, arith, find, of_le,
}
use c_dedup.Store.{Store, recipes_num}
use c_dedup.Chunking.{Globals}
use c_dedup.Metadata.{EntryValue, fp_of_bytes}
use c_dedup.Metadata.Index.{entry}
use c_dedup.Backup.{open_index}
use c_dedup.Backup.Append.{IsSha1, fp_of}
use c_dedup.Backup.Repository.{IsRepository}

unfoldable pub same : Bytes → Bytes → Bool
same [] [] = true
same [] (b ∷ ys) = false
same (a ∷ xs) [] = false
same (a ∷ xs) (b ∷ ys) = let rest = same xs ys in if a == b then rest else false

same_sound : (xs ys : Bytes) → same xs ys ≡ true → xs ≡ ys
unfolding same
same_sound [] [] h = refl
same_sound [] (b ∷ ys) h = cc
same_sound (a ∷ xs) [] h = cc
same_sound (a ∷ xs) (b ∷ ys) h = elim (Bool-cases (a == b)) [
  | inl e ↦
      let key : a ≡ b = ground arith in
      let rest : same xs ys ≡ true = ground arith in λ i. key i ∷ same_sound xs ys rest i
  | inr e ↦ absurd (ground arith)
]

abbrev pub first_chunk : Bytes
first_chunk = 1 ∷ 2 ∷ []

abbrev pub last_chunk : Bytes
last_chunk = 3 ∷ []

abbrev pub input : Bytes
input = 1 ∷ 2 ∷ 1 ∷ 2 ∷ 3 ∷ []

unfoldable pub toy_sha1 : Bytes → Bytes
unfolding same
toy_sha1 ys =
    if same ys first_chunk
    then replicate 20 1
    else (if same ys last_chunk then replicate 20 2 else replicate 20 0)

replicate_bytes : (n b : ℕ) → b < 256 → AreBytes (replicate n b)
replicate_bytes zero b h = tt
replicate_bytes (suc n) b h = (h, replicate_bytes n b h)

pub toy_sha1-IsSha1 : IsSha1 toy_sha1
unfolding toy_sha1
toy_sha1-IsSha1 = record {
  digest_length = λ ys. elim (Bool-cases (same ys first_chunk)) [
    | inl e ↦ rw e refl
    | inr e ↦ elim (Bool-cases (same ys last_chunk)) [
      | inl f ↦ rw (e, f) refl
      | inr f ↦ rw (e, f) refl
    ]
  ];
  digest_bytes = λ ys. elim (Bool-cases (same ys first_chunk)) [
    | inl e ↦ rw e (replicate_bytes 20 1 (omega arith))
    | inr e ↦ elim (Bool-cases (same ys last_chunk)) [
      | inl f ↦ rw (e, f) (replicate_bytes 20 2 (omega arith))
      | inr f ↦ rw (e, f) (replicate_bytes 20 0 (omega arith))
    ]
  ];
}

words : (a b : ℕ) → a ≡ b → a ≢ b → ⊥
words a b e h = h e

other_digest : fp_of_bytes (replicate 20 2) ≢ fp_of_bytes (replicate 20 1)
unfolding fp_of_bytes of_le
other_digest e = words 33686018 16843009 (ap (λ fp. fp.fp4) e) (omega arith)

no_digest : fp_of_bytes (replicate 20 0) ≢ fp_of_bytes (replicate 20 1)
unfolding fp_of_bytes of_le
no_digest e = words 0 16843009 (ap (λ fp. fp.fp4) e) (omega arith)

first_is_not_last : fp_of_bytes (replicate 20 1) ≢ fp_of_bytes (replicate 20 2)
unfolding fp_of_bytes of_le
first_is_not_last e = words 16843009 33686018 (ap (λ fp. fp.fp4) e) (omega arith)

none_is_not_last : fp_of_bytes (replicate 20 0) ≢ fp_of_bytes (replicate 20 2)
unfolding fp_of_bytes of_le
none_is_not_last e = words 0 33686018 (ap (λ fp. fp.fp4) e) (omega arith)

pub toy_sha1-first :
    (ys : Bytes) → fp_of toy_sha1 ys ≡ fp_of toy_sha1 first_chunk → ys ≡ first_chunk
unfolding toy_sha1
toy_sha1-first ys h = elim (Bool-cases (same ys first_chunk)) [
  | inl e ↦ same_sound ys first_chunk e
  | inr e ↦ elim (Bool-cases (same ys last_chunk)) [
    | inl f ↦ absurd (other_digest (sym (ap fp_of_bytes (rw (e, f) refl)) ∙ h))
    | inr f ↦ absurd (no_digest (sym (ap fp_of_bytes (rw (e, f) refl)) ∙ h))
  ]
]

pub toy_sha1-last : (ys : Bytes) → fp_of toy_sha1 ys ≡ fp_of toy_sha1 last_chunk → ys ≡ last_chunk
unfolding toy_sha1
toy_sha1-last ys h = elim (Bool-cases (same ys first_chunk)) [
  | inl e ↦ absurd (first_is_not_last (sym (ap fp_of_bytes (rw e refl)) ∙ h))
  | inr e ↦ elim (Bool-cases (same ys last_chunk)) [
    | inl f ↦ same_sound ys last_chunk f
    | inr f ↦ absurd (none_is_not_last (sym (ap fp_of_bytes (rw (e, f) refl)) ∙ h))
  ]
]

nothing_there : (v : EntryValue) → none ≡ some v → ⊥
nothing_there v h = cc

abbrev pub empty_store : Store
empty_store = record { containers = []; reverse = []; recipes = []; fingerprints = none }

abbrev pub toy_globals : Globals
toy_globals = record {
  g_global_matrix = [];
  g_global_matrix_left = [];
  learv2 = [];
  mask_front = 1;
  mask_back = 1;
  min_size = 1;
  max_size = 4;
  fastcdc_avg_size = 2;
  min_size_divide_by_2 = 0;
}

pub empty_store-IsRepository : IsRepository toy_sha1 empty_store
unfolding entry find open_index recipes_num
empty_store-IsRepository = record {
  containers_free = λ k h. refl;
  recipes_free = λ k h. refl;
  index = record { origin = tt; added = tt; apart = λ fp h. refl };
  all_loaded = refl;
  in_range = tt;
  sound = λ fp v e. absurd (nothing_there v e);
}
