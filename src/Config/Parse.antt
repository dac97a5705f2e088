-- ===== src/Config/Parse.antt =====
-- `parse_argument` gives every field the last value of its name: include/config.h.
use Prim.Native.String.{String}
use text.Mathlib.Text.{◌==◌}
use text.Mathlib.TextEquality.{eq_iff}
use c_dedup.Base.{
  ◌≡◌, refl, sym, subst, Bool, true, false, Option, none, some, List, [], ◌∷◌, ◌++◌, if◌then◌else◌,
  arith, take, Bytes, All, Bool-cases, inl, inr,
}
use c_dedup.Config.{
  ℤ, Config, Param, task_type_trans, cm_type_trans, yes_no_trans, restore_method_trans, set_mtl,
  set_metadata, set_param, set_params, parse_argument,
}
use c_dedup.Config.Spec.{text_names, is_in, legal, all_legal, config_of}

-- What one parameter of the name `n` does.
abbrev At : String → Option String → ℤ → Config → Type 0
At n vs vi c = set_param (record { name = n; valuestring = vs; valueint = vi }) c ≡ (
    if legal (record { name = n; valuestring = vs; valueint = vi })
    then some (config_of (record { name = n; valuestring = vs; valueint = vi } ∷ []) c)
    else none)

unfoldable Step : String → Type 0
Step n = (vs : Option String) (vi : ℤ) (c : Config) → At n vs vi c

by_text :
    (n : String)
    → ((vi : ℤ) (c : Config) → At n none vi c)
    → ((s : String) (vi : ℤ) (c : Config) → At n (some s) vi c)
    → Step n
unfolding Step
by_text n absent given none = absent
by_text n absent given (some s) = given s

texts : All Step text_names
unfolding Step set_param set_metadata set_mtl
texts = (
  by_text "InputFile" (λ vi c. refl) (λ s vi c. refl),
  (
    by_text "RestorePath" (λ vi c. refl) (λ s vi c. refl),
    (
      by_text "fingerprintsFilePath" (λ vi c. refl) (λ s vi c. refl),
      (
        by_text "fileRecipesPath" (λ vi c. refl) (λ s vi c. refl),
        (
          by_text "containersPath" (λ vi c. refl) (λ s vi c. refl),
          (
            by_text "fullFileFingerprintsPath" (λ vi c. refl) (λ s vi c. refl),
            (
              by_text "fullFileStoragePath" (λ vi c. refl) (λ s vi c. refl),
              (
                by_text "MTL1" (λ vi c. refl) (λ s vi c. refl),
                (
                  by_text "MTL2" (λ vi c. refl) (λ s vi c. refl),
                  (
                    by_text "MTL3" (λ vi c. refl) (λ s vi c. refl),
                    (
                      by_text "MTL4" (λ vi c. refl) (λ s vi c. refl),
                      (
                        by_text "MTL5" (λ vi c. refl) (λ s vi c. refl),
                        (by_text "MTL6" (λ vi c. refl) (λ s vi c. refl), tt),
                      ),
                    ),
                  ),
                ),
              ),
            ),
          ),
        ),
      ),
    ),
  ),
)

abbrev word_names : List String
word_names = "Task" ∷ "ChunkingMethod" ∷ "MerkleTree" ∷ "RestoreMethod" ∷ []

words : All Step word_names
unfolding Step set_param set_metadata set_mtl task_type_trans cm_type_trans yes_no_trans
    restore_method_trans
words = (
  by_text "Task" (λ vi c. refl) (λ s vi c. ground arith),
  (
    by_text "ChunkingMethod" (λ vi c. refl) (λ s vi c. ground arith),
    (
      by_text "MerkleTree" (λ vi c. refl) (λ s vi c. ground arith),
      (by_text "RestoreMethod" (λ vi c. refl) (λ s vi c. ground arith), tt),
    ),
  ),
)

abbrev int_names : List String
int_names = "RestoreVersion" ∷ "RestoreId" ∷ "DeleteId" ∷ "Size" ∷ "Normal" ∷ []

ints : All Step int_names
unfolding Step set_param
ints = (
  λ vs vi c. refl,
  (λ vs vi c. refl, (λ vs vi c. refl, (λ vs vi c. refl, (λ vs vi c. refl, tt)))),
)

-- What holds of every name of a list holds of a name that is in it.
listed_name :
    (P : String → Type 0) (n : String) (names : List String)
    → All P names
    → is_in n names ≡ true
    → P n
listed_name P n [] f h = ground arith
listed_name P n (name ∷ names) f h = elim (Bool-cases (n == name)) [
  | inl same ↦ subst P (sym ((eq_iff n name).0 same)) f.0
  | inr other ↦ listed_name P n names f.1 (ground arith)
]

Differs : String → String → Type 0
Differs n name = (n == name) ≡ false

not_listed : (n : String) (names : List String) → is_in n names ≡ false → All (Differs n) names
unfolding Differs
not_listed n [] h = tt
not_listed n (name ∷ names) h = (ground arith, not_listed n names (ground arith))

others :
    (n : String)
    → All (Differs n) text_names
    → All (Differs n) word_names
    → All (Differs n) int_names
    → Step n
unfolding Step Differs set_param set_metadata set_mtl
others n (t1, (t2, (t3, (t4, (t5, (t6, (t7, (t8, (t9, (t10, (t11, (t12, (t13, u)))))))))))))
      (w1, (w2, (w3, (w4, v)))) (i1, (i2, (i3, (i4, (i5, w))))) vs vi c =
    rw (t1, t2, t3, t4, t5, t6, t7, t8, t9, t10, t11, t12, t13, w1, w2, w3, w4, i1, i2, i3, i4, i5)

step : (n : String) → Step n
step n = elim (Bool-cases (is_in n text_names)) [
  | inl text ↦ listed_name Step n text_names texts text
  | inr text ↦ elim (Bool-cases (is_in n word_names)) [
    | inl word ↦ listed_name Step n word_names words word
    | inr word ↦ elim (Bool-cases (is_in n int_names)) [
      | inl int ↦ listed_name Step n int_names ints int
      | inr int ↦
          others n (not_listed n text_names text) (not_listed n word_names word)
            (not_listed n int_names int)
    ]
  ]
]

-- The loop over the parameters either ends the process, at a value that is not legal, or gives every
-- field the value of the last parameter of its name, whatever the order of the names.
pub set_params-config_of :
    (params : List Param) (c : Config)
    → set_params params c ≡ (if all_legal params then some (config_of params c) else none)
unfolding set_params Step
set_params-config_of [] c = refl
set_params-config_of (param ∷ params) c = elim (Bool-cases (legal param)) [
  | inl fine ↦ rw (
    step param.name param.valuestring param.valueint c,
    fine,
    set_params-config_of params (config_of (param ∷ []) c),
  )
  | inr wrong ↦ rw (step param.name param.valuestring param.valueint c, wrong)
]

neither : (b c : Bool) → c ≡ false → (if b then c else false) ≡ false
neither true c h = h
neither false c h = refl

not_all_legal :
    (pre post : List Param) (param : Param)
    → legal param ≡ false
    → all_legal (pre ++ param ∷ post) ≡ false
not_all_legal [] post param h = rw h
not_all_legal (first ∷ pre) post param h =
    neither (legal first) (all_legal (pre ++ param ∷ post)) (not_all_legal pre post param h)

-- A value that is not legal, wherever it stands in the file, ends the process, whatever comes before
-- and after it.
pub parse_argument-illegal :
    (cjson_parse : Bytes → Option (List Param)) (file : Bytes) (pre post : List Param)
    → (param : Param) (c : Config)
    → cjson_parse (take 1001 file ++ (0 ∷ [])) ≡ some (pre ++ param ∷ post)
    → legal param ≡ false
    → parse_argument cjson_parse file c ≡ none
unfolding parse_argument
parse_argument-illegal cjson_parse file pre post param c e h =
    rw (e, set_params-config_of (pre ++ param ∷ post) c, not_all_legal pre post param h)
