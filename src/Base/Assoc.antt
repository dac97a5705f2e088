-- ===== src/Base/Assoc.antt =====
-- Maps as association lists: the operations of `std::unordered_map` and `std::map` that the
-- program uses, over any key type with a Boolean equality.
use Prim.Native.Nat.{ℕ, ◌+◌, ◌≤◌}
use mathlib.Core.Path.{◌≡◌, refl, sym, subst}
use mathlib.Core.Logic.{◌↔◌, inl, inr}
use mathlib.Core.Bool.{Bool, true, false}
use mathlib.Core.List.{List, [], ◌∷◌, ◌++◌}
use mathlib.Core.Option.{Option, none, some}
use native.Mathlib.Omega.{arith}
use c_dedup.Base.Tests.{if◌then◌else◌, ◌==◌, ==_iff, Bool-cases}
use c_dedup.Base.Lists.{length, All}

pub record Eq {ℓ} (A : Type ℓ) : Type ℓ where
  pub beq : A → A → Bool
  pub beq_iff : (this that : A) → (beq this that ≡ true) ↔ (this ≡ that)

instance abbrev pub nat_eq : Eq ℕ
nat_eq = record { beq = ◌==◌; beq_iff = ==_iff }

-- The first of two optional values.
abbrev pub or_else {ℓ} : {A : Type ℓ} → Option A → Option A → Option A
or_else none y = y
or_else (some x) y = some x

-- A value, or a default.
abbrev pub value_or {ℓ} : {A : Type ℓ} → Option A → A → A
value_or none d = d
value_or (some x) d = x

abbrev pub is_some {ℓ} : {A : Type ℓ} → Option A → Bool
is_some none = false
is_some (some x) = true

module _ {ℓ κ} {K : Type ℓ} {V : Type κ} ⦃e : Eq K⦄ where
  -- `m.find(k)`; `none` stands for `m.end()`.
  unfoldable pub find : K → List (K × V) → Option V
  find k [] = none
  find k ((j, v) ∷ m) = if e.beq j k then some v else find k m

  -- `m[k] = v`, or `it->second = v` at a key that is there.
  unfoldable pub assign : K → V → List (K × V) → List (K × V)
  assign k v [] = (k, v) ∷ []
  assign k v ((j, w) ∷ m) = if e.beq j k then (j, v) ∷ m else (j, w) ∷ assign k v m

  -- `m.emplace(k, v)` changes nothing if the key is there.
  unfoldable pub emplace : K → V → List (K × V) → List (K × V)
  emplace k v [] = (k, v) ∷ []
  emplace k v ((j, w) ∷ m) = if e.beq j k then (j, w) ∷ m else (j, w) ∷ emplace k v m

  -- `m.erase(k)`.
  unfoldable pub erase : K → List (K × V) → List (K × V)
  erase k [] = []
  erase k ((j, w) ∷ m) = if e.beq j k then m else (j, w) ∷ erase k m

  -- No key stands twice.
  abbrev pub Distinct : List (K × V) → Type κ
  Distinct [] = Unit
  Distinct ((j, v) ∷ m) = (find j m ≡ none) × Distinct m

  pub find-assign :
      (k j : K) (v : V) (m : List (K × V))
      → find j (assign k v m) ≡ (if e.beq k j then some v else find j m)
  unfolding find assign
  find-assign k j v [] = refl
  find-assign k j v ((i, w) ∷ m) =
      ground (arith, e.beq_iff k j, e.beq_iff i k, e.beq_iff i j, find-assign k j v m)

  pub find-emplace :
      (k j : K) (v : V) (m : List (K × V))
      → find j (emplace k v m) ≡ (if e.beq k j then some (value_or (find k m) v) else find j m)
  unfolding find emplace
  find-emplace k j v [] = refl
  find-emplace k j v ((i, w) ∷ m) =
      ground (arith, e.beq_iff k j, e.beq_iff i k, e.beq_iff i j, find-emplace k j v m)

  pub find-append : (k : K) (m n : List (K × V)) → find k (m ++ n) ≡ or_else (find k m) (find k n)
  unfolding find
  find-append k [] n = refl
  find-append k ((j, v) ∷ m) n = ground (arith, find-append k m n)

  pub find-erase_ne :
      (k j : K) (m : List (K × V)) → e.beq k j ≡ false → find j (erase k m) ≡ find j m
  unfolding find erase
  find-erase_ne k j [] h = refl
  find-erase_ne k j ((i, w) ∷ m) h =
      ground (arith, e.beq_iff k j, e.beq_iff i k, e.beq_iff i j, find-erase_ne k j m h)

  pub find-erase_self : (k : K) (m : List (K × V)) → Distinct m → find k (erase k m) ≡ none
  unfolding find erase
  find-erase_self k [] d = refl
  find-erase_self k ((i, w) ∷ m) d = ground (arith, e.beq_iff i k, find-erase_self k m d.1)

  pub Distinct-assign : (k : K) (v : V) (m : List (K × V)) → Distinct m → Distinct (assign k v m)
  unfolding find assign
  Distinct-assign k v [] d = (refl, tt)
  Distinct-assign k v ((i, w) ∷ m) d =
      ground (arith, e.beq_iff i k, e.beq_iff k i, find-assign k i v m, Distinct-assign k v m d.1)

  pub Distinct-emplace : (k : K) (v : V) (m : List (K × V)) → Distinct m → Distinct (emplace k v m)
  unfolding find emplace
  Distinct-emplace k v [] d = (refl, tt)
  Distinct-emplace k v ((i, w) ∷ m) d =
      ground (arith, e.beq_iff i k, e.beq_iff k i, find-emplace k i v m, Distinct-emplace k v m d.1)

  pub Distinct-erase : (k : K) (m : List (K × V)) → Distinct m → Distinct (erase k m)
  unfolding find erase
  Distinct-erase k [] d = tt
  Distinct-erase k ((i, w) ∷ m) d =
      ground (arith, e.beq_iff i k, e.beq_iff k i, find-erase_ne k i m, Distinct-erase k m d.1)

  pub length-assign :
      (k : K) (v : V) (m : List (K × V))
      → length (assign k v m) ≡ (if is_some (find k m) then length m else length m + 1)
  unfolding find assign
  length-assign k v [] = omega arith
  length-assign k v ((i, w) ∷ m) = ground (arith, length-assign k v m)

  pub length-emplace-le : (k : K) (v : V) (m : List (K × V)) → length (emplace k v m) ≤ length m + 1
  unfolding emplace
  length-emplace-le k v [] = omega arith
  length-emplace-le k v ((i, w) ∷ m) = ground (arith, length-emplace-le k v m)

  -- What holds of every entry is kept by a write of an entry of which it holds.
  pub All-assign {ρ} :
      (P : K × V → Type ρ) (k : K) (v : V) (m : List (K × V))
      → P (k, v)
      → All P m
      → All P (assign k v m)
  unfolding assign
  All-assign P k v [] new old = (new, tt)
  All-assign P k v ((i, w) ∷ m) new old = elim (Bool-cases (e.beq i k)) [
    | inl same ↦ rw (same, assign) (subst P (λ d. (sym ((e.beq_iff i k).0 same) d, v)) new, old.1)
    | inr other ↦ rw (other, assign) (old.0, All-assign P k v m new old.1)
  ]

  pub All-emplace {ρ} :
      (P : K × V → Type ρ) (k : K) (v : V) (m : List (K × V))
      → P (k, v)
      → All P m
      → All P (emplace k v m)
  unfolding emplace
  All-emplace P k v [] new old = (new, tt)
  All-emplace P k v ((i, w) ∷ m) new old = elim (Bool-cases (e.beq i k)) [
    | inl same ↦ rw (same, emplace) old
    | inr other ↦ rw (other, emplace) (old.0, All-emplace P k v m new old.1)
  ]

  pub All-find {ρ} :
      (P : K × V → Type ρ) (k : K) {v : V} (m : List (K × V))
      → All P m
      → find k m ≡ some v
      → P (k, v)
  unfolding find
  All-find P k [] all h = cc
  All-find P k {v} ((i, w) ∷ m) all h = elim (Bool-cases (e.beq i k)) [
    | inl same ↦
        let key : i ≡ k = (e.beq_iff i k).0 same in
        let value : w ≡ v = ground arith in subst P (λ i. (key i, value i)) all.0
    | inr other ↦ All-find P k m all.1 (ground arith)
  ]

  pub All-erase {ρ} : (P : K × V → Type ρ) (k : K) (m : List (K × V)) → All P m → All P (erase k m)
  unfolding erase
  All-erase P k [] all = tt
  All-erase P k ((i, w) ∷ m) all = elim (Bool-cases (e.beq i k)) [
    | inl same ↦ rw (same, erase) all.1
    | inr other ↦ rw (other, erase) (all.0, All-erase P k m all.1)
  ]

  -- What holds of every entry that is found, if no key stands twice.
  pub All-of_find {ρ} :
      (P : K × V → Type ρ) (m : List (K × V))
      → Distinct m
      → ((k : K) (v : V) → find k m ≡ some v → P (k, v))
      → All P m
  unfolding find
  All-of_find P [] d f = tt
  All-of_find P ((i, w) ∷ m) d f = (
    f i w (ground (arith, e.beq_iff i i)),
    All-of_find P m d.1 (λ k v h. f k v (ground (arith, e.beq_iff i k, d.0))),
  )

  pub erase-missing : (k : K) (m : List (K × V)) → find k m ≡ none → erase k m ≡ m
  unfolding find erase
  erase-missing k [] h = refl
  erase-missing k ((i, w) ∷ m) h = ground (arith, erase-missing k m)
