-- ===== src/Restore/Rounds.antt =====
-- The rounds of a restore with a forward assembly area come to an end: main.cpp, `FAA_FIXED`.
use c_dedup.Base.{
  ℕ, zero, suc, ◌≤◌, ◌<◌, ◌≡◌, inl, inr, refl, true, some, List, [], ◌∷◌, arith, ◌==◌,
  if◌then◌else◌, length, Bytes, Bool-cases, Option-cases,
}
use c_dedup.Store.{Files}
use c_dedup.Restore.Faa.{
  RecipeBufferEntry, next_container, copy_from_container, load_container_faa, fill_area,
}

-- The entries that are still to be copied.
unfoldable pub unused : List RecipeBufferEntry → ℕ
unused [] = 0
unused (x ∷ buffer) = let rest = unused buffer in if x.used then rest else suc rest

unused-le : (buffer : List RecipeBufferEntry) → unused buffer ≤ length buffer
unfolding unused
unused-le [] = omega arith
unused-le (x ∷ buffer) = ground (arith, unused-le buffer)

pass-le :
    (cid : ℕ) (container : Bytes) (buffer : List RecipeBufferEntry) (area : Bytes)
    → unused (copy_from_container cid container buffer area).0 ≤ unused buffer
unfolding unused copy_from_container
pass-le cid container [] area = omega arith
pass-le cid container (x ∷ buffer) area = elim (Bool-cases x.used) [
  | inl done ↦ rw done (pass-le cid container buffer area)
  | inr left ↦ elim (Bool-cases (x.cid == cid)) [
    | inl hit ↦ rw (left, hit) (omega (arith, pass-le cid container buffer _))
    | inr other ↦ rw (left, other) (omega (arith, pass-le cid container buffer area))
  ]
]

pass-lt :
    (cid : ℕ) (container : Bytes) (buffer : List RecipeBufferEntry) (area : Bytes)
    → next_container buffer ≡ some cid
    → unused (copy_from_container cid container buffer area).0 < unused buffer
unfolding unused copy_from_container next_container
pass-lt cid container [] area e = absurd (cc e)
pass-lt cid container (x ∷ buffer) area e = elim (Bool-cases x.used) [
  | inl done ↦ rw done (pass-lt cid container buffer area (ground arith))
  | inr left ↦
      let hit : (x.cid == cid) ≡ true = ground arith in
      rw (left, hit) (omega (arith, pass-le cid container buffer _))
]

ends :
    (fuel : ℕ) (containers : Files) (buffer : List RecipeBufferEntry) (area : Bytes)
    → unused buffer < fuel
    → (area' : Bytes) × (fill_area fuel containers buffer area ≡ some area')
unfolding fill_area
ends zero containers buffer area h = absurd (omega arith)
ends (suc fuel) containers buffer area h = elim (Option-cases (next_container buffer)) [
  | inl done ↦ (area, rw (fill_area, done) refl)
  | inr (cid, e) ↦
      let container = load_container_faa containers cid in
      let pass = copy_from_container cid container buffer area in
      let (area', run) =
        ends fuel containers pass.0 pass.1 (omega (arith, pass-lt cid container buffer area e)) in
      (area', rw (fill_area, e) run)
]

-- The second step of a round ends, with more fuel than entries of the recipe buffer: every pass uses
-- up one entry at least.
pub fill_area-total :
    (fuel : ℕ) (containers : Files) (buffer : List RecipeBufferEntry) (area : Bytes)
    → length buffer < fuel
    → (area' : Bytes) × (fill_area fuel containers buffer area ≡ some area')
fill_area-total fuel containers buffer area h =
    ends fuel containers buffer area (omega (arith, unused-le buffer))
