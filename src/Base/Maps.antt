-- ===== src/Base/Maps.antt =====
-- `std::map` with number keys, as an association list; an assignment to a present key replaces.
use Prim.Native.Nat.{ℕ}
use mathlib.Core.Path.{◌≡◌, refl}
use mathlib.Core.Bool.{Bool, true, false}
use mathlib.Core.Option.{Option, none, some}
use mathlib.Core.List.{List, [], ◌∷◌}
use native.Mathlib.Omega.{arith}
use mathlib.Core.Logic.{◌⊎◌, inl, inr}
use ds14_project.Base.Tests.{Bool-cases, ◌==◌, if◌then◌else◌}

module _ {ℓ} {V : Type ℓ} where
  unfoldable pub lookup : ℕ → List (ℕ × V) → Option V
  lookup k [] = none
  lookup k ((key, value) ∷ rest) = if key == k then some value else lookup k rest

  unfoldable pub insert : ℕ → V → List (ℕ × V) → List (ℕ × V)
  insert k v [] = (k, v) ∷ []
  insert k v ((key, old) ∷ rest) = if key == k then (k, v) ∷ rest else (key, old) ∷ insert k v rest

  unfoldable pub erase : ℕ → List (ℕ × V) → List (ℕ × V)
  erase k [] = []
  erase k ((j, w) ∷ m) = let rest = erase k m in if j == k then rest else (j, w) ∷ rest

  pub lookup-insert :
      (k j : ℕ) (v : V) (table : List (ℕ × V))
      → lookup j (insert k v table) ≡ (if k == j then some v else lookup j table)
  unfolding lookup insert
  lookup-insert k j v [] = refl
  lookup-insert k j v (entry ∷ rest) = ground (arith, lookup-insert k j v rest)

  pub lookup-insert_cases :
      (k j : ℕ) (v w : V) (table : List (ℕ × V))
      → lookup j (insert k v table) ≡ some w
      → (w ≡ v) ⊎ (lookup j table ≡ some w)
  lookup-insert_cases k j v w table e = elim (Bool-cases (k == j)) [
    | inl same ↦ inl (ground (arith, lookup-insert k j v table, e, same))
    | inr other ↦ inr (ground (arith, lookup-insert k j v table, e, other))
  ]

  pub lookup-erase :
      (k j : ℕ) (m : List (ℕ × V)) → lookup j (erase k m) ≡ (if k == j then none else lookup j m)
  unfolding lookup erase
  lookup-erase k j [] = ground arith
  lookup-erase k j ((i, w) ∷ m) = ground (arith, lookup-erase k j m)

-- `m.count(k)`
abbrev pub has_key {ℓ} : {V : Type ℓ} → ℕ → List (ℕ × V) → Bool
has_key k m = elim (lookup k m) [ none ↦ false | some v ↦ true ]
