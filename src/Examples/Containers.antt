-- ===== src/Examples/Containers.antt =====
-- A vector of strings and a map from numbers to strings.
use ds14_project.Base.{ℕ, List, [], ◌∷◌}

abbrev names : List (List ℕ)
names = (97 ∷ 98 ∷ []) ∷ [] ∷ []

abbrev numbered : List (ℕ × List ℕ)
numbered = (3, 97 ∷ []) ∷ (5, []) ∷ []
