-- ===== src/Marshall/Containers/Maps.antt =====
-- Maps of lab/rpc/marshall.h, written and then read.
use ds14_project.Base.{ℕ, ◌%◌, ◌^◌, ◌≡◌, Bool, true, false, List, [], ◌∷◌, ◌++◌, length, All}
use ds14_project.Marshall.{Marshall}
use ds14_project.Marshall.Writes.{be32}
use ds14_project.Marshall.Containers.{Codec}
use ds14_project.Marshall.Containers.RoundTrip.{IsCodec}

-- The keys of a map stand in the order of its comparison.
module _ {ℓ} {A B : Type ℓ} (lt : A → A → Bool) where
  abbrev pub Before : List (A × B) → A → Type 0
  Before d k = All (λ e. lt e.0 k ≡ true) d

  abbrev pub IsAscending : List (A × B) → Type 0
  IsAscending [] = Unit {0}
  IsAscending ((a, b) ∷ d) = All (λ e. lt a e.0 ≡ true) d × IsAscending d

module _ {ℓ} {A B : Type ℓ} {ca : Codec A} {cb : Codec B} {IsKey : A → Type 0}
    {IsValue : B → Type 0} (lt : A → A → Bool) (asym : (a b : A) → lt a b ≡ true → lt b a ≡ false)
    (la : IsCodec ca IsKey) (lb : IsCodec cb IsValue) where
  encode_entries : List (A × B) → List ℕ
  encode_entries [] = []
  encode_entries ((a, b) ∷ d) = (la.encode a ++ lb.encode b) ++ encode_entries d

  encode_map : List (A × B) → List ℕ
  encode_map d = be32 (length d % 2 ^ 32) ++ encode_entries d
