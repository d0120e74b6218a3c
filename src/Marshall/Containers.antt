-- ===== src/Marshall/Containers.antt =====
-- The `<<` and `>>` of vectors and maps of lab/rpc/marshall.h, over those of their elements.
pub mod RoundTrip
pub mod Maps
use ds14_project.Base.{
  ℕ, zero, suc, ◌%◌, ◌^◌, Bool, true, false, List, [], ◌∷◌, ◌++◌, length, if◌then◌else◌,
}
use ds14_project.Marshall.{Marshall, Unmarshall, put_uint, get_uint}

-- The `<<` of a type, and its `>>` into a new variable.
pub record Codec {ℓ} (A : Type ℓ) : Type ℓ where
  pub put : A → Marshall → Marshall
  pub get : Unmarshall → A × Unmarshall

module _ {ℓ} {A : Type ℓ} (c : Codec A) where
  unfoldable pub put_each : List A → Marshall → Marshall
  put_each [] m = m
  put_each (x ∷ xs) m = put_each xs (c.put x m)

  -- Of less than 2 ^ 32 elements, which the counter of the loop can reach.
  unfoldable pub put_vector : List A → Marshall → Marshall
  put_vector v m = put_each v (put_uint (length v % 2 ^ 32) m)

  unfoldable pub get_each : ℕ → (v : List A) → Unmarshall → List A × Unmarshall
  get_each zero v u = (v, u)
  get_each (suc n) v u = let (z, u') = c.get u in get_each n (v ++ z ∷ []) u'

  -- The elements go behind those of the vector before; the reader's state is not asked.
  unfoldable pub get_vector : (v : List A) → Unmarshall → List A × Unmarshall
  get_vector v u = let (n, u') = get_uint u in get_each n v u'

-- `d[a] = b` of a `std::map` with the order `lt`.
unfoldable pub assign {ℓ κ} :
    {A : Type ℓ} {B : Type κ} → (lt : A → A → Bool) → A → B → List (A × B) → List (A × B)
assign lt a b [] = (a, b) ∷ []
assign lt a b ((k, v) ∷ d) =
    let rest = assign lt a b d in
    if lt a k then (a, b) ∷ (k, v) ∷ d else if lt k a then (k, v) ∷ rest else (k, b) ∷ d

module _ {ℓ} {A B : Type ℓ} (lt : A → A → Bool) (ca : Codec A) (cb : Codec B) where
  unfoldable pub put_entries : List (A × B) → Marshall → Marshall
  put_entries [] m = m
  put_entries ((a, b) ∷ d) m = put_entries d (cb.put b (ca.put a m))

  unfoldable pub put_map : List (A × B) → Marshall → Marshall
  put_map d m = put_entries d (put_uint (length d % 2 ^ 32) m)

  unfoldable pub get_entries : ℕ → (d : List (A × B)) → Unmarshall → List (A × B) × Unmarshall
  get_entries zero d u = (d, u)
  get_entries (suc n) d u =
      let (a, u1) = ca.get u in let (b, u2) = cb.get u1 in get_entries n (assign lt a b d) u2

  -- `d.clear()` drops what the map held.
  unfoldable pub get_map : (d : List (A × B)) → Unmarshall → List (A × B) × Unmarshall
  get_map d u = let (n, u') = get_uint u in get_entries n [] u'
