-- ===== src/Yfs/Directory.antt =====
-- `lookup` and `readdir` on an extent that holds a directory.
use ds14_project.Base.{
  ℕ, ◌+◌, ◌^◌, ◌<◌, ◌≡◌, ◌↔◌, refl, true, false, arith, List, [], ◌∷◌, ◌++◌, length, All, In, some,
  none, inl, inr, Bool-cases,
}
use ds14_project.Marshall.Reads.{Holds, Holds-split, write_at-Holds}
use ds14_project.Extent
use ds14_project.Extent.{FileList, serialize, deserialize, ExtentServer}
use ds14_project.Extent.Layout.{IsEntry}
use ds14_project.Extent.RoundTrip.{EndsNamed, deserialize-serialize}
use ds14_project.Extent.Server.{contents, get-some, get-none}
use ds14_project.Yfs.{ok, noent, ioerr, direct, c_str, same_name, find_name, lookup, readdir}

pub same_name_iff : (xs ys : List ℕ) → (same_name xs ys ≡ true) ↔ (xs ≡ ys)
unfolding same_name
same_name_iff [] [] = (λ h. refl, λ h. refl)
same_name_iff [] (y ∷ ys) = (λ h. cc, λ h. cc)
same_name_iff (x ∷ xs) [] = (λ h. cc, λ h. cc)
same_name_iff (x ∷ xs) (y ∷ ys) =
    (λ h. ground (arith, (same_name_iff xs ys).0), λ h. ground (arith, (same_name_iff xs ys).1))

-- The number that the search of a directory gives belongs to an entry of that name.
pub find_name-some :
    (name : List ℕ) (fl : FileList) (id : ℕ) → find_name name fl ≡ some id → In (id, name) fl
unfolding find_name
find_name-some name [] id h = cc
find_name-some name ((i, other) ∷ fl) id h = elim (Bool-cases (same_name other name)) [
  | inl e ↦ inl (ground (arith, (same_name_iff other name).0 e))
  | inr e ↦ inr (find_name-some name fl id (ground (arith, e)))
]

-- Where the search of a directory fails, no entry has that name.
pub find_name-none :
    (name : List ℕ) (fl : FileList) (id : ℕ) → find_name name fl ≡ none → ¬ In (id, name) fl
unfolding find_name
find_name-none name [] id h m = m
find_name-none name ((i, other) ∷ fl) id h (inl e) = ground (arith, (same_name_iff other name).1)
find_name-none name ((i, other) ∷ fl) id h (inr m) = find_name-none name fl id (ground arith) m

pub c_str-Holds : (mem : ℕ → ℕ) (buf : List ℕ) → Holds (c_str mem buf) 0 buf
c_str-Holds mem buf =
    (Holds-split (c_str mem buf) 0 buf (0 ∷ []) (write_at-Holds (buf ++ 0 ∷ []) mem 0)).0

-- The extent holds this directory, which can be read back.
pub record IsDirectory (s : ExtentServer) (p : ℕ) (fl : FileList) : Type 0 where
  pub stored : contents s p ≡ some (serialize fl)
  pub small : length (serialize fl) + 1 < 2 ^ 32
  pub entries : All IsEntry fl
  pub named : EndsNamed fl

module _ (mem : ℕ → ℕ) (s : ExtentServer) (p : ℕ) (fl : FileList) (d : IsDirectory s p fl) where
  got : (buf : List ℕ) → Extent.get p buf s ≡ (Extent.ok, serialize fl)
  got buf = get-some p buf s (serialize fl) d.stored

  read_back :
      (old : FileList)
      → deserialize (c_str mem (serialize fl)) (length (serialize fl)) old ≡ (true, old ++ fl)
  read_back old =
      deserialize-serialize (c_str mem (serialize fl)) old fl (c_str-Holds mem (serialize fl))
        d.small d.entries d.named

  -- `lookup` in an extent that holds a directory gives the number that the search of its entries
  -- finds, or NOENT without a write to the caller's number; the server stays as it was.
  pub lookup_dir :
      (name : List ℕ) (id : ℕ)
      → lookup direct mem p name id s
        ≡ elim (find_name name fl) [ some found ↦ (ok, found, s) | none ↦ (noent, id, s) ]
  unfolding lookup
  lookup_dir name id = rw (got [], read_back [])

  -- The entries are appended to the caller's list.
  pub readdir_dir : (old : FileList) → readdir direct mem p old s ≡ (ok, old ++ fl, s)
  unfolding readdir
  readdir_dir old = rw (got [], read_back old)

-- An extent whose bytes are no directory makes `lookup` and `readdir` fail.
pub lookup_unreadable :
    (mem : ℕ → ℕ) (s : ExtentServer) (p id : ℕ) (name buf : List ℕ)
    → contents s p ≡ some buf
    → (deserialize (c_str mem buf) (length buf) []).0 ≡ false
    → lookup direct mem p name id s ≡ (ioerr, id, s)
unfolding lookup
lookup_unreadable mem s p id name buf e bad = rw (get-some p [] s buf e, bad)

pub lookup_missing :
    (mem : ℕ → ℕ) (s : ExtentServer) (p id : ℕ) (name : List ℕ)
    → contents s p ≡ none
    → lookup direct mem p name id s ≡ (ioerr, id, s)
unfolding lookup
lookup_missing mem s p id name e = rw (get-none p [] s e)
