-- ===== src/Extent/Layout.antt =====
-- Where the bytes of a serialized directory stand, and what the loads read there.
use ds14_project.Base.{
  ℕ, suc, ◌+◌, ◌-◌, ◌/◌, ◌%◌, ◌^◌, ◌≤◌, ◌<◌, ◌≡◌, refl, ap, ◌∙◌, false, List, [], ◌∷◌, ◌++◌, length,
  leb, ◌==◌, if◌then◌else◌, arith, lt→leb,
}
use ds14_project.Marshall.{read_at}
use ds14_project.Marshall.Reads.{Holds, Holds-split, read_at-Holds}
use ds14_project.Extent.{le32, le64, load32, load64, entry_bytes, FileList, deserialize_loop}

pub load32_lem : (c : ℕ → ℕ) (p x : ℕ) → Holds c p (le32 x) → x < 2 ^ 32 → load32 c p ≡ x
load32_lem c p x h small =
    omega (arith, h.0, ap c at1 ∙ h.1.0, ap c at2 ∙ h.1.1.0, ap c at3 ∙ h.1.1.1.0)
  where
    at1 : p + 1 ≡ p + 1
    at1 = refl

    at2 : p + 2 ≡ p + 1 + 1
    at2 = omega arith

    at3 : p + 3 ≡ p + 1 + 1 + 1
    at3 = omega arith

pub load64_lem : (c : ℕ → ℕ) (p x : ℕ) → Holds c p (le64 x) → x < 2 ^ 64 → load64 c p ≡ x
load64_lem c p x h small =
    let (l, r) = Holds-split c p (le32 (x % 2 ^ 32)) (le32 (x / 2 ^ 32)) h in
    omega (
      arith,
      load32_lem c p (x % 2 ^ 32) l (omega arith),
      load32_lem c (p + 4) (x / 2 ^ 32) r (omega arith),
    )

pub record IsEntry (e : ℕ × List ℕ) : Type 0 where
  pub id : e.0 < 2 ^ 64
  pub name : length e.1 < 2 ^ 32

-- What one round of the loop does with an entry that stands at `p`, within a buffer whose size
-- leaves room for one more: the entry is appended, if the tests on the positions pass.
pub one_round :
    (c : ℕ → ℕ) (size_buf size_fl n i p : ℕ) (fl : FileList) (id : ℕ) (name : List ℕ)
    → size_buf + 1 < 2 ^ 32
    → p + 12 + length name ≤ size_buf
    → IsEntry (id, name)
    → Holds c p (entry_bytes (id, name))
    → p + 12 < size_buf
    → p + 12 + length name < size_buf + (if i == size_fl - 1 then 1 else 0)
    → deserialize_loop c size_buf size_fl (suc n) i p fl
      ≡ deserialize_loop c size_buf size_fl n (i + 1) (p + 12 + length name) (fl ++ (id, name) ∷ [])
unfolding deserialize_loop
one_round c size_buf size_fl n i p fl id name small fits v h mid end =
    let (h0, h1) = Holds-split c p (le64 id) (le32 (length name % 2 ^ 32) ++ name) h in
    let (h2, h3) = Holds-split c (p + 8) (le32 (length name % 2 ^ 32)) name h1 in
    let e1 : (p + 8) % 2 ^ 32 ≡ p + 8 = omega arith in
    let e2 : (p + 8 + 4) % 2 ^ 32 ≡ p + 12 = omega arith in
    let l : load32 c (p + 8) ≡ length name =
      load32_lem c (p + 8) (length name % 2 ^ 32) h2 (omega arith) ∙ omega (arith, v.name) in
    let e3 : (p + 12 + length name) % 2 ^ 32 ≡ p + 12 + length name = omega arith in
    let four : p + 8 + 4 ≡ p + 12 = omega arith in
    let n3 : read_at c (p + 12) (length name) ≡ name =
      read_at-Holds c (p + 12) name (rw four at h3) in
    let l64 : load64 c p ≡ id = load64_lem c p id h0 v.id in
    let t1 : leb size_buf (p + 8) ≡ false = lt→leb size_buf (p + 8) (omega arith) in
    let t2 : leb size_buf (p + 12) ≡ false = lt→leb size_buf (p + 12) mid in
    let last : ℕ = if i == size_fl - 1 then 1 else 0 in
    let t3 : leb ((size_buf + last) % 2 ^ 32) (p + 12 + length name) ≡ false = ground arith in
    rw (e1, e2, l, e3, n3, l64, t1, t2, t3)
