-- ===== src/Connection/Writing.antt =====
-- The write callbacks of lab/rpc/connection.cc under partial writes.
use ds14_project.Base.{
  zero, suc, ◌==◌, Bool-cases, inl, inr, ℕ, ◌+◌, ◌-◌, ◌≤◌, ◌^◌, ◌<◌, ◌≡◌, refl, List, [], ◌∷◌, ◌++◌,
  Bool, true, false, take, drop, take-add, some, arith, append_assoc, append-nil, eq→==,
}
use ds14_project.RpcConst.{is_negative}
use ds14_project.Connection.{
  Connection, Wrote, CharBuf, htonl, write_cb, write_cbs, writepdu, write_some,
}

-- The pdu on the wire: its size in front.
abbrev pub frame : ℕ → List ℕ → List ℕ
frame sz b = htonl sz ++ drop 4 b

-- What `write` answers when so many bytes are left of the pdu; it takes no more than it is given.
abbrev pub Fits : ℕ → List Wrote → Type 0
Fits left [] = Unit {0}
Fits left (Wrote.wrote n ∷ rs) = (n ≤ left) × Fits (left - n) rs
Fits left (r ∷ rs) = Fits left rs

-- How many of the bytes that are left the kernel takes, and whether a write failed before all are.
abbrev pub accepted : ℕ → List Wrote → ℕ × Bool
accepted left [] = (0, false)
accepted zero (r ∷ rs) = (0, false)
accepted (suc left) (Wrote.wrote n ∷ rs) = let (k, bad) = accepted (suc left - n) rs in (n + k, bad)
accepted (suc left) (Wrote.again ∷ rs) = accepted (suc left) rs
accepted (suc left) (Wrote.failed ∷ rs) = (0, true)

pub accepted_le : (rs : List Wrote) (left : ℕ) → Fits left rs → (accepted left rs).0 ≤ left
accepted_le [] left f = omega arith
accepted_le (r ∷ rs) zero f = omega arith
accepted_le (Wrote.wrote n ∷ rs) (suc left) f =
    omega (arith, f.0, accepted_le rs (suc left - n) f.1)
accepted_le (Wrote.again ∷ rs) (suc left) f = accepted_le rs (suc left) f
accepted_le (Wrote.failed ∷ rs) (suc left) f = omega arith

pub accepted-wrote :
    (left n : ℕ) (rs : List Wrote)
    → 0 < left
    → accepted left (Wrote.wrote n ∷ rs)
      ≡ (n + (accepted (left - n) rs).0, (accepted (left - n) rs).1)
accepted-wrote zero n rs h = absurd (omega (arith, h))
accepted-wrote (suc left) n rs h = refl

pub accepted-again :
    (left : ℕ) (rs : List Wrote) → accepted left (Wrote.again ∷ rs) ≡ accepted left rs
accepted-again zero [] = refl
accepted-again zero (r ∷ rs) = refl
accepted-again (suc left) rs = refl

pub accepted-failed :
    (left : ℕ) (rs : List Wrote) → 0 < left → accepted left (Wrote.failed ∷ rs) ≡ (0, true)
accepted-failed zero rs h = absurd (omega (arith, h))
accepted-failed (suc left) rs h = refl

pub accepted-zero : (rs : List Wrote) → accepted 0 rs ≡ (0, false)
accepted-zero [] = refl
accepted-zero (r ∷ rs) = refl

-- In the middle of the pdu.
abbrev pub sending : Connection → (sz : ℕ) → List ℕ → ℕ → Bool → Connection
sending c sz b k wr = record c {
  dead = false;
  wpdu = record { buf = some (frame sz b); sz = sz; solong = k };
  wr = wr;
  out = c.out ++ take k (frame sz b);
}

abbrev pub broken : Connection → (sz : ℕ) → List ℕ → ℕ → Connection
broken c sz b k = record c {
  dead = true;
  wpdu = record { buf = some (frame sz b); sz = 0; solong = 2 ^ 32 - 1 };
  rd = false;
  wr = false;
  out = c.out ++ take k (frame sz b);
}

abbrev part_of : (sz : ℕ) → List ℕ → ℕ → CharBuf
part_of sz b k = record { buf = some (frame sz b); sz = sz; solong = k }

-- A write in the middle: at the start it stores the size again, which changes nothing.
writepdu-part :
    (sz : ℕ) (b : List ℕ) (r : Wrote) (k : ℕ)
    → k < sz
    → sz < 2 ^ 31
    → writepdu r (part_of sz b k) ≡ some (write_some r (frame sz b) (part_of sz b k))
unfolding writepdu drop
writepdu-part sz b r k h small =
    let small_k : is_negative k ≡ false = ground (arith, h, small) in
    let part : (k == sz) ≡ false = ground (arith, h) in
    elim (Bool-cases (k == 0)) [
      | inl start ↦ rw (small_k, part, start)
      | inr later ↦ rw (small_k, part, later)
    ]

module _ (c : Connection) (sz : ℕ) (b : List ℕ) (pos : 0 < sz) (small : sz < 2 ^ 31) where
  some_left : (sz == 0) ≡ false
  some_left = ground (arith, pos)

  write_cb-full : (r : Wrote) → write_cb r (sending c sz b sz true) ≡ some (sending c sz b sz true)
  unfolding write_cb writepdu
  write_cb-full r =
      let small_k : is_negative sz ≡ false = ground (arith, small) in
      rw (some_left, small_k, eq→== sz sz refl, append-nil)

  write_cbs-full :
      (rs : List Wrote) → write_cbs rs (sending c sz b sz true) ≡ some (sending c sz b sz true)
  unfolding write_cbs
  write_cbs-full [] = refl
  write_cbs-full (r ∷ rs) = rw (write_cb-full r, write_cbs-full rs)

  pub write_cbs-done :
      (rs : List Wrote) (wr : Bool)
      → write_cbs rs (sending c sz b sz wr) ≡ some (sending c sz b sz wr)
  unfolding write_cbs
  write_cbs-done rs true = write_cbs-full rs
  write_cbs-done [] false = refl
  write_cbs-done (r ∷ rs) false = refl

  write_cb-part :
      (r : Wrote) (k : ℕ)
      → k < sz
      → write_cb r (sending c sz b k true)
        ≡ some (elim r [
          | Wrote.wrote n ↦ sending c sz b (k + n) true
          | Wrote.again ↦ sending c sz b k true
          | Wrote.failed ↦ broken c sz b k
        ])
  unfolding write_cb write_some
  write_cb-part (Wrote.wrote n) k h = rw (
    some_left,
    writepdu-part sz b (Wrote.wrote n) k h small,
    append_assoc,
    take-add k n (frame sz b),
  )
  write_cb-part Wrote.again k h =
      rw (some_left, writepdu-part sz b Wrote.again k h small, append-nil)
  write_cb-part Wrote.failed k h =
      rw (some_left, writepdu-part sz b Wrote.failed k h small, append-nil)

  -- Behind a number of answers: the kernel has what it took, and the connection is dead where a write
  -- failed.
  abbrev pub behind : ℕ → ℕ × Bool → Connection
  behind k (n, true) = broken c sz b (k + n)
  behind k (n, false) = sending c sz b (k + n) true

  pub write_cbs-broken :
      (rs : List Wrote) (k : ℕ) → write_cbs rs (broken c sz b k) ≡ some (broken c sz b k)
  unfolding write_cbs
  write_cbs-broken [] k = refl
  write_cbs-broken (r ∷ rs) k = refl

  behind_add : (k n : ℕ) (p : ℕ × Bool) → behind (k + n) p ≡ behind k (n + p.0, p.1)
  behind_add k n (m, true) = let e : k + (n + m) ≡ k + n + m = omega arith in rw e
  behind_add k n (m, false) = let e : k + (n + m) ≡ k + n + m = omega arith in rw e

  pub write_cbs-sending :
      (rs : List Wrote) (k left : ℕ)
      → k + left ≡ sz
      → Fits left rs
      → write_cbs rs (sending c sz b k true) ≡ some (behind k (accepted left rs))
  unfolding write_cbs
  write_cbs-sending [] k left h f = let e : k + 0 ≡ k = omega arith in rw e
  write_cbs-sending (r ∷ rs) k zero h f =
      let all : k ≡ sz = omega (arith, h) in
      let e : sz + 0 ≡ sz = omega arith in rw (all, write_cb-full r, write_cbs-full rs, e)
  write_cbs-sending (Wrote.wrote n ∷ rs) k (suc left) h f = rw (
    write_cb-part (Wrote.wrote n) k (omega (arith, h)),
    write_cbs-sending rs (k + n) (suc left - n) (omega (arith, h, f.0)) f.1,
    behind_add k n (accepted (suc left - n) rs),
  )
  write_cbs-sending (Wrote.again ∷ rs) k (suc left) h f =
      rw (write_cb-part Wrote.again k (omega (arith, h)), write_cbs-sending rs k (suc left) h f)
  write_cbs-sending (Wrote.failed ∷ rs) k (suc left) h f =
      let e : k + 0 ≡ k = omega arith in
      rw (write_cb-part Wrote.failed k (omega (arith, h)), write_cbs-broken rs k, e)
