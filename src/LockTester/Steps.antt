-- ===== src/LockTester/Steps.antt =====
-- One step of a thread of lab/lock_tester.cc.
use ds14_project.Base.{
  Option-cases, Bool-cases, if◌then◌else◌, eq→==, ==_iff, ℕ, zero, suc, ◌+◌, ◌-◌, ◌%◌, ◌≡◌, ◌≤◌,
  refl, ap, Bool, true, false, List, [], ◌∷◌, ◌++◌, ◌==◌, some, map, arith, All, inl, inr,
}
use ds14_project.Lock.{
  LockServer, Place, idle, a_lock_m, a_find, a_unlock_m, a_lock, a_lock_m', a_count, a_unlock_m',
  granted, r_unlock, r_lock_m, r_count, r_unlock_m, advance,
}
use ds14_project.Lock.Threads.{total, holds}
use ds14_project.LockTester.{
  Tester, Line, Act, act_at, handler_step, checked, check_grant, check_release,
}
use ds14_project.LockTester.Line.{
  at_acquire, in_acquire, at_check_grant, at_check_release, at_release, in_release,
}

-- Where a thread is in the server when it stands at a line.
abbrev pub asks : ℕ → Place → Bool
asks l (a_lock_m k) = k == l
asks l (a_find k) = k == l
asks l (a_unlock_m k) = k == l
asks l (a_lock k) = k == l
asks l (a_lock_m' k) = k == l
asks l (a_count k) = k == l
asks l (a_unlock_m' k) = k == l
asks l (granted k) = k == l
asks l p = false

abbrev pub owns : ℕ → Place → Bool
owns l (granted k) = k == l
owns l p = false

abbrev pub leaves : Place → Bool
leaves idle = true
leaves (r_unlock k) = true
leaves (r_lock_m k) = true
leaves (r_count k) = true
leaves (r_unlock_m k) = true
leaves p = false

abbrev pub is_idle : Place → Bool
is_idle idle = true
is_idle p = false

abbrev pub fits : ℕ → Line → Place → Bool
fits l at_acquire p = is_idle p
fits l in_acquire p = asks l p
fits l in_release p = leaves p
fits l line p = owns l p

-- The count that a thread has made and not taken back.
abbrev pub tally : Line → ℕ
tally at_check_release = 1
tally line = 0

abbrev pub Fits : ℕ → Tester → Type 0
Fits l t = fits l t.line t.place ≡ true

abbrev pub counts : List Tester → ℕ
counts [] = 0
counts (t ∷ ts) = tally t.line + counts ts

pub counts-append : (xs ys : List Tester) → counts (xs ++ ys) ≡ counts xs + counts ys
counts-append [] ys = omega arith
counts-append (t ∷ xs) ys = omega (arith, counts-append xs ys)

abbrev pub places : List Tester → List Place
places ts = map (λ (t : Tester). t.place) ts

pub tally-holds : (l : ℕ) (line : Line) (p : Place) → fits l line p ≡ true → tally line ≤ holds l p
tally-holds l at_check_release (granted k) e = ground arith
tally-holds l line p e = ground (arith, e)

pub counts-holds :
    (l : ℕ) (ts : List Tester) → All (Fits l) ts → counts ts ≤ total (holds l) (places ts)
counts-holds l [] h = omega arith
counts-holds l (t ∷ ts) (h, hs) =
    omega (arith, tally-holds l t.line t.place h, counts-holds l ts hs)

pub advance-asks :
    (l : ℕ) (p q : Place) (s s' : LockServer)
    → asks l p ≡ true
    → advance p s ≡ some (q, s')
    → asks l q ≡ true
unfolding advance
advance-asks l p q s s' h e = ground (arith, h, e)

pub advance-leaves :
    (p q : Place) (s s' : LockServer)
    → leaves p ≡ true
    → advance p s ≡ some (q, s')
    → leaves q ≡ true
unfolding advance
advance-leaves p q s s' h e = ground (arith, h, e)

-- How a step of a thread shows in the lock server.
pub data Moves (l : ℕ) (p q : Place) (s s' : LockServer) : Type 0 where
  stays : p ≡ q → s ≡ s' → Moves l p q s s'
  runs : advance p s ≡ some (q, s') → Moves l p q s s'
  calls : p ≡ idle → q ≡ a_lock_m l → s ≡ s' → Moves l p q s s'
  returns : p ≡ granted l → q ≡ r_unlock l → s ≡ s' → Moves l p q s s'

-- What a step of a thread keeps: where it stands, and its part of the count.
pub record Keeps (l : ℕ) (line : Line) (p : Place) (s s' : LockServer) (ct ct' : ℕ → ℕ) (b : Tester)
    : Type 0 where
  pub moves : Moves l p b.place s s'
  pub fits : Fits l b
  pub count : ct' (l % 256) + tally line ≡ ct (l % 256) + tally b.line

pub some_inj {ℓ} : {A : Type ℓ} {a b : A} → some a ≡ some b → a ≡ b
some_inj e = cc e

pub goes_inj :
    {a b : Tester} {s s' : LockServer} {ct ct' : ℕ → ℕ}
    → Act.goes a s ct ≡ Act.goes b s' ct'
    → (a ≡ b) × (s ≡ s') × (ct ≡ ct')
goes_inj e = (cc e, cc e, cc e)

-- A handler that runs.
handler-Keeps :
    (l : ℕ) (line : Line) (p : Place) (n : ℕ) (s s' : LockServer) (ct ct' : ℕ → ℕ) (b : Tester)
    → ((q : Place) (s1 : LockServer) → advance p s ≡ some (q, s1) → fits l line q ≡ true)
    → handler_step line p n s ct ≡ Act.goes b s' ct'
    → Keeps l line p s s' ct ct' b
unfolding handler_step
handler-Keeps l line p n s s' ct ct' b h e = elim (Option-cases (advance p s)) [
  | inl waits ↦ absurd (ground (arith, waits, e))
  | inr ((q, s1), run) ↦
      (let next : Tester = record { line = line; place = q; rounds = n } in
        let f : Act.goes next s1 ct ≡ Act.goes b s' ct' = rw (handler_step, run) at e in
        let (same, server, count) = goes_inj f in
        rw (← same, ← server, ← count)
          (record { moves = Moves.runs run; fits = h q s1 run; count = refl }))
]

pub check_grant_lem :
    (l : ℕ) (ct c : ℕ → ℕ) → check_grant l ct ≡ some c → (ct (l % 256) ≡ 0) × (c (l % 256) ≡ 1)
unfolding check_grant
check_grant_lem l ct c e = elim (Bool-cases (ct (l % 256) == 0)) [
  | inl free ↦
      (let x = l % 256 in
        let f : some (λ i. if i == x then ct x + 1 else ct i) ≡ some c =
          rw (check_grant, free) at e in
        let zero_before = (==_iff (ct x) 0).0 free in
        (zero_before, rw (← some_inj f) (rw (eq→== x x refl) (omega (arith, zero_before)))))
  | inr taken ↦ absurd (ground (arith, e, taken))
]

pub check_release_lem :
    (l : ℕ) (ct c : ℕ → ℕ) → check_release l ct ≡ some c → (ct (l % 256) ≡ 1) × (c (l % 256) ≡ 0)
unfolding check_release
check_release_lem l ct c e = elim (Bool-cases (ct (l % 256) == 1)) [
  | inl held ↦
      (let x = l % 256 in
        let f : some (λ i. if i == x then ct x - 1 else ct i) ≡ some c =
          rw (check_release, held) at e in
        let one_before = (==_iff (ct x) 1).0 held in
        (one_before, rw (← some_inj f) (rw (eq→== x x refl) (omega (arith, one_before)))))
  | inr free ↦ absurd (ground (arith, e, free))
]

pub act-Keeps :
    (l : ℕ) (line : Line) (p : Place) (n : ℕ) (s s' : LockServer) (ct ct' : ℕ → ℕ) (b : Tester)
    → fits l line p ≡ true
    → act_at l line p n s ct ≡ Act.goes b s' ct'
    → Keeps l line p s s' ct ct' b
unfolding act_at checked
act-Keeps l at_acquire p zero s s' ct ct' b h e = cc e
act-Keeps l at_acquire idle (suc n) s s' ct ct' b h e =
    let (same, server, count) = goes_inj e in
    rw (← same, ← server, ← count)
      (record { moves = Moves.calls refl refl refl; fits = ground arith; count = refl })
act-Keeps l in_acquire (granted k) n s s' ct ct' b h e =
    let (same, server, count) = goes_inj e in
    rw (← same, ← server, ← count)
      (record { moves = Moves.stays refl refl; fits = h; count = refl })
act-Keeps l in_acquire p n s s' ct ct' b h e =
    handler-Keeps l in_acquire p n s s' ct ct' b (λ q s1 run. advance-asks l p q s s1 h run) e
act-Keeps l at_check_grant p n s s' ct ct' b h e = elim (Option-cases (check_grant l ct)) [
  | inl refused ↦ absurd (ground (arith, refused, e))
  | inr (c, found) ↦
      (let next : Tester = record { line = at_check_release; place = p; rounds = n } in
        let f : Act.goes next s c ≡ Act.goes b s' ct' = rw (act_at, found) at e in
        let (same, server, count) = goes_inj f in
        let (before, after) = check_grant_lem l ct c found in
        rw (← same, ← server, ← count)
          (record {
            moves = Moves.stays refl refl;
            fits = h;
            count = omega (arith, before, after);
          }))
]
act-Keeps l at_check_release p n s s' ct ct' b h e = elim (Option-cases (check_release l ct)) [
  | inl refused ↦ absurd (ground (arith, refused, e))
  | inr (c, found) ↦
      (let next : Tester = record { line = at_release; place = p; rounds = n } in
        let f : Act.goes next s c ≡ Act.goes b s' ct' = rw (act_at, found) at e in
        let (same, server, count) = goes_inj f in
        let (before, after) = check_release_lem l ct c found in
        rw (← same, ← server, ← count)
          (record {
            moves = Moves.stays refl refl;
            fits = h;
            count = omega (arith, before, after);
          }))
]
act-Keeps l at_release (granted k) n s s' ct ct' b h e =
    let (same, server, count) = goes_inj e in
    rw (← same, ← server, ← count)
      (record {
        moves = Moves.returns (ap granted ((==_iff k l).0 h)) refl refl;
        fits = refl;
        count = refl;
      })
act-Keeps l in_release idle n s s' ct ct' b h e =
    let (same, server, count) = goes_inj e in
    rw (← same, ← server, ← count)
      (record { moves = Moves.stays refl refl; fits = refl; count = refl })
act-Keeps l in_release p n s s' ct ct' b h e =
    handler-Keeps l in_release p n s s' ct ct' b (λ q s1 run. advance-leaves p q s s1 h run) e
act-Keeps l line p n s s' ct ct' b h e = cc h
