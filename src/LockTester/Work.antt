-- ===== src/LockTester/Work.antt =====
-- The work that the threads of lab/lock_tester.cc have left.
use ds14_project.Base.{
  ℕ, zero, suc, ◌+◌, ◌-◌, ◌*◌, ◌≡◌, refl, true, List, [], ◌∷◌, ◌++◌, some, arith, inl, inr,
  Option-cases,
}
use ds14_project.Lock.{
  LockServer, Place, idle, a_lock_m, a_find, a_unlock_m, a_lock, a_lock_m', a_count, a_unlock_m',
  granted, r_unlock, r_lock_m, r_count, r_unlock_m, advance,
}
use ds14_project.LockTester.{
  Tester, Line, Act, act_at, handler_step, checked, check_grant, check_release,
}
use ds14_project.LockTester.Line.{
  at_acquire, in_acquire, at_check_grant, at_check_release, at_release, in_release,
}
use ds14_project.LockTester.Steps.{fits, goes_inj}

-- The steps that are left in a handler and behind it, up to the end of the round.
abbrev pub rank : Place → ℕ
rank idle = 1
rank (a_lock_m l) = 16
rank (a_find l) = 15
rank (a_unlock_m l) = 14
rank (a_lock l) = 13
rank (a_lock_m' l) = 12
rank (a_count l) = 11
rank (a_unlock_m' l) = 10
rank (granted l) = 9
rank (r_unlock l) = 5
rank (r_lock_m l) = 4
rank (r_count l) = 3
rank (r_unlock_m l) = 2

-- The steps that a thread has left.
abbrev pub steps_left : Line → Place → ℕ → ℕ
steps_left at_acquire p n = 17 * n
steps_left at_check_grant p n = 17 * (n - 1) + 8
steps_left at_check_release p n = 17 * (n - 1) + 7
steps_left at_release p n = 17 * (n - 1) + 6
steps_left line p n = 17 * (n - 1) + rank p

abbrev pub work : List Tester → ℕ
work [] = 0
work (t ∷ ts) = steps_left t.line t.place t.rounds + work ts

pub work-append : (xs ys : List Tester) → work (xs ++ ys) ≡ work xs + work ys
work-append [] ys = omega arith
work-append (t ∷ xs) ys = omega (arith, work-append xs ys)

advance-rank : (p q : Place) (s s' : LockServer) → advance p s ≡ some (q, s') → rank p ≡ rank q + 1
unfolding advance
advance-rank p q s s' e = ground (arith, e)

handler-work :
    (line : Line) (p : Place) (n : ℕ) (s s' : LockServer) (ct ct' : ℕ → ℕ) (b : Tester)
    → handler_step line p n s ct ≡ Act.goes b s' ct'
    → (b.line ≡ line) × (b.rounds ≡ n) × (rank p ≡ rank b.place + 1)
unfolding handler_step
handler-work line p n s s' ct ct' b e = elim (Option-cases (advance p s)) [
  | inl waits ↦ absurd (ground (arith, waits, e))
  | inr ((q, s1), run) ↦
      (let next : Tester = record { line = line; place = q; rounds = n } in
        let f : Act.goes next s1 ct ≡ Act.goes b s' ct' = rw (handler_step, run) at e in
        let (same, server, count) = goes_inj f in
        rw (← same) (refl, refl, advance-rank p q s s1 run))
]

-- Each step takes one from the work.
pub act-work :
    (l : ℕ) (line : Line) (p : Place) (n : ℕ) (s s' : LockServer) (ct ct' : ℕ → ℕ) (b : Tester)
    → fits l line p ≡ true
    → act_at l line p n s ct ≡ Act.goes b s' ct'
    → steps_left line p n ≡ steps_left b.line b.place b.rounds + 1
unfolding act_at checked
act-work l at_acquire p zero s s' ct ct' b h e = cc e
act-work l at_acquire p (suc n) s s' ct ct' b h e = rw (← (goes_inj e).0) (omega arith)
act-work l in_acquire (granted k) n s s' ct ct' b h e = rw (← (goes_inj e).0) (omega arith)
act-work l in_acquire p n s s' ct ct' b h e =
    let (line, rounds, less) = handler-work in_acquire p n s s' ct ct' b e in
    rw (line, rounds) (omega (arith, less))
act-work l at_check_grant p n s s' ct ct' b h e = elim (Option-cases (check_grant l ct)) [
  | inl refused ↦ absurd (ground (arith, refused, e))
  | inr (c, found) ↦
      (let next : Tester = record { line = at_check_release; place = p; rounds = n } in
        let f : Act.goes next s c ≡ Act.goes b s' ct' = rw (act_at, found) at e in
        rw (← (goes_inj f).0) (omega arith))
]
act-work l at_check_release p n s s' ct ct' b h e = elim (Option-cases (check_release l ct)) [
  | inl refused ↦ absurd (ground (arith, refused, e))
  | inr (c, found) ↦
      (let next : Tester = record { line = at_release; place = p; rounds = n } in
        let f : Act.goes next s c ≡ Act.goes b s' ct' = rw (act_at, found) at e in
        rw (← (goes_inj f).0) (omega arith))
]
act-work l at_release p n s s' ct ct' b h e = rw (← (goes_inj e).0) (omega arith)
act-work l in_release idle n s s' ct ct' b h e = rw (← (goes_inj e).0) (omega arith)
act-work l in_release p n s s' ct ct' b h e =
    let (line, rounds, less) = handler-work in_release p n s s' ct ct' b e in
    rw (line, rounds) (omega (arith, less))
