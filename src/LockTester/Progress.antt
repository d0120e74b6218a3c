-- ===== src/LockTester/Progress.antt =====
-- The tests of lab/lock_tester.cc come to an end, and no check fails.
use ds14_project.Base.{
  ◌∙◌, length-append, length, ℕ, zero, suc, ◌+◌, ◌*◌, ◌≡◌, ◌≤◌, ◌<◌, ◌⊎◌, refl, ap, Bool, true,
  false, List, [], ◌∷◌, ◌++◌, arith, All, inl, inr, Bool-cases, ltb, ltb→lt,
}
use native.Mathlib.Nat.{suc-mul}
use ds14_project.Lock.{LockServer, Place, advance, is_locked}
use ds14_project.Lock.Threads.{total, holds, in_m, bit}
use ds14_project.Lock.Exclusion.{IsConsistent, started-IsConsistent}
use ds14_project.LockTester.{
  in_calls, pool_threads, Tester, Line, Act, Testing, Step, Run, act, act_at, handler_step, checked,
  test, testers_of, acts, start, more,
}
use ds14_project.LockTester.Line.{at_acquire}
use ds14_project.LockTester.Work.{steps_left, work, work-append, act-work}
use ds14_project.LockTester.Steps.{Fits, fits, places}
use ds14_project.LockTester.Passes.{IsPassing, All-parts, Run-IsPassing, next_fine, is_failure}

-- Which threads can go on.
abbrev never_waits : Act → Bool
never_waits Act.waits = false
never_waits a = true

-- The holder of the server's own mutex.
goes_in_m :
    (l : ℕ) (line : Line) (p : Place) (n : ℕ) (s : LockServer) (ct : ℕ → ℕ)
    → fits l line p ≡ true
    → 0 < in_m p
    → never_waits (act_at l line p n s ct) ≡ true
unfolding act_at handler_step advance
goes_in_m l line p n s ct h pos = ground (arith, h, pos)

-- While that mutex is free, whoever does not wait for a lock.
goes_or_locked :
    (l : ℕ) (line : Line) (p : Place) (n : ℕ) (s : LockServer) (ct : ℕ → ℕ)
    → s.m ≡ false
    → fits l line p ≡ true
    → 0 < steps_left line p n
    → (never_waits (act_at l line p n s ct) ≡ true) ⊎ (is_locked l s ≡ true)
unfolding act_at handler_step advance checked
goes_or_locked l line p n s ct free h pos = ground (arith, h, pos, free)

holder_goes :
    (l : ℕ) (line : Line) (p : Place) (n : ℕ) (s : LockServer) (ct : ℕ → ℕ)
    → s.m ≡ false
    → fits l line p ≡ true
    → 0 < holds l p
    → never_waits (act_at l line p n s ct) ≡ true
unfolding act_at handler_step advance checked
holder_goes l line p n s ct free h pos = ground (arith, h, pos, free)

-- A thread that has a share in a sum that is not zero.
pick :
    (w : Tester → ℕ) (f : List Tester → ℕ)
    → f [] ≡ 0
    → ((a : Tester) (ts : List Tester) → f (a ∷ ts) ≡ w a + f ts)
    → (ts : List Tester) → 0 < f ts
    → (before : List Tester) × (a : Tester) × (after : List Tester) × (ts ≡ before ++ a ∷ after)
      × (0 < w a)
pick w f z s [] pos = absurd (omega (arith, z, pos))
pick w f z s (t ∷ ts) pos = elim (Bool-cases (ltb 0 (w t))) [
  | inl here ↦ ([], t, ts, refl, ltb→lt 0 (w t) here)
  | inr other ↦
      (let (before, a, after, at, share) = pick w f z s ts (ground (arith, s t ts, pos, other)) in
        (t ∷ before, a, after, ap (λ (xs : List Tester). t ∷ xs) at, share))
]

act_goes :
    (x : Act)
    → is_failure x ≡ false
    → never_waits x ≡ true
    → (b : Tester) × (s : LockServer) × (ct : ℕ → ℕ) × (x ≡ Act.goes b s ct)
act_goes Act.waits f g = cc g
act_goes Act.fails f g = cc f
act_goes (Act.goes b s ct) f g = (b, s, ct, refl)

fits_at :
    (l : ℕ) (ts before after : List Tester) (a : Tester)
    → All (Fits l) ts
    → ts ≡ before ++ a ∷ after
    → Fits l a
fits_at l ts before after a h at = (All-parts l before after a (rw at at h)).1

in_calls-le : (ts : List Tester) → in_calls ts ≤ length ts
in_calls-le [] = omega arith
in_calls-le (t ∷ ts) = ground (arith, in_calls-le ts)

-- With no more threads than the pool has, a call of one of them always finds a thread there.
room_for :
    (ts before after : List Tester) (a : Tester)
    → length ts ≤ pool_threads
    → ts ≡ before ++ a ∷ after
    → in_calls (before ++ after) < pool_threads
room_for ts before after a few at = omega (
  arith,
  few,
  ap length at,
  length-append before (a ∷ after),
  length-append before after,
  in_calls-le (before ++ after),
)

module _ (l n : ℕ) (t : Testing) (v : IsPassing l n t) (few : length t.testers ≤ pool_threads) where
  consistent : IsConsistent (record { server = t.server; threads = places t.testers })
  consistent = started-IsConsistent n _ v.reached

  -- A thread that does not wait makes a step.
  step_of :
      (before after : List Tester) (a : Tester)
      → t.testers ≡ before ++ a ∷ after
      → never_waits (act l a t.server t.ct) ≡ true
      → (u : Testing) × Step l t u
  step_of before after a at moves =
      let (b, s, ct, e) =
        act_goes (act l a t.server t.ct) (next_fine l n t before after a v at) moves in
      (_, acts before after a b s ct at e (λ x. room_for t.testers before after a few at) refl)

  -- While work is left some thread makes a step.
  pub progress : 0 < work t.testers → (u : Testing) × Step l t u
  progress left = elim (Bool-cases t.server.m) [
    | inl busy ↦
        (let (before, a, after, at, share) =
            pick (λ a. in_m a.place) (λ ts. total in_m (places ts)) refl (λ a ts. refl) t.testers
              (omega (arith, consistent.m, ap bit busy)) in
          step_of before after a at (
            goes_in_m l a.line a.place a.rounds t.server t.ct
              (fits_at l t.testers before after a v.fitting at) share))
    | inr free ↦
        (let (before, a, after, at, share) =
            pick (λ a. steps_left a.line a.place a.rounds) work refl (λ a ts. refl) t.testers
              left in
          elim (goes_or_locked l a.line a.place a.rounds t.server t.ct free
            (fits_at l t.testers before after a v.fitting at) share) [
              | inl moves ↦ step_of before after a at moves
              | inr locked ↦
                  (let (before', a', after', at', share') =
                      pick (λ a. holds l a.place) (λ ts. total (holds l) (places ts)) refl
                        (λ a ts. refl) t.testers
                        (omega (arith, consistent.locks l, ap bit locked)) in
                    step_of before' after' a' at' (
                      holder_goes l a'.line a'.place a'.rounds t.server t.ct free
                        (fits_at l t.testers before' after' a' v.fitting at') share'))
            ])
  ]

work-at :
    (before after : List Tester) (a : Tester)
    → work (before ++ a ∷ after) ≡ steps_left a.line a.place a.rounds + (work before + work after)
work-at before after a = omega (arith, work-append before (a ∷ after))

Step-work :
    (l n : ℕ) {t u : Testing} → IsPassing l n t → Step l t u → work t.testers ≡ work u.testers + 1
Step-work l n {t} {u} v (acts before after a b s ct at e room goes) = omega (
  arith,
  ap work at,
  ap (λ (x : Testing). work x.testers) goes,
  work-at before after a,
  work-at before after b,
  act-work l a.line a.place a.rounds t.server s t.ct ct b
      (fits_at l t.testers before after a v.fitting at) e,
)

start-work : (n rounds : ℕ) → work (testers_of n rounds) ≡ n * (17 * rounds)
start-work zero rounds = omega arith
start-work (suc n) rounds = omega (arith, start-work n rounds, suc-mul n (17 * rounds))

Run-work :
    (l n rounds k : ℕ) {t : Testing}
    → Run l (test n rounds) k t
    → k + work t.testers ≡ n * (17 * rounds)
Run-work l n rounds k start = omega (arith, start-work n rounds)
Run-work l n rounds k (more {k = j} r s) =
    omega (arith, Run-work l n rounds j r, Step-work l n (Run-IsPassing l n rounds j r) s)

Step-length : (l : ℕ) {t u : Testing} → Step l t u → length u.testers ≡ length t.testers
Step-length l {t} {u} (acts before after a b s ct at e room goes) = omega (
  arith,
  ap length at,
  ap (λ (x : Testing). length x.testers) goes,
  length-append before (a ∷ after),
  length-append before (b ∷ after),
)

start-length : (n rounds : ℕ) → length (testers_of n rounds) ≡ n
start-length zero rounds = refl
start-length (suc n) rounds = omega (arith, start-length n rounds)

Run-length : (l n rounds k : ℕ) {t : Testing} → Run l (test n rounds) k t → length t.testers ≡ n
Run-length l n rounds k start = start-length n rounds
Run-length l n rounds k (more {k = j} r s) = Step-length l s ∙ Run-length l n rounds j r

abbrev pub IsFinished : Tester → Type 0
IsFinished a = (a.line ≡ at_acquire) × (a.rounds ≡ 0)

nothing_left :
    (line : Line) (p : Place) (n : ℕ) → steps_left line p n ≡ 0 → (line ≡ at_acquire) × (n ≡ 0)
nothing_left line p n e = ground (arith, e)

All-IsFinished : (ts : List Tester) → work ts ≡ 0 → All IsFinished ts
All-IsFinished [] e = tt
All-IsFinished (t ∷ ts) e =
    (nothing_left t.line t.place t.rounds (omega (arith, e)), All-IsFinished ts (omega (arith, e)))

-- However the threads of a test are scheduled, of which there are at most the ten that the pool of the
-- server has, on a lock server that no one else uses: no next step of a thread is a check that reports a lock granted twice or released unheld; the test makes no more
-- than 17 steps for each round of each thread, some thread can go on before it has made them all, and
-- then every thread has finished its rounds.
pub test_passes :
    (lid nt rounds k : ℕ) {t : Testing}
    → nt ≤ pool_threads
    → Run lid (test nt rounds) k t
    → ((before after : List Tester) (a : Tester)
        → t.testers ≡ before ++ a ∷ after
        → is_failure (act lid a t.server t.ct) ≡ false)
      × (k ≤ nt * (17 * rounds))
      × (k < nt * (17 * rounds) → (u : Testing) × Step lid t u)
      × (k ≡ nt * (17 * rounds) → All IsFinished t.testers)
test_passes lid nt rounds k {t} few r =
    let v = Run-IsPassing lid nt rounds k r in
    let e = Run-work lid nt rounds k r in
    (
      λ before after a at. next_fine lid nt t before after a v at,
      omega (arith, e),
      λ less.
          progress lid nt t v (omega (arith, few, Run-length lid nt rounds k r))
            (omega (arith, e, less)),
      λ all. All-IsFinished t.testers (omega (arith, e, all)),
    )
