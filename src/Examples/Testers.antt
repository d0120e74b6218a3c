-- ===== src/Examples/Testers.antt =====
-- Two threads of the tester that acquire the lock ten times each, after one step.
use ds14_project.Base.{arith, ℕ, ◌+◌, ◌≡◌, ◌≤◌, ◌<◌, refl, false, List, [], ◌∷◌, ◌++◌, All}
use ds14_project.Lock
use ds14_project.Lock.{a_lock_m}
use ds14_project.LockTester.{
  Tester, Line, Testing, Step, Run, act, act_at, test, tester, acts, start, more,
}
use ds14_project.LockTester.Passes.{is_failure}
use ds14_project.LockTester.Progress.{IsFinished, test_passes}

abbrev begun : Testing
begun = record {
  server = Lock.init;
  ct = λ i. 0;
  testers = record { line = Line.in_acquire; place = a_lock_m 1; rounds = 10 } ∷ tester 10 ∷ [];
}

one_step : Run 1 (test 2 10) (0 + 1) begun
unfolding act_at
one_step = more start (acts [] (tester 10 ∷ []) _ _ _ _ refl refl (λ x. omega arith) refl)

test_passes_example :
    ((before after : List Tester) (a : Tester)
      → begun.testers ≡ before ++ a ∷ after
      → is_failure (act 1 a begun.server begun.ct) ≡ false)
    × (1 ≤ 340)
    × (1 < 340 → (u : Testing) × Step 1 begun u)
    × (◌≡◌ {A = ℕ} 1 340 → All IsFinished begun.testers)
test_passes_example = test_passes 1 2 10 1 (omega arith) one_step
