-- ===== src/LockTester/Passes.antt =====
-- The checks of lab/lock_tester.cc never find a lock granted twice.
use ds14_project.Base.{
  ℕ, zero, suc, ◌+◌, ◌%◌, ◌≡◌, sym, refl, ap, Bool, true, false, List, [], ◌∷◌, ◌++◌, arith, All,
  inl, inr, Option-cases,
}
use ds14_project.Lock
use ds14_project.Lock.{LockServer, Place, idle, granted, advance, System, Reach, next, here}
use ds14_project.Lock.Threads.{total, total-append, holds}
use ds14_project.Lock.Exclusion.{idles, mutual_exclusion}
use ds14_project.LockTester.{
  Tester, Line, Act, Testing, Step, Run, act, act_at, handler_step, checked, check_grant,
  check_release, test, testers_of, acts, start, more,
}
use ds14_project.LockTester.Line.{
  at_acquire, in_acquire, at_check_grant, at_check_release, at_release, in_release,
}
use ds14_project.LockTester.Steps.{
  owns, Fits, fits, tally, counts, counts-append, places, counts-holds, Moves, act-Keeps,
}

places-append : (xs ys : List Tester) → places (xs ++ ys) ≡ places xs ++ places ys
places-append [] ys = refl
places-append (x ∷ xs) ys = ap (λ ps. x.place ∷ ps) (places-append xs ys)

pub All-parts :
    (l : ℕ) (before after : List Tester) (a : Tester)
    → All (Fits l) (before ++ a ∷ after)
    → All (Fits l) before × Fits l a × All (Fits l) after
All-parts l [] after a (h, hs) = (tt, h, hs)
All-parts l (x ∷ before) after a (h, hs) =
    let (b, m, e) = All-parts l before after a hs in ((h, b), m, e)

All-join :
    (l : ℕ) (before after : List Tester) (a : Tester)
    → All (Fits l) before
    → Fits l a
    → All (Fits l) after
    → All (Fits l) (before ++ a ∷ after)
All-join l [] after a b m e = (m, e)
All-join l (x ∷ before) after a (h, b) m e = (h, All-join l before after a b m e)

-- The threads that the server sees are those of the tester, and the count of the lock's first byte is
-- that of the threads between their checks.
pub record IsPassing (l n : ℕ) (t : Testing) : Type 0 where
  pub reached :
      Reach (Lock.Exclusion.start n) (record { server = t.server; threads = places t.testers })
  pub fitting : All (Fits l) t.testers
  pub count : t.ct (l % 256) ≡ counts t.testers

moved :
    (l : ℕ) (t : System) (before after : List Place) (p q : Place) (s s' : LockServer)
    → Moves l p q s s'
    → Reach t (record { server = s; threads = before ++ p ∷ after })
    → Reach t (record { server = s'; threads = before ++ q ∷ after })
moved l t before after p q s s' (Moves.stays same server) r = rw (← same, ← server) r
moved l t before after p q s s' (Moves.runs run) r =
    next r (Lock.Step.runs before after p q s' refl run refl)
moved l t before after p q s s' (Moves.calls was is server) r =
    rw (← server, is) (next (rw was at r) (Lock.Step.calls_acquire before after l refl refl))
moved l t before after p q s s' (Moves.returns was is server) r =
    rw (← server, is) (next (rw was at r) (Lock.Step.calls_release before after l refl refl))

counts-at :
    (before after : List Tester) (a : Tester)
    → counts (before ++ a ∷ after) ≡ tally a.line + (counts before + counts after)
counts-at before after a = omega (arith, counts-append before (a ∷ after))

pub Step-IsPassing : (l n : ℕ) {t u : Testing} → Step l t u → IsPassing l n t → IsPassing l n u
Step-IsPassing l n {t} {u} (acts before after a b s ct at e room goes) v =
    let (fb, fa, fe) = All-parts l before after a (rw at at v.fitting) in
    let k = act-Keeps l a.line a.place a.rounds t.server s t.ct ct b fa e in
    let reached : Reach (Lock.Exclusion.start n)
        (record { server = t.server; threads = places before ++ a.place ∷ places after }) =
      rw (at, places-append before (a ∷ after)) at v.reached in
    rw goes (record {
      reached =
          rw (places-append before (b ∷ after))
            (moved l _ (places before) (places after) a.place b.place t.server s k.moves reached);
      fitting = All-join l before after b fb k.fits fe;
      count = omega (
        arith,
        k.count,
        v.count,
        ap counts at,
        counts-at before after a,
        counts-at before after b,
      );
    })

abbrev pub is_failure : Act → Bool
is_failure Act.fails = true
is_failure a = false

handler_step-fine :
    (line : Line) (p : Place) (n : ℕ) (s : LockServer) (ct : ℕ → ℕ)
    → is_failure (handler_step line p n s ct) ≡ false
unfolding handler_step
handler_step-fine line p n s ct = elim (Option-cases (advance p s)) [
  | inl e ↦ rw (handler_step, e) refl
  | inr ((q, s'), e) ↦ rw (handler_step, e) refl
]

grant_fine :
    (l : ℕ) (ct : ℕ → ℕ) (line : Line) (p : Place) (n : ℕ) (s : LockServer)
    → ct (l % 256) ≡ 0
    → is_failure (checked line p n s (check_grant l ct)) ≡ false
unfolding check_grant checked
grant_fine l ct line p n s e = rw e refl

release_fine :
    (l : ℕ) (ct : ℕ → ℕ) (line : Line) (p : Place) (n : ℕ) (s : LockServer)
    → ct (l % 256) ≡ 1
    → is_failure (checked line p n s (check_release l ct)) ≡ false
unfolding check_release checked
release_fine l ct line p n s e = rw e refl

-- A step fails nowhere but at a check, with the wrong count.
act_fine :
    (l : ℕ) (line : Line) (p : Place) (n : ℕ) (s : LockServer) (ct : ℕ → ℕ)
    → fits l line p ≡ true
    → (owns l p ≡ true → ct (l % 256) ≡ tally line)
    → is_failure (act_at l line p n s ct) ≡ false
unfolding act_at
act_fine l at_acquire p zero s ct h c = refl
act_fine l at_acquire p (suc n) s ct h c = refl
act_fine l in_acquire (granted k) n s ct h c = refl
act_fine l in_acquire p n s ct h c = handler_step-fine in_acquire p n s ct
act_fine l at_check_grant p n s ct h c = grant_fine l ct at_check_release p n s (c h)
act_fine l at_check_release p n s ct h c = release_fine l ct at_release p n s (c h)
act_fine l at_release p n s ct h c = refl
act_fine l in_release idle n s ct h c = refl
act_fine l in_release p n s ct h c = handler_step-fine in_release p n s ct

owns-holds : (l : ℕ) (p : Place) → owns l p ≡ true → holds l p ≡ 1
owns-holds l p e = ground (arith, e)

-- In a test that passes so far, the next step of no thread is a check that fails.
pub next_fine :
    (l n : ℕ) (t : Testing) (before after : List Tester) (a : Tester)
    → IsPassing l n t
    → t.testers ≡ before ++ a ∷ after
    → is_failure (act l a t.server t.ct) ≡ false
next_fine l n t before after a v at =
    let (fb, fa, fe) = All-parts l before after a (rw at at v.fitting) in
    act_fine l a.line a.place a.rounds t.server t.ct fa (λ own. omega (
      arith,
      v.count,
      ap counts at,
      counts-at before after a,
      owns-holds l a.place own,
      mutual_exclusion n _ v.reached l,
      ap (λ (ts : List Tester). total (holds l) (places ts)) at,
      ap (total (holds l)) (places-append before (a ∷ after)),
      total-append (holds l) (places before) (places (a ∷ after)),
      counts-holds l before fb,
      counts-holds l after fe,
    ))

start-Fits : (l n rounds : ℕ) → All (Fits l) (testers_of n rounds)
start-Fits l zero rounds = tt
start-Fits l (suc n) rounds = (refl, start-Fits l n rounds)

start-places : (n rounds : ℕ) → places (testers_of n rounds) ≡ idles n
start-places zero rounds = refl
start-places (suc n) rounds = ap (λ ps. Place.idle ∷ ps) (start-places n rounds)

start-counts : (n rounds : ℕ) → counts (testers_of n rounds) ≡ 0
start-counts zero rounds = refl
start-counts (suc n) rounds = omega (arith, start-counts n rounds)

test-IsPassing : (l n rounds : ℕ) → IsPassing l n (test n rounds)
test-IsPassing l n rounds = record {
  reached = rw (start-places n rounds) here;
  fitting = start-Fits l n rounds;
  count = sym (start-counts n rounds);
}

pub Run-IsPassing : (l n rounds k : ℕ) {t : Testing} → Run l (test n rounds) k t → IsPassing l n t
Run-IsPassing l n rounds k start = test-IsPassing l n rounds
Run-IsPassing l n rounds k (more {k = j} r s) = Step-IsPassing l n s (Run-IsPassing l n rounds j r)
