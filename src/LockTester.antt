-- ===== src/LockTester.antt =====
-- lab/lock_tester.cc: the threads of test2 to test5, which acquire the lock `a` and release it a number
-- of times and check that no other thread has it, on the lock server. The threads call the handlers
-- of the server in place of the lock client, on the threads of the pool of the server.
pub mod Steps
pub mod Passes
pub mod Work
pub mod Progress
use ds14_project.Base.{
  ℕ, zero, suc, ◌<◌, ◌+◌, ◌-◌, ◌%◌, ◌≡◌, Bool, true, false, List, [], ◌∷◌, ◌++◌, ◌==◌,
  if◌then◌else◌, Option, some, none, map,
}
use ds14_project.Lock
use ds14_project.Lock.{LockServer, Place, idle, granted, a_lock_m, r_unlock, advance}

-- `ct`, by the first byte of the lock; `none` is the report of an error and `exit(1)`.
unfoldable pub check_grant : (lid : ℕ) → (ℕ → ℕ) → Option (ℕ → ℕ)
check_grant lid ct =
    let x = lid % 256 in if ct x == 0 then some (λ i. if i == x then ct x + 1 else ct i) else none

unfoldable pub check_release : (lid : ℕ) → (ℕ → ℕ) → Option (ℕ → ℕ)
check_release lid ct =
    let x = lid % 256 in if ct x == 1 then some (λ i. if i == x then ct x - 1 else ct i) else none

-- Where a thread stands in the body of its loop: before a call, or in one.
pub data Line : Type 0 where
  at_acquire : Line
  in_acquire : Line
  at_check_grant : Line
  at_check_release : Line
  at_release : Line
  in_release : Line

-- A thread of the tester, with its place in the lock server and the rounds that it has left.
pub record Tester : Type 0 where
  pub line : Line
  pub place : Place
  pub rounds : ℕ

pub data Act : Type 0 where
  waits : Act
  fails : Act
  goes : Tester → LockServer → (ℕ → ℕ) → Act

-- A step of a handler on behalf of a thread that is in a call.
unfoldable pub handler_step : Line → Place → (rounds : ℕ) → LockServer → (ℕ → ℕ) → Act
handler_step line p n s ct = elim (advance p s) [
  | none ↦ Act.waits
  | some (q, s') ↦ Act.goes (record { line = line; place = q; rounds = n }) s' ct
]

-- Behind a check, which ends the program where it fails.
unfoldable pub checked : Line → Place → (rounds : ℕ) → LockServer → Option (ℕ → ℕ) → Act
checked line p n s none = Act.fails
checked line p n s (some ct) = Act.goes (record { line = line; place = p; rounds = n }) s ct

unfoldable pub act_at : (lid : ℕ) → Line → Place → (rounds : ℕ) → LockServer → (ℕ → ℕ) → Act
act_at lid Line.at_acquire p zero s ct = Act.waits
act_at lid Line.at_acquire p (suc n) s ct =
    Act.goes (record { line = Line.in_acquire; place = a_lock_m lid; rounds = suc n }) s ct
act_at lid Line.in_acquire (granted k) n s ct =
    Act.goes (record { line = Line.at_check_grant; place = granted k; rounds = n }) s ct
act_at lid Line.in_acquire p n s ct = handler_step Line.in_acquire p n s ct
act_at lid Line.at_check_grant p n s ct = checked Line.at_check_release p n s (check_grant lid ct)
act_at lid Line.at_check_release p n s ct = checked Line.at_release p n s (check_release lid ct)
act_at lid Line.at_release p n s ct =
    Act.goes (record { line = Line.in_release; place = r_unlock lid; rounds = n }) s ct
act_at lid Line.in_release idle n s ct =
    Act.goes (record { line = Line.at_acquire; place = idle; rounds = n - 1 }) s ct
act_at lid Line.in_release p n s ct = handler_step Line.in_release p n s ct

-- What a thread does next; it has nothing to do where no round is left.
abbrev pub act : (lid : ℕ) → Tester → LockServer → (ℕ → ℕ) → Act
act lid t s ct = act_at lid t.line t.place t.rounds s ct

pub record Testing : Type 0 where
  pub server : LockServer
  pub ct : ℕ → ℕ
  pub testers : List Tester

abbrev pub tester : (rounds : ℕ) → Tester
tester rounds = record { line = Line.at_acquire; place = idle; rounds = rounds }

abbrev pub testers_of : (nt rounds : ℕ) → List Tester
testers_of zero rounds = []
testers_of (suc n) rounds = tester rounds ∷ testers_of n rounds

-- The tests of `main`: the number of threads, and the rounds of each.
abbrev pub test : (nt rounds : ℕ) → Testing
test nt rounds = record { server = Lock.init; ct = λ i. 0; testers = testers_of nt rounds }

-- Whether a thread is in a call, which keeps a thread of the pool of the server.
abbrev pub in_call : Line → Bool
in_call Line.in_acquire = true
in_call Line.in_release = true
in_call line = false

abbrev pub in_calls : List Tester → ℕ
in_calls [] = 0
in_calls (t ∷ ts) = (if in_call t.line then 1 else 0) + in_calls ts

-- `dispatchpool_`, as the constructor of rpcs makes it.
abbrev pub pool_threads : ℕ
pool_threads = 10

-- Any thread makes its next step. A call starts in the server where a thread of the pool is left for
-- it, and keeps that thread till its end, also while the handler waits for the lock.
pub data Step (lid : ℕ) (t u : Testing) : Type 0 where
  acts :
      (before after : List Tester) (a b : Tester) (s : LockServer) (ct : ℕ → ℕ)
      → t.testers ≡ before ++ a ∷ after
      → act lid a t.server t.ct ≡ Act.goes b s ct
      → (in_call b.line ≡ true → in_calls (before ++ after) < pool_threads)
      → u ≡ record { server = s; ct = ct; testers = before ++ b ∷ after }
      → Step lid t u

-- So many steps.
pub data Run (lid : ℕ) (t : Testing) : ℕ → Testing → Type 0 where
  start : Run lid t 0 t
  more : {k : ℕ} {u v : Testing} → Run lid t k u → Step lid u v → Run lid t (k + 1) v
