-- ===== src/Lock/Exclusion.antt =====
-- The lock server over every interleaving: what its mutexes and its counter say of its threads.
use ds14_project.Base.{
  ℕ, zero, suc, ◌+◌, ◌%◌, ◌^◌, ◌≤◌, ◌<◌, ◌≡◌, refl, ◌∙◌, sym, ap, Bool, true, false, List, [], ◌∷◌,
  ◌++◌, some, arith,
}
use ds14_project.Lock.{
  LockServer, init, Place, idle, granted, a_lock_m, r_unlock, is_locked, advance, stat, System,
  Step, runs, calls_acquire, calls_release, Reach, here, next,
}
use ds14_project.Lock.Threads.{
  total, total-append, bit, in_m, holds, counted, advance-in_m, advance-holds, advance-counted,
}

pub record IsConsistent (t : System) : Type 0 where
  pub m : bit t.server.m ≡ total in_m t.threads
  pub locks : (k : ℕ) → bit (is_locked k t.server) ≡ total (holds k) t.threads
  pub nacquire : t.server.nacquire % 2 ^ 32 ≡ total counted t.threads % 2 ^ 32

-- The server with threads that are in no handler.
abbrev pub idles : ℕ → List Place
idles zero = []
idles (suc n) = idle ∷ idles n

abbrev pub start : ℕ → System
start n = record { server = init; threads = idles n }

total-idles : (w : Place → ℕ) → w idle ≡ 0 → (n : ℕ) → total w (idles n) ≡ 0
total-idles w z zero = refl
total-idles w z (suc n) = omega (arith, z, total-idles w z n)

start-IsConsistent : (n : ℕ) → IsConsistent (start n)
unfolding ds14_project.Base.lookup
start-IsConsistent n = record {
  m = sym (total-idles in_m refl n);
  locks = λ k. sym (total-idles (holds k) refl n);
  nacquire = omega (arith, total-idles counted refl n);
}

-- One thread among the others.
total-at :
    (w : Place → ℕ) (before after : List Place) (p : Place)
    → total w (before ++ p ∷ after) ≡ w p + (total w before + total w after)
total-at w before after p = omega (arith, total-append w before (p ∷ after))

module _ (t u : System) (c : IsConsistent t) (before after : List Place) (p q : Place)
    (at : t.threads ≡ before ++ p ∷ after) (goes : u.threads ≡ before ++ q ∷ after) where
  total-before : (w : Place → ℕ) → total w t.threads ≡ w p + (total w before + total w after)
  total-before w = ap (total w) at ∙ total-at w before after p

  total-after : (w : Place → ℕ) → total w u.threads ≡ w q + (total w before + total w after)
  total-after w = ap (total w) goes ∙ total-at w before after q

  runs-IsConsistent : advance p t.server ≡ some (q, u.server) → IsConsistent u
  runs-IsConsistent e = record {
    m = omega (
      arith,
      c.m,
      total-before in_m,
      total-after in_m,
      advance-in_m t.server u.server q p e (omega (arith, c.m, total-before in_m)),
    );
    locks = λ k. omega (
      arith,
      c.locks k,
      total-before (holds k),
      total-after (holds k),
      advance-holds t.server u.server q k p e (omega (arith, c.locks k, total-before (holds k))),
    );
    nacquire = omega (
      arith,
      c.nacquire,
      total-before counted,
      total-after counted,
      advance-counted t.server u.server q p e,
    );
  }

  calls-IsConsistent :
      u.server ≡ t.server
      → in_m p ≡ in_m q
      → ((k : ℕ) → holds k p ≡ holds k q)
      → counted p ≡ counted q
      → IsConsistent u
  calls-IsConsistent same e f g = record {
    m =
        omega
          (arith, c.m, total-before in_m, total-after in_m, e, ap (λ s. bit (LockServer.m s)) same);
    locks = λ k. omega (
      arith,
      c.locks k,
      total-before (holds k),
      total-after (holds k),
      f k,
      ap (λ s. bit (is_locked k s)) same,
    );
    nacquire = omega (
      arith,
      c.nacquire,
      total-before counted,
      total-after counted,
      g,
      ap LockServer.nacquire same,
    );
  }

Step-IsConsistent : (t u : System) → Step t u → IsConsistent t → IsConsistent u
Step-IsConsistent t u (runs before after p q s at e goes) c =
    runs-IsConsistent t u c before after p q at (ap System.threads goes)
      (e ∙ ap (λ x. some (q, x)) (sym (ap System.server goes)))
Step-IsConsistent t u (calls_acquire before after l at goes) c =
    calls-IsConsistent t u c before after idle (a_lock_m l) at (ap System.threads goes)
      (ap System.server goes) refl (λ k. refl) refl
Step-IsConsistent t u (calls_release before after l at goes) c =
    calls-IsConsistent t u c before after (granted l) (r_unlock l) at (ap System.threads goes)
      (ap System.server goes) refl (λ k. refl) refl

pub Reach-IsConsistent : (t u : System) → Reach t u → IsConsistent t → IsConsistent u
Reach-IsConsistent t _ here c = c
Reach-IsConsistent t u (next {u = v} r s) c = Step-IsConsistent v u s (Reach-IsConsistent t v r c)

pub started-IsConsistent : (n : ℕ) (u : System) → Reach (start n) u → IsConsistent u
started-IsConsistent n u r = Reach-IsConsistent (start n) u r (start-IsConsistent n)

bit-le-one : (b : Bool) → bit b ≤ 1
bit-le-one b = ground arith

-- However the server's threads interleave, and where a client releases only a lock that was granted
-- to it, at most one thread at a time is between the locking of a lock's mutex and its unlocking.
pub mutual_exclusion :
    (n : ℕ) (u : System) → Reach (start n) u → (k : ℕ) → total (holds k) u.threads ≤ 1
mutual_exclusion n u r k =
    omega
      (arith, IsConsistent.locks (started-IsConsistent n u r) k, bit-le-one (is_locked k u.server))

-- However the server's threads interleave, and where a client releases only a lock that was granted
-- to it, `stat` returns the number of threads that are between the two changes of the counter,
-- modulo 2^32.
pub stat_counts :
    (n : ℕ) (u : System)
    → Reach (start n) u
    → stat u.server % 2 ^ 32 ≡ total counted u.threads % 2 ^ 32
unfolding stat
stat_counts n u r = IsConsistent.nacquire (started-IsConsistent n u r)
