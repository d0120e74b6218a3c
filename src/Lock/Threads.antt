-- ===== src/Lock/Threads.antt =====
-- How many threads stand where, and what one step changes of that.
use ds14_project.Base.{
  ℕ, ◌+◌, ◌%◌, ◌^◌, ◌≤◌, ◌≡◌, Bool, true, false, List, [], ◌∷◌, ◌++◌, some, if◌then◌else◌, insert,
  has_key, lookup-insert, arith, ◌==◌,
}
use ds14_project.Lock.{
  LockServer, Place, a_find, a_unlock_m, a_lock, a_lock_m', a_count, a_unlock_m', granted, r_unlock,
  r_lock_m, r_count, r_unlock_m, is_locked, advance,
}

-- The sum of a weight over the threads.
abbrev pub total : (Place → ℕ) → List Place → ℕ
total w [] = 0
total w (p ∷ ps) = w p + total w ps

pub total-append :
    (w : Place → ℕ) (ps qs : List Place) → total w (ps ++ qs) ≡ total w ps + total w qs
total-append w [] qs = omega arith
total-append w (p ∷ ps) qs = omega (arith, total-append w ps qs)

abbrev pub bit : Bool → ℕ
bit true = 1
bit false = 0

-- Between locking and unlocking `_m`.
abbrev pub in_m : Place → ℕ
in_m (a_find l) = 1
in_m (a_unlock_m l) = 1
in_m (a_count l) = 1
in_m (a_unlock_m' l) = 1
in_m (r_count l) = 1
in_m (r_unlock_m l) = 1
in_m p = 0

-- Between locking and unlocking the mutex of this lock.
abbrev pub holds : ℕ → Place → ℕ
holds k (a_lock_m' l) = bit (l == k)
holds k (a_count l) = bit (l == k)
holds k (a_unlock_m' l) = bit (l == k)
holds k (granted l) = bit (l == k)
holds k (r_unlock l) = bit (l == k)
holds k p = 0

-- Between the two changes of `nacquire`.
abbrev pub counted : Place → ℕ
counted (a_unlock_m' l) = 1
counted (granted l) = 1
counted (r_unlock l) = 1
counted (r_lock_m l) = 1
counted (r_count l) = 1
counted p = 0

is_locked_inserted :
    (k l : ℕ) (b : Bool) (s : LockServer)
    → is_locked k (record s { locks = insert l b s.locks }) ≡ (if l == k then b else is_locked k s)
is_locked_inserted k l b s = ground (arith, lookup-insert l k b s.locks)

is_locked_found :
    (k l : ℕ) (s : LockServer)
    → is_locked k
        (record s { locks = if has_key l s.locks then s.locks else insert l false s.locks })
      ≡ is_locked k s
is_locked_found k l s = ground (arith, lookup-insert l k false s.locks)

-- What a step of one thread changes in the server is what it changes in the thread.
module _ (s s' : LockServer) (q : Place) where
  pub advance-in_m :
      (p : Place)
      → advance p s ≡ some (q, s')
      → in_m p ≤ bit s.m
      → bit s'.m + in_m p ≡ bit s.m + in_m q
  unfolding advance
  advance-in_m p e h = ground arith

  -- A mutex is unlocked by its holder only.
  pub advance-holds :
      (k : ℕ) (p : Place)
      → advance p s ≡ some (q, s')
      → holds k p ≤ bit (is_locked k s)
      → bit (is_locked k s') + holds k p ≡ bit (is_locked k s) + holds k q
  unfolding advance
  advance-holds k (a_find l) e h = ground (arith, is_locked_found k l s)
  advance-holds k (a_lock l) e h = ground (arith, is_locked_inserted k l true s)
  advance-holds k (r_unlock l) e h = ground (arith, is_locked_inserted k l false s)
  advance-holds k p e h = ground arith

  pub advance-counted :
      (p : Place)
      → advance p s ≡ some (q, s')
      → (s'.nacquire + counted p) % 2 ^ 32 ≡ (s.nacquire + counted q) % 2 ^ 32
  unfolding advance
  advance-counted p e = ground arith
