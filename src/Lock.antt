-- ===== src/Lock.antt =====
-- lab/lock_server.cc and lab/lock_server.h: `lock_server`, whose handlers run on the threads of the
-- server's pool. A thread stands before one call or statement of a handler, and each step makes that
-- one; threads interleave in any order. A mutex is locked or free, and 0 bytes are a free one.
pub mod Threads
pub mod Exclusion
pub mod Client
use ds14_project.Base.{
  ℕ, ◌+◌, ◌-◌, ◌%◌, ◌^◌, ◌≡◌, Bool, true, false, List, [], ◌∷◌, ◌++◌, Option, some, none,
  if◌then◌else◌, lookup, insert, has_key,
}

pub record LockServer : Type 0 where
  pub nacquire : ℕ
  pub m : Bool
  pub locks : List (ℕ × Bool)

-- The constructor.
abbrev pub init : LockServer
init = record { nacquire = 0; m = false; locks = [] }

-- Where a session of a client stands: in `acquire` (a), with the lock granted, or in `release` (r).
pub data Place : Type 0 where
  idle : Place
  a_lock_m a_find a_unlock_m a_lock a_lock_m' a_count a_unlock_m' : ℕ → Place
  granted : ℕ → Place
  r_unlock r_lock_m r_count r_unlock_m : ℕ → Place

-- `_locks_m[lid]`, which makes a free mutex where there is none.
abbrev pub is_locked : ℕ → LockServer → Bool
is_locked l s = elim (lookup l s.locks) [ none ↦ false | some b ↦ b ]

abbrev pub set_m : Bool → LockServer → LockServer
set_m b s = record s { m = b }

-- pthread_mutex_lock(&_m), which waits while another thread has it.
abbrev pub lock_m : Place → LockServer → Option (Place × LockServer)
lock_m next s = if s.m then none else some (next, set_m true s)

-- One step of a handler; `none` where the thread waits, or is not in a handler.
unfoldable pub advance : Place → LockServer → Option (Place × LockServer)
advance idle s = none
advance (a_lock_m l) s = lock_m (a_find l) s
advance (a_find l) s = some (
  a_unlock_m l,
  record s { locks = if has_key l s.locks then s.locks else insert l false s.locks },
)
advance (a_unlock_m l) s = some (a_lock l, set_m false s)
advance (a_lock l) s =
    if is_locked l s then none else some (a_lock_m' l, record s { locks = insert l true s.locks })
advance (a_lock_m' l) s = lock_m (a_count l) s
advance (a_count l) s = some (a_unlock_m' l, record s { nacquire = (s.nacquire + 1) % 2 ^ 32 })
advance (a_unlock_m' l) s = some (granted l, set_m false s)
advance (granted l) s = none
advance (r_unlock l) s = some (r_lock_m l, record s { locks = insert l false s.locks })
advance (r_lock_m l) s = lock_m (r_count l) s
advance (r_count l) s =
    some (r_unlock_m l, record s { nacquire = (s.nacquire + (2 ^ 32 - 1)) % 2 ^ 32 })
advance (r_unlock_m l) s = some (idle, set_m false s)

-- `stat`
pub stat : LockServer → ℕ
stat s = s.nacquire

pub record System : Type 0 where
  pub server : LockServer
  pub threads : List Place

-- A handler steps, or a client calls: `acquire` from outside, `release` of what it was granted.
pub data Step (t u : System) : Type 0 where
  runs :
      (before after : List Place) (p q : Place) (s : LockServer)
      → t.threads ≡ before ++ p ∷ after
      → advance p t.server ≡ some (q, s)
      → u ≡ record { server = s; threads = before ++ q ∷ after }
      → Step t u
  calls_acquire :
      (before after : List Place) (l : ℕ)
      → t.threads ≡ before ++ idle ∷ after
      → u ≡ record { server = t.server; threads = before ++ a_lock_m l ∷ after }
      → Step t u
  calls_release :
      (before after : List Place) (l : ℕ)
      → t.threads ≡ before ++ granted l ∷ after
      → u ≡ record { server = t.server; threads = before ++ r_unlock l ∷ after }
      → Step t u

pub data Reach (t : System) : System → Type 0 where
  here : Reach t t
  next : {u v : System} → Reach t u → Step u v → Reach t v
