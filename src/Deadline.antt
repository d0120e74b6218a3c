-- ===== src/Deadline.antt =====
-- The arithmetic of deadlines at the end of lab/rpc/rpc.cc, for times that are not negative and
-- timeouts in milliseconds that are not either. An `int` is its 32-bit pattern; a `time_t` has room.
pub mod Order
use ds14_project.Base.{
  some, none, not, ◌&&◌, ◌==◌, Option, ℕ, zero, suc, ◌+◌, ◌-◌, ◌*◌, ◌/◌, ◌%◌, ◌^◌, ltb,
  if◌then◌else◌,
}

pub record Timespec : Type 0 where
  pub tv_sec : ℕ
  pub tv_nsec : ℕ

-- 1, -1 or 0.
unfoldable pub cmp_timespec : Timespec → Timespec → ℕ
cmp_timespec a b =
    if ltb b.tv_sec a.tv_sec
    then 1
    else (if ltb a.tv_sec b.tv_sec
        then 2 ^ 32 - 1
        else (if ltb b.tv_nsec a.tv_nsec
            then 1
            else (if ltb a.tv_nsec b.tv_nsec then 2 ^ 32 - 1 else 0)))

-- `while (result->tv_nsec > 1000000000)`, with a bound on its rounds.
unfoldable pub carry : (rounds : ℕ) → Timespec → Timespec
carry zero t = t
carry (suc n) t =
    let rest = carry n (record { tv_sec = t.tv_sec + 1; tv_nsec = t.tv_nsec - 1_000_000_000 }) in
    if ltb 1_000_000_000 t.tv_nsec then rest else t

unfoldable pub add_timespec : Timespec → ℕ → Timespec
add_timespec a b =
    let nsec = a.tv_nsec + b % 1000 * 1_000_000 in
    carry (nsec / 1_000_000_000) (record { tv_sec = a.tv_sec + b / 1000; tv_nsec = nsec })

-- `none` is the failed assertion.
unfoldable pub diff_timespec : (end start : Timespec) → Option ℕ
diff_timespec end start =
    let diff =
      if ltb start.tv_sec end.tv_sec then (end.tv_sec - start.tv_sec) * 1000 % 2 ^ 32 else 0 in
    if diff == 0 && not (end.tv_sec == start.tv_sec)
    then none
    else (if ltb start.tv_nsec end.tv_nsec
        then some ((diff + (end.tv_nsec - start.tv_nsec) / 1_000_000) % 2 ^ 32)
        else some ((diff + 2 ^ 32 - (start.tv_nsec - end.tv_nsec) / 1_000_000) % 2 ^ 32))
