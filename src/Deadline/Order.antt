-- ===== src/Deadline/Order.antt =====
-- Times as numbers of nanoseconds: what the sum of a deadline is, and what a comparison says.
use ds14_project.Base.{
  false, ◌==◌, ◌&&◌, not, if◌then◌else◌, some, if◌then◌else◌, some, ℕ, zero, suc, ◌+◌, ◌-◌, ◌*◌,
  ◌/◌, ◌%◌, ◌^◌, ◌≤◌, ◌<◌, ◌≡◌, ◌↔◌, refl, ltb, arith, Bool-cases, inl, inr, ltb→lt,
}
use ds14_project.Deadline.{diff_timespec, Timespec, cmp_timespec, carry, add_timespec}

abbrev pub nanoseconds : Timespec → ℕ
nanoseconds t = t.tv_sec * 1_000_000_000 + t.tv_nsec

carry_lem :
    (n : ℕ) (t : Timespec)
    → t.tv_nsec < (n + 1) * 1_000_000_000
    → (nanoseconds (carry n t) ≡ nanoseconds t) × ((carry n t).tv_nsec ≤ 1_000_000_000)
unfolding carry
carry_lem zero t h = (refl, omega arith)
carry_lem (suc n) t h = elim (Bool-cases (ltb 1_000_000_000 t.tv_nsec)) [
  | inl more ↦
      (let lt = ltb→lt 1_000_000_000 t.tv_nsec more in
        let (same, bound) =
          carry_lem n (record { tv_sec = t.tv_sec + 1; tv_nsec = t.tv_nsec - 1_000_000_000 })
            (omega arith) in
        rw more (omega arith, bound))
  | inr enough ↦ rw enough (refl, ground (arith, enough))
]

-- The deadline is later than the time by exactly the timeout, and its nanoseconds are at most
-- 1000000000.
pub add_timespec_lem :
    (a : Timespec) (b : ℕ)
    → (nanoseconds (add_timespec a b) ≡ nanoseconds a + b * 1_000_000)
      × ((add_timespec a b).tv_nsec ≤ 1_000_000_000)
unfolding add_timespec
add_timespec_lem a b =
    let nsec = a.tv_nsec + b % 1000 * 1_000_000 in
    let (same, bound) =
      carry_lem (nsec / 1_000_000_000) (record { tv_sec = a.tv_sec + b / 1000; tv_nsec = nsec })
        (omega arith) in
    (omega arith, bound)

-- Of times with less than a second of nanoseconds, `cmp_timespec` says which is later.
pub cmp_timespec_lem :
    (a b : Timespec)
    → a.tv_nsec < 1_000_000_000
    → b.tv_nsec < 1_000_000_000
    → ((cmp_timespec a b ≡ 1) ↔ (nanoseconds b < nanoseconds a))
      × ((cmp_timespec a b ≡ 2 ^ 32 - 1) ↔ (nanoseconds a < nanoseconds b))
      × ((cmp_timespec a b ≡ 0) ↔ (nanoseconds a ≡ nanoseconds b))
unfolding cmp_timespec
cmp_timespec_lem a b ha hb = (
  (λ h. ground arith, λ h. ground arith),
  (λ h. ground arith, λ h. ground arith),
  (λ h. ground arith, λ h. ground arith),
)

-- The difference of two times in order, less than 2^32 milliseconds apart and with less than a second of
-- nanoseconds, is their distance in milliseconds, rounded up or down.
pub diff_timespec_lem :
    (a b : Timespec)
    → nanoseconds b ≤ nanoseconds a
    → (a.tv_sec - b.tv_sec) * 1000 + 1000 < 2 ^ 32
    → a.tv_nsec < 1_000_000_000
    → b.tv_nsec < 1_000_000_000
    → (d : ℕ) × (diff_timespec a b ≡ some d)
      × (nanoseconds b + d * 1_000_000 < nanoseconds a + 1_000_000)
      × (nanoseconds a < nanoseconds b + (d + 1) * 1_000_000)
unfolding diff_timespec
diff_timespec_lem a b order near ha hb =
    let secs = a.tv_sec - b.tv_sec in
    let later : b.tv_sec ≤ a.tv_sec = omega (arith, order, ha, hb) in
    let total : (if ltb b.tv_sec a.tv_sec then secs * 1000 % 2 ^ 32 else 0) ≡ secs * 1000 =
      ground (arith, later, near) in
    let holds : (secs * 1000 == 0 && not (a.tv_sec == b.tv_sec)) ≡ false = ground (arith, later) in
    elim (Bool-cases (ltb b.tv_nsec a.tv_nsec)) [
      | inl more ↦
          (let lt = ltb→lt b.tv_nsec a.tv_nsec more in
            let small : (secs * 1000 + (a.tv_nsec - b.tv_nsec) / 1_000_000) % 2 ^ 32
                ≡ secs * 1000 + (a.tv_nsec - b.tv_nsec) / 1_000_000 =
              omega (arith, near, ha) in
            (
              secs * 1000 + (a.tv_nsec - b.tv_nsec) / 1_000_000,
              rw (total, holds, more, small) refl,
              omega (arith, later, lt),
              omega (arith, later, lt),
            ))
      | inr less ↦
          (let le : a.tv_nsec ≤ b.tv_nsec = ground (arith, less) in
            let small : (secs * 1000 + 2 ^ 32 - (b.tv_nsec - a.tv_nsec) / 1_000_000) % 2 ^ 32
                ≡ secs * 1000 - (b.tv_nsec - a.tv_nsec) / 1_000_000 =
              omega (arith, near, hb, le, order, later) in
            (
              secs * 1000 - (b.tv_nsec - a.tv_nsec) / 1_000_000,
              rw (total, holds, less, small) refl,
              omega (arith, later, le, order),
              omega (arith, later, le, order),
            ))
    ]
