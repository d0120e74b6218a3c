-- ===== src/RpcClient/Wait/Ends.antt =====
-- The rounds of the loop of `rpcc::call1`, counted.
use ds14_project.Base.{
  ℕ, zero, suc, ◌+◌, ◌*◌, ◌%◌, ◌^◌, ◌≤◌, ◌<◌, ◌≡◌, ◌⊎◌, inl, inr, refl, ◌∙◌, Bool, true, false, not,
  ◌&&◌, ◌||◌, List, [], ◌∷◌, ◌==◌, length, All, arith, Bool-cases, ap, if_true, if_false, eq→==,
}
use ds14_project.Deadline.{Timespec, cmp_timespec, add_timespec}
use ds14_project.Deadline.Order.{nanoseconds, add_timespec_lem}
use ds14_project.RpcClient.Wait.{
  Round, Waiting, Outcome, ended, again, first_wait, to_max, transmitted, final_after, round,
  wait_loop,
}

cmp-later :
    (a b : Timespec)
    → a.tv_nsec ≤ 1_000_000_000
    → b.tv_nsec ≤ 1_000_000_000
    → nanoseconds b < nanoseconds a
    → cmp_timespec a b ≡ 1
unfolding cmp_timespec
cmp-later a b ha hb h = ground arith

abbrev may_send : Bool → ℕ
may_send true = 1
may_send false = 0

-- At most one request so far, and none to come if there was one.
abbrev pub SendsOnce : Outcome → Type 0
SendsOnce (ended n) = n ≤ 1
SendsOnce (again w) = w.sends + may_send w.transmit ≤ 1

round-SendsOnce : (r : Round) (w : Waiting) → SendsOnce (again w) → SendsOnce (round false r w)
unfolding round transmitted
round-SendsOnce r w h = ground arith

rest-SendsOnce :
    (rs : List Round)
    → ((w : Waiting) → SendsOnce (again w) → SendsOnce (wait_loop false rs w))
    → (o : Outcome) → SendsOnce o
    → SendsOnce (elim o as (λ _. Outcome) [ ended n ↦ ended n | again w ↦ wait_loop false rs w ])
rest-SendsOnce rs loop (ended n) k = k
rest-SendsOnce rs loop (again w) k = loop w k

loop-SendsOnce :
    (rs : List Round) (w : Waiting) → SendsOnce (again w) → SendsOnce (wait_loop false rs w)
unfolding wait_loop
loop-SendsOnce [] w h = h
loop-SendsOnce (r ∷ rs) w h =
    rest-SendsOnce rs (loop-SendsOnce rs) (round false r w) (round-SendsOnce r w h)

-- A call of a client without retransmission sends its request at most once, whatever its rounds
-- meet.
pub first_wait-SendsOnce :
    (now : Timespec) (to : ℕ) (rs : List Round) → SendsOnce (wait_loop false rs (first_wait now to))
first_wait-SendsOnce now to rs = loop-SendsOnce rs (first_wait now to) (omega arith)

-- The timeout of a round, after so many more.
abbrev doubled : ℕ → ℕ → ℕ
doubled zero c = c
doubled (suc n) c = doubled n (c * 2)

le-doubled : (n c : ℕ) → c ≤ doubled n c
le-doubled zero c = omega arith
le-doubled (suc n) c = omega (arith, le-doubled n (c * 2))

transmitted_frame :
    (r : Round) (w : Waiting)
    → ((transmitted r w).finaldeadline ≡ w.finaldeadline) × ((transmitted r w).curr_to ≡ w.curr_to)
unfolding transmitted
transmitted_frame r w = ground arith

abbrev pub IsEnded : Outcome → Type 0
IsEnded o = (n : ℕ) × (o ≡ ended n)

-- A round ends the call, or goes on with twice the timeout.
round_cases :
    (retrans : Bool) (r : Round) (w : Waiting)
    → IsEnded (round retrans r w)
      ⊎ ((w' : Waiting) × (round retrans r w ≡ again w')
          × (w'.curr_to ≡ w.curr_to * 2 % 2 ^ 32)
          × (w'.finaldeadline ≡ final_after r w))
unfolding round final_after
round_cases retrans r w =
    let w1 = transmitted r w in
    let (final, to) = transmitted_frame r w in
    elim (Bool-cases (Timespec.tv_sec w1.finaldeadline == 0)) [
      | inl z ↦ inl (w1.sends, if_true _ _ z)
      | inr z ↦ (elim (Bool-cases r.done) [
        | inl d ↦ inl (w1.sends, if_false _ _ z ∙ if_true _ _ d)
        | inr d ↦ inr (
          record w1 {
            curr_to = w1.curr_to * 2 % 2 ^ 32;
            finaldeadline = final_after r w1;
            transmit = w1.transmit || (retrans && (not w1.ch || r.dead));
          },
          if_false _ _ z ∙ if_false _ _ d,
          rw to,
          rw (final, to),
        )
      ])
    ]

zero_ends :
    (retrans : Bool) (r : Round) (w : Waiting)
    → Timespec.tv_sec w.finaldeadline ≡ 0
    → IsEnded (round retrans r w)
unfolding round
zero_ends retrans r w z =
    let w1 = transmitted r w in
    (
      w1.sends,
      if_true _ _ (
          eq→== (Timespec.tv_sec w1.finaldeadline) 0
            (ap Timespec.tv_sec (transmitted_frame r w).0 ∙ z)),
    )

loop_of :
    (retrans : Bool) (r : Round) (rs : List Round) (w w' : Waiting)
    → round retrans r w ≡ again w'
    → wait_loop retrans (r ∷ rs) w ≡ wait_loop retrans rs w'
unfolding wait_loop
loop_of retrans r rs w w' e = rw (e, wait_loop)

round-IsEnded :
    (retrans : Bool) (r : Round) (rs : List Round) (w : Waiting)
    → IsEnded (round retrans r w)
    → IsEnded (wait_loop retrans (r ∷ rs) w)
unfolding wait_loop
round-IsEnded retrans r rs w (n, e) = (n, rw (e, wait_loop))

-- Where the deadline is 0, the next round is the last.
zero_loop :
    (retrans : Bool) (rs : List Round) (w : Waiting)
    → Timespec.tv_sec w.finaldeadline ≡ 0
    → 1 ≤ length rs
    → IsEnded (wait_loop retrans rs w)
zero_loop retrans [] w z long = absurd (omega (arith, long))
zero_loop retrans (r ∷ rs) w z long = round-IsEnded retrans r rs w (zero_ends retrans r w z)

-- The clock is not behind the start of the call.
abbrev pub NotBefore : Timespec → Round → Type 0
NotBefore start r = nanoseconds start ≤ nanoseconds r.now

module _ (retrans : Bool) (start : Timespec) (to : ℕ) where
  abbrev deadline : Timespec
  deadline = add_timespec start to

  late :
      (r : Round) (w : Waiting)
      → w.finaldeadline ≡ deadline
      → NotBefore start r
      → to < w.curr_to
      → Timespec.tv_sec (final_after r w) ≡ 0
  unfolding final_after
  late r w f n h =
      let (sum, bound) = add_timespec_lem r.now w.curr_to in
      let (sum', bound') = add_timespec_lem start to in
      rw (f, cmp-later (add_timespec r.now w.curr_to) deadline bound bound' (omega arith))

  kept_or_zero :
      (r : Round) (w : Waiting)
      → (Timespec.tv_sec (final_after r w) ≡ 0) ⊎ (final_after r w ≡ w.finaldeadline)
  unfolding final_after
  kept_or_zero r w =
      elim (Bool-cases (cmp_timespec (add_timespec r.now w.curr_to) w.finaldeadline == 1)) [
        | inl z ↦ inl (ap Timespec.tv_sec (if_true _ _ z))
        | inr z ↦ inr (if_false _ _ z)
      ]

  loop-IsEnded :
      (n : ℕ) (rs : List Round) (w : Waiting)
      → w.finaldeadline ≡ deadline
      → to < doubled n w.curr_to
      → doubled n w.curr_to < 2 ^ 31
      → n + 2 ≤ length rs
      → All (NotBefore start) rs
      → IsEnded (wait_loop retrans rs w)
  loop-IsEnded n [] w f h small long later = absurd (omega (arith, long))
  loop-IsEnded zero (r ∷ rs) w f h small long (l, later) = elim (round_cases retrans r w) [
    | inl e ↦ round-IsEnded retrans r rs w e
    | inr (w', e, curr, final) ↦
        rw (loop_of retrans r rs w w' e) (
          zero_loop retrans rs w' (ap Timespec.tv_sec final ∙ late r w f l h) (omega (arith, long)))
  ]
  loop-IsEnded (suc n) (r ∷ rs) w f h small long (l, later) = elim (round_cases retrans r w) [
    | inl e ↦ round-IsEnded retrans r rs w e
    | inr (w', e, curr, final) ↦
        (let twice : w'.curr_to ≡ w.curr_to * 2 =
            omega (arith, curr, small, le-doubled n (w.curr_to * 2)) in
          rw (loop_of retrans r rs w w' e) (elim (kept_or_zero r w) [
            | inl z ↦ zero_loop retrans rs w' (ap Timespec.tv_sec final ∙ z) (omega (arith, long))
            | inr same ↦
                loop-IsEnded n rs w' (final ∙ same ∙ f) (rw twice h) (rw twice small)
                  (omega (arith, long)) later
          ]))
  ]

-- A call with a timeout of at most `to_max` ends within nine rounds of its loop, whatever they meet,
-- while the clock is not behind the start of the call.
pub wait_loop-IsEnded :
    (retrans : Bool) (now : Timespec) (to : ℕ) (rs : List Round)
    → to ≤ to_max
    → 9 ≤ length rs
    → All (NotBefore now) rs
    → IsEnded (wait_loop retrans rs (first_wait now to))
wait_loop-IsEnded retrans now to rs short long later =
    loop-IsEnded retrans now to 7 rs (first_wait now to) refl (omega arith) (omega arith)
      (omega (arith, long)) later
