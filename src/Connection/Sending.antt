-- ===== src/Connection/Sending.antt =====
-- `send` of lab/rpc/connection.cc under partial writes.
use ds14_project.Base.{
  ap, ◌∙◌, ltb, ◌==◌, if◌then◌else◌, Bool-cases, inl, inr, ℕ, ◌+◌, ◌-◌, ◌≤◌, ◌^◌, ◌<◌, ◌≡◌, refl,
  List, ◌∷◌, ◌++◌, Bool, true, false, take, drop, some, arith, append-nil, eq→==, if_false,
}
use ds14_project.RpcConst.{is_negative}
use ds14_project.Connection.{
  outcome, Connection, Wrote, send, send_begin, send_end, write_cbs, writepdu, write_some, returned,
  blocked,
}
use ds14_project.Connection.Writing.{
  frame, Fits, accepted, sending, broken, behind, write_cbs-done, write_cbs-broken,
  write_cbs-sending, accepted_le, accepted-wrote, accepted-again, accepted-failed, accepted-zero,
}

module _ (c : Connection) (sz : ℕ) (b : List ℕ) (pos : 0 < sz) (small : sz < 2 ^ 31) where
  nonzero : (0 == sz) ≡ false
  nonzero = ground (arith, pos)

  begun : Wrote → Connection
  begun (Wrote.wrote n) = sending c sz b n (if n == sz then c.wr else true)
  begun Wrote.again = sending c sz b 0 true
  begun Wrote.failed = broken c sz b 0

  writepdu-first :
      (r : Wrote)
      → writepdu r (record { buf = some b; sz = sz; solong = 0 })
        ≡ some (write_some r (frame sz b) (record { buf = some b; sz = sz; solong = 0 }))
  unfolding writepdu
  writepdu-first r = rw nonzero

  send_begin_lem : (r : Wrote) → c.dead ≡ false → send_begin r b sz c ≡ some (begun r)
  unfolding send_begin begun write_some drop take
  send_begin_lem (Wrote.wrote n) alive =
      let e : 0 + n ≡ n = omega arith in
      elim (Bool-cases (n == sz)) [
        | inl all ↦ rw (send_begin, writepdu-first (Wrote.wrote n), e, all, alive)
        | inr part ↦ rw (send_begin, writepdu-first (Wrote.wrote n), e, part, alive)
      ]
  send_begin_lem Wrote.again alive = rw (send_begin, writepdu-first Wrote.again, alive, nonzero)
  send_begin_lem Wrote.failed alive = rw (send_begin, writepdu-first Wrote.failed, append-nil)

  outcome-sending :
      (k : ℕ) (wr : Bool)
      → k ≤ sz
      → let o = outcome (sending c sz b k wr) in
        (o.0 ≡ (if k == sz then returned true else blocked))
        × (o.1.out ≡ c.out ++ take k (frame sz b))
        × (o.1.dead ≡ false)
  unfolding outcome send_end
  outcome-sending k wr h =
      let small_k : is_negative k ≡ false = ground (arith, h, small) in
      elim (Bool-cases (k == sz)) [
        | inl all ↦
            (let no_more : ltb k sz ≡ false = ground (arith, all) in
              rw (small_k, all, no_more) (refl, refl, refl))
        | inr part ↦
            (let more : ltb k sz ≡ true = ground (arith, h, part) in
              rw (small_k, part, more) (refl, refl, refl))
      ]

  abbrev ended : Bool → ℕ × Bool → Connection
  ended wr (n, true) = broken c sz b n
  ended wr (n, false) = sending c sz b n wr

  behind-ended : (k : ℕ) (p : ℕ × Bool) → behind c sz b pos small k p ≡ ended true (k + p.0, p.1)
  behind-ended k (n, true) = refl
  behind-ended k (n, false) = refl

  behind-ended_start : (p : ℕ × Bool) → behind c sz b pos small 0 p ≡ ended true p
  behind-ended_start (n, true) = let e : 0 + n ≡ n = omega arith in rw e
  behind-ended_start (n, false) = let e : 0 + n ≡ n = omega arith in rw e

  sent_all :
      (r : Wrote) (rs : List Wrote)
      → Fits sz (r ∷ rs)
      → (wr : Bool) × (write_cbs rs (begun r) ≡ some (ended wr (accepted sz (r ∷ rs))))
  unfolding begun
  sent_all (Wrote.wrote n) rs f = elim (Bool-cases (n == sz)) [
    | inl all ↦
        (let e : n ≡ sz = ground (arith, all) in
          let none_left : sz - sz ≡ 0 = omega arith in
          let sum : sz + 0 ≡ sz = omega arith in
          (
            c.wr,
            rw (e, eq→== sz sz refl, accepted-wrote sz sz rs pos, none_left, accepted-zero rs, sum)
                (write_cbs-done c sz b pos small rs c.wr),
          ))
    | inr part ↦ (
      true,
      rw (part, accepted-wrote sz n rs pos)
          (write_cbs-sending c sz b pos small rs n (sz - n) (omega (arith, f.0)) f.1
            ∙ ap some (behind-ended n (accepted (sz - n) rs))),
    )
  ]
  sent_all Wrote.again rs f = (
    true,
    rw (accepted-again sz rs) (
        write_cbs-sending c sz b pos small rs 0 sz (omega arith) f
        ∙ ap some (behind-ended_start (accepted sz rs))),
  )
  sent_all Wrote.failed rs f =
      (true, rw (accepted-failed sz rs pos) (write_cbs-broken c sz b pos small rs 0))

  outcome-ended :
      (wr : Bool) (p : ℕ × Bool)
      → p.0 ≤ sz
      → let o = outcome (ended wr p) in
        (o.0 ≡ (if p.1 then returned false else (if p.0 == sz then returned true else blocked)))
        × (o.1.out ≡ c.out ++ take p.0 (frame sz b))
        × (o.1.dead ≡ p.1)
  unfolding outcome send_end
  outcome-ended wr (n, true) h = (refl, refl, refl)
  outcome-ended wr (n, false) h = outcome-sending n wr h

  -- `send` of a pdu of one byte or more and less than 2^31 on a live connection, where a write takes no
  -- more than is left: the kernel has exactly the part of the pdu, with the size in its first four
  -- bytes, that the writes took; `send` returns true where that is all of it, false where a write
  -- failed before, and waits otherwise; the connection is dead afterwards exactly where one failed.
  pub send_lem :
      (r : Wrote) (rs : List Wrote)
      → c.dead ≡ false
      → Fits sz (r ∷ rs)
      → let (n, bad) = accepted sz (r ∷ rs) in
        (c' : Connection) × (send r rs b sz c
          ≡ some (if bad then returned false else (if n == sz then returned true else blocked), c'))
        × (c'.out ≡ c.out ++ take n (frame sz b))
        × (c'.dead ≡ bad)
  unfolding send
  send_lem r rs alive f =
      let (wr, run) = sent_all r rs f in
      let (res, out, dead) = outcome-ended wr (accepted sz (r ∷ rs)) (accepted_le (r ∷ rs) sz f) in
      (
        (outcome (ended wr (accepted sz (r ∷ rs)))).1,
        rw (send, send_begin_lem r alive, run, res) (if_false _ _ alive),
        out,
        dead,
      )
