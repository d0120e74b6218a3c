-- ===== src/RpcClient/Wait.antt =====
-- The loop of `rpcc::call1` in lab/rpc/rpc.cc: a call sends its request, waits for the reply with a
-- deadline that doubles, and sends again where its connection is gone.
pub mod Ends
use ds14_project.Base.{
  ℕ, ◌+◌, ◌*◌, ◌%◌, ◌^◌, Bool, true, false, not, ◌&&◌, ◌||◌, List, [], ◌∷◌, ◌==◌, if◌then◌else◌,
}
use ds14_project.Deadline.{Timespec, cmp_timespec, add_timespec}

-- `rpcc::to_min` and `rpcc::to_max`, in milliseconds.
abbrev pub to_min : ℕ
to_min = 1000

abbrev pub to_max : ℕ
to_max = 120_000

-- What one round meets: whether `get_refconn` finds a connection, the clock, whether the reply is
-- there when the wait is over, and whether the connection is dead by then.
pub record Round : Type 0 where
  pub connected : Bool
  pub now : Timespec
  pub done : Bool
  pub dead : Bool

-- `ch` is whether the call has a connection; `sends` counts what it sent.
pub record Waiting : Type 0 where
  pub curr_to : ℕ
  pub finaldeadline : Timespec
  pub transmit : Bool
  pub ch : Bool
  pub sends : ℕ

pub data Outcome : Type 0 where
  ended : (sends : ℕ) → Outcome
  again : Waiting → Outcome

-- Before the loop, at this time.
abbrev pub first_wait : Timespec → (to : ℕ) → Waiting
first_wait now to = record {
  curr_to = to_min;
  finaldeadline = add_timespec now to;
  transmit = true;
  ch = false;
  sends = 0;
}

-- `if (transmit)`
unfoldable pub transmitted : Round → Waiting → Waiting
transmitted r w =
    if w.transmit
    then record w {
      transmit = false;
      ch = w.ch || r.connected;
      sends = if w.ch || r.connected then w.sends + 1 else w.sends;
    }
    else w

-- The deadline of the call is set to 0 where the next wait would reach behind it.
unfoldable pub final_after : Round → Waiting → Timespec
final_after r w =
    if cmp_timespec (add_timespec r.now w.curr_to) w.finaldeadline == 1
    then record { tv_sec = 0; tv_nsec = Timespec.tv_nsec w.finaldeadline }
    else w.finaldeadline

unfoldable pub round : (retrans : Bool) → Round → Waiting → Outcome
round retrans r w0 =
    let w = transmitted r w0 in
    if Timespec.tv_sec w.finaldeadline == 0
    then ended w.sends
    else (if r.done
        then ended w.sends
        else again (record w {
          curr_to = w.curr_to * 2 % 2 ^ 32;
          finaldeadline = final_after r w;
          transmit = w.transmit || (retrans && (not w.ch || r.dead));
        }))

-- `again` stands for a loop that goes on behind these rounds.
unfoldable pub wait_loop : (retrans : Bool) → List Round → Waiting → Outcome
wait_loop retrans [] w = again w
wait_loop retrans (r ∷ rs) w = elim (round retrans r w) [
  | ended n ↦ ended n
  | again w' ↦ wait_loop retrans rs w'
]
