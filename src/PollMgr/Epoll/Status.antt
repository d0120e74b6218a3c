-- ===== src/PollMgr/Epoll/Status.antt =====
-- `fdstatus_` of lab/rpc/pollmgr.h: one bit for each direction.
use Prim.Native.Nat.{bit_and, bit_or}
use ds14_project.Base.{arith, ℕ, ◌≡◌, Bool, true, false, ◌||◌, ◌&&◌, not}
use ds14_project.PollMgr.{PollFlag}
use ds14_project.PollMgr.PollFlag.{cb_none, cb_rdonly, cb_wronly, cb_rdwr, cb_mask}
use ds14_project.PollMgr.Epoll.{flag_bits, complement}

-- The status of a descriptor that is watched for reading, and for writing.
abbrev pub status : (reading writing : Bool) → ℕ
status false false = 0
status true false = 1
status false true = 16
status true true = 17

-- Whether a flag asks for reading, and for writing.
abbrev pub reads : PollFlag → Bool
reads cb_rdonly = true
reads cb_rdwr = true
reads _ = false

abbrev pub writes : PollFlag → Bool
writes cb_wronly = true
writes cb_rdwr = true
writes _ = false

-- One of the flags that the connections use.
abbrev pub is_used : PollFlag → Bool
is_used flag = reads flag || writes flag

pub status_add :
    (r w : Bool) (flag : PollFlag)
    → is_used flag ≡ true
    → bit_or (status r w) (flag_bits flag) ≡ status (r || reads flag) (w || writes flag)
unfolding flag_bits
status_add r w cb_none h = cc
status_add r w cb_mask h = cc
status_add r w flag h = ground arith

pub status_remove :
    (r w : Bool) (flag : PollFlag)
    → is_used flag ≡ true
    → bit_and (status r w) (complement (flag_bits flag))
      ≡ status (r && not (reads flag)) (w && not (writes flag))
unfolding flag_bits complement
status_remove r w cb_none h = cc
status_remove r w cb_mask h = cc
status_remove r w flag h = ground arith
