-- ===== src/PollMgr/Epoll.antt =====
-- `EPollAIO` of lab/rpc/pollmgr.cc, over the `epoll_ctl` and the constants of the system.
pub mod Status
use Prim.Native.Nat.{bit_and, bit_or}
use ds14_project.Base.{
  ℕ, ◌-◌, ◌^◌, Bool, true, false, ◌&&◌, ◌||◌, List, [], ◌∷◌, ltb, ◌==◌, if◌then◌else◌, Option, some,
  none, not,
}
use ds14_project.PollMgr.{PollFlag, max_poll_fds}
use ds14_project.PollMgr.PollFlag.{cb_none, cb_rdonly, cb_wronly, cb_rdwr, cb_mask}

-- The values of `poll_flag` in 32 bits; CB_MASK is `~0x11`.
unfoldable pub flag_bits : PollFlag → ℕ
flag_bits cb_none = 0
flag_bits cb_rdonly = 1
flag_bits cb_wronly = 16
flag_bits cb_rdwr = 17
flag_bits cb_mask = 2 ^ 32 - 1 - 17

-- `~x` in 32 bits.
unfoldable pub complement : ℕ → ℕ
complement x = 2 ^ 32 - 1 - x

pub data Op : Type 0 where
  ctl_add : Op
  ctl_mod : Op
  ctl_del : Op

-- What <sys/epoll.h> gives, over a state `K` of the kernel: `none` is a result that is not 0.
pub record System (K : Type 0) : Type 0 where
  pub epoll_ctl : Op → (fd : ℕ) → (events : ℕ) → K → Option K
  pub epollin : ℕ
  pub epollout : ℕ
  pub epollet : ℕ

-- `fdstatus_`, with the kernel that `pollfd_` names.
pub record EpollAio (K : Type 0) : Type 0 where
  pub fdstatus : ℕ → ℕ
  pub kernel : K

module _ {K : Type 0} where
  unfoldable pub init_epoll : K → EpollAio K
  init_epoll k = record { fdstatus = λ i. 0; kernel = k }

  abbrev pub set_status : ℕ → ℕ → EpollAio K → EpollAio K
  set_status fd s a = record a { fdstatus = λ i. if i == fd then s else a.fdstatus i }

  unfoldable pub epoll_is_watched : ℕ → PollFlag → EpollAio K → Option Bool
  epoll_is_watched fd flag a =
      if ltb fd max_poll_fds
      then some (bit_and (a.fdstatus fd) (flag_bits cb_mask) == flag_bits flag)
      else none

module _ {K : Type 0} (o : System K) where
  -- `ev.events` for a status.
  unfoldable pub events_of : ℕ → ℕ
  events_of s =
      let e = if bit_and s 1 == 0 then o.epollet else bit_or o.epollet o.epollin in
      if bit_and s 16 == 0 then e else bit_or e o.epollout

  -- `assert(epoll_ctl(...) == 0)`
  unfoldable pub control : Op → ℕ → EpollAio K → Option (EpollAio K)
  control op fd a = elim (o.epoll_ctl op fd (events_of (a.fdstatus fd)) a.kernel) [
    | none ↦ none
    | some k ↦ some (record a { kernel = k })
  ]

  -- `none` is a failed assertion.
  unfoldable pub epoll_watch_fd : ℕ → PollFlag → EpollAio K → Option (EpollAio K)
  epoll_watch_fd fd flag a =
      let op = if a.fdstatus fd == 0 then Op.ctl_add else Op.ctl_mod in
      let s = bit_or (a.fdstatus fd) (flag_bits flag) in
      let whole = events_of s == bit_or (bit_or o.epollet o.epollin) o.epollout in
      if ltb fd max_poll_fds && (not (flag_bits flag == 17) || whole)
      then control op fd (set_status fd s a)
      else none

  -- Whether the descriptor was deleted, and the manager.
  unfoldable pub epoll_unwatch_fd : ℕ → PollFlag → EpollAio K → Option (Bool × EpollAio K)
  epoll_unwatch_fd fd flag a =
      let s = bit_and (a.fdstatus fd) (complement (flag_bits flag)) in
      let deletes = s == 0 in
      if ltb fd max_poll_fds && (not (flag_bits flag == 17) || deletes)
      then elim (control (if deletes then Op.ctl_del else Op.ctl_mod) fd (set_status fd s a)) [
        | none ↦ none
        | some b ↦ some (deletes, b)
      ]
      else none

  -- The loop over what `epoll_wait` gives, with the events and the descriptor of each; an error gives
  -- none.
  unfoldable pub epoll_wait_ready : List (ℕ × ℕ) → List ℕ × List ℕ
  epoll_wait_ready [] = ([], [])
  epoll_wait_ready ((events, fd) ∷ rest) =
      let (r, w) = epoll_wait_ready rest in
      (
        if bit_and events o.epollin == 0 then r else fd ∷ r,
        if bit_and events o.epollout == 0 then w else fd ∷ w,
      )
