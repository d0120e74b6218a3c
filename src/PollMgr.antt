-- ===== src/PollMgr.antt =====
-- lab/rpc/pollmgr.h and lab/rpc/pollmgr.cc: the poll manager and its `select`. A callback is known
-- by the number of its connection, and the answers of `select` are arguments.
pub mod Select
pub mod Registered
pub mod Managers
pub mod Epoll
use ds14_project.Base.{
  ◌-◌, ℕ, zero, suc, ◌+◌, Bool, true, false, not, ◌&&◌, ◌||◌, List, [], ◌∷◌, ◌++◌, ltb, leb, ◌==◌,
  if◌then◌else◌, Option, some, none,
}

-- `MAX_POLL_FDS`
abbrev pub max_poll_fds : ℕ
max_poll_fds = 128

-- `poll_flag`
pub data PollFlag : Type 0 where
  cb_none : PollFlag
  cb_rdonly : PollFlag
  cb_wronly : PollFlag
  cb_rdwr : PollFlag
  cb_mask : PollFlag

-- `fd_set`
abbrev pub FdSet : Type 0
FdSet = ℕ → Bool

abbrev pub fd_set : ℕ → FdSet → FdSet
fd_set fd s = λ i. if i == fd then true else s i

abbrev pub fd_clr : ℕ → FdSet → FdSet
fd_clr fd s = λ i. if i == fd then false else s i

-- `SelectAIO`, with the number of bytes in its pipe.
pub record SelectAio : Type 0 where
  pub rfds : FdSet
  pub wfds : FdSet
  pub highfds : ℕ
  pub pipefd : ℕ
  pub bytes : ℕ

unfoldable pub init_aio : (pipefd : ℕ) → SelectAio
init_aio pipefd = record {
  rfds = fd_set pipefd (λ i. false);
  wfds = λ i. false;
  highfds = pipefd;
  pipefd = pipefd;
  bytes = 0;
}

abbrev pub watches : SelectAio → ℕ → Bool
watches a fd = a.rfds fd || a.wfds fd

-- The sets behind `watch_fd`, and the byte in the pipe.
unfoldable pub watch_set : ℕ → PollFlag → SelectAio → SelectAio
watch_set fd flag a =
    let b : SelectAio = record a {
      highfds = if leb a.highfds fd then fd else a.highfds;
      bytes = a.bytes + 1;
    } in
    elim flag [
      | cb_rdonly ↦ record b { rfds = fd_set fd a.rfds }
      | cb_wronly ↦ record b { wfds = fd_set fd a.wfds }
      | _ ↦ record b { rfds = fd_set fd a.rfds; wfds = fd_set fd a.wfds }
    ]

-- `none` is the failed assertion on the write to the pipe, whose outcome `written` says.
unfoldable pub watch_fd : (written : Bool) → ℕ → PollFlag → SelectAio → Option SelectAio
watch_fd written fd flag a = if written then some (watch_set fd flag a) else none

pub is_watched : ℕ → PollFlag → SelectAio → Bool
is_watched fd cb_rdonly a = a.rfds fd
is_watched fd cb_wronly a = a.wfds fd
is_watched fd flag a = a.rfds fd && a.wfds fd

-- The loop that looks for the highest descriptor below a number.
unfoldable pub last_watched : SelectAio → ℕ → (newh : ℕ) → ℕ
last_watched a zero newh = newh
last_watched a (suc n) newh =
    let before = last_watched a n newh in if watches a n then n else before

-- The descriptor without the flag; `none` is the failed assertion.
unfoldable pub clear_flag : ℕ → PollFlag → SelectAio → Option SelectAio
clear_flag fd cb_rdonly a = some (record a { rfds = fd_clr fd a.rfds })
clear_flag fd cb_wronly a = some (record a { wfds = fd_clr fd a.wfds })
clear_flag fd cb_rdwr a = some (record a { wfds = fd_clr fd a.wfds; rfds = fd_clr fd a.rfds })
clear_flag fd flag a = none

unfoldable pub lower_highfds : ℕ → SelectAio → SelectAio
lower_highfds fd a =
    if not (watches a fd) && fd == a.highfds
    then record a { highfds = last_watched a (suc a.highfds) a.pipefd }
    else a

-- A whole removal wakes the `select`.
unfoldable pub wake : PollFlag → SelectAio → SelectAio
wake cb_rdwr a = record a { bytes = a.bytes + 1 }
wake flag a = a

-- The assertion on that write; only a whole removal writes.
unfoldable pub wakes : (written : Bool) → PollFlag → Bool
wakes written cb_rdwr = written
wakes written flag = true

-- Whether nothing is watched any more, and the manager.
unfoldable pub unwatch_fd : (written : Bool) → ℕ → PollFlag → SelectAio → Option (Bool × SelectAio)
unwatch_fd written fd flag a = elim (clear_flag fd flag a) [
  | none ↦ none
  | some b ↦
      (let c = lower_highfds fd b in
        let d = wake flag c in if wakes written flag then some (not (watches d fd), d) else none)
]

-- What `select` answers: the descriptors that are ready among those it was given, or an error.
pub data Selected : Type 0 where
  ready : FdSet → FdSet → Selected
  interrupted : Selected
  select_failed : Selected

-- The loop over the descriptors below a number, for the readable ones; the pipe's is left out.
unfoldable pub collect : (pipefd : ℕ) → FdSet → ℕ → List ℕ
collect pipefd s zero = []
collect pipefd s (suc n) =
    let before = collect pipefd s n in if s n && not (n == pipefd) then before ++ n ∷ [] else before

-- The pipe is left out of the writable ones only where it is readable.
unfoldable pub collect_writable : (pipefd : ℕ) → (r w : FdSet) → ℕ → List ℕ
collect_writable pipefd r w zero = []
collect_writable pipefd r w (suc n) =
    let before = collect_writable pipefd r w n in
    if w n && not (n == pipefd && r n) then before ++ n ∷ [] else before

-- A byte is read from the pipe that is ready; `none` is a failed assertion.
unfoldable pub wait_ready : Selected → SelectAio → Option (List ℕ × List ℕ × SelectAio)
wait_ready (ready r w) a =
    if r a.pipefd
    then (if a.bytes == 0
        then none
        else some (
          collect a.pipefd r (suc a.highfds),
          collect_writable a.pipefd r w (suc a.highfds),
          record a { bytes = a.bytes - 1 },
        ))
    else some (collect a.pipefd r (suc a.highfds), collect_writable a.pipefd r w (suc a.highfds), a)
wait_ready interrupted a = some ([], [], a)
wait_ready select_failed a = none

-- `PollMgr`; `pending` is `pending_change_`.
pub record PollMgr : Type 0 where
  pub callbacks : ℕ → Option ℕ
  pub aio : SelectAio
  pub pending : Bool

abbrev pub init : (pipefd : ℕ) → PollMgr
init pipefd = record { callbacks = λ fd. none; aio = init_aio pipefd; pending = false }

abbrev pub set_callback : ℕ → Option ℕ → PollMgr → PollMgr
set_callback fd cb m = record m { callbacks = λ i. if i == fd then cb else m.callbacks i }

-- `!callbacks_[fd] || callbacks_[fd] == ch`
abbrev pub free_for : ℕ → Option ℕ → Bool
free_for ch none = true
free_for ch (some old) = old == ch

-- `none` is a failed assertion.
unfoldable pub add_callback : (written : Bool) → ℕ → PollFlag → (ch : ℕ) → PollMgr → Option PollMgr
add_callback written fd flag ch m = elim (watch_fd written fd flag m.aio) [
  | none ↦ none
  | some a ↦
      if ltb fd max_poll_fds && free_for ch (m.callbacks fd)
      then some (set_callback fd (some ch) (record m { aio = a }))
      else none
]

unfoldable pub del_callback : (written : Bool) → ℕ → PollFlag → PollMgr → Option PollMgr
del_callback written fd flag m = elim (unwatch_fd written fd flag m.aio) [
  | none ↦ none
  | some (gone, a) ↦
      (let m' = record m { aio = a } in some (if gone then set_callback fd none m' else m'))
]

pub has_callback : ℕ → PollFlag → (c : ℕ) → PollMgr → Bool
has_callback fd flag c m = elim (m.callbacks fd) [
  | none ↦ false
  | some old ↦ if old == c then is_watched fd flag m.aio else false
]

-- `block_remove_fd` up to its wait, and behind it.
unfoldable pub block_remove_begin : (written : Bool) → ℕ → PollMgr → Option PollMgr
block_remove_begin written fd m = elim (unwatch_fd written fd cb_rdwr m.aio) [
  | none ↦ none
  | some (gone, a) ↦ some (record m { aio = a; pending = true })
]

unfoldable pub block_remove_end : ℕ → PollMgr → PollMgr
block_remove_end fd m = set_callback fd none m

-- The start of a round of `wait_loop`: whether the waiting threads are woken.
unfoldable pub wait_loop_begin : PollMgr → Bool × PollMgr
wait_loop_begin m = (m.pending, record m { pending = false })

-- The callbacks of a round on the descriptors that are ready, where none of them changes the table.
unfoldable pub calls : (ℕ → Option ℕ) → List ℕ → List ℕ
calls callbacks [] = []
calls callbacks (fd ∷ fds) = elim (callbacks fd) [
  | none ↦ calls callbacks fds
  | some ch ↦ ch ∷ calls callbacks fds
]
