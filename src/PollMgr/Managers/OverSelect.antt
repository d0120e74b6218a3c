-- ===== src/PollMgr/Managers/OverSelect.antt =====
-- `SelectAIO` of lab/rpc/pollmgr.cc as an `aio_mgr`.
use ds14_project.Base.{
  ℕ, ◌≡◌, ◌≢◌, refl, ◌∙◌, Bool, true, not, ◌&&◌, ◌==◌, some, Bool-cases, inl, inr, arith,
}
use ds14_project.PollMgr.{
  PollFlag, SelectAio, init_aio, watches, watch_set, watch_fd, wakes, unwatch_fd, clear_flag,
  lower_highfds, wake,
}
use ds14_project.PollMgr.PollFlag.{cb_none, cb_rdonly, cb_wronly, cb_rdwr, cb_mask}
use ds14_project.PollMgr.Epoll.Status.{is_used}
use ds14_project.PollMgr.Managers.{AioMgr, Watched, Refines, hold, release, nothing}

-- Every write to the pipe of the manager succeeds.
abbrev pub select_mgr : AioMgr SelectAio
select_mgr = record { watch = watch_fd true; unwatch = unwatch_fd true }

-- The sets hold the view, but for the pipe of the manager.
pub record Stands (pipe : ℕ) (a : SelectAio) (w : Watched) : Type 0 where
  pub pipe_is : a.pipefd ≡ pipe
  pub sets : (i : ℕ) → i ≢ pipe → (a.rfds i ≡ w.reading i) × (a.wfds i ≡ w.writing i)

pub init_aio-Stands : (pipe : ℕ) → Stands pipe (init_aio pipe) nothing
unfolding init_aio
init_aio-Stands pipe = record { pipe_is = refl; sets = λ i h. ground (arith, h) }

-- Waking the `select` and lowering its bound leave the sets.
wake_sets :
    (flag : PollFlag) (a : SelectAio)
    → let b = wake flag a in (b.rfds ≡ a.rfds) × (b.wfds ≡ a.wfds) × (b.pipefd ≡ a.pipefd)
unfolding wake
wake_sets cb_rdwr a = (refl, refl, refl)
wake_sets flag a = (refl, refl, refl)

lower_highfds_sets :
    (fd : ℕ) (a : SelectAio)
    → let b = lower_highfds fd a in (b.rfds ≡ a.rfds) × (b.wfds ≡ a.wfds) × (b.pipefd ≡ a.pipefd)
unfolding lower_highfds
lower_highfds_sets fd a = elim (Bool-cases (not (watches a fd) && fd == a.highfds)) [
  | inl e ↦ rw e (refl, refl, refl)
  | inr e ↦ rw e (refl, refl, refl)
]

clear_flag-Stands :
    (fd : ℕ) (flag : PollFlag) (pipe : ℕ) (a : SelectAio) (w : Watched)
    → is_used flag ≡ true
    → Stands pipe a w
    → (b : SelectAio) × (clear_flag fd flag a ≡ some b) × Stands pipe b (release fd flag w)
unfolding clear_flag
clear_flag-Stands fd cb_none pipe a w used s = cc
clear_flag-Stands fd cb_mask pipe a w used s = cc
clear_flag-Stands fd cb_rdonly pipe a w used s =
    (_, refl, record { pipe_is = s.pipe_is; sets = λ i h. ground (arith, s.sets i h) })
clear_flag-Stands fd cb_wronly pipe a w used s =
    (_, refl, record { pipe_is = s.pipe_is; sets = λ i h. ground (arith, s.sets i h) })
clear_flag-Stands fd cb_rdwr pipe a w used s =
    (_, refl, record { pipe_is = s.pipe_is; sets = λ i h. ground (arith, s.sets i h) })

watch_set-Stands :
    (fd : ℕ) (flag : PollFlag) (pipe : ℕ) (a : SelectAio) (w : Watched)
    → is_used flag ≡ true
    → Stands pipe a w
    → Stands pipe (watch_set fd flag a) (hold fd flag w)
unfolding watch_set
watch_set-Stands fd cb_none pipe a w used s = cc
watch_set-Stands fd cb_mask pipe a w used s = cc
watch_set-Stands fd cb_rdonly pipe a w used s = record {
  pipe_is = s.pipe_is;
  sets = λ i h. ground (arith, s.sets i h);
}
watch_set-Stands fd cb_wronly pipe a w used s = record {
  pipe_is = s.pipe_is;
  sets = λ i h. ground (arith, s.sets i h);
}
watch_set-Stands fd cb_rdwr pipe a w used s = record {
  pipe_is = s.pipe_is;
  sets = λ i h. ground (arith, s.sets i h);
}

same-Stands :
    (pipe : ℕ) (a b : SelectAio) (w : Watched)
    → (b.rfds ≡ a.rfds) × (b.wfds ≡ a.wfds) × (b.pipefd ≡ a.pipefd)
    → Stands pipe a w
    → Stands pipe b w
same-Stands pipe a b w (r, wr, p) s = record {
  pipe_is = p ∙ s.pipe_is;
  sets = λ i h. rw (r, wr) (s.sets i h);
}

always_wakes : (flag : PollFlag) → wakes true flag ≡ true
unfolding wakes
always_wakes flag = ground arith

unwatch_fd_by :
    (fd : ℕ) (flag : PollFlag) (a b : SelectAio) (held : Bool)
    → clear_flag fd flag a ≡ some b
    → watches (wake flag (lower_highfds fd b)) fd ≡ held
    → unwatch_fd true fd flag a ≡ some (not held, wake flag (lower_highfds fd b))
unfolding unwatch_fd
unwatch_fd_by fd flag a b held e h = rw (unwatch_fd, e, always_wakes flag, h)

pub select_mgr-Refines : (pipe : ℕ) → Refines select_mgr (λ fd. fd ≢ pipe) (Stands pipe)
unfolding watch_fd
select_mgr-Refines pipe = record {
  watch_lem = λ fd flag a w other used s.
      (watch_set fd flag a, refl, watch_set-Stands fd flag pipe a w used s);
  unwatch_lem = λ fd flag a w other used held s.
      let (b, e, sb) = clear_flag-Stands fd flag pipe a w used s in
      let c = lower_highfds fd b in
      let sc = same-Stands pipe b c (release fd flag w) (lower_highfds_sets fd b) sb in
      let sd = same-Stands pipe c (wake flag c) (release fd flag w) (wake_sets flag c) sc in
      let (r, wr) = sd.sets fd other in
      (wake flag c, unwatch_fd_by fd flag a b _ e (rw (r, wr) refl), sd);
}
