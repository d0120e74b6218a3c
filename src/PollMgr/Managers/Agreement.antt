-- ===== src/PollMgr/Managers/Agreement.antt =====
-- The two `aio_mgr`s of lab/rpc/pollmgr.cc side by side.
use Prim.Native.Nat.{bit_and}
use ds14_project.Base.{
  ℕ, ◌≡◌, ◌≢◌, ◌<◌, refl, Bool, true, false, List, Option, some, none, lt→ltb, arith, ◌==◌,
}
use ds14_project.PollMgr.{PollFlag, SelectAio, init_aio}
use ds14_project.PollMgr.PollFlag.{cb_mask}
use ds14_project.PollMgr.Epoll.{System, EpollAio, init_epoll, epoll_is_watched, flag_bits}
use ds14_project.PollMgr.Epoll.Status.{status, is_used}
use ds14_project.PollMgr.Managers.{
  AioMgr, Watched, Refines, Request, IsProper, nothing, run, run_lem, answers_of,
}
use ds14_project.PollMgr.Managers.OverSelect.{select_mgr, select_mgr-Refines, init_aio-Stands}
use ds14_project.PollMgr.Managers.OverEpoll.{
  IsSystem, epoll_mgr, epoll_mgr-Refines, registered, init_epoll-Stands,
}

Refines-fewer :
    {S : Type 0} {mgr : AioMgr S} {P Q : ℕ → Type 0} {Rep : S → Watched → Type 0}
    → ((fd : ℕ) → P fd → Q fd)
    → Refines mgr Q Rep
    → Refines mgr P Rep
Refines-fewer f l = record {
  watch_lem = λ fd flag s w h. l.watch_lem fd flag s w (f fd h);
  unwatch_lem = λ fd flag s w h. l.unwatch_lem fd flag s w (f fd h);
}

masked :
    (r w : Bool) (flag : PollFlag)
    → is_used flag ≡ true
    → (bit_and (status r w) (flag_bits cb_mask) == flag_bits flag) ≡ false
unfolding flag_bits
masked r w flag used = ground arith

-- A descriptor of neither the pipe of the `select` nor beyond the table.
abbrev pub IsOrdinary : (pipe : ℕ) → ℕ → Type 0
IsOrdinary pipe fd = (fd ≢ pipe) × (fd < 128)

module _ {K : Type 0} (o : System K) (interest : K → ℕ → Option ℕ) (l : IsSystem o interest) where
  -- Over any calls of watch_fd and unwatch_fd with the flags that are used, on descriptors below
  -- MAX_POLL_FDS other than the pipe, where only what is watched is unwatched, a new SelectAIO, whose
  -- pipe takes the bytes that wake it, and a new EPollAIO fail no assertion and give the same answers;
  -- the kernel then has exactly the events that the sets of the select ask for. But is_watched of the
  -- EPollAIO answers no for every flag that is used.
  pub select-epoll :
      (pipe : ℕ) (k : K) (rs : List Request)
      → ((i : ℕ) → interest k i ≡ none)
      → IsProper (IsOrdinary pipe) rs nothing
      → (bs : List Bool) × (a : SelectAio) × (b : EpollAio K) × (run select_mgr rs (init_aio pipe)
          ≡ some (bs, a))
        × (run (epoll_mgr o) rs (init_epoll k) ≡ some (bs, b))
        × ((i : ℕ) → i ≢ pipe → interest b.kernel i ≡ registered o (a.rfds i) (a.wfds i))
        × ((i : ℕ) (flag : PollFlag)
            → i < 128
            → is_used flag ≡ true
            → epoll_is_watched i flag b ≡ some false)
  unfolding epoll_is_watched
  select-epoll pipe k rs empty proper =
      let ls = Refines-fewer (λ fd h. h.0) (select_mgr-Refines pipe) in
      let le = Refines-fewer (λ fd h. h.1) (epoll_mgr-Refines o interest l) in
      let (a, ea, sa) = run_lem ls rs (init_aio pipe) nothing proper (init_aio-Stands pipe) in
      let (b, eb, sb) =
        run_lem le rs (init_epoll k) nothing proper (init_epoll-Stands o interest k empty) in
      (
        answers_of rs nothing,
        a,
        b,
        ea,
        eb,
        λ i other. (let (r, w) = sa.sets i other in rw (r, w) (sb.kernel i)),
        λ i flag small used.
            rw (epoll_is_watched, lt→ltb i 128 small, sb.statuses i, masked _ _ flag used) refl,
      )
