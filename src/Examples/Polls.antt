-- ===== src/Examples/Polls.antt =====
-- An `epoll` that keeps its descriptors in a table, and a few calls of the poll manager.
use ds14_project.Base.{
  ℕ, ◌^◌, ◌≡◌, ◌≢◌, ◌<◌, refl, Bool, true, false, List, [], ◌∷◌, Option, some, none, arith,
}
use ds14_project.PollMgr.{PollFlag, SelectAio, init_aio}
use ds14_project.PollMgr.PollFlag.{cb_rdonly, cb_wronly, cb_rdwr}
use ds14_project.PollMgr.Epoll.{System, EpollAio, Op, init_epoll, epoll_is_watched}
use ds14_project.PollMgr.Epoll.Op.{ctl_add, ctl_mod, ctl_del}
use ds14_project.PollMgr.Epoll.Status.{is_used}
use ds14_project.PollMgr.Managers.{Request, run}
use ds14_project.PollMgr.Managers.Request.{watch, unwatch}
use ds14_project.PollMgr.Managers.OverSelect.{select_mgr}
use ds14_project.PollMgr.Managers.OverEpoll.{IsSystem, epoll_mgr, register, registered}
use ds14_project.PollMgr.Managers.Agreement.{select-epoll, IsOrdinary}

abbrev Table : Type 0
Table = ℕ → Option ℕ

abbrev table_ctl : Op → ℕ → ℕ → Table → Option Table
table_ctl ctl_add fd e k = elim (k fd) [ none ↦ some (register fd (some e) k) | some d ↦ none ]
table_ctl ctl_mod fd e k = elim (k fd) [ none ↦ none | some d ↦ some (register fd (some e) k) ]
table_ctl ctl_del fd e k = elim (k fd) [ none ↦ none | some d ↦ some (register fd none k) ]

abbrev table_system : System Table
table_system = record { epoll_ctl = table_ctl; epollin = 1; epollout = 4; epollet = 2 ^ 31 }

table_system-IsSystem : IsSystem table_system (λ k. k)
table_system-IsSystem = record {
  added = λ fd e k h. (_, rw (table_ctl, h) refl, refl);
  modified = λ fd e e0 k h. (_, rw (table_ctl, h) refl, refl);
  deleted = λ fd e e0 k h. (_, rw (table_ctl, h) refl, refl);
}

abbrev requests : List Request
requests =
    watch 5 cb_rdonly
    ∷ watch 7 cb_rdwr
    ∷ watch 5 cb_wronly
    ∷ unwatch 5 cb_rdonly
    ∷ unwatch 7 cb_rdwr
    ∷ []

away : (fd : ℕ) → 3 < fd → fd < 128 → IsOrdinary 3 fd
away fd h k = (omega (arith, h), k)

abbrev empty : Table
empty = λ i. none

select-epoll_example :
    (bs : List Bool) × (a : SelectAio) × (b : EpollAio Table) × (run select_mgr requests
        (init_aio 3)
      ≡ some (bs, a))
    × (run (epoll_mgr table_system) requests (init_epoll empty) ≡ some (bs, b))
    × ((i : ℕ) → i ≢ 3 → b.kernel i ≡ registered table_system (a.rfds i) (a.wfds i))
    × ((i : ℕ) (flag : PollFlag)
        → i < 128
        → is_used flag ≡ true
        → epoll_is_watched i flag b ≡ some false)
select-epoll_example =
    let d5 = away 5 (omega arith) (omega arith) in
    let d7 = away 7 (omega arith) (omega arith) in
    select-epoll table_system (λ k. k) table_system-IsSystem 3 empty requests (λ i. refl)
      (d5, refl, (d7, refl, (d5, refl, (d5, refl, refl, (d7, refl, refl, tt)))))
