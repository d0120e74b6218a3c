-- ===== src/PollMgr/Managers/OverEpoll.antt =====
-- `EPollAIO` of lab/rpc/pollmgr.cc as an `aio_mgr`.
use Prim.Native.Nat.{bit_and, bit_or}
use ds14_project.Base.{
  eq→==, ne→==, if_true, if_false, ap, ==_iff, ℕ, ◌≡◌, ◌≢◌, ◌<◌, refl, ◌∙◌, Bool, true, not, ◌&&◌,
  ◌||◌, ◌==◌, Option, some, none, Bool-cases, inl, inr, arith, if◌then◌else◌, lt→ltb,
}
use ds14_project.PollMgr.{PollFlag}
use ds14_project.PollMgr.Epoll.{
  System, EpollAio, Op, flag_bits, complement, events_of, control, set_status, init_epoll,
  epoll_watch_fd, epoll_unwatch_fd,
}
use ds14_project.PollMgr.Epoll.Status.{status, status_add, status_remove, reads, writes, is_used}
use ds14_project.PollMgr.Managers.{AioMgr, Watched, Refines, hold, release, is_held, nothing}

-- The events that the kernel has registered after a call.
abbrev pub register : ℕ → Option ℕ → (ℕ → Option ℕ) → ℕ → Option ℕ
register fd e interest = λ i. if i == fd then e else interest i

-- epoll_ctl(2), with memory and room for another descriptor: a descriptor is added where it is not
-- registered, and changed or deleted where it is.
pub record IsSystem {K : Type 0} (o : System K) (interest : K → ℕ → Option ℕ) : Type 0 where
  pub added :
      (fd e : ℕ) (k : K)
      → interest k fd ≡ none
      → (k' : K) × (o.epoll_ctl Op.ctl_add fd e k ≡ some k')
        × (interest k' ≡ register fd (some e) (interest k))
  pub modified :
      (fd e e0 : ℕ) (k : K)
      → interest k fd ≡ some e0
      → (k' : K) × (o.epoll_ctl Op.ctl_mod fd e k ≡ some k')
        × (interest k' ≡ register fd (some e) (interest k))
  pub deleted :
      (fd e e0 : ℕ) (k : K)
      → interest k fd ≡ some e0
      → (k' : K) × (o.epoll_ctl Op.ctl_del fd e k ≡ some k')
        × (interest k' ≡ register fd none (interest k))

module _ {K : Type 0} (o : System K) where
  abbrev pub epoll_mgr : AioMgr (EpollAio K)
  epoll_mgr = record { watch = epoll_watch_fd o; unwatch = epoll_unwatch_fd o }

  -- What the kernel should have for a view.
  unfoldable pub registered : (reading writing : Bool) → Option ℕ
  registered r w = if r || w then some (events_of o (status r w)) else none

module _ {K : Type 0} (o : System K) (interest : K → ℕ → Option ℕ) where
  pub record Stands (a : EpollAio K) (w : Watched) : Type 0 where
    pub statuses : (i : ℕ) → a.fdstatus i ≡ status (w.reading i) (w.writing i)
    pub kernel : (i : ℕ) → interest a.kernel i ≡ registered o (w.reading i) (w.writing i)

  pub init_epoll-Stands : (k : K) → ((i : ℕ) → interest k i ≡ none) → Stands (init_epoll k) nothing
  unfolding init_epoll registered
  init_epoll-Stands k h = record { statuses = λ i. refl; kernel = h }

  -- The state of the kernel after a descriptor got a new view.
  updated :
      (fd : ℕ) (r' w' : Bool) (a : EpollAio K) (k' : K) (v v' : Watched)
      → Stands a v
      → (v'.reading fd ≡ r') × (v'.writing fd ≡ w')
      → ((i : ℕ) → i ≢ fd → (v'.reading i ≡ v.reading i) × (v'.writing i ≡ v.writing i))
      → interest k' ≡ register fd (registered o r' w') (interest a.kernel)
      → Stands (record (set_status fd (status r' w') a) { kernel = k' }) v'
  updated fd r' w' a k' v v' s (er, ew) same e = record {
    statuses = λ i. elim (Bool-cases (i == fd)) [
      | inl p ↦ rw (p, (==_iff i fd).0 p, er, ew) refl
      | inr p ↦
          (let (r, wr) = same i (λ x. absurd (ground (arith, x, p))) in
            rw (p, r, wr) (s.statuses i))
    ];
    kernel = λ i. elim (Bool-cases (i == fd)) [
      | inl p ↦ rw (e, p, (==_iff i fd).0 p, er, ew) refl
      | inr p ↦
          (let (r, wr) = same i (λ x. absurd (ground (arith, x, p))) in
            rw (e, p, r, wr) (s.kernel i))
    ];
  }

at_fd : (fd : ℕ) (x y : Bool) → (if fd == fd then x else y) ≡ x
at_fd fd x y = if_true x y (eq→== fd fd refl)

off_fd : (i fd : ℕ) (x y : Bool) → i ≢ fd → (if i == fd then x else y) ≡ y
off_fd i fd x y h = if_false x y (ne→== i fd h)

still_used :
    (r w : Bool) (flag : PollFlag)
    → is_used flag ≡ true
    → ((r || reads flag) || (w || writes flag)) ≡ true
still_used r w flag used = ground arith

is_none : (r w : Bool) → (status r w == 0) ≡ not (r || w)
is_none r w = ground arith

adds_or_modifies :
    (r w : Bool)
    → (if status r w == 0 then Op.ctl_add else Op.ctl_mod)
      ≡ (if r || w then Op.ctl_mod else Op.ctl_add)
adds_or_modifies r w = ground arith

deletes_or_modifies :
    (r w : Bool)
    → (if status r w == 0 then Op.ctl_del else Op.ctl_mod)
      ≡ (if r || w then Op.ctl_mod else Op.ctl_del)
deletes_or_modifies r w = ground arith

module _ {K : Type 0} (o : System K) (fd : ℕ) (flag : PollFlag) (a : EpollAio K) where
  control_by :
      (s : ℕ) (op : Op) (k' : K)
      → o.epoll_ctl op fd (events_of o s) a.kernel ≡ some k'
      → control o op fd (set_status fd s a) ≡ some (record (set_status fd s a) { kernel = k' })
  unfolding control
  control_by s op k' e = rw (control, eq→== fd fd refl, e)

  whole_events :
      (r w : Bool)
      → is_used flag ≡ true
      → (not (flag_bits flag == 17)
          || (events_of o (status (r || reads flag) (w || writes flag))
              == bit_or (bit_or o.epollet o.epollin) o.epollout))
        ≡ true
  unfolding flag_bits events_of
  whole_events r w used = ground arith

  whole_removal :
      (r w : Bool)
      → is_used flag ≡ true
      → (not (flag_bits flag == 17)
          || (status (r && not (reads flag)) (w && not (writes flag)) == 0))
        ≡ true
  unfolding flag_bits
  whole_removal r w used = ground arith

  watch_by :
      (r w : Bool)
      → fd < 128
      → is_used flag ≡ true
      → a.fdstatus fd ≡ status r w
      → epoll_watch_fd o fd flag a
        ≡ control o
            (if r || w then Op.ctl_mod else Op.ctl_add)
            fd
            (set_status fd (status (r || reads flag) (w || writes flag)) a)
  unfolding epoll_watch_fd
  watch_by r w small used e =
      rw (epoll_watch_fd, e, status_add r w flag used, whole_events r w used, lt→ltb fd 128 small)
        (ap
          (λ (op : Op).
            control o op fd (set_status fd (status (r || reads flag) (w || writes flag)) a))
          (adds_or_modifies r w))

  unwatch_by :
      (r w : Bool)
      → fd < 128
      → is_used flag ≡ true
      → a.fdstatus fd ≡ status r w
      → (b : EpollAio K)
      → let r' = r && not (reads flag) in
        let w' = w && not (writes flag) in
        control o (if r' || w' then Op.ctl_mod else Op.ctl_del) fd (set_status fd (status r' w') a)
          ≡ some b
        → epoll_unwatch_fd o fd flag a ≡ some (not (r' || w'), b)
  unfolding epoll_unwatch_fd
  unwatch_by r w small used e b done =
      let es : bit_and (a.fdstatus fd) (complement (flag_bits flag))
          ≡ status (r && not (reads flag)) (w && not (writes flag)) =
        rw e (status_remove r w flag used) in
      rw
        (
          epoll_unwatch_fd,
          es,
          whole_removal r w used,
          lt→ltb fd 128 small,
          deletes_or_modifies (r && not (reads flag)) (w && not (writes flag)),
          done,
          es,
        )
        (ap (λ (d : Bool). some (d, b)) (is_none (r && not (reads flag)) (w && not (writes flag))))

module _ {K : Type 0} (o : System K) (interest : K → ℕ → Option ℕ) (l : IsSystem o interest) where
  add_or_modify :
      (fd : ℕ) (r w r' w' : Bool) (k : K)
      → interest k fd ≡ registered o r w
      → (r' || w') ≡ true
      → (k' : K) × (o.epoll_ctl
            (if r || w then Op.ctl_mod else Op.ctl_add)
            fd
            (events_of o (status r' w'))
            k
          ≡ some k')
        × (interest k' ≡ register fd (registered o r' w') (interest k))
  unfolding registered
  add_or_modify fd r w r' w' k h some_left = elim (Bool-cases (r || w)) [
    | inl was ↦
        rw (was, some_left)
          (l.modified fd (events_of o (status r' w')) (events_of o (status r w)) k
            (h ∙ if_true _ _ was))
    | inr new ↦
        rw (new, some_left) (l.added fd (events_of o (status r' w')) k (h ∙ if_false _ _ new))
  ]

  modify_or_delete :
      (fd : ℕ) (r w r' w' : Bool) (k : K)
      → interest k fd ≡ registered o r w
      → (r || w) ≡ true
      → (k' : K) × (o.epoll_ctl
            (if r' || w' then Op.ctl_mod else Op.ctl_del)
            fd
            (events_of o (status r' w'))
            k
          ≡ some k')
        × (interest k' ≡ register fd (registered o r' w') (interest k))
  unfolding registered
  modify_or_delete fd r w r' w' k h was = elim (Bool-cases (r' || w')) [
    | inl left ↦ rw left (
        l.modified fd (events_of o (status r' w')) (events_of o (status r w)) k
          (h ∙ if_true _ _ was))
    | inr gone ↦ rw gone (
        l.deleted fd (events_of o (status r' w')) (events_of o (status r w)) k
          (h ∙ if_true _ _ was))
  ]

  watch_lem :
      (fd : ℕ) (flag : PollFlag) (a : EpollAio K) (w : Watched)
      → fd < 128
      → is_used flag ≡ true
      → Stands o interest a w
      → (a' : EpollAio K) × (epoll_watch_fd o fd flag a ≡ some a')
        × Stands o interest a' (hold fd flag w)
  watch_lem fd flag a w small used s =
      let r = w.reading fd in
      let wr = w.writing fd in
      let r' = r || reads flag in
      let w' = wr || writes flag in
      let a1 = set_status fd (status r' w') a in
      let (k', e, i) =
        add_or_modify fd r wr r' w' a.kernel (s.kernel fd) (still_used r wr flag used) in
      (
        record a1 { kernel = k' },
        watch_by o fd flag a r wr small used (s.statuses fd) ∙ control_by o fd flag a _ _ k' e,
        updated o interest fd r' w' a k' w (hold fd flag w) s (at_fd fd _ _, at_fd fd _ _)
            (λ j h. (off_fd j fd _ _ h, off_fd j fd _ _ h)) i,
      )

  unwatch_lem :
      (fd : ℕ) (flag : PollFlag) (a : EpollAio K) (w : Watched)
      → fd < 128
      → is_used flag ≡ true
      → is_held w fd ≡ true
      → Stands o interest a w
      → (a' : EpollAio K) × (epoll_unwatch_fd o fd flag a
          ≡ some (not (is_held (release fd flag w) fd), a'))
        × Stands o interest a' (release fd flag w)
  unwatch_lem fd flag a w small used held s =
      let r = w.reading fd in
      let wr = w.writing fd in
      let r' = r && not (reads flag) in
      let w' = wr && not (writes flag) in
      let a1 = set_status fd (status r' w') a in
      let (k', e, i) = modify_or_delete fd r wr r' w' a.kernel (s.kernel fd) held in
      let b : EpollAio K = record a1 { kernel = k' } in
      (
        b,
        rw (at_fd fd r' r, at_fd fd w' wr)
            (unwatch_by o fd flag a r wr small used (s.statuses fd) b
              (control_by o fd flag a _ _ k' e)),
        updated o interest fd r' w' a k' w (release fd flag w) s (at_fd fd _ _, at_fd fd _ _)
            (λ j h. (off_fd j fd _ _ h, off_fd j fd _ _ h)) i,
      )

  pub epoll_mgr-Refines : Refines (epoll_mgr o) (λ fd. fd < 128) (Stands o interest)
  epoll_mgr-Refines = record { watch_lem = watch_lem; unwatch_lem = unwatch_lem }
