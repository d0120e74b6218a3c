-- ===== src/PollMgr/Select.antt =====
-- `SelectAIO` of lab/rpc/pollmgr.cc: the bound that `select` is given.
use ds14_project.Base.{
  none, ne→==, sym, ◌∙◌, Option-cases, ℕ, zero, suc, ◌≤◌, ◌<◌, ◌≡◌, ◌≢◌, refl, Bool, true, not,
  ◌&&◌, ◌==◌, some, arith, Bool-cases, inl, inr,
}
use ds14_project.PollMgr.{
  wake, SelectAio, PollFlag, watches, watch_set, wakes, clear_flag, lower_highfds, last_watched,
  unwatch_fd,
}

-- Every descriptor that is watched is at most the bound, and the pipe's is watched.
pub record IsBounded (a : SelectAio) : Type 0 where
  pub watched : (i : ℕ) → watches a i ≡ true → i ≤ a.highfds
  pub pipe : watches a a.pipefd ≡ true

pub watch_set-IsBounded :
    (fd : ℕ) (flag : PollFlag) (a : SelectAio) → IsBounded a → IsBounded (watch_set fd flag a)
unfolding watch_set
watch_set-IsBounded fd PollFlag.cb_rdonly a b = record {
  watched = λ i e. ground (arith, b.watched i);
  pipe = ground (arith, b.pipe);
}
watch_set-IsBounded fd PollFlag.cb_wronly a b = record {
  watched = λ i e. ground (arith, b.watched i);
  pipe = ground (arith, b.pipe);
}
watch_set-IsBounded fd PollFlag.cb_rdwr a b = record {
  watched = λ i e. ground (arith, b.watched i);
  pipe = ground (arith, b.pipe);
}
watch_set-IsBounded fd PollFlag.cb_none a b = record {
  watched = λ i e. ground (arith, b.watched i);
  pipe = ground (arith, b.pipe);
}
watch_set-IsBounded fd PollFlag.cb_mask a b = record {
  watched = λ i e. ground (arith, b.watched i);
  pipe = ground (arith, b.pipe);
}

last_watched-bound :
    (a : SelectAio) (n newh i : ℕ) → i < n → watches a i ≡ true → i ≤ last_watched a n newh
unfolding last_watched
last_watched-bound a zero newh i h e = absurd (omega (arith, h))
last_watched-bound a (suc n) newh i h e = ground (arith, last_watched-bound a n newh i)

-- What `unwatch_fd` leaves watched.
pub clear_flag-watches :
    (fd : ℕ) (flag : PollFlag) (a b : SelectAio)
    → clear_flag fd flag a ≡ some b
    → (b.highfds ≡ a.highfds)
      × (b.pipefd ≡ a.pipefd)
      × ((i : ℕ) → watches b i ≡ true → watches a i ≡ true)
      × ((i : ℕ) → i ≢ fd → watches b i ≡ watches a i)
unfolding clear_flag
clear_flag-watches fd PollFlag.cb_rdonly a b e = ground (arith, e)
clear_flag-watches fd PollFlag.cb_wronly a b e = ground (arith, e)
clear_flag-watches fd PollFlag.cb_rdwr a b e = ground (arith, e)
clear_flag-watches fd PollFlag.cb_none a b e = cc
clear_flag-watches fd PollFlag.cb_mask a b e = cc

lower_highfds-IsBounded : (fd : ℕ) (a : SelectAio) → IsBounded a → IsBounded (lower_highfds fd a)
unfolding lower_highfds
lower_highfds-IsBounded fd a b = elim (Bool-cases (not (watches a fd) && fd == a.highfds)) [
  | inl e ↦ rw e (record {
    watched =
        λ i h. last_watched-bound a (suc a.highfds) a.pipefd i (omega (arith, b.watched i h)) h;
    pipe = b.pipe;
  })
  | inr e ↦ rw e b
]

wake-IsBounded : (flag : PollFlag) (a : SelectAio) → IsBounded a → IsBounded (wake flag a)
unfolding wake
wake-IsBounded PollFlag.cb_rdwr a b = record { watched = b.watched; pipe = b.pipe }
wake-IsBounded PollFlag.cb_rdonly a b = b
wake-IsBounded PollFlag.cb_wronly a b = b
wake-IsBounded PollFlag.cb_none a b = b
wake-IsBounded PollFlag.cb_mask a b = b

-- The parts of a removal that went well.
pub unwatch_fd_parts :
    (written : Bool) (fd : ℕ) (flag : PollFlag) (a b : SelectAio) (gone : Bool)
    → unwatch_fd written fd flag a ≡ some (gone, b)
    → (c : SelectAio) × (clear_flag fd flag a ≡ some c)
      × (wake flag (lower_highfds fd c) ≡ b)
      × (not (watches (wake flag (lower_highfds fd c)) fd) ≡ gone)
unfolding unwatch_fd
unwatch_fd_parts written fd flag a b gone e = elim (Option-cases (clear_flag fd flag a)) [
  | inl n ↦ absurd (ground (arith, n, e))
  | inr (c, h) ↦
      (let d = wake flag (lower_highfds fd c) in
        elim (Bool-cases (wakes written flag)) [
          | inl fine ↦
              (let f : some (not (watches d fd), d) ≡ some (gone, b) =
                  rw (unwatch_fd, h, fine) at e in
                (c, h, cc f, cc f))
          | inr fails ↦ (let f : none ≡ some (gone, b) = rw (unwatch_fd, h, fails) at e in cc f)
        ])
]

-- The bound that `select` is given covers every watched descriptor: `watch_set` and `unwatch_fd` keep
-- this, for every descriptor but the pipe's.
pub unwatch_fd-IsBounded :
    (written : Bool) (fd : ℕ) (flag : PollFlag) (a b : SelectAio) (gone : Bool)
    → fd ≢ a.pipefd
    → IsBounded a
    → unwatch_fd written fd flag a ≡ some (gone, b)
    → IsBounded b
unwatch_fd-IsBounded written fd flag a b gone other ok e =
    let (c, h, result, flagged) = unwatch_fd_parts written fd flag a b gone e in
    let (high, pipe, fewer, same) = clear_flag-watches fd flag a c h in
    let bounded : IsBounded c = record {
      watched = λ i held. omega (arith, high, ok.watched i (fewer i held));
      pipe = rw pipe (same a.pipefd (λ x. other (sym x)) ∙ ok.pipe);
    } in
    rw (← result) (wake-IsBounded flag (lower_highfds fd c) (lower_highfds-IsBounded fd c bounded))

lower_highfds_frame :
    (fd : ℕ) (a : SelectAio)
    → ((lower_highfds fd a).pipefd ≡ a.pipefd)
      × ((i : ℕ) → watches (lower_highfds fd a) i ≡ watches a i)
unfolding lower_highfds
lower_highfds_frame fd a = elim (Bool-cases (not (watches a fd) && fd == a.highfds)) [
  | inl e ↦ rw e (refl, λ i. refl)
  | inr e ↦ rw e (refl, λ i. refl)
]

wake_frame :
    (flag : PollFlag) (a : SelectAio)
    → ((wake flag a).pipefd ≡ a.pipefd) × ((i : ℕ) → watches (wake flag a) i ≡ watches a i)
unfolding wake
wake_frame PollFlag.cb_rdwr a = (refl, λ i. refl)
wake_frame PollFlag.cb_rdonly a = (refl, λ i. refl)
wake_frame PollFlag.cb_wronly a = (refl, λ i. refl)
wake_frame PollFlag.cb_none a = (refl, λ i. refl)
wake_frame PollFlag.cb_mask a = (refl, λ i. refl)

-- What a removal leaves.
pub unwatch_fd-watches :
    (written : Bool) (fd : ℕ) (flag : PollFlag) (a b : SelectAio) (gone : Bool)
    → unwatch_fd written fd flag a ≡ some (gone, b)
    → (b.pipefd ≡ a.pipefd)
      × (not (watches b fd) ≡ gone)
      × ((i : ℕ) → watches b i ≡ true → watches a i ≡ true)
unwatch_fd-watches written fd flag a b gone e =
    let (c, h, result, flagged) = unwatch_fd_parts written fd flag a b gone e in
    let (high, pipe, fewer, same) = clear_flag-watches fd flag a c h in
    let (low_pipe, low) = lower_highfds_frame fd c in
    let (wake_pipe, awake) = wake_frame flag (lower_highfds fd c) in
    rw (← result)
      (wake_pipe ∙ low_pipe ∙ pipe, flagged, λ i held. fewer i (sym (low i) ∙ sym (awake i) ∙ held))

pub watch_set_frame :
    (fd : ℕ) (flag : PollFlag) (a : SelectAio)
    → ((watch_set fd flag a).pipefd ≡ a.pipefd)
      × ((i : ℕ) → i ≢ fd → watches (watch_set fd flag a) i ≡ watches a i)
unfolding watch_set
watch_set_frame fd PollFlag.cb_rdwr a = (refl, λ i h. rw (ne→== i fd h))
watch_set_frame fd PollFlag.cb_rdonly a = (refl, λ i h. rw (ne→== i fd h))
watch_set_frame fd PollFlag.cb_wronly a = (refl, λ i h. rw (ne→== i fd h))
watch_set_frame fd PollFlag.cb_none a = (refl, λ i h. rw (ne→== i fd h))
watch_set_frame fd PollFlag.cb_mask a = (refl, λ i h. rw (ne→== i fd h))
