-- ===== src/PollMgr/Registered.antt =====
-- `PollMgr` of lab/rpc/pollmgr.cc: what is watched has a callback.
use ds14_project.Base.{
  Bool, eq→==, ltb, ap, ==_iff, ◌&&◌, ℕ, ◌≡◌, ◌≢◌, ◌∙◌, sym, refl, true, false, ◌==◌, some, none,
  arith, Option-cases, Bool-cases, inl, inr,
}
use ds14_project.PollMgr.{
  init, init_aio, max_poll_fds, free_for, PollFlag, PollMgr, watches, watch_fd, watch_set,
  unwatch_fd, add_callback, del_callback, block_remove_begin, block_remove_end, wait_loop_begin,
  set_callback,
}
use ds14_project.PollMgr.Select.{
  IsBounded, watch_set-IsBounded, unwatch_fd-IsBounded, unwatch_fd-watches, watch_set_frame,
}

-- What the threads do with the manager. The end of a removal finds the descriptor unwatched, where no
-- other thread has added a callback for it since.
pub data Step : PollMgr → PollMgr → Type 0 where
  adds :
      (written : Bool) (fd : ℕ) (flag : PollFlag) (ch : ℕ) {m m' : PollMgr}
      → fd ≢ m.aio.pipefd
      → add_callback written fd flag ch m ≡ some m'
      → Step m m'
  deletes :
      (written : Bool) (fd : ℕ) (flag : PollFlag) {m m' : PollMgr}
      → fd ≢ m.aio.pipefd
      → del_callback written fd flag m ≡ some m'
      → Step m m'
  removes :
      (written : Bool) (fd : ℕ) {m m' : PollMgr}
      → fd ≢ m.aio.pipefd
      → block_remove_begin written fd m ≡ some m'
      → Step m m'
  removed : (fd : ℕ) {m : PollMgr} → watches m.aio fd ≡ false → Step m (block_remove_end fd m)
  rounds : {m : PollMgr} → Step m (wait_loop_begin m).1

-- Every watched descriptor but the pipe's has a callback, and the bound covers all.
pub record IsRegistered (m : PollMgr) : Type 0 where
  pub bounded : IsBounded m.aio
  pub called : (fd : ℕ) → fd ≢ m.aio.pipefd → watches m.aio fd ≡ true → m.callbacks fd ≢ none

pub init-IsRegistered : (pipefd : ℕ) → IsRegistered (init pipefd)
unfolding init_aio
init-IsRegistered pipefd = record {
  bounded = record { watched = λ i e. ground (arith, e); pipe = rw (eq→== pipefd pipefd refl) };
  called = λ fd away held. absurd (ground (arith, away, held));
}

added :
    (fd : ℕ) (flag : PollFlag) (ch : ℕ) (m m' : PollMgr)
    → fd ≢ m.aio.pipefd
    → add_callback true fd flag ch m ≡ some m'
    → IsRegistered m
    → IsRegistered m'
unfolding add_callback watch_fd
added fd flag ch m m' other e ok =
    elim (Bool-cases (ltb fd max_poll_fds && free_for ch (m.callbacks fd))) [
      | inr refused ↦ absurd (ground (arith, refused, e))
      | inl taken ↦
          (let (pipe, same) = watch_set_frame fd flag m.aio in
            let n : PollMgr =
              set_callback fd (some ch) (record m { aio = watch_set fd flag m.aio }) in
            let f : some n ≡ some m' = rw (add_callback, taken) at e in
            let result : n ≡ m' = cc f in
            let registered : IsRegistered n = record {
              bounded = watch_set-IsBounded fd flag m.aio ok.bounded;
              called = λ i h held. elim (Bool-cases (i == fd)) [
                | inl new ↦ rw new (λ x. cc x)
                | inr old ↦ rw old (
                    ok.called i (λ x. h (x ∙ sym pipe))
                      (sym (same i (λ x. ground (arith, x, old))) ∙ held))
              ];
            } in
            rw (← result) registered)
    ]

add_callback-IsRegistered :
    (written : Bool) (fd : ℕ) (flag : PollFlag) (ch : ℕ) (m m' : PollMgr)
    → fd ≢ m.aio.pipefd
    → add_callback written fd flag ch m ≡ some m'
    → IsRegistered m
    → IsRegistered m'
unfolding add_callback watch_fd
add_callback-IsRegistered written fd flag ch m m' other e ok = elim (Bool-cases written) [
  | inr unwritten ↦ absurd (ground (arith, unwritten, e))
  | inl fine ↦ added fd flag ch m m' other (rw fine at e) ok
]

cleared-IsRegistered :
    (fd : ℕ) (m : PollMgr)
    → watches m.aio fd ≡ false
    → IsRegistered m
    → IsRegistered (set_callback fd none m)
cleared-IsRegistered fd m unwatched ok = record {
  bounded = ok.bounded;
  called = λ i away held. elim (Bool-cases (i == fd)) [
    | inl same ↦ absurd (ground (arith, ap (watches m.aio) ((==_iff i fd).0 same), held, unwatched))
    | inr other ↦ rw other (ok.called i away held)
  ];
}

del_callback-IsRegistered :
    (written : Bool) (fd : ℕ) (flag : PollFlag) (m m' : PollMgr)
    → fd ≢ m.aio.pipefd
    → del_callback written fd flag m ≡ some m'
    → IsRegistered m
    → IsRegistered m'
unfolding del_callback
del_callback-IsRegistered written fd flag m m' other e ok =
    elim (Option-cases (unwatch_fd written fd flag m.aio)) [
      | inl refused ↦ absurd (ground (arith, refused, e))
      | inr ((gone, a), h) ↦
          (let (pipe, off, fewer) = unwatch_fd-watches written fd flag m.aio a gone h in
            let n : PollMgr = record m { aio = a } in
            let registered : IsRegistered n = record {
              bounded = unwatch_fd-IsBounded written fd flag m.aio a gone other ok.bounded h;
              called = λ i away held. ok.called i (λ x. away (x ∙ sym pipe)) (fewer i held);
            } in
            elim (Bool-cases gone) [
              | inl all ↦
                  (let f : some (set_callback fd none n) ≡ some m' =
                      rw (del_callback, h, all) at e in
                    let result : set_callback fd none n ≡ m' = cc f in
                    let unwatched : watches a fd ≡ false = ground (arith, off, all) in
                    rw (← result) (cleared-IsRegistered fd n unwatched registered))
              | inr part ↦
                  (let f : some n ≡ some m' = rw (del_callback, h, part) at e in
                    let result : n ≡ m' = cc f in rw (← result) registered)
            ])
    ]

block_remove_begin-IsRegistered :
    (written : Bool) (fd : ℕ) (m m' : PollMgr)
    → fd ≢ m.aio.pipefd
    → block_remove_begin written fd m ≡ some m'
    → IsRegistered m
    → IsRegistered m'
unfolding block_remove_begin
block_remove_begin-IsRegistered written fd m m' other e ok =
    elim (Option-cases (unwatch_fd written fd PollFlag.cb_rdwr m.aio)) [
      | inl refused ↦ absurd (ground (arith, refused, e))
      | inr ((gone, a), h) ↦
          (let (pipe, off, fewer) = unwatch_fd-watches written fd PollFlag.cb_rdwr m.aio a gone h in
            let n : PollMgr = record m { aio = a; pending = true } in
            let f : some n ≡ some m' = rw (block_remove_begin, h) at e in
            let result : n ≡ m' = cc f in
            let registered : IsRegistered n = record {
              bounded =
                  unwatch_fd-IsBounded written fd PollFlag.cb_rdwr m.aio a gone other ok.bounded h;
              called = λ i away held. ok.called i (λ x. away (x ∙ sym pipe)) (fewer i held);
            } in
            rw (← result) registered)
    ]

-- Whatever the threads do with the poll manager, other than to its pipe, a watched descriptor keeps a
-- callback and the bound of the `select` covers every watched descriptor; a removal ends where no
-- callback was added since its start.
pub Step-IsRegistered : {m m' : PollMgr} → Step m m' → IsRegistered m → IsRegistered m'
unfolding block_remove_end wait_loop_begin
Step-IsRegistered (adds written fd flag ch other e) ok =
    add_callback-IsRegistered written fd flag ch _ _ other e ok
Step-IsRegistered (deletes written fd flag other e) ok =
    del_callback-IsRegistered written fd flag _ _ other e ok
Step-IsRegistered (removes written fd other e) ok =
    block_remove_begin-IsRegistered written fd _ _ other e ok
Step-IsRegistered (removed fd unwatched) ok = cleared-IsRegistered fd _ unwatched ok
Step-IsRegistered rounds ok = record { bounded = ok.bounded; called = ok.called }
