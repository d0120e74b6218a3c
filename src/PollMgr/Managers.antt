-- ===== src/PollMgr/Managers.antt =====
-- `aio_mgr` of lab/rpc/pollmgr.h: what the poll manager asks of the code that waits for descriptors,
-- and the set of watched descriptors that the code stands for.
pub mod OverSelect
pub mod OverEpoll
pub mod Agreement
use ds14_project.Base.{
  ℕ, ◌≡◌, refl, Bool, true, false, not, ◌&&◌, ◌||◌, List, [], ◌∷◌, ◌==◌, if◌then◌else◌, Option,
  some, none,
}
use ds14_project.PollMgr.{PollFlag}
use ds14_project.PollMgr.Epoll.Status.{reads, writes, is_used}

-- `none` is a failed assertion; `unwatch_fd` also says whether the descriptor is left unwatched.
pub record AioMgr (S : Type 0) : Type 0 where
  pub watch : ℕ → PollFlag → S → Option S
  pub unwatch : ℕ → PollFlag → S → Option (Bool × S)

-- The abstract view.
pub record Watched : Type 0 where
  pub reading : ℕ → Bool
  pub writing : ℕ → Bool

abbrev pub nothing : Watched
nothing = record { reading = λ i. false; writing = λ i. false }

abbrev pub is_held : Watched → ℕ → Bool
is_held w fd = w.reading fd || w.writing fd

abbrev pub hold : ℕ → PollFlag → Watched → Watched
hold fd flag w = record {
  reading = λ i. if i == fd then w.reading i || reads flag else w.reading i;
  writing = λ i. if i == fd then w.writing i || writes flag else w.writing i;
}

abbrev pub release : ℕ → PollFlag → Watched → Watched
release fd flag w = record {
  reading = λ i. if i == fd then w.reading i && not (reads flag) else w.reading i;
  writing = λ i. if i == fd then w.writing i && not (writes flag) else w.writing i;
}

pub data Request : Type 0 where
  watch : (fd : ℕ) → PollFlag → Request
  unwatch : (fd : ℕ) → PollFlag → Request

abbrev pub apply : Request → Watched → Watched
apply (Request.watch fd flag) w = hold fd flag w
apply (Request.unwatch fd flag) w = release fd flag w

-- The view behind the requests, and what the calls of `unwatch_fd` say.
abbrev pub view_of : List Request → Watched → Watched
view_of [] w = w
view_of (r ∷ rs) w = view_of rs (apply r w)

abbrev pub answers_of : List Request → Watched → List Bool
answers_of [] w = []
answers_of (Request.watch fd flag ∷ rs) w = answers_of rs (hold fd flag w)
answers_of (Request.unwatch fd flag ∷ rs) w =
    not (is_held (release fd flag w) fd) ∷ answers_of rs (release fd flag w)

-- A request for one of the flags that are used; what is unwatched is watched before.
abbrev pub IsProper : (Allowed : ℕ → Type 0) → List Request → Watched → Type 0
IsProper Allowed [] w = Unit {0}
IsProper Allowed (Request.watch fd flag ∷ rs) w =
    Allowed fd × (is_used flag ≡ true) × IsProper Allowed rs (hold fd flag w)
IsProper Allowed (Request.unwatch fd flag ∷ rs) w =
    Allowed fd
    × (is_used flag ≡ true)
    × (is_held w fd ≡ true)
    × IsProper Allowed rs (release fd flag w)

module _ {S : Type 0} (mgr : AioMgr S) where
  answered : Bool → Option (List Bool × S) → Option (List Bool × S)
  answered b none = none
  answered b (some (bs, s)) = some (b ∷ bs, s)

  unfoldable pub run : List Request → S → Option (List Bool × S)
  unfolding answered
  run [] s = some ([], s)
  run (Request.watch fd flag ∷ rs) s = elim (mgr.watch fd flag s) [
    | none ↦ none
    | some s' ↦ run rs s'
  ]
  run (Request.unwatch fd flag ∷ rs) s = elim (mgr.unwatch fd flag s) [
    | none ↦ none
    | some (b, s') ↦ answered b (run rs s')
  ]

-- A manager keeps to the view: no assertion fails, and `unwatch_fd` answers what the view says.
pub record Refines {S : Type 0} (mgr : AioMgr S) (Allowed : ℕ → Type 0) (Rep : S → Watched → Type 0)
    : Type 0 where
  pub watch_lem :
      (fd : ℕ) (flag : PollFlag) (s : S) (w : Watched)
      → Allowed fd
      → is_used flag ≡ true
      → Rep s w
      → (s' : S) × (mgr.watch fd flag s ≡ some s') × Rep s' (hold fd flag w)
  pub unwatch_lem :
      (fd : ℕ) (flag : PollFlag) (s : S) (w : Watched)
      → Allowed fd
      → is_used flag ≡ true
      → is_held w fd ≡ true
      → Rep s w
      → (s' : S) × (mgr.unwatch fd flag s ≡ some (not (is_held (release fd flag w) fd), s'))
        × Rep s' (release fd flag w)

module _ {S : Type 0} {mgr : AioMgr S} {Allowed : ℕ → Type 0} {Rep : S → Watched → Type 0}
    (l : Refines mgr Allowed Rep) where
  pub run_lem :
      (rs : List Request) (s : S) (w : Watched)
      → IsProper Allowed rs w
      → Rep s w
      → (s' : S) × (run mgr rs s ≡ some (answers_of rs w, s')) × Rep s' (view_of rs w)
  unfolding run answered
  run_lem [] s w proper rep = (s, refl, rep)
  run_lem (Request.watch fd flag ∷ rs) s w (allowed, used, proper) rep =
      let (s1, e1, rep1) = l.watch_lem fd flag s w allowed used rep in
      let (s2, e2, rep2) = run_lem rs s1 (hold fd flag w) proper rep1 in
      (s2, rw (run, e1, e2), rep2)
  run_lem (Request.unwatch fd flag ∷ rs) s w (allowed, used, held, proper) rep =
      let (s1, e1, rep1) = l.unwatch_lem fd flag s w allowed used held rep in
      let (s2, e2, rep2) = run_lem rs s1 (release fd flag w) proper rep1 in
      (s2, rw (run, e1, e2), rep2)
