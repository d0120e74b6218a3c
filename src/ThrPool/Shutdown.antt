-- ===== src/ThrPool/Shutdown.antt =====
-- The end of the thread pool of lab/rpc/thr_pool.cc.
use ds14_project.Base.{
  ◌≤◌, ◌<◌, ◌*◌, ◌∙◌, ◌==◌, ◌||◌, ltb, true, length-append, append-nil, ℕ, zero, suc, ◌+◌, ◌-◌, ◌≡◌,
  refl, List, [], ◌∷◌, ◌++◌, map, length, some, none, Option, arith, append_assoc, sym, ap, All,
  Bool-cases, inl, inr, ltb→lt,
}
use ds14_project.Fifo.{enq, deq}
use ds14_project.ThrPool.{
  ThrPool, PoolJob, job, pill, Worker, at_take, at_run, exited, do_worker, take_job, add_pills,
  Working, Step, Run, turns, start, more,
}

abbrev pub pills : {A : Type 0} → ℕ → List (PoolJob A)
pills zero = []
pills (suc n) = pill ∷ pills n

module _ {A : Type 0} (p : ThrPool A) where
  abbrev pub holding : List (PoolJob A) → ℕ → ThrPool A
  holding q alive = record p { jobq = record p.jobq { q = q }; alive = alive }

  add_pills-pills :
      (n alive : ℕ) (q : List (PoolJob A))
      → length q + n ≤ p.jobq.max
      → add_pills n (holding q alive) ≡ some (holding (q ++ pills n) alive)
  unfolding add_pills enq
  add_pills-pills zero alive q room = rw (append-nil q)
  add_pills-pills (suc n) alive q room =
      let fits : (p.jobq.max == 0 || ltb (length q) p.jobq.max) ≡ true = ground (arith, room) in
      let more =
        add_pills-pills n alive (q ++ pill ∷ [])
          (omega (arith, room, length-append q (pill ∷ []))) in
      rw (add_pills, fits) (more ∙ rw (append_assoc q (pill ∷ []) (pills n)))

-- The sum of a weight over jobs, and over workers.
abbrev pub weigh : {A : Type 0} → (A → ℕ) → List A → ℕ
weigh f [] = 0
weigh f (a ∷ as') = f a + weigh f as'

-- The weight of the job that a worker has taken and not run.
abbrev pub load : {A : Type 0} → (A → ℕ) → Worker A → ℕ
load f (at_run a) = f a
load f w = 0

-- A worker that has not exited.
abbrev pub live : {A : Type 0} → Worker A → ℕ
live exited = 0
live w = 1

weigh-append :
    {A : Type 0} (f : A → ℕ) (as' bs : List A) → weigh f (as' ++ bs) ≡ weigh f as' + weigh f bs
weigh-append f [] bs = omega arith
weigh-append f (a ∷ as') bs = omega (arith, weigh-append f as' bs)

weigh-at :
    {A : Type 0} (f : A → ℕ) (before after : List A) (a : A)
    → weigh f (before ++ a ∷ after) ≡ f a + (weigh f before + weigh f after)
weigh-at f before after a = omega (arith, weigh-append f before (a ∷ after))

-- What has been done in so many steps: `js` and `m` pills are left in the queue.
record IsGoing {A : Type 0} (n : ℕ) (jobs : List A) (ws : List (Worker A)) (k : ℕ) (js : List A)
    (m : ℕ) (t : Working A) : Type 0 where
  queue : t.pool.jobq.q ≡ map job js ++ pills m
  alive : t.pool.alive ≡ m
  lives : weigh live t.workers ≡ m
  full : 0 < length js → m ≡ n
  each :
      (f : A → ℕ)
      → weigh f t.ran + weigh (load f) t.workers + weigh f js ≡ weigh f jobs + weigh (load f) ws
  steps :
      k + 2 * length js + m + weigh (load (λ a. 1)) t.workers
      ≡ 2 * length jobs + n + weigh (load (λ a. 1)) ws

do_worker-job :
    {A : Type 0} (p : ThrPool A) (a : A) (q : List (PoolJob A))
    → p.jobq.q ≡ job a ∷ q
    → do_worker at_take p ≡ some (at_run a, [], record p { jobq = record p.jobq { q = q } })
unfolding do_worker take_job deq
do_worker-job p a q e = rw e refl

do_worker-pill :
    {A : Type 0} (p : ThrPool A) (q : List (PoolJob A))
    → p.jobq.q ≡ pill ∷ q
    → do_worker at_take p
      ≡ some (exited, [], record p { jobq = record p.jobq { q = q }; alive = p.alive - 1 })
unfolding do_worker take_job deq
do_worker-pill p q e = rw e refl

do_worker-waits : {A : Type 0} (p : ThrPool A) → p.jobq.q ≡ [] → do_worker at_take p ≡ none
unfolding do_worker take_job deq
do_worker-waits p e = rw e refl

same_some :
    {A : Type 0} (w w' : Worker A) (r r' : List A) (p p' : ThrPool A)
    → ◌≡◌ {A = Option (Worker A × List A × ThrPool A)} (some (w, r, p)) (some (w', r', p'))
    → (w ≡ w') × (r ≡ r') × (p ≡ p')
same_some w w' r r' p p' e = (cc e, cc e, cc e)

module _ {A : Type 0} (n : ℕ) (jobs : List A) (ws : List (Worker A)) where
  -- A step that changes one worker.
  moved :
      (k m m' : ℕ) (js js' : List A) (t : Working A) (before after : List (Worker A))
      (w w' : Worker A) (r : List A) (p : ThrPool A)
      → IsGoing n jobs ws k js m t
      → t.workers ≡ before ++ w ∷ after
      → p.jobq.q ≡ map job js' ++ pills m'
      → p.alive ≡ m'
      → live w + m' ≡ live w' + m
      → (0 < length js' → m' ≡ n)
      → ((f : A → ℕ) → weigh f r + load f w' + weigh f js' ≡ load f w + weigh f js)
      → 1 + 2 * length js' + m' + load (λ a. 1) w' ≡ 2 * length js + m + load (λ a. 1) w
      → IsGoing n jobs ws
          (k + 1)
          js'
          m'
          (record { pool = p; workers = before ++ w' ∷ after; ran = t.ran ++ r })
  moved k m m' js js' t before after w w' r p v at queue alive lives full each steps = record {
    queue = queue;
    alive = alive;
    lives = omega (
      arith,
      lives,
      v.lives,
      ap (weigh live) at,
      weigh-at live before after w,
      weigh-at live before after w',
    );
    full = full;
    each = λ f. omega (
      arith,
      each f,
      v.each f,
      weigh-append f t.ran r,
      ap (weigh (load f)) at,
      weigh-at (load f) before after w,
      weigh-at (load f) before after w',
    );
    steps = omega (
      arith,
      steps,
      v.steps,
      ap (weigh (load (λ (a : A). 1))) at,
      weigh-at (load (λ (a : A). 1)) before after w,
      weigh-at (load (λ (a : A). 1)) before after w',
    );
  }

  takes :
      (k m : ℕ) (js : List A) (t : Working A) (before after : List (Worker A)) (w' : Worker A)
      (r : List A) (p : ThrPool A)
      → IsGoing n jobs ws k js m t
      → t.workers ≡ before ++ at_take ∷ after
      → do_worker at_take t.pool ≡ some (w', r, p)
      → (js' : List A) × (m' : ℕ) × IsGoing n jobs ws
          (k + 1)
          js'
          m'
          (record { pool = p; workers = before ++ w' ∷ after; ran = t.ran ++ r })
  takes k zero [] t before after w' r p v at e =
      let x : none ≡ some (w', r, p) = sym (do_worker-waits t.pool v.queue) ∙ e in cc x
  takes k (suc m) [] t before after w' r p v at e =
      let q = pills m in
      let p' : ThrPool A = record t.pool {
        jobq = record t.pool.jobq { q = q };
        alive = t.pool.alive - 1;
      } in
      let (ew, er, ep) =
        same_some exited w' [] r p' p (sym (do_worker-pill t.pool q v.queue) ∙ e) in
      (
        [],
        m,
        rw (← ew, ← er, ← ep)
            (moved k (suc m) m [] [] t before after at_take exited [] p' v at refl
              (omega (arith, v.alive)) (omega arith) (λ h. absurd (omega (arith, h)))
              (λ f. omega arith) (omega arith)),
      )
  takes k m (a ∷ js) t before after w' r p v at e =
      let q = map job js ++ pills m in
      let p' : ThrPool A = record t.pool { jobq = record t.pool.jobq { q = q } } in
      let (ew, er, ep) =
        same_some (at_run a) w' [] r p' p (sym (do_worker-job t.pool a q v.queue) ∙ e) in
      (
        js,
        m,
        rw (← ew, ← er, ← ep)
            (moved k m m (a ∷ js) js t before after at_take (at_run a) [] p' v at refl v.alive
              (omega arith) (λ h. v.full (omega arith)) (λ f. omega arith) (omega arith)),
      )

  turn :
      (k m : ℕ) (js : List A) (t : Working A) (before after : List (Worker A)) (w w' : Worker A)
      (r : List A) (p : ThrPool A)
      → IsGoing n jobs ws k js m t
      → t.workers ≡ before ++ w ∷ after
      → do_worker w t.pool ≡ some (w', r, p)
      → (js' : List A) × (m' : ℕ) × IsGoing n jobs ws
          (k + 1)
          js'
          m'
          (record { pool = p; workers = before ++ w' ∷ after; ran = t.ran ++ r })
  unfolding do_worker
  turn k m js t before after at_take w' r p v at e = takes k m js t before after w' r p v at e
  turn k m js t before after exited w' r p v at e = cc e
  turn k m js t before after (at_run a) w' r p v at e =
      let (ew, er, ep) = same_some at_take w' (a ∷ []) r t.pool p e in
      (
        js,
        m,
        rw (← ew, ← er, ← ep)
            (moved k m m js js t before after (at_run a) at_take (a ∷ []) t.pool v at v.queue
              v.alive (omega arith) v.full (λ f. omega arith) (omega arith)),
      )

  Run-IsGoing :
      {t u : Working A} {k : ℕ}
      → IsGoing n jobs ws 0 jobs n t
      → Run t k u
      → (js : List A) × (m : ℕ) × IsGoing n jobs ws k js m u
  Run-IsGoing v start = (jobs, n, v)
  Run-IsGoing v (more {k = k} {u = u} run (turns before after w w' r p at e goes)) =
      let (js, m, g) = Run-IsGoing v run in
      let (js', m', g') = turn k m js u before after w w' r p g at e in (js', m', rw goes g')

find_busy :
    {A : Type 0} (ws : List (Worker A))
    → 0 < weigh (load (λ a. 1)) ws
    → (before : List (Worker A)) × (a : A) × (after : List (Worker A)) × (ws
        ≡ before ++ at_run a ∷ after)
find_busy [] h = absurd (omega (arith, h))
find_busy (at_run a ∷ ws) h = ([], a, ws, refl)
find_busy (at_take ∷ ws) h =
    let (before, a, after, e) = find_busy ws (omega (arith, h)) in
    (at_take ∷ before, a, after, ap (λ (xs : List (Worker _)). at_take ∷ xs) e)
find_busy (exited ∷ ws) h =
    let (before, a, after, e) = find_busy ws (omega (arith, h)) in
    (exited ∷ before, a, after, ap (λ (xs : List (Worker _)). exited ∷ xs) e)

find_free :
    {A : Type 0} (ws : List (Worker A))
    → weigh (load (λ a. 1)) ws ≡ 0
    → 0 < weigh live ws
    → (before : List (Worker A)) × (after : List (Worker A)) × (ws ≡ before ++ at_take ∷ after)
find_free [] idle h = absurd (omega (arith, h))
find_free (at_run a ∷ ws) idle h = absurd (omega (arith, idle))
find_free (at_take ∷ ws) idle h = ([], ws, refl)
find_free (exited ∷ ws) idle h =
    let (before, after, e) = find_free ws (omega (arith, idle)) (omega (arith, h)) in
    (exited ∷ before, after, ap (λ (xs : List (Worker _)). exited ∷ xs) e)

abbrev pub HasExited : {A : Type 0} → Worker A → Type 0
HasExited w = w ≡ exited

All-HasExited : {A : Type 0} (ws : List (Worker A)) → weigh live ws ≡ 0 → All HasExited ws
All-HasExited [] e = tt
All-HasExited (at_run a ∷ ws) e = absurd (omega (arith, e))
All-HasExited (at_take ∷ ws) e = absurd (omega (arith, e))
All-HasExited (exited ∷ ws) e = (refl, All-HasExited ws (omega (arith, e)))

nothing_held :
    {A : Type 0} (f : A → ℕ) (ws : List (Worker A)) → All HasExited ws → weigh (load f) ws ≡ 0
nothing_held f [] h = refl
nothing_held f (w ∷ ws) (e, h) = omega (arith, ap (load f) e, nothing_held f ws h)

-- While a job or a pill is left some worker makes a step.
module _ {A : Type 0} (n k : ℕ) (jobs : List A) (ws : List (Worker A)) (t : Working A) where
  free_goes :
      (js : List A) (m : ℕ)
      → IsGoing n jobs ws k js m t
      → 0 < m
      → weigh (load (λ a. 1)) t.workers ≡ 0
      → (u : Working A) × Step t u
  free_goes [] zero v pos idle = absurd (omega (arith, pos))
  free_goes [] (suc m) v pos idle =
      let (before, after, at) = find_free t.workers idle (omega (arith, v.lives)) in
      (_, turns before after at_take _ _ _ at (do_worker-pill t.pool (pills m) v.queue) refl)
  free_goes (a ∷ js) m v pos idle =
      let (before, after, at) = find_free t.workers idle (omega (arith, v.lives, pos)) in
      (
        _,
        turns before after at_take _ _ _ at (do_worker-job t.pool a (map job js ++ pills m) v.queue)
            refl,
      )

  progress :
      (js : List A) (m : ℕ)
      → IsGoing n jobs ws k js m t
      → 0 < n
      → 0 < 2 * length js + m + weigh (load (λ a. 1)) t.workers
      → (u : Working A) × Step t u
  unfolding do_worker
  progress js m v some_worker left =
      elim (Bool-cases (ltb 0 (weigh (load (λ (a : A). 1)) t.workers))) [
        | inl busy ↦
            (let (before, a, after, at) = find_busy t.workers (ltb→lt 0 _ busy) in
              (_, turns before after (at_run a) _ _ _ at refl refl))
        | inr idle ↦
            (let none_busy : weigh (load (λ (a : A). 1)) t.workers ≡ 0 = ground (arith, idle) in
              elim (Bool-cases (ltb 0 (length js))) [
                | inl jobs_left ↦
                    free_goes js m v (omega (arith, v.full (ltb→lt 0 _ jobs_left), some_worker))
                      none_busy
                | inr no_job ↦ free_goes js m v (ground (arith, no_job, left, none_busy)) none_busy
              ])
      ]

  ended_at :
      (js : List A) (m : ℕ)
      → IsGoing n jobs ws k js m t
      → 2 * length js + m + weigh (load (λ a. 1)) t.workers ≡ 0
      → All HasExited t.workers
        × (t.pool.alive ≡ 0)
        × ((f : A → ℕ) → weigh f t.ran ≡ weigh f jobs + weigh (load f) ws)
  ended_at (a ∷ js) m v over = absurd (omega (arith, over))
  ended_at [] m v over =
      let gone = All-HasExited t.workers (omega (arith, v.lives, over)) in
      (
        gone,
        omega (arith, v.alive, over),
        λ f. omega (arith, v.each f, nothing_held f t.workers gone),
      )

-- The workers behind the destructor's loop, of which some may have a job.
abbrev pub ending : {A : Type 0} → ThrPool A → List (Worker A) → Working A
ending p ws = record { pool = p; workers = ws; ran = [] }

module _ {A : Type 0} (p : ThrPool A) where
  -- The destructor queues a pill for each worker, of which there is one at least and none has exited,
  -- behind the jobs that are left, where the queue has room for them. However the workers are then
  -- scheduled, which take a job in one step and run it in another: they make no more than two steps
  -- for each job in the queue, one for each pill and one for each job that a worker had already taken;
  -- until they have made them all some worker can go on; and then all have exited, and what has been
  -- run weighs, by any weight of jobs, what was queued or already taken, so that each job has been run
  -- once.
  pub shutdown :
      (jobs : List A) (ws : List (Worker A)) (k : ℕ) (t : Working A)
      → 0 < length ws
      → weigh live ws ≡ length ws
      → length (map job jobs) + length ws ≤ p.jobq.max
      → Run (ending (holding p (map job jobs ++ pills (length ws)) (length ws)) ws) k t
      → let n = length ws in
        let total = 2 * length jobs + n + weigh (load (λ a. 1)) ws in
        (add_pills n (holding p (map job jobs) n) ≡ some (holding p (map job jobs ++ pills n) n))
        × (k ≤ total)
        × (k < total → (u : Working A) × Step t u)
        × (k ≡ total
            → All HasExited t.workers
              × (t.pool.alive ≡ 0)
              × ((f : A → ℕ) → weigh f t.ran ≡ weigh f jobs + weigh (load f) ws))
  shutdown jobs ws k t some_worker all_live room run =
      let n = length ws in
      let first : IsGoing n jobs ws 0 jobs n (ending (holding p (map job jobs ++ pills n) n) ws) =
        record {
          queue = refl;
          alive = refl;
          lives = all_live;
          full = λ h. refl;
          each = λ f. omega arith;
          steps = omega arith;
        } in
      let (js, m, v) = Run-IsGoing n jobs ws first run in
      (
        add_pills-pills p n n (map job jobs) room,
        omega (arith, v.steps),
        λ less. progress n k jobs ws t js m v some_worker (omega (arith, v.steps, less)),
        λ whole. ended_at n k jobs ws t js m v (omega (arith, v.steps, whole)),
      )
