-- ===== src/ThrPool.antt =====
-- The thread pool of lab/rpc/thr_pool.h and lab/rpc/thr_pool.cc over the queue of lab/rpc/fifo.h, and the
-- hand-over of a pdu to it by rpcs::got_pdu of lab/rpc/rpc.cc.
pub mod Shutdown
use ds14_project.Base.{
  ◌≡◌, ◌+◌, ◌-◌, ℕ, zero, suc, ◌*◌, Bool, true, false, List, [], ◌∷◌, ◌++◌, Option, some, none,
}
use ds14_project.Fifo.{Fifo, Enq, queued, refused, waits, empty, enq, deq}
use ds14_project.RpcServer.{Server, incref, decref}

-- `job_t`: a function with its argument, or a null function, which tells a worker to exit.
pub data PoolJob (A : Type 0) : Type 0 where
  job : A → PoolJob A
  pill : PoolJob A

-- The queue, and the number of the workers that have not exited.
pub record ThrPool (A : Type 0) : Type 0 where
  pub jobq : Fifo (PoolJob A)
  pub blockadd : Bool
  pub nthreads : ℕ
  pub alive : ℕ

-- Where a worker stands: before takeJob, before the call of its job, or behind its loop.
pub data Worker (A : Type 0) : Type 0 where
  at_take : Worker A
  at_run : A → Worker A
  exited : Worker A

module _ {A : Type 0} where
  pub thr_pool : (sz : ℕ) → (blocking : Bool) → ThrPool A
  thr_pool sz blocking = record {
    jobq = empty (100 * sz);
    blockadd = blocking;
    nthreads = sz;
    alive = sz;
  }

  -- `addJob`: whether it went in; `none` waits for space.
  unfoldable pub add_job : A → ThrPool A → Option (Bool × ThrPool A)
  add_job a p = elim (enq (job a) p.blockadd p.jobq) [
    | queued q ↦ some (true, record p { jobq = q })
    | refused ↦ some (false, p)
    | waits ↦ none
  ]

  -- `takeJob`, with the job that it gives; `none` waits for one.
  unfoldable pub take_job : ThrPool A → Option (Bool × PoolJob A × ThrPool A)
  take_job p = elim (deq p.jobq) [
    | none ↦ none
    | some (j, q) ↦ some (elim j [ job a ↦ true | pill ↦ false ], j, record p { jobq = q })
  ]

  -- One step of the loop of a worker, with the job that it runs in it: it takes a job, which the mutex
  -- of the queue guards, and runs it later, outside of the mutex. `none` is a wait, or no step left.
  unfoldable pub do_worker : Worker A → ThrPool A → Option (Worker A × List A × ThrPool A)
  do_worker at_take p = elim (take_job p) [
    | none ↦ none
    | some (true, job a, p') ↦ some (at_run a, [], p')
    | some (true, pill, p') ↦ some (at_take, [], p')
    | some (false, j, p') ↦ some (exited, [], record p' { alive = p'.alive - 1 })
  ]
  do_worker (at_run a) p = some (at_take, a ∷ [], p)
  do_worker exited p = none

  -- The loop of the destructor over the threads, a pill for each; the queue has room, or the call waits.
  unfoldable pub add_pills : ℕ → ThrPool A → Option (ThrPool A)
  add_pills zero p = some p
  add_pills (suc n) p = elim (enq pill true p.jobq) [
    | queued q ↦ add_pills n (record p { jobq = q })
    | refused ↦ none
    | waits ↦ none
  ]

-- The pool with its workers, and the jobs that have been run.
pub record Working (A : Type 0) : Type 0 where
  pub pool : ThrPool A
  pub workers : List (Worker A)
  pub ran : List A

-- Any worker makes its next step.
pub data Step {A : Type 0} (t u : Working A) : Type 0 where
  turns :
      (before after : List (Worker A)) (w w' : Worker A) (r : List A) (p : ThrPool A)
      → t.workers ≡ before ++ w ∷ after
      → do_worker w t.pool ≡ some (w', r, p)
      → u ≡ record { pool = p; workers = before ++ w' ∷ after; ran = t.ran ++ r }
      → Step t u

-- So many steps.
pub data Run {A : Type 0} (t : Working A) : ℕ → Working A → Type 0 where
  start : Run t 0 t
  more : {k : ℕ} {u v : Working A} → Run t k u → Step u v → Run t (k + 1) v

-- `rpcs::got_pdu`: the reference that the job holds is given back where the pool refuses it.
unfoldable pub got_pdu :
    {S : Type 0}
    → (c : ℕ) → List ℕ
    → ThrPool (ℕ × List ℕ)
    → Server S
    → Option (Bool × ThrPool (ℕ × List ℕ) × Server S)
got_pdu c b p s = elim (add_job (c, b) p) [
  | none ↦ none
  | some (true, p') ↦ some (true, p', incref c s)
  | some (false, p') ↦ some (false, p', decref c (incref c s))
]
