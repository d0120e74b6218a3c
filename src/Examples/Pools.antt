-- ===== src/Examples/Pools.antt =====
-- A thread pool of two workers at its end: one has taken the job 6, which it then runs.
use ds14_project.Base.{
  ℕ, ◌+◌, ◌≡◌, ◌≤◌, ◌<◌, refl, All, List, [], ◌∷◌, ◌++◌, map, some, arith, false,
}
use ds14_project.ThrPool.{
  ThrPool, Worker, job, add_pills, Working, Step, Run, turns, start, more, at_take, at_run,
  do_worker,
}
use ds14_project.ThrPool.Shutdown.{holding, pills, ending, HasExited, weigh, load, shutdown}

abbrev pool : ThrPool ℕ
pool = record { jobq = record { q = []; max = 200 }; blockadd = false; nthreads = 2; alive = 2 }

abbrev queued : ThrPool ℕ
queued = holding pool (map job (7 ∷ 8 ∷ []) ++ pills 2) 2

abbrev workers : List (Worker ℕ)
workers = at_run 6 ∷ at_take ∷ []

abbrev one_done : Working ℕ
one_done = record { pool = queued; workers = at_take ∷ at_take ∷ []; ran = 6 ∷ [] }

one_step : Run (ending queued workers) (0 + 1) one_done
unfolding do_worker
one_step = more start (turns [] (at_take ∷ []) (at_run 6) at_take (6 ∷ []) queued refl refl refl)

shutdown_example :
    (add_pills 2 (holding pool (map job (7 ∷ 8 ∷ [])) 2) ≡ some queued)
    × (1 ≤ 7)
    × (1 < 7 → (u : Working ℕ) × Step one_done u)
    × (◌≡◌ {A = ℕ} 1 7
        → All HasExited one_done.workers
          × (one_done.pool.alive ≡ 0)
          × ((f : ℕ → ℕ) → weigh f one_done.ran ≡ weigh f (7 ∷ 8 ∷ []) + weigh (load f) workers))
shutdown_example =
    shutdown pool (7 ∷ 8 ∷ []) workers 1 one_done (omega arith) refl (omega arith) one_step
