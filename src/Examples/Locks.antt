-- ===== src/Examples/Locks.antt =====
-- The lock server at a concrete run: one of two clients asks for lock 5.
use ds14_project.Base.{◌%◌, ◌^◌, ◌≤◌, ◌≡◌, refl, [], ◌∷◌}
use ds14_project.Lock.{idle, a_lock_m, System, Reach, here, next, calls_acquire, init, stat}
use ds14_project.Lock.Threads.{total, holds, counted}
use ds14_project.Lock.Exclusion.{start, mutual_exclusion, stat_counts}

abbrev asked : System
asked = record { server = init; threads = idle ∷ a_lock_m 5 ∷ [] }

asked-Reach : Reach (start 2) asked
asked-Reach = next here (calls_acquire (idle ∷ []) [] 5 refl refl)

mutual_exclusion_example : total (holds 5) asked.threads ≤ 1
mutual_exclusion_example = mutual_exclusion 2 asked asked-Reach 5

stat_counts_example : stat asked.server % 2 ^ 32 ≡ total counted asked.threads % 2 ^ 32
stat_counts_example = stat_counts 2 asked asked-Reach
