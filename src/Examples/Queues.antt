-- ===== src/Examples/Queues.antt =====
-- Deadlines, the wait of a call, the queue and the thread pool at concrete inputs.
use ds14_project.Base.{
  List, true, All, ℕ, ◌+◌, ◌*◌, ◌≤◌, ◌≡◌, ◌⊎◌, refl, false, [], ◌∷◌, ◌++◌, length, arith,
}
use ds14_project.Deadline.{Timespec, add_timespec}
use ds14_project.Deadline.Order.{nanoseconds, add_timespec_lem}
use ds14_project.RpcClient.Wait.{Round, first_wait, to_max, wait_loop}
use ds14_project.RpcClient.Wait.Ends.{IsEnded, NotBefore, wait_loop-IsEnded}
use ds14_project.Fifo.{Fifo, enq, deq}
use ds14_project.Fifo.Order.{Run, start, puts, takes, run_order}

abbrev noon : Timespec
noon = record { tv_sec = 43200; tv_nsec = 999_000_000 }

abbrev later : Timespec
later = record { tv_sec = 43202; tv_nsec = 0 }

add_timespec_lem_example :
    (nanoseconds (add_timespec noon 1001) ≡ nanoseconds noon + 1001 * 1_000_000)
    × ((add_timespec noon 1001).tv_nsec ≤ 1_000_000_000)
add_timespec_lem_example = add_timespec_lem noon 1001

abbrev left : Fifo ℕ
left = record { q = 6 ∷ []; max = 2 }

two_in : Run 2 (5 ∷ 6 ∷ []) (5 ∷ []) left
unfolding enq deq
two_in =
    takes 5 left
      (puts 6 false (record { q = 5 ∷ 6 ∷ []; max = 2 })
        (puts 5 false (record { q = 5 ∷ []; max = 2 }) start refl) refl)
      refl

run_order_example :
    (5 ∷ 6 ∷ [] ≡ (5 ∷ []) ++ left.q) × (left.max ≡ 2) × ((left.max ≡ 0) ⊎ (length left.q ≤ 2))
run_order_example = run_order 2 (5 ∷ 6 ∷ []) (5 ∷ []) left two_in

-- The clock stands still, and the connection is dead.
abbrev stuck : Round
stuck = record { connected = true; now = noon; done = false; dead = true }

abbrev nine : List Round
nine = stuck ∷ stuck ∷ stuck ∷ stuck ∷ stuck ∷ stuck ∷ stuck ∷ stuck ∷ stuck ∷ []

nine-NotBefore : All (NotBefore noon) nine
nine-NotBefore = (
  omega arith,
  (
    omega arith,
    (
      omega arith,
      (omega arith, (omega arith, (omega arith, (omega arith, (omega arith, (omega arith, tt)))))),
    ),
  ),
)

wait_loop-IsEnded_example : IsEnded (wait_loop true nine (first_wait noon to_max))
wait_loop-IsEnded_example =
    wait_loop-IsEnded true noon to_max nine (omega arith) (omega arith) nine-NotBefore
