-- ===== src/Examples/Tests.antt =====
-- A thread of the concurrent test, with the times of its calls.
use ds14_project.Base.{ℕ, ◌≡◌, true, false, List, [], ◌∷◌, some, arith}
use ds14_project.RpcClient
use ds14_project.Session
use ds14_project.Session.{Peers}
use ds14_project.RpcTest.{startserver, client1, Mixed}
use ds14_project.Deadline.{Timespec}
use ds14_project.RpcTest.Clients.{client1_passes}
use ds14_project.Examples.Service.{network, nonzero}

abbrev at_second : ℕ → Timespec
at_second n = record { tv_sec = n; tv_nsec = 500_000_000 }

abbrev two_calls : List Mixed
two_calls = (true, 5, at_second 60, at_second 61) ∷ (false, 1007, at_second 61, at_second 61) ∷ []

client1_passes_example :
    (p p' : Peers (Unit {0})) × (Session.bind network 0 (RpcClient.init true 7, startserver 9)
      ≡ (0, p))
    × (client1 network 0 (1999 ∷ 3 ∷ []) two_calls p ≡ some p')
client1_passes_example =
    client1_passes network 7 9 0 0 (1999 ∷ 3 ∷ []) two_calls nonzero (omega arith)
      ((omega arith, omega arith), ((omega arith, omega arith), tt))
