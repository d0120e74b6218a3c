-- ===== src/Examples/Listeners.antt =====
-- A server that accepted one connection, which then died.
use ds14_project.Base.{
  ◌==◌, if◌then◌else◌, ℕ, ◌<◌, ◌≡◌, refl, true, [], ◌∷◌, some, none, lookup, insert,
}
use ds14_project.Connection
use ds14_project.Connection.{Connection}
use ds14_project.RpcClient.Refconn.{closeconn_at, Conns, connect_to_dst}
use ds14_project.Listener.{Listener, Round, accept_round, process_accept, collect_dead, destroy}
use ds14_project.Listener.Lifetime.{Step, Steps, empty}
use ds14_project.Listener.Destructor.{close_all-frees}

abbrev accepted : Listener
accepted = record {
  table = (6, 0) ∷ [];
  conns = record { at = λ j. if j == 0 then some Connection.init else none; fresh = 1 };
}

accepts : Step empty (λ j. 0) accepted (λ j. 0)
unfolding accept_round process_accept connect_to_dst collect_dead lookup insert
accepts = Step.rounds (Round.tcp_ready (some 6)) (λ fd e. refl) refl

abbrev closed : Listener
closed = record {
  table = (6, 0) ∷ [];
  conns = record {
    at = λ j.
        if j == 0
        then some (Connection.die Connection.init)
        else (if j == 0 then some Connection.init else none);
    fresh = 1;
  };
}

closes : Step accepted (λ j. 0) closed (λ j. 0)
unfolding closeconn_at Connection.closeconn
closes = Step.closes 0 refl

both : Steps empty (λ j. 0) closed (λ j. 0)
both = Steps.then accepts (Steps.then closes Steps.done)

close_all-frees_example :
    (h : Conns) × (destroy true true closed ≡ some h)
    × ((j : ℕ) (c : Connection) → h.at j ≡ some c → (c.dead ≡ true) × (c.refno ≡ 0) × (0 < 0))
close_all-frees_example = close_all-frees both
