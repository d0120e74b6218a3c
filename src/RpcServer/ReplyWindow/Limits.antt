-- ===== src/RpcServer/ReplyWindow/Limits.antt =====
-- The reply window of lab/rpc/rpc.cc on a copy of a request that comes late.
use ds14_project.Base.{ℕ, ◌≤◌, ◌≡◌, ◌≢◌, List, [], ◌∷◌, arith, lookup, insert}
use ds14_project.RpcServer.ReplyWindow.{
  scan, checkduplicate_and_update, store, add_reply, register_client,
}
use ds14_project.RpcServer.ReplyWindow.AtMostOnce.{
  Event, request, completed, step, starts, executions,
}

-- A request is executed and answered, another request of the client acknowledges the reply, and the
-- first request comes once more.
abbrev pub late_copy : (c x y rep0 rep rep' : ℕ) → List ℕ → List Event
late_copy c x y rep0 rep rep' b =
    request c x rep0 ∷ completed c x b ∷ request c y rep ∷ request c x rep' ∷ []

-- A request that is executed, answered and acknowledged by another request of its client, and then
-- comes once more, is executed twice, whatever the copy itself acknowledges.
pub executions-late_copy :
    (c x y rep0 rep rep' : ℕ) (b : List ℕ)
    → x ≢ y
    → x ≤ rep
    → executions c x (late_copy c x y rep0 rep rep' b) [] ≡ 2
unfolding executions step starts checkduplicate_and_update scan store add_reply register_client
    lookup insert
executions-late_copy c x y rep0 rep rep' b other acked = ground arith
