-- ===== src/Examples/Windows.antt =====
-- The windows of client and server at concrete inputs.
use ds14_project.Base.{ℕ, ◌+◌, ◌≤◌, ◌<◌, ◌≡◌, refl, List, [], ◌∷◌, lookup, arith, true, false}
use ds14_project.RpcClient.XidWindow.{front}
use ds14_project.RpcClient.XidWindow.Laws.{has, receive, front-receive}
use ds14_project.RpcServer.ReplyWindow.{done, fresh_reply, ReplyWindow, checkduplicate_and_update}
use ds14_project.RpcServer.ReplyWindow.Entries.{find_reply}
use ds14_project.RpcServer.ReplyWindow.AtMostOnce.{
  Event, step, run, executions, duplicate_gets_reply,
}
use ds14_project.RpcServer.ReplyWindow.Limits.{late_copy, executions-late_copy}

abbrev run_events : List Event
run_events =
    Event.request 7 1 0
    ∷ Event.completed 7 1 (5 ∷ [])
    ∷ Event.request 7 1 0
    ∷ Event.request 7 2 0
    ∷ []

abbrev window : ReplyWindow
window = (7, fresh_reply 1 ∷ []) ∷ []

duplicate_gets_reply_example :
    (checkduplicate_and_update 7 1 0 (
      run
        (Event.request 7 2 0 ∷ Event.request 7 1 0 ∷ [])
        (step (Event.completed 7 1 (5 ∷ [])) window))).0
    ≡ (done, 5 ∷ [])
unfolding lookup find_reply
duplicate_gets_reply_example =
    duplicate_gets_reply 7 1 0 (5 ∷ []) (Event.request 7 2 0 ∷ Event.request 7 1 0 ∷ []) window
      (fresh_reply 1) refl (λ e. omega arith, (λ e. omega arith, tt)) (omega arith)

executions-late_copy_example : executions 7 1 (late_copy 7 1 2 0 1 0 (5 ∷ [])) [] ≡ 2
executions-late_copy_example = executions-late_copy 7 1 2 0 1 0 (5 ∷ []) (omega arith) (omega arith)

-- The replies 1, 3 and 2 arrive, and then 5.
front-receive_example :
    let reported = front (receive (0 ∷ []) (1 ∷ 3 ∷ 2 ∷ 5 ∷ [])) in
    ((n : ℕ) → 0 < n → n ≤ reported → has n (1 ∷ 3 ∷ 2 ∷ 5 ∷ []) ≡ true)
    × (has (reported + 1) (1 ∷ 3 ∷ 2 ∷ 5 ∷ []) ≡ false)
front-receive_example =
    front-receive (1 ∷ 3 ∷ 2 ∷ 5 ∷ [])
      (omega arith, (omega arith, (omega arith, (omega arith, tt))))
