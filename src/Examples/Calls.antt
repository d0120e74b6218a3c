-- ===== src/Examples/Calls.antt =====
-- A bound client that calls the server of one procedure.
use ds14_project.Base.{
  ℕ, ◌^◌, ◌<◌, ◌≡◌, refl, inr, true, false, List, [], ◌∷◌, ◌++◌, map, some, lookup, arith,
}
use ds14_project.Marshall.{Marshall, marshall, read_at}
use ds14_project.Marshall.RoundTrip.{IsReqHeader, IsReplyHeader}
use ds14_project.Stub.{kind_of, call_m, put_items}
use ds14_project.Stub.Calls.{request, reply, IsPayload}
use ds14_project.RpcClient.{Client, Caller, no_reply, next_header, begin_call, got_pdu, end_call}
use ds14_project.RpcClient.XidWindow.{front}
use ds14_project.RpcClient.Exchange.{arrived_at, end_call-got_pdu, got_pdu-keeps_reply}
use ds14_project.RpcServer.{Server, dispatch, send}
use ds14_project.RpcServer.ReplyWindow.Entries.{find_reply}
use ds14_project.WholeCall.{waiting, ended, call_returns}
use ds14_project.RpcConst.{oldsrv_failure}
use ds14_project.OldServer.{dispatch_oldsrv}
use ds14_project.Examples.Rpc.{
  old_header, old_header-IsReqHeader, zeros, ones, adder, add_up, server, args, sum_header,
  args-IsPayload, types,
}

abbrev client : Client
client = record {
  clt_nonce = 7;
  srv_nonce = 9;
  bind_done = true;
  xid = 1;
  calls = [];
  xid_rep_window = 0 ∷ [];
}

header_fits : IsReqHeader (next_header 35 client)
unfolding front
header_fits = record {
  xid = omega arith;
  proc = omega arith;
  clt_nonce = omega arith;
  srv_nonce = omega arith;
  xid_rep = omega arith;
}

newer : front client.xid_rep_window < client.xid
unfolding front
newer = omega arith

sum-IsPayload : IsPayload (add_up args 0).1
unfolding add_up
sum-IsPayload = record { items = (omega arith, tt); size = omega arith }

sum_fits : (add_up args 0).0 < 2 ^ 32
unfolding add_up
sum_fits = omega arith

call_returns_example :
    (m : Marshall) × (s' : Server ℕ) × (b : List ℕ) × (begin_call 35
        (put_items args (marshall zeros))
        client
      ≡ some (1, m, waiting client))
    × (dispatch ones false 3 m.buf m.ind server ≡ some s')
    × (s'.sent ≡ [] ++ (3, b) ∷ [])
    × (s'.object ≡ (add_up args 0).2)
    × ((ended ones b client).0 ≡ (add_up args 0).0)
    × (call_m (map kind_of (add_up args 0).1) (ended ones b client).0 (ended ones b client).1
        ≡ ((add_up args 0).0, (add_up args 0).1))
unfolding lookup find_reply add_up
call_returns_example =
    call_returns zeros ones ones 35 3 args client server adder refl (omega arith) header_fits
      (omega arith) newer (inr refl) refl refl types args-IsPayload refl sum-IsPayload sum_fits refl

abbrev one_call : Client
one_call = record client {
  xid = 2;
  calls = (1, record { un = no_reply; intret = 0; done = false }) ∷ [];
}

sum_header-IsReplyHeader : IsReplyHeader sum_header
sum_header-IsReplyHeader = record { xid = omega arith; ret = omega arith }

end_call-got_pdu_example :
    let e = end_call 1 (
      got_pdu
        (arrived_at zeros (reply ones sum_header args))
        (reply ones sum_header args).ind
        one_call) in
    (e.0 ≡ 0) × (call_m (map kind_of args) e.0 e.1 ≡ (0, args))
unfolding lookup
end_call-got_pdu_example =
    end_call-got_pdu zeros ones sum_header args one_call
      (record { un = no_reply; intret = 0; done = false }) args-IsPayload sum_header-IsReplyHeader
      refl refl refl

abbrev answered : Caller
answered = record { un = no_reply; intret = 0; done = true }

abbrev done_call : Client
done_call = record client { xid = 2; calls = (1, answered) ∷ [] }

got_pdu-keeps_reply_example : lookup 1 (got_pdu zeros 32 done_call).calls ≡ some answered
unfolding lookup
got_pdu-keeps_reply_example = got_pdu-keeps_reply zeros 32 1 done_call answered refl refl

-- A request for the instance 8 of a server whose instance is 9.
dispatch_oldsrv_example :
    (m : Marshall) × (dispatch ones false 3
        (request zeros old_header args).buf
        (request zeros old_header args).ind
        server
      ≡ some (send 3 (read_at m.buf 0 m.ind) server))
    × ((send 3 (read_at m.buf 0 m.ind) server).refs 3 ≡ server.refs 3)
    × ((end_call 1 (got_pdu (arrived_at zeros m) m.ind one_call)).0 ≡ oldsrv_failure)
unfolding lookup
dispatch_oldsrv_example =
    dispatch_oldsrv zeros ones zeros 3 old_header args server false one_call
      (record { un = no_reply; intret = 0; done = false }) old_header-IsReqHeader (omega arith)
      (omega arith) refl refl
