-- ===== src/Examples/Flights.antt =====
-- A new client whose first request, the bind, reaches the server twice.
use ds14_project.Base.{false, [], ◌∷◌}
use ds14_project.Marshall.{ReqHeader}
use ds14_project.RpcConst
use ds14_project.RpcClient.{Client, Caller, no_reply}
use ds14_project.RpcServer.ReplyWindow.AtMostOnce.{request}
use ds14_project.Flight.{Flight}

abbrev waits : Caller
waits = record { un = no_reply; intret = 0; done = false }

abbrev begun : Client
begun = record {
  clt_nonce = 7;
  srv_nonce = 0;
  bind_done = false;
  xid = 2;
  calls = (1, waits) ∷ [];
  xid_rep_window = 0 ∷ [];
}

abbrev bind_header : ReqHeader
bind_header = record { xid = 1; proc = RpcConst.bind; clt_nonce = 7; srv_nonce = 0; xid_rep = 0 }

abbrev flown : Flight
flown = record {
  client = begun;
  sent = bind_header ∷ [];
  seen = request 7 1 0 ∷ request 7 1 0 ∷ [];
}
