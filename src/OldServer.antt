-- ===== src/OldServer.antt =====
-- A client of lab/rpc/rpc.cc that calls an instance of the server that is no more: the branch of
-- rpcs::dispatch for such a request, and what the client makes of the answer.
use ds14_project.Base.{ℕ, ◌≡◌, ◌≢◌, refl, ◌∙◌, ap, Bool, false, List, [], some, lookup, arith}
use ds14_project.Marshall.{Marshall, ReqHeader, read_at}
use ds14_project.Marshall.RoundTrip.{IsReqHeader}
use ds14_project.RpcConst.{oldsrv_failure}
use ds14_project.Stub.{Item, put_items}
use ds14_project.Stub.Calls.{request, reply}
use ds14_project.RpcServer.{Server, dispatch, send, status_reply}
use ds14_project.RpcServer.Dispatch.{dispatch-status_reply}
use ds14_project.RpcClient.{Client, Caller, got_pdu, end_call}
use ds14_project.RpcClient.Exchange.{arrived_at, end_call-status}

status_reply-reply :
    (rmem : ℕ → ℕ) (xid ret : ℕ)
    → let m = reply rmem (record { xid = xid; ret = ret }) [] in
      status_reply rmem xid ret ≡ read_at m.buf 0 m.ind
unfolding status_reply put_items
status_reply-reply rmem xid ret = refl

-- A request for another instance of the server, whatever it asks for, is answered by one pdu, and
-- the server changes in nothing else: it keeps the reference to the connection that the request holds.
-- The bytes of that pdu, read by the client into memory that held anything before, end the call, if it
-- waits, with the status oldsrv_failure. The header of the request has 32-bit numbers.
pub dispatch_oldsrv :
    {S : Type 0} (mem rmem cmem : ℕ → ℕ) (conn : ℕ) (h : ReqHeader) (xs : List Item) (s : Server S)
    (dead : Bool) (c : Client) (ca : Caller)
    → IsReqHeader h
    → h.srv_nonce ≢ 0
    → h.srv_nonce ≢ s.nonce
    → lookup h.xid c.calls ≡ some ca
    → ca.done ≡ false
    → (m : Marshall) × (dispatch rmem dead conn (request mem h xs).buf (request mem h xs).ind s
        ≡ some (send conn (read_at m.buf 0 m.ind) s))
      × ((send conn (read_at m.buf 0 m.ind) s).refs conn ≡ s.refs conn)
      × ((end_call h.xid (got_pdu (arrived_at cmem m) m.ind c)).0 ≡ oldsrv_failure)
unfolding send
dispatch_oldsrv mem rmem cmem conn h xs s dead c ca v old other there waits = (
  reply rmem (record { xid = h.xid; ret = oldsrv_failure }) [],
  dispatch-status_reply mem rmem conn h xs s v dead old other
      ∙ ap (λ (b : List ℕ). some (send conn b s)) (status_reply-reply rmem h.xid oldsrv_failure),
  refl,
  end_call-status cmem rmem (record { xid = h.xid; ret = oldsrv_failure }) c ca
      (record { xid = v.xid; ret = omega arith }) there waits,
)
