-- ===== src/RpcServer/Duplicate.antt =====
-- `dispatch` of a request and of a copy of it, one after the other.
use ds14_project.Base.{
  ℕ, ◌<◌, ◌≡◌, ◌≢◌, ◌∙◌, List, [], ◌∷◌, ◌++◌, false, map, some, none, lookup, append_assoc,
}
use ds14_project.Marshall.{ReqHeader}
use ds14_project.Marshall.RoundTrip.{IsReqHeader}
use ds14_project.RpcConst.{is_negative}
use ds14_project.Stub.{Item, kind_of, Handler}
use ds14_project.Stub.Calls.{request, IsPayload}
use ds14_project.RpcServer.ReplyWindow.Entries.{entry}
use ds14_project.RpcServer.{Server, lookup_request, dispatch, decref, send}
use ds14_project.RpcServer.Dispatch.{RightInstance, reply_bytes}
use ds14_project.RpcServer.Exchange.{the_reply, after_first, dispatch_first, dispatch_again}

-- A new request of a client that wants at-most-once calls, and then a copy of it, on any two live
-- connections: the method runs once, on the arguments that were packed, and both requests get the
-- bytes of its reply. The procedure is registered for arguments of those types, its status is not
-- negative, the request does not acknowledge itself, and call counting is off.
pub dispatch_twice :
    {S : Type 0} (rmem : ℕ → ℕ) (h : ReqHeader) (xs : List Item) (f : Handler S) (mem mem' : ℕ → ℕ)
    (c c' : ℕ) (s : Server S)
    → IsPayload xs
    → f.params ≡ map kind_of xs
    → IsReqHeader h
    → RightInstance h s
    → lookup h.proc s.procs ≡ some f
    → s.counting ≡ 0
    → h.clt_nonce ≢ 0
    → h.xid_rep < h.xid
    → entry h.clt_nonce h.xid s.reply_window ≡ none
    → is_negative (f.meth xs s.object).0 ≡ false
    → let b =
        reply_bytes rmem
          (record { xid = h.xid; ret = (f.meth xs s.object).0 })
          (f.meth xs s.object).1 in
      (s1 : Server S) × (s2 : Server S) × (dispatch rmem false c
          (request mem h xs).buf
          (request mem h xs).ind
          s
        ≡ some s1)
      × (dispatch rmem false c' (request mem' h xs).buf (request mem' h xs).ind s1 ≡ some s2)
      × (s2.object ≡ (f.meth xs s.object).2)
      × (s2.sent ≡ s.sent ++ (c, b) ∷ (c', b) ∷ [])
dispatch_twice rmem h xs f mem mem' c c' s p types v r known quiet client unacked unseen fine =
    let s1 = after_first rmem h xs f p types v mem c s r known quiet in
    let b = the_reply rmem h xs f p types s.object in
    let one =
      dispatch_first rmem h xs f p types v mem c s r known quiet client unacked unseen fine in
    let a = one.1 in
    let r1 : RightInstance h s1 = rw a.nonce r in
    let two =
      dispatch_again rmem h xs f p types v mem' c' s1 r1 (rw a.procs known) (a.counting ∙ quiet) b
        client unacked a.stored in
    (
      s1,
      decref c' (send c' b (lookup_request c' h s1).1),
      one.0,
      two.0,
      two.1.object ∙ a.object,
      two.1.sent ∙ rw a.sent (append_assoc s.sent ((c, b) ∷ []) ((c', b) ∷ [])),
    )
