-- ===== src/Session/Linked.antt =====
-- A client and a server between two calls, and one call of a linked pair.
use ds14_project.Base.{
  ◌⊎◌, ℕ, suc, ◌+◌, ◌%◌, ◌^◌, ◌<◌, ◌≤◌, ◌≡◌, ◌≢◌, refl, ◌∙◌, true, false, List, [], ◌∷◌, length,
  map, some, none, lookup, lookup-insert, arith, eq→==, ne→==, if_true, inr, inl,
}
use ds14_project.Marshall.{pack_req_header, write_at, Marshall, ReplyHeader, marshall}
use ds14_project.RpcConst
use ds14_project.RpcConst.{is_negative}
use ds14_project.Stub.{Item, kind_of, Handler, put_items}
use ds14_project.Stub.Calls.{request, reply, IsPayload}
use ds14_project.RpcClient.{got_pdu, no_reply, Client, Caller, next_header, begin_call, end_call}
use ds14_project.RpcClient.XidWindow.{front, update_xid_rep}
use ds14_project.RpcServer.{dispatch, Server}
use ds14_project.RpcClient.XidWindow.Below.{Below, update_xid_rep-Below, Below-suc, front-Below}
use ds14_project.RpcClient.Exchange.{
  got_pdu-reply, end_call-taken, end_call_frame, taken, read_reply,
}
use ds14_project.Marshall.RoundTrip.{IsReplyHeader, IsReqHeader}
use ds14_project.RpcServer.Dispatch.{RightInstance, reply_bytes}
use ds14_project.RpcServer.Exchange.{entry-after_first, dispatch_first, after_first}
use ds14_project.RpcServer.ReplyWindow.Entries.{entry}
use ds14_project.WholeCall.{waiting, length-read_at}
use ds14_project.Session.{Network, deliver, serve, rpc_call}

-- A client that wants at-most-once calls, with so many numbers left, and its server, which has no
-- reply to a call that is still to come.
pub record IsLinked {S : Type 0} (n : ℕ) (c : Client) (s : Server S) : Type 0 where
  pub clt_nonce : c.clt_nonce < 2 ^ 32
  pub at_most_once : c.clt_nonce ≢ 0
  pub srv_nonce : c.srv_nonce < 2 ^ 32
  pub xid : 0 < c.xid
  pub room : c.xid + n < 2 ^ 32
  pub window : Below c.xid c.xid_rep_window
  pub quiet : s.counting ≡ 0
  pub unseen : (y : ℕ) → c.xid ≤ y → entry c.clt_nonce y s.reply_window ≡ none

-- A client is bound once, and then calls other procedures.
abbrev pub MayCall : {S : Type 0} → ℕ → Client → Server S → Type 0
MayCall proc c s =
    ((c.bind_done ≡ true) × (proc ≢ RpcConst.bind) × (c.srv_nonce ≡ s.nonce))
    ⊎ ((c.bind_done ≡ false) × (proc ≡ RpcConst.bind) × (c.srv_nonce ≡ 0))

MayCall-RightInstance :
    {S : Type 0} (proc : ℕ) (c : Client) (s : Server S)
    → MayCall proc c s
    → RightInstance (next_header proc c) s
MayCall-RightInstance proc c s (inl (b, p, e)) = inr e
MayCall-RightInstance proc c s (inr (b, p, e)) = inl e

begin_call-MayCall :
    {S : Type 0} (proc : ℕ) (m : Marshall) (c : Client) (s : Server S)
    → MayCall proc c s
    → begin_call proc m c ≡ some (c.xid, pack_req_header (next_header proc c) m, waiting c)
unfolding begin_call
begin_call-MayCall proc m c s (inl (b, p, e)) = rw (b, ne→== proc RpcConst.bind p)
begin_call-MayCall proc m c s (inr (b, p, e)) = rw (b, p)

abbrev unsent : {S : Type 0} → Server S → Server S
unsent s = record s { sent = [] }

serve_lem :
    {S : Type 0} (w : Network) (m : Marshall) (s s' : Server S) (b : List ℕ)
    → dispatch w.rmem false w.conn m.buf m.ind (unsent s) ≡ some s'
    → s'.sent ≡ (w.conn, b) ∷ []
    → serve w m (some s) ≡ (some s', (w.conn, b) ∷ [])
unfolding serve
serve_lem w m s s' b e sent = rw (e, serve, sent)

deliver_lem :
    (w : Network) (conn : ℕ) (b : List ℕ) (n : ℕ) (c c' : Client)
    → length b ≡ n
    → got_pdu (write_at w.net 0 b) n c ≡ c'
    → deliver w ((conn, b) ∷ []) c ≡ c'
unfolding deliver
deliver_lem w conn b n c c' size e = rw size e

-- The pair behind a call.
next-IsLinked :
    {S : Type 0} (n : ℕ) (c : Client) (s s' : Server S) (calls : List (ℕ × Caller))
    → IsLinked (suc n) c s
    → s'.counting ≡ s.counting
    → ((y : ℕ)
        → front c.xid_rep_window < y
        → c.xid ≢ y
        → entry c.clt_nonce y s'.reply_window ≡ entry c.clt_nonce y s.reply_window)
    → IsLinked n
        (end_call c.xid (record (waiting c) {
          calls = calls;
          xid_rep_window = update_xid_rep c.xid c.xid_rep_window;
        })).2
        s'
next-IsLinked n c s s' calls l counting others =
    let newer = front-Below c.xid c.xid_rep_window l.xid l.window in
    let wrap : (c.xid + 1) % 2 ^ 32 ≡ c.xid + 1 = omega (arith, l.room) in
    let seen =
      update_xid_rep-Below (c.xid + 1) c.xid c.xid_rep_window (omega arith)
        (Below-suc c.xid c.xid_rep_window l.window) in
    rw (end_call_frame, wrap)
      (record {
        clt_nonce = l.clt_nonce;
        at_most_once = l.at_most_once;
        srv_nonce = l.srv_nonce;
        xid = omega arith;
        room = omega (arith, l.room);
        window = update_xid_rep-Below (c.xid + 1) c.xid _ (omega arith) seen;
        quiet = counting ∙ l.quiet;
        unseen = λ y le.
            others y (omega (arith, le, newer)) (λ e. omega (arith, le, e))
            ∙ l.unseen y (omega (arith, le));
      })

-- One call of a linked pair: the server runs the method on the arguments, the client gets its status
-- and its items, and the pair is linked again.
module _ {S : Type 0} (w : Network) (n proc : ℕ) (xs : List Item) (c : Client) (s : Server S)
    (f : Handler S) where
  pub rpc_call_lem :
      IsLinked (suc n) c s
      → MayCall proc c s
      → proc < 2 ^ 32
      → lookup proc s.procs ≡ some f
      → f.params ≡ map kind_of xs
      → IsPayload xs
      → IsPayload (f.meth xs s.object).1
      → (f.meth xs s.object).0 < 2 ^ 31
      → (c' : Client) × (s' : Server S) × (rpc_call w proc xs
            (map kind_of (f.meth xs s.object).1)
            (c, some s)
          ≡ ((f.meth xs s.object).0, (f.meth xs s.object).1, (c', some s')))
        × IsLinked n c' s'
        × (s'.object ≡ (f.meth xs s.object).2)
        × (s'.procs ≡ s.procs)
        × (s'.nonce ≡ s.nonce)
        × (c'.bind_done ≡ c.bind_done)
        × (c'.srv_nonce ≡ c.srv_nonce)
  unfolding rpc_call
  rpc_call_lem l call proc_fits known types p q small =
      let h = next_header proc c in
      let rs = (f.meth xs s.object).1 in
      let rh : ReplyHeader = record { xid = c.xid; ret = (f.meth xs s.object).0 } in
      let newer = front-Below c.xid c.xid_rep_window l.xid l.window in
      let v : IsReqHeader h = record {
        xid = omega (arith, l.room);
        proc = proc_fits;
        clt_nonce = l.clt_nonce;
        srv_nonce = l.srv_nonce;
        xid_rep = omega (arith, l.room, newer);
      } in
      let fine : is_negative (f.meth xs s.object).0 ≡ false = ground (arith, small) in
      let s0 : Server S = unsent s in
      let right_one = MayCall-RightInstance proc c s call in
      let one =
        dispatch_first w.rmem h xs f p types v w.mem w.conn s0 right_one known l.quiet
          l.at_most_once newer (l.unseen c.xid (omega arith)) fine in
      let s1 = after_first w.rmem h xs f p types v w.mem w.conn s0 right_one known l.quiet in
      let there : lookup c.xid (waiting c).calls
          ≡ some (record { un = no_reply; intret = 0; done = false }) =
        lookup-insert c.xid c.xid _ c.calls ∙ if_true _ _ (eq→== c.xid c.xid refl) in
      let rv : IsReplyHeader rh = record { xid = v.xid; ret = omega (arith, small) } in
      let c1 = taken c.xid rh.ret (read_reply w.net w.rmem rh rs q) (waiting c) in
      let ends = end_call-taken w.net w.rmem rh rs q rv (waiting c) _ there refl fine in
      let wrap : (c.xid + 1) % 2 ^ 32 ≡ c.xid + 1 = omega (arith, l.room) in
      let b = reply_bytes w.rmem rh rs in
      let served : serve w (request w.mem h xs) (some s) ≡ (some s1, (w.conn, b) ∷ []) =
        serve_lem w (request w.mem h xs) s s1 b one.0 one.1.sent in
      let delivered : deliver w ((w.conn, b) ∷ []) (waiting c) ≡ c1 =
        deliver_lem w w.conn b (reply w.rmem rh rs).ind (waiting c) c1 (length-read_at _ 0 _)
          (got_pdu-reply w.net w.rmem rh rs q rv (waiting c) _ there refl) in
      (
        (end_call c.xid c1).2,
        s1,
        rw (
          begin_call-MayCall proc (put_items xs (marshall w.mem)) c s call,
          rpc_call,
          served,
          delivered,
          ends.1,
        ),
        next-IsLinked n c s s1 c1.calls l one.1.counting
            (entry-after_first w.rmem h xs f p types v w.mem w.conn s0 right_one known l.quiet),
        one.1.object,
        one.1.procs,
        one.1.nonce,
        rw end_call_frame,
        rw end_call_frame,
      )
