-- ===== src/WholeCall.antt =====
-- A call from end to end, `rpcc::call` of lab/rpc/rpc.h over `call1`, `rpcs::dispatch` and
-- `rpcc::got_pdu` of lab/rpc/rpc.cc, where both pdus arrive.
use ds14_project.Base.{
  ℕ, zero, suc, ◌+◌, ◌^◌, ◌%◌, insert, ◌<◌, ◌≡◌, ◌≢◌, refl, ◌∙◌, true, false, List, [], ◌∷◌, ◌++◌,
  length, map, some, none, lookup, lookup-insert, arith, eq→==, ne→==, if_true,
}
use ds14_project.Marshall.{
  Marshall, Unmarshall, pack_req_header, ReplyHeader, marshall, write_at, read_at,
}
use ds14_project.Marshall.RoundTrip.{IsReqHeader}
use ds14_project.RpcConst
use ds14_project.RpcConst.{is_negative}
use ds14_project.Stub.{Item, kind_of, Handler, call_m, put_items}
use ds14_project.Stub.Calls.{request, reply, IsPayload}
use ds14_project.RpcClient.{Client, no_reply, next_header, begin_call, got_pdu, end_call}
use ds14_project.RpcClient.XidWindow.{front}
use ds14_project.RpcClient.Exchange.{end_call-got_pdu}
use ds14_project.RpcServer.{Server, dispatch}
use ds14_project.RpcServer.Dispatch.{RightInstance, reply_bytes}
use ds14_project.RpcServer.Exchange.{dispatch_first, after_first}
use ds14_project.RpcServer.ReplyWindow.Entries.{entry}

pub length-read_at : (f : ℕ → ℕ) (p n : ℕ) → length (read_at f p n) ≡ n
unfolding read_at
length-read_at f p zero = refl
length-read_at f p (suc n) = omega (arith, length-read_at f (p + 1) n)

-- The client while it waits for the call.
abbrev pub waiting : Client → Client
waiting c = record c {
  xid = (c.xid + 1) % 2 ^ 32;
  calls = insert c.xid (record { un = no_reply; intret = 0; done = false }) c.calls;
}

pub begin_call_bound :
    (proc : ℕ) (m : Marshall) (c : Client)
    → c.bind_done ≡ true
    → proc ≢ RpcConst.bind
    → begin_call proc m c ≡ some (c.xid, pack_req_header (next_header proc c) m, waiting c)
unfolding begin_call
begin_call_bound proc m c b other = rw (b, ne→== proc RpcConst.bind other)

-- What the call ends with, once the bytes `b` have arrived in memory that held `net` before.
abbrev pub ended : (net : ℕ → ℕ) → List ℕ → Client → ℕ × Unmarshall × Client
ended net b c = end_call c.xid (got_pdu (write_at net 0 b) (length b) (waiting c))

-- A call of a bound client that wants at-most-once calls: the server runs the registered method once
-- on the arguments of the call, and the call ends with the status and the items that the method
-- returned. The procedure takes arguments of those types, both payloads fit a pdu, the status is no
-- failure, the numbers fit 32 bits, the client knows this instance of the server, the call is newer
-- than what the client acknowledges, call counting is off, and the server has no reply to a call of
-- that number.
pub call_returns :
    {S : Type 0} (mem rmem net : ℕ → ℕ) (proc conn : ℕ) (xs : List Item) (c : Client) (s : Server S)
    (f : Handler S)
    → c.bind_done ≡ true
    → proc ≢ RpcConst.bind
    → IsReqHeader (next_header proc c)
    → c.clt_nonce ≢ 0
    → front c.xid_rep_window < c.xid
    → RightInstance (next_header proc c) s
    → s.counting ≡ 0
    → lookup proc s.procs ≡ some f
    → f.params ≡ map kind_of xs
    → IsPayload xs
    → entry c.clt_nonce c.xid s.reply_window ≡ none
    → IsPayload (f.meth xs s.object).1
    → (f.meth xs s.object).0 < 2 ^ 32
    → is_negative (f.meth xs s.object).0 ≡ false
    → (m : Marshall) × (s' : Server S) × (b : List ℕ) × (begin_call proc
          (put_items xs (marshall mem))
          c
        ≡ some (c.xid, m, waiting c))
      × (dispatch rmem false conn m.buf m.ind s ≡ some s')
      × (s'.sent ≡ s.sent ++ (conn, b) ∷ [])
      × (s'.object ≡ (f.meth xs s.object).2)
      × ((ended net b c).0 ≡ (f.meth xs s.object).0)
      × (call_m (map kind_of (f.meth xs s.object).1) (ended net b c).0 (ended net b c).1
          ≡ ((f.meth xs s.object).0, (f.meth xs s.object).1))
call_returns mem rmem net proc conn xs c s f bound call v client newer r quiet known types p unseen
      q small fine =
    let h = next_header proc c in
    let rh : ReplyHeader = record { xid = c.xid; ret = (f.meth xs s.object).0 } in
    let rs = (f.meth xs s.object).1 in
    let one =
      dispatch_first rmem h xs f p types v mem conn s r known quiet client newer unseen fine in
    let there : lookup c.xid (waiting c).calls
        ≡ some (record { un = no_reply; intret = 0; done = false }) =
      lookup-insert c.xid c.xid _ c.calls ∙ if_true _ _ (eq→== c.xid c.xid refl) in
    let size : length (reply_bytes rmem rh rs) ≡ (reply rmem rh rs).ind = length-read_at _ 0 _ in
    let (status, result) =
      end_call-got_pdu net rmem rh rs (waiting c) _ q (record { xid = v.xid; ret = small }) fine
        there refl in
    (
      request mem h xs,
      after_first rmem h xs f p types v mem conn s r known quiet,
      reply_bytes rmem rh rs,
      begin_call_bound proc (put_items xs (marshall mem)) c bound call,
      one.0,
      one.1.sent,
      one.1.object,
      rw size status,
      rw size result,
    )
