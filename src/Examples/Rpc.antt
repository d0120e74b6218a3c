-- ===== src/Examples/Rpc.antt =====
-- The RPC library at concrete inputs: a server of one procedure, which adds two numbers and counts
-- its calls, and a client that asks it for 2 + 3.
use ds14_project.Base.{
  ℕ, ◌+◌, ◌%◌, ◌^◌, ◌≡◌, refl, ◌++◌, inr, List, [], ◌∷◌, map, some, lookup, arith, false,
}
use ds14_project.Marshall.{ReqHeader, ReplyHeader, marshall}
use ds14_project.Marshall.RoundTrip.{IsReqHeader}
use ds14_project.RpcConst.{unmarshal_args_failure}
use ds14_project.Stub.{Item, Kind, kind_of, Handler, handler_fn}
use ds14_project.Stub.Calls.{
  request, IsPayload, behind_header, answer, handler_fn-request, handler_fn-extra,
}
use ds14_project.RpcServer.{Server, dispatch}
use ds14_project.RpcServer.Dispatch.{reply_bytes}
use ds14_project.RpcServer.Duplicate.{dispatch_twice}
use ds14_project.RpcServer.ReplyWindow.Entries.{find_reply}

abbrev pub zeros : ℕ → ℕ
zeros i = 0

abbrev pub ones : ℕ → ℕ
ones i = 255

unfoldable pub add_up : List Item → ℕ → ℕ × List Item × ℕ
add_up (Item.uint a ∷ Item.uint b ∷ []) s = (0, Item.uint ((a + b) % 2 ^ 32) ∷ [], s + 1)
add_up xs s = (0, [], s)

abbrev pub adder : Handler ℕ
adder = record { params = Kind.uint ∷ Kind.uint ∷ []; meth = add_up }

abbrev pub server : Server ℕ
server = record {
  nonce = 9;
  procs = (35, adder) ∷ [];
  reply_window = [];
  conns = [];
  counting = 0;
  curr_counts = 0;
  counts = [];
  object = 0;
  refs = λ c. 1;
  sent = [];
}

abbrev header : ReqHeader
header = record { xid = 1; proc = 35; clt_nonce = 7; srv_nonce = 9; xid_rep = 0 }

abbrev plain_header : ReqHeader
plain_header = record header { clt_nonce = 0 }

abbrev pub old_header : ReqHeader
old_header = record header { srv_nonce = 8 }

abbrev pub args : List Item
args = Item.uint 2 ∷ Item.uint 3 ∷ []

pub args-IsPayload : IsPayload args
args-IsPayload = record { items = (omega arith, (omega arith, tt)); size = omega arith }

sum_is : add_up args 0 ≡ (0, Item.uint 5 ∷ [], 1)
unfolding add_up
sum_is = refl

pub types : Handler.params adder ≡ map kind_of args
unfolding kind_of
types = refl

header-IsReqHeader : IsReqHeader header
header-IsReqHeader = record {
  xid = omega arith;
  proc = omega arith;
  clt_nonce = omega arith;
  srv_nonce = omega arith;
  xid_rep = omega arith;
}

dispatch_twice_example :
    let b = reply_bytes zeros (record { xid = 1; ret = (add_up args 0).0 }) (add_up args 0).1 in
    (s1 : Server ℕ) × (s2 : Server ℕ) × (dispatch zeros false 1
        (request zeros header args).buf
        (request zeros header args).ind
        server
      ≡ some s1)
    × (dispatch zeros false 2 (request ones header args).buf (request ones header args).ind s1
        ≡ some s2)
    × (s2.object ≡ (add_up args 0).2)
    × (s2.sent ≡ [] ++ (1, b) ∷ (2, b) ∷ [])
unfolding add_up lookup find_reply
dispatch_twice_example =
    dispatch_twice zeros header args adder zeros ones 1 2 server args-IsPayload types
      header-IsReqHeader (inr refl) refl refl (omega arith) (omega arith) refl refl

handler_fn-request_example :
    handler_fn adder (behind_header (request zeros header args)) (marshall ones) 0
    ≡ answer (marshall ones) (add_up args 0)
handler_fn-request_example =
    handler_fn-request zeros header args adder (marshall ones) 0 args-IsPayload types

three_args-IsPayload : IsPayload (args ++ Item.uint 4 ∷ [])
three_args-IsPayload = record {
  items = (omega arith, (omega arith, (omega arith, tt)));
  size = omega arith;
}

handler_fn-extra_example :
    handler_fn adder
      (behind_header (request zeros header (args ++ Item.uint 4 ∷ [])))
      (marshall ones)
      0
    ≡ (unmarshal_args_failure, marshall ones, 0)
handler_fn-extra_example =
    handler_fn-extra zeros header args (Item.uint 4) [] adder (marshall ones) 0 three_args-IsPayload
      types

abbrev pub sum_header : ReplyHeader
sum_header = record { xid = 1; ret = 0 }

plain_header-IsReqHeader : IsReqHeader plain_header
plain_header-IsReqHeader = record {
  xid = omega arith;
  proc = omega arith;
  clt_nonce = omega arith;
  srv_nonce = omega arith;
  xid_rep = omega arith;
}

pub old_header-IsReqHeader : IsReqHeader old_header
old_header-IsReqHeader = record {
  xid = omega arith;
  proc = omega arith;
  clt_nonce = omega arith;
  srv_nonce = omega arith;
  xid_rep = omega arith;
}
