-- ===== src/RpcClient.antt =====
-- The client side of lab/rpc/rpc.cc, class `rpcc`: the state of a client and what its calls do to it.
-- `call1` is in two parts, before and after it waits for the reply; `got_pdu` comes in between.
pub mod XidWindow
pub mod Exchange
pub mod Wait
pub mod Refconn
pub mod Waiting
use ds14_project.Base.{
  ℕ, ◌+◌, ◌%◌, ◌^◌, Bool, true, false, not, ◌&&◌, ◌||◌, List, [], ◌∷◌, ◌==◌, if◌then◌else◌, Option,
  some, none, lookup, insert, erase,
}
use ds14_project.Marshall.{
  Marshall, Unmarshall, ReqHeader, unmarshall, pack_req_header, unpack_reply_header, take_in,
}
use ds14_project.RpcConst
use ds14_project.RpcConst.{timeout_failure}
use XidWindow.{front, update_xid_rep}

-- `un` is the reader that the caller gave; `intret` is not read before `done`.
pub record Caller : Type 0 where
  pub un : Unmarshall
  pub intret : ℕ
  pub done : Bool

pub record Client : Type 0 where
  pub clt_nonce : ℕ
  pub srv_nonce : ℕ
  pub bind_done : Bool
  pub xid : ℕ
  pub calls : List (ℕ × Caller)
  pub xid_rep_window : List ℕ

-- The constructor, with what `random` gave.
unfoldable pub init : (retrans : Bool) → (random : ℕ) → Client
init retrans random = record {
  clt_nonce = if retrans then random % 2 ^ 32 else 0;
  srv_nonce = 0;
  bind_done = false;
  xid = 1;
  calls = [];
  xid_rep_window = 0 ∷ [];
}

-- `unmarshall u;`, a reader of nothing.
abbrev pub no_reply : Unmarshall
no_reply = record { buf = λ i. 0; sz = 0; ind = 0; is_ok = false }

-- The header of the next call.
abbrev pub next_header : ℕ → Client → ReqHeader
next_header proc c = record {
  xid = c.xid;
  proc = proc;
  clt_nonce = c.clt_nonce;
  srv_nonce = c.srv_nonce;
  xid_rep = front c.xid_rep_window;
}

-- `call1` until it sends: the number of the call and its pdu; `none` stands for bind_failure.
unfoldable pub begin_call : (proc : ℕ) → Marshall → Client → Option (ℕ × Marshall × Client)
begin_call proc req c =
    if (not (proc == RpcConst.bind) && not c.bind_done) || (proc == RpcConst.bind && c.bind_done)
    then none
    else some (
      c.xid,
      pack_req_header (next_header proc c) req,
      record c {
        xid = (c.xid + 1) % 2 ^ 32;
        calls = insert c.xid (record { un = no_reply; intret = 0; done = false }) c.calls;
      },
    )

-- A caller that waits takes the reply; the first reply is the one that counts.
pub hand_over : (xid ret : ℕ) → Unmarshall → Client → Client
hand_over xid ret rep c = elim (lookup xid c.calls) [
  | none ↦ c
  | some ca ↦ if ca.done then c else record c {
    calls = insert xid (record { un = take_in rep; intret = ret; done = true }) c.calls;
  }
]

pub got_pdu : (buf : ℕ → ℕ) → (sz : ℕ) → Client → Client
unfolding hand_over
got_pdu buf sz c =
    let (h, rep) = unpack_reply_header (unmarshall buf sz) in
    let c1 = record c { xid_rep_window = update_xid_rep h.xid c.xid_rep_window } in
    if not rep.is_ok then c else hand_over h.xid h.ret rep c1

-- `call1` behind its wait: the status, the reply, and the client without the call. A caller is in
-- the table for as long as it waits.
pub end_call : ℕ → Client → ℕ × Unmarshall × Client
end_call xid c =
    let c' = record c {
      calls = erase xid c.calls;
      xid_rep_window = update_xid_rep xid c.xid_rep_window;
    } in
    elim (lookup xid c.calls) [
      | none ↦ (timeout_failure, no_reply, c')
      | some ca ↦ if ca.done then (ca.intret, ca.un, c') else (timeout_failure, ca.un, c')
    ]

-- What `bind` does with the status and the result of its call.
unfoldable pub bound : (ret r : ℕ) → Client → Client
bound ret r c = if ret == 0 then record c { bind_done = true; srv_nonce = r } else c
