-- ===== src/Session.antt =====
-- Calls of one client on one server, `rpcc::call` of lab/rpc/rpc.h over lab/rpc/rpc.cc, on a network
-- that delivers: the pdu of a call reaches the server, and each pdu that the server sends reaches
-- the client.
pub mod Linked
use ds14_project.Base.{ℕ, false, List, [], ◌∷◌, length, Option, some, none}
use ds14_project.Marshall.{Marshall, marshall, write_at}
use ds14_project.RpcConst
use ds14_project.RpcConst.{bind_failure}
use ds14_project.Stub.{Item, Kind, put_items, call_m}
use ds14_project.RpcClient.{bound, Client, begin_call, got_pdu, end_call}
use ds14_project.RpcServer.{Server, dispatch}

-- What the memories hold that the program does not set, and the connection's number.
pub record Network : Type 0 where
  pub mem : ℕ → ℕ
  pub rmem : ℕ → ℕ
  pub net : ℕ → ℕ
  pub conn : ℕ

-- A server with a failed assertion is gone.
abbrev pub Peers : Type 0 → Type 0
Peers S = Client × Option (Server S)

-- The variable that a result is read into.
abbrev pub uint_or : ℕ → List Item → ℕ
uint_or old (Item.uint x ∷ xs) = x
uint_or old xs = old

module _ (w : Network) where
  unfoldable pub deliver : List (ℕ × List ℕ) → Client → Client
  deliver [] c = c
  deliver ((conn, b) ∷ rest) c = deliver rest (got_pdu (write_at w.net 0 b) (length b) c)

  unfoldable pub serve :
      {S : Type 0} → Marshall → Option (Server S) → Option (Server S) × List (ℕ × List ℕ)
  serve m none = (none, [])
  serve m (some s) = elim (dispatch w.rmem false w.conn m.buf m.ind (record s { sent = [] })) [
    | none ↦ (none, [])
    | some s' ↦ (some s', s'.sent)
  ]

  -- `call`: the status, the items that are read, and both peers.
  unfoldable pub rpc_call :
      {S : Type 0} → (proc : ℕ) → List Item → List Kind → Peers S → ℕ × List Item × Peers S
  rpc_call proc xs result (c, s) = elim (begin_call proc (put_items xs (marshall w.mem)) c) [
    | none ↦ (bind_failure, [], (c, s))
    | some (xid, m, c1) ↦
        (let (s', sent) = serve m s in
          let (intret, u, c2) = end_call xid (deliver sent c1) in
          let (ret, r) = call_m result intret u in (ret, r, (c2, s')))
  ]

  -- `bind`, with what its variable for the nonce held.
  unfoldable pub bind : {S : Type 0} → (junk : ℕ) → Peers S → ℕ × Peers S
  bind junk p =
      let (ret, r, p') = rpc_call RpcConst.bind (Item.uint 0 ∷ []) (Kind.uint ∷ []) p in
      (ret, (bound ret (uint_or junk r) p'.0, p'.1))
