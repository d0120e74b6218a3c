-- ===== src/RpcServer.antt =====
-- The server side of lab/rpc/rpc.cc, class `rpcs`: the dispatch of a request. The dispatch is in two
-- parts, before and after the handler's method runs, since other threads may come between; a
-- connection is a number, and the references to each are counted.
pub mod ReplyWindow
pub mod Dispatch
pub mod Exchange
pub mod Duplicate
use ds14_project.Base.{
  ◌^◌, ◌%◌, ℕ, zero, suc, ◌+◌, ◌-◌, Bool, true, false, not, ◌&&◌, ◌||◌, List, [], ◌∷◌, ◌++◌, ltb,
  leb, ◌==◌, if◌then◌else◌, Option, some, none, lookup, insert,
}
use ds14_project.Marshall.{
  Marshall, Unmarshall, ReqHeader, ReplyHeader, marshall, unmarshall, read_at, pack_reply_header,
  unpack_req_header, update,
}
use ds14_project.RpcConst.{oldsrv_failure, atmostonce_failure, unmarshal_args_failure, is_negative}
use ds14_project.RpcConst
use ds14_project.Stub.{Item, Kind, Handler, handler_fn}
use ReplyWindow.{
  RpcState, fresh, inprogress, done, forgotten, checkduplicate_and_update, add_reply,
  register_client,
}

-- The fields of `rpcs`, the object behind the handlers, the references to each connection, and what
-- has been sent on which connection.
pub record Server (S : Type 0) : Type 0 where
  pub nonce : ℕ
  pub procs : List (ℕ × Handler S)
  pub reply_window : ReplyWindow.ReplyWindow
  pub conns : List (ℕ × ℕ)
  pub counting : ℕ
  pub curr_counts : ℕ
  pub counts : List (ℕ × ℕ)
  pub object : S
  pub refs : ℕ → ℕ
  pub sent : List (ℕ × List ℕ)

-- A request whose method is to run: its connection, the reader at the arguments, and the handler.
pub record Job (S : Type 0) : Type 0 where
  pub conn : ℕ
  pub header : ReqHeader
  pub args : Unmarshall
  pub handler : Handler S

-- A reply that has a header only.
unfoldable pub status_reply : (ℕ → ℕ) → ℕ → ℕ → List ℕ
status_reply mem xid ret =
    let m = pack_reply_header (record { xid = xid; ret = ret }) (marshall mem) in
    read_at m.buf 0 m.ind

module _ {S : Type 0} where
  pub incref : ℕ → Server S → Server S
  incref c s = record s { refs = update s.refs c (s.refs c + 1) }

  pub decref : ℕ → Server S → Server S
  decref c s = record s { refs = update s.refs c (s.refs c - 1) }

  unfoldable pub send : ℕ → List ℕ → Server S → Server S
  send c b s = record s { sent = s.sent ++ (c, b) ∷ [] }

  -- `reg1`, which asserts that the procedure is new; `none` is the failed assertion.
  unfoldable pub reg1 : ℕ → Handler S → Server S → Option (Server S)
  reg1 proc h s = elim (lookup proc s.procs) [
    | none ↦ some (record s { procs = insert proc h s.procs })
    | some old ↦ none
  ]

  -- The counters; what is logged at zero is left out.
  pub updatestat : ℕ → Server S → Server S
  updatestat proc s = record s {
    counts = insert proc (elim (lookup proc s.counts) [ none ↦ 1 | some n ↦ n + 1 ]) s.counts;
    curr_counts = if s.curr_counts - 1 == 0 then s.counting else s.curr_counts - 1;
  }

  -- "save the latest good connection to the client"
  pub save_conn : ℕ → ℕ → Server S → Server S
  unfolding incref decref
  save_conn clt c s = elim (lookup clt s.conns) [
    | none ↦ record (incref c s) { conns = insert clt c s.conns }
    | some old ↦
        if old == c then s else record (incref c (decref old s)) { conns = insert clt c s.conns }
  ]

  -- The look-up of a request of a client that wants at-most-once calls.
  pub lookup_request : ℕ → ReqHeader → Server S → (RpcState × List ℕ) × Server S
  lookup_request c h s =
      let s1 =
        save_conn h.clt_nonce c
          (record s { reply_window = register_client h.clt_nonce s.reply_window }) in
      let (r, w) = checkduplicate_and_update h.clt_nonce h.xid h.xid_rep s1.reply_window in
      (r, record s1 { reply_window = w })

  pub count_call : ℕ → Server S → Server S
  unfolding updatestat
  count_call proc s = if s.counting == 0 then s else updatestat proc s

  -- `switch (stat)` up to the call of the method, with `c->decref()` where there is no call.
  pub switch_stat : (ℕ → ℕ) → Job S → RpcState × List ℕ → Server S → Option (Job S) × Server S
  switch_stat mem j (fresh, b) s = (some j, count_call j.header.proc s)
  switch_stat mem j (inprogress, b) s = (none, decref j.conn s)
  switch_stat mem j (done, b) s = (none, decref j.conn (send j.conn b s))
  switch_stat mem j (forgotten, b) s =
      (none, decref j.conn (send j.conn (status_reply mem j.header.xid atmostonce_failure) s))

  -- What `dispatch` does with a header that could be read, up to the call of the method.
  pub dispatch_request : (ℕ → ℕ) → ℕ → ReqHeader → Unmarshall → Server S → Option (Job S) × Server S
  dispatch_request mem c h req s =
      if not (h.srv_nonce == 0) && not (h.srv_nonce == s.nonce)
      then (none, send c (status_reply mem h.xid oldsrv_failure) s)
      else elim (lookup h.proc s.procs) [
        | none ↦ (none, decref c s)
        | some f ↦
            let j : Job S = record { conn = c; header = h; args = req; handler = f } in
            let (r, s2) = lookup_request c h s in
            if h.clt_nonce == 0 then switch_stat mem j (fresh, []) s else switch_stat mem j r s2
      ]

  -- `dispatch` up to the call of the method: the job to run, or none where the request is done with.
  pub dispatch_begin : (ℕ → ℕ) → ℕ → (buf : ℕ → ℕ) → (sz : ℕ) → Server S → Option (Job S) × Server S
  dispatch_begin mem c buf sz s =
      let (h, req) = unpack_req_header (unmarshall buf sz) in
      if not req.is_ok then (none, decref c s) else dispatch_request mem c h req s

  -- The connection for the reply: the client's latest, where the request's own is dead. `none` is a
  -- call through the null pointer that `conns_[clt_nonce]` gives for an unknown client.
  pub latest_conn : (dead : Bool) → Job S → Server S → Option (ℕ × Server S)
  unfolding incref decref
  latest_conn dead j s =
      if dead
      then elim (lookup j.header.clt_nonce s.conns) [
        | none ↦ none
        | some latest ↦
            if latest == j.conn
            then some (j.conn, s)
            else some (latest, incref latest (decref j.conn s))
      ]
      else some (j.conn, s)

  -- `dispatch` from the call of the method on; `dead` is what `c->isdead()` answers behind it, and
  -- `none` stands for the failed assertion on the status too.
  pub dispatch_end : (ℕ → ℕ) → (dead : Bool) → Job S → Server S → Option (Server S)
  unfolding send decref
  dispatch_end mem dead j s =
      let h = j.header in
      let (ret, rep, object) = handler_fn j.handler j.args (marshall mem) s.object in
      let m = pack_reply_header (record { xid = h.xid; ret = ret }) rep in
      let b = read_at m.buf 0 m.ind in
      let s1 = record s {
        object = object;
        reply_window =
            if ltb 0 h.clt_nonce
            then add_reply h.clt_nonce h.xid b s.reply_window
            else s.reply_window;
      } in
      if is_negative ret && not (ret == unmarshal_args_failure)
      then none
      else elim (latest_conn dead j s1) [
        | none ↦ none
        | some (c, s2) ↦ some (decref c (send c b s2))
      ]

  pub dispatch_rest : (ℕ → ℕ) → (dead : Bool) → Option (Job S) × Server S → Option (Server S)
  dispatch_rest mem dead (none, s) = some s
  dispatch_rest mem dead (some j, s) = dispatch_end mem dead j s

  -- The whole of `dispatch`, where no other thread comes between.
  pub dispatch :
      (ℕ → ℕ) → (dead : Bool) → ℕ → (buf : ℕ → ℕ) → (sz : ℕ) → Server S → Option (Server S)
  dispatch mem dead c buf sz s = dispatch_rest mem dead (dispatch_begin mem c buf sz s)

  -- `rpcs::rpcbind`, the handler of the bind call.
  unfoldable pub rpcbind : Server S → ℕ → ℕ × ℕ
  rpcbind s a = (0, s.nonce)

  abbrev pub rpcbind_meth : (nonce : ℕ) → List Item → S → ℕ × List Item × S
  rpcbind_meth nonce xs o = (0, Item.uint nonce ∷ [], o)

  -- The constructor, with what `random` gave: a server of one procedure, the bind call.
  unfoldable pub rpcs : (random count : ℕ) → S → Option (Server S)
  unfolding reg1
  rpcs random count o =
      let nonce = random % 2 ^ 32 in
      reg1 RpcConst.bind (record { params = Kind.uint ∷ []; meth = rpcbind_meth nonce })
        (record {
          nonce = nonce;
          procs = [];
          reply_window = [];
          conns = [];
          counting = count;
          curr_counts = count;
          counts = [];
          object = o;
          refs = λ c. 0;
          sent = [];
        })
