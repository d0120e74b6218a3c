-- ===== src/Flight.antt =====
-- A client of lab/rpc/rpc.cc with many calls at once, and the reply window of the server: the requests
-- that the client has sent can be lost, come late, often and in any order, and replies too.
use ds14_project.Base.{ℕ, ◌+◌, ◌^◌, ◌<◌, ◌≡◌, ◌≢◌, false, List, [], ◌∷◌, ◌++◌, some, All, In}
use ds14_project.Marshall.{Marshall, ReqHeader, unmarshall, unpack_reply_header}
use ds14_project.RpcClient.{Client, begin_call, got_pdu, end_call, next_header}
use ds14_project.RpcClient.XidWindow.Laws.{arrived}
use ds14_project.RpcClient.Waiting.{IsOrdered}
use ds14_project.RpcServer.ReplyWindow.{ReplyWindow}
use ds14_project.RpcServer.ReplyWindow.AtMostOnce.{Event, request, completed, Unacknowledged}

-- The client, the headers of its requests so far, and what the server's window has met.
pub record Flight : Type 0 where
  pub client : Client
  pub sent : List ReqHeader
  pub seen : List Event

abbrev pub take_off : Client → Flight
take_off c = record { client = c; sent = []; seen = [] }

-- A thread begins a call, a request that was sent arrives, the server meets the request of another
-- client or stores a reply, a pdu arrives at the client with the number of an earlier call, or a
-- thread ends its call, answered or not. The window of the server meets a request, and stores its
-- reply, only where the nonce of its client is not zero.
pub data Step : Flight → Flight → Type 0 where
  begins :
      (proc x : ℕ) (req m : Marshall) {s : Flight} {c : Client}
      → begin_call proc req s.client ≡ some (x, m, c)
      → s.client.xid + 1 < 2 ^ 32
      → Step s (record s { client = c; sent = next_header proc s.client ∷ s.sent })
  arrives :
      (h : ReqHeader) {s : Flight}
      → In h s.sent
      → h.clt_nonce ≢ 0
      → Step s (record s { seen = s.seen ++ request h.clt_nonce h.xid h.xid_rep ∷ [] })
  serves :
      (clt xid rep : ℕ) {s : Flight}
      → clt ≢ 0
      → clt ≢ s.client.clt_nonce
      → Step s (record s { seen = s.seen ++ request clt xid rep ∷ [] })
  stores :
      (clt xid : ℕ) (b : List ℕ) {s : Flight}
      → clt ≢ 0
      → Step s (record s { seen = s.seen ++ completed clt xid b ∷ [] })
  receives :
      (buf : ℕ → ℕ) (sz : ℕ) {s : Flight}
      → (unpack_reply_header (unmarshall buf sz)).0.xid < s.client.xid
      → Step s (record s { client = got_pdu buf sz s.client })
  ends :
      (xid : ℕ) {s : Flight}
      → xid < s.client.xid
      → Step s (record s { client = (end_call xid s.client).2 })

pub data Steps : Flight → Flight → Type 0 where
  done : {s : Flight} → Steps s s
  then : {s s' s'' : Flight} → Step s s' → Steps s' s'' → Steps s s''

-- No request acknowledges a reply that the client does not have.
record IsSafe (s : Flight) : Type 0 where
  ordered : IsOrdered s.client
  named : (h : ReqHeader) → In h s.sent → h.clt_nonce ≡ s.client.clt_nonce
  honest :
      (h : ReqHeader) (x : ℕ)
      → In h s.sent
      → arrived x s.client.xid_rep_window ≡ false
      → h.xid_rep < x
  kept :
      (x : ℕ)
      → arrived x s.client.xid_rep_window ≡ false
      → All (Unacknowledged s.client.clt_nonce x) s.seen
