-- ===== src/RpcServer/Dispatch.antt =====
-- A whole dispatch of a request that a client packed.
use ds14_project.Base.{
  if_true, if◌then◌else◌, ◌∙◌, ap, refl, eq→==, Option, ℕ, ◌<◌, ◌≡◌, ◌≢◌, ◌⊎◌, ◌&&◌, List, arith,
  Bool, false, not, some, none, ◌==◌, ne→==,
}
use ds14_project.Marshall.{ReqHeader, ReplyHeader, read_at}
use ds14_project.Marshall.RoundTrip.{IsReqHeader}
use ds14_project.RpcConst.{oldsrv_failure}
use ds14_project.Stub.{Item}
use ds14_project.Stub.Calls.{request, reply, behind_header, request_header}
use ds14_project.RpcServer.ReplyWindow.Entries.{
  entry, verdict, check_verdict, entry-register, entry-check_self, entry-check,
}
use ds14_project.RpcServer.ReplyWindow.{Reply, fresh_reply, register_client}
use ds14_project.RpcServer.{
  checkduplicate_and_update, Server, dispatch_request, dispatch_rest, save_conn, lookup_request,
  dispatch_begin, dispatch, send, status_reply,
}

-- A request for this instance of the server, or of a client that does not know the instance yet.
abbrev pub RightInstance : {S : Type 0} → ReqHeader → Server S → Type 0
RightInstance h s = (h.srv_nonce ≡ 0) ⊎ (h.srv_nonce ≡ s.nonce)

pub right :
    {S : Type 0} (h : ReqHeader) (s : Server S)
    → RightInstance h s
    → (not (h.srv_nonce == 0) && not (h.srv_nonce == s.nonce)) ≡ false
right h s r = ground (arith, r)

module _ {S : Type 0} (mem rmem : ℕ → ℕ) (c : ℕ) (h : ReqHeader) (xs : List Item) (s : Server S)
    (v : IsReqHeader h) where
  pub begin_request :
      dispatch_begin rmem c (request mem h xs).buf (request mem h xs).ind s
      ≡ dispatch_request rmem c h (behind_header (request mem h xs)) s
  unfolding dispatch_begin
  begin_request = rw (request_header mem h xs v)

  pub dispatch-status_reply :
      (dead : Bool)
      → h.srv_nonce ≢ 0
      → h.srv_nonce ≢ s.nonce
      → dispatch rmem dead c (request mem h xs).buf (request mem h xs).ind s
        ≡ some (send c (status_reply rmem h.xid oldsrv_failure) s)
  unfolding dispatch dispatch_request dispatch_rest
  dispatch-status_reply dead old other =
      rw (begin_request, ne→== h.srv_nonce 0 old, ne→== h.srv_nonce s.nonce other)

save_conn_lem :
    {S : Type 0} (clt c : ℕ) (s : Server S)
    → ((save_conn clt c s).reply_window ≡ s.reply_window)
      × ((save_conn clt c s).object ≡ s.object)
      × ((save_conn clt c s).sent ≡ s.sent)
      × ((save_conn clt c s).counting ≡ s.counting)
      × ((save_conn clt c s).procs ≡ s.procs)
      × ((save_conn clt c s).nonce ≡ s.nonce)
unfolding save_conn
save_conn_lem clt c s = ground arith

or_other :
    (o o' : Option Reply) (b : Bool) (r' : Reply)
    → b ≡ false
    → o ≡ o'
    → elim o [ some r ↦ some r | none ↦ if b then some r' else none ] ≡ o'
or_other none o' b r' f e = ground arith
or_other (some r) o' b r' f e = e

pub lookup_request_lem :
    {S : Type 0} (c : ℕ) (h : ReqHeader) (s : Server S)
    → (lookup_request c h s).0 ≡ verdict h.xid h.xid_rep (entry h.clt_nonce h.xid s.reply_window)
unfolding lookup_request
lookup_request_lem c h s = rw (
  (save_conn_lem h.clt_nonce c
      (record s { reply_window = register_client h.clt_nonce s.reply_window })).0,
  check_verdict h.clt_nonce h.xid h.xid_rep (register_client h.clt_nonce s.reply_window),
  entry-register h.clt_nonce h.clt_nonce h.xid s.reply_window,
)

-- The look-up changes neither the object nor what was sent.
pub lookup_request_frame :
    {S : Type 0} (c : ℕ) (h : ReqHeader) (s : Server S)
    → let s' = (lookup_request c h s).1 in
      (s'.object ≡ s.object)
      × (s'.sent ≡ s.sent)
      × (s'.counting ≡ s.counting)
      × (s'.procs ≡ s.procs)
      × (s'.nonce ≡ s.nonce)
unfolding lookup_request
lookup_request_frame c h s =
    let f =
      save_conn_lem h.clt_nonce c
        (record s { reply_window = register_client h.clt_nonce s.reply_window }) in
    (f.1, f.2, f.3, f.4, f.5)

pub entry-lookup_request :
    {S : Type 0} (c : ℕ) (h : ReqHeader) (s : Server S)
    → h.xid_rep < h.xid
    → entry h.clt_nonce h.xid (lookup_request c h s).1.reply_window
      ≡ elim (entry h.clt_nonce h.xid s.reply_window) [
        | some r ↦ some r
        | none ↦ some (fresh_reply h.xid)
      ]
unfolding lookup_request
entry-lookup_request c h s unacked = rw (
  (save_conn_lem h.clt_nonce c
      (record s { reply_window = register_client h.clt_nonce s.reply_window })).0,
  entry-check_self h.clt_nonce h.xid h.xid_rep (register_client h.clt_nonce s.reply_window) unacked,
  entry-register h.clt_nonce h.clt_nonce h.xid s.reply_window,
)

-- The replies to other requests of the client stay, if they are not acknowledged.
pub entry-lookup_request_other :
    {S : Type 0} (c : ℕ) (h : ReqHeader) (s : Server S) (y : ℕ)
    → h.xid_rep < y
    → h.xid ≢ y
    → entry h.clt_nonce y (lookup_request c h s).1.reply_window ≡ entry h.clt_nonce y s.reply_window
unfolding lookup_request
entry-lookup_request_other c h s y unacked other =
    let w = register_client h.clt_nonce s.reply_window in
    ap (entry h.clt_nonce y) (
      ap (λ v. (checkduplicate_and_update h.clt_nonce h.xid h.xid_rep v).1)
        (save_conn_lem h.clt_nonce c (record s { reply_window = w })).0)
    ∙ entry-check h.clt_nonce h.xid h.xid_rep w h.clt_nonce y (λ _. unacked)
    ∙ if_true _ _ (eq→== h.clt_nonce h.clt_nonce refl)
    ∙ or_other (entry h.clt_nonce y w) (entry h.clt_nonce y s.reply_window) (h.xid == y)
        (fresh_reply h.xid) (ne→== h.xid y other)
        (entry-register h.clt_nonce h.clt_nonce y s.reply_window)

-- A reply pdu, as the bytes that are sent.
abbrev pub reply_bytes : (ℕ → ℕ) → ReplyHeader → List Item → List ℕ
reply_bytes rmem h rs = read_at (reply rmem h rs).buf 0 (reply rmem h rs).ind
