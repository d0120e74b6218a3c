-- ===== src/RpcServer/Exchange.antt =====
-- `rpcs::dispatch` of lab/rpc/rpc.cc on requests for a registered handler.
use ds14_project.Base.{
  ℕ, ◌<◌, ◌≡◌, ◌≢◌, refl, ap, ◌∙◌, List, [], ◌∷◌, ◌++◌, arith, true, false, map, Option, some, none,
  lookup, if◌then◌else◌, ◌==◌, ltb, lt→ltb, le→ltb, lt→leb, eq→==, ne→==, if_true, if_false,
}
use ds14_project.Marshall.{ReqHeader, marshall}
use ds14_project.Marshall.RoundTrip.{IsReqHeader}
use ds14_project.RpcConst.{is_negative}
use ds14_project.Stub.{Item, kind_of, Handler}
use ds14_project.Stub.Calls.{request, IsPayload, behind_header, handler_fn-request}
use ds14_project.RpcServer.ReplyWindow.Entries.{entry, verdict, entry-add_reply}
use ds14_project.RpcServer.ReplyWindow.{Reply, fresh_reply, add_reply, fresh, done}
use ds14_project.RpcServer.{
  Server, Job, dispatch_request, dispatch_rest, lookup_request, switch_stat, count_call,
  dispatch_begin, dispatch_end, dispatch, decref, send, latest_conn,
}
use ds14_project.RpcServer.Dispatch.{
  begin_request, RightInstance, right, lookup_request_lem, lookup_request_frame,
  entry-lookup_request, entry-lookup_request_other, reply_bytes,
}

-- What `dispatch` leaves behind for a request that it answered: the object, what was sent, and the
-- reply that is kept.
pub record Answered {S : Type 0} (h : ReqHeader) (c : ℕ) (b : List ℕ) (o : S) (s s' : Server S)
    : Type 0 where
  pub object : s'.object ≡ o
  pub sent : s'.sent ≡ s.sent ++ (c, b) ∷ []
  pub stored :
      entry h.clt_nonce h.xid s'.reply_window
      ≡ some (record { xid = h.xid; cb_present = true; buf = b })
  pub nonce : s'.nonce ≡ s.nonce
  pub procs : s'.procs ≡ s.procs
  pub counting : s'.counting ≡ s.counting

-- A request with its handler: the arguments are of the types that the handler reads.
module _ {S : Type 0} (rmem : ℕ → ℕ) (h : ReqHeader) (xs : List Item) (f : Handler S)
    (p : IsPayload xs) (types : f.params ≡ map kind_of xs) where
  abbrev the_job : (ℕ → ℕ) → ℕ → Job S
  the_job mem c = record {
    conn = c;
    header = h;
    args = behind_header (request mem h xs);
    handler = f;
  }

  abbrev pub the_reply : S → List ℕ
  the_reply o = reply_bytes rmem (record { xid = h.xid; ret = (f.meth xs o).0 }) (f.meth xs o).1

  -- The method runs on the arguments, and its reply is stored and sent.
  dispatch_end_lem :
      (mem : ℕ → ℕ) (c : ℕ) (s : Server S)
      → is_negative (f.meth xs s.object).0 ≡ false
      → dispatch_end rmem false (the_job mem c) s
        ≡ some (
            decref c (
              send c (the_reply s.object) (record s {
                object = (f.meth xs s.object).2;
                reply_window =
                    if ltb 0 h.clt_nonce
                    then add_reply h.clt_nonce h.xid (the_reply s.object) s.reply_window
                    else s.reply_window;
              })))
  unfolding dispatch_end latest_conn
  dispatch_end_lem mem c s fine =
      rw (handler_fn-request mem h xs f (marshall rmem) s.object p types, fine)

  module _ (v : IsReqHeader h) (mem : ℕ → ℕ) (c : ℕ) (s : Server S) (r : RightInstance h s)
      (known : lookup h.proc s.procs ≡ some f) (quiet : s.counting ≡ 0) where
    -- Up to the call of the method.
    begin_known : dispatch_begin rmem c (request mem h xs).buf (request mem h xs).ind s ≡ (
        if h.clt_nonce == 0
        then switch_stat rmem (the_job mem c) (fresh, []) s
        else switch_stat rmem (the_job mem c) (lookup_request c h s).0 (lookup_request c h s).1)
    unfolding dispatch_request
    begin_known = rw (begin_request mem rmem c h xs s v, right h s r, known)

    run_job :
        (s1 : Server S)
        → s1.counting ≡ 0
        → dispatch_rest rmem false (switch_stat rmem (the_job mem c) (fresh, []) s1)
          ≡ dispatch_end rmem false (the_job mem c) s1
    unfolding dispatch_rest switch_stat count_call
    run_job s1 q =
        ap (dispatch_end rmem false (the_job mem c)) (if_true s1 _ (eq→== s1.counting 0 q))

    -- A request of a client that wants no at-most-once calls, to a registered procedure with
    -- arguments of the right types, on a live connection, with call counting off: the method runs on
    -- those arguments, its reply is sent and kept nowhere, and the reference is given back.
    pub dispatch_plain :
        h.clt_nonce ≡ 0
        → is_negative (f.meth xs s.object).0 ≡ false
        → dispatch rmem false c (request mem h xs).buf (request mem h xs).ind s
          ≡ some (
              decref c (send c (the_reply s.object) (record s { object = (f.meth xs s.object).2 })))
    unfolding dispatch
    dispatch_plain anon fine =
        ap (dispatch_rest rmem false) (begin_known ∙ if_true _ _ (eq→== h.clt_nonce 0 anon))
        ∙ run_job s quiet
        ∙ dispatch_end_lem mem c s fine
        ∙ ap
            (λ w. some (
              decref c (
                send c (the_reply s.object)
                  (record s { object = (f.meth xs s.object).2; reply_window = w }))))
            (if_false _ _ (le→ltb 0 h.clt_nonce (omega arith)))

    looked : Server S
    looked = (lookup_request c h s).1

    looked_quiet : looked.counting ≡ 0
    unfolding looked
    looked_quiet = (lookup_request_frame c h s).2 ∙ quiet

    pub after_first : Server S
    after_first = decref c (
        send c (the_reply looked.object) (record looked {
          object = (f.meth xs looked.object).2;
          reply_window = add_reply h.clt_nonce h.xid (the_reply looked.object) looked.reply_window;
        }))

    -- A new request of a client with at-most-once calls.
    pub dispatch_first :
        h.clt_nonce ≢ 0
        → h.xid_rep < h.xid
        → entry h.clt_nonce h.xid s.reply_window ≡ none
        → is_negative (f.meth xs s.object).0 ≡ false
        → (dispatch rmem false c (request mem h xs).buf (request mem h xs).ind s ≡ some after_first)
          × Answered h c (the_reply s.object) (f.meth xs s.object).2 s after_first
    unfolding dispatch after_first looked decref send
    dispatch_first known_client unacked unseen fine =
        let frame = lookup_request_frame c h s in
        let there : entry h.clt_nonce h.xid looked.reply_window ≡ some (fresh_reply h.xid) =
          entry-lookup_request c h s unacked
          ∙ ap
              (λ (o : Option Reply). elim o as (λ _. Option Reply) [
                | some q ↦ some q
                | none ↦ some (fresh_reply h.xid)
              ])
              unseen in
        let found : (lookup_request c h s).0 ≡ (fresh, []) =
          lookup_request_lem c h s ∙ ap (verdict h.xid h.xid_rep) unseen in
        (
          ap (dispatch_rest rmem false) (
                begin_known
                ∙ if_false _ _ (ne→== h.clt_nonce 0 known_client)
                ∙ ap (λ q. switch_stat rmem (the_job mem c) q looked) found)
              ∙ run_job looked looked_quiet
              ∙ dispatch_end_lem mem c looked (rw frame.0 fine)
              ∙ ap
                  (λ w. some (
                    decref c (
                      send c (the_reply looked.object) (record looked {
                        object = (f.meth xs looked.object).2;
                        reply_window = w;
                      }))))
                  (if_true _ _ (lt→ltb 0 h.clt_nonce (omega arith))),
          record {
            object = ap (λ o. (f.meth xs o).2) frame.0;
            sent = rw (frame.0, frame.1);
            stored = rw (
              frame.0,
              entry-add_reply h.clt_nonce h.xid h.clt_nonce h.xid (the_reply s.object)
                  looked.reply_window,
              eq→== h.clt_nonce h.clt_nonce refl,
              eq→== h.xid h.xid refl,
              there,
            );
            nonce = frame.4;
            procs = frame.3;
            counting = frame.2;
          },
        )

    pub entry-after_first :
        (y : ℕ)
        → h.xid_rep < y
        → h.xid ≢ y
        → entry h.clt_nonce y after_first.reply_window ≡ entry h.clt_nonce y s.reply_window
    unfolding after_first looked decref send
    entry-after_first y unacked other = rw (
      entry-add_reply h.clt_nonce h.xid h.clt_nonce y (the_reply looked.object) looked.reply_window,
      eq→== h.clt_nonce h.clt_nonce refl,
      ne→== h.xid y other,
      entry-lookup_request_other c h s y unacked other,
    )

    -- A copy of a request whose reply is kept: that reply is sent, and nothing is executed.
    pub dispatch_again :
        (b : List ℕ)
        → h.clt_nonce ≢ 0
        → h.xid_rep < h.xid
        → entry h.clt_nonce h.xid s.reply_window
          ≡ some (record { xid = h.xid; cb_present = true; buf = b })
        → (dispatch rmem false c (request mem h xs).buf (request mem h xs).ind s
            ≡ some (decref c (send c b (lookup_request c h s).1)))
          × Answered h c b s.object s (decref c (send c b (lookup_request c h s).1))
    unfolding dispatch dispatch_rest switch_stat decref send
    dispatch_again b known_client unacked seen =
        let frame = lookup_request_frame c h s in
        let found : (lookup_request c h s).0 ≡ (done, b) =
          lookup_request_lem c h s
          ∙ ap (verdict h.xid h.xid_rep) seen
          ∙ if_false _ _ (lt→leb h.xid h.xid_rep unacked) in
        (
          ap (dispatch_rest rmem false) (
              begin_known
              ∙ if_false _ _ (ne→== h.clt_nonce 0 known_client)
              ∙ ap (λ q. switch_stat rmem (the_job mem c) q (lookup_request c h s).1) found),
          record {
            object = frame.0;
            sent = rw frame.1;
            stored =
                entry-lookup_request c h s unacked
                ∙ ap
                    (λ (o : Option Reply). elim o as (λ _. Option Reply) [
                      | some q ↦ some q
                      | none ↦ some (fresh_reply h.xid)
                    ])
                    seen;
            nonce = frame.4;
            procs = frame.3;
            counting = frame.2;
          },
        )
