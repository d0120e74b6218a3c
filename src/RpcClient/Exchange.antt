-- ===== src/RpcClient/Exchange.antt =====
-- `rpcc::got_pdu` of lab/rpc/rpc.cc on the bytes of a reply.
use ds14_project.Base.{
  ℕ, zero, suc, ◌+◌, ◌≤◌, ◌<◌, ◌≡◌, refl, ◌∙◌, true, false, List, [], ◌∷◌, length, map, some,
  lookup, insert, erase, lookup-insert, arith, eq→==, ne→==, ℕ_discrete, Option-cases, Bool-cases,
  if_true, if_false, inl, inr,
}
use ds14_project.Marshall.{
  Marshall, Unmarshall, ReplyHeader, unmarshall, write_at, read_at, unpack_reply_header, take_in,
}
use ds14_project.Marshall.Reads.{Holds, write_at-Holds}
use ds14_project.Marshall.RoundTrip.{IsReplyHeader, reply_words, unpack_reply_header_lem}
use ds14_project.RpcConst.{is_negative}
use ds14_project.Stub.{Item, kind_of, call_m}
use ds14_project.Stub.Items.{encode_all}
use ds14_project.Stub.Calls.{reply, IsPayload, reply-Holds, reply-ind, read_all}
use ds14_project.RpcClient.XidWindow.{update_xid_rep}
use ds14_project.RpcClient.{Caller, Client, hand_over, got_pdu, end_call}

-- Two buffers agree where both hold the same bytes.
agree : (f g : ℕ → ℕ) (n p i : ℕ) → Holds g p (read_at f p n) → p ≤ i → i < p + n → g i ≡ f i
unfolding read_at
agree f g zero p i h le lt = absurd (omega (arith, le, lt))
agree f g (suc n) p i (e, h) le lt = elim (ℕ_discrete p i) [
  | yes same ↦ rw same at e
  | no other ↦ agree f g n (p + 1) i h (omega (arith, le, other)) (omega arith)
]

Holds-agree :
    (f g : ℕ → ℕ) (bs : List ℕ) (p : ℕ)
    → ((i : ℕ) → p ≤ i → i < p + length bs → g i ≡ f i)
    → Holds f p bs
    → Holds g p bs
Holds-agree f g [] p same h = tt
Holds-agree f g (b ∷ bs) p same (e, h) = (
  same p (omega arith) (omega arith) ∙ e,
  Holds-agree f g bs (p + 1) (λ i le lt. same i (omega arith) (omega arith)) h,
)

-- The memory into which the bytes of a pdu were read.
abbrev pub arrived_at : (ℕ → ℕ) → Marshall → ℕ → ℕ
arrived_at mem m = write_at mem 0 (read_at m.buf 0 m.ind)

arrived_at-Holds :
    (mem : ℕ → ℕ) (m : Marshall) (bs : List ℕ) (p : ℕ)
    → p + length bs ≤ m.ind
    → Holds m.buf p bs
    → Holds (arrived_at mem m) p bs
arrived_at-Holds mem m bs p fits h =
    Holds-agree m.buf (arrived_at mem m) bs p
      (λ i le lt.
        agree m.buf (arrived_at mem m) m.ind 0 i (write_at-Holds (read_at m.buf 0 m.ind) mem 0)
          (omega arith) (omega (arith, lt, fits)))
      h

-- What the client makes of the bytes of a reply.
module _ (mem rmem : ℕ → ℕ) (h : ReplyHeader) (rs : List Item) (p : IsPayload rs) where
  abbrev pub arrival : Unmarshall
  arrival = unmarshall (arrived_at mem (reply rmem h rs)) (reply rmem h rs).ind

  abbrev pub read_reply : Unmarshall
  read_reply = record arrival { ind = 24 }

  reply_header : IsReplyHeader h → unpack_reply_header arrival ≡ (h, read_reply)
  reply_header v =
      unpack_reply_header_lem arrival h
        (arrived_at-Holds mem (reply rmem h rs) (reply_words h) 4
          (omega (arith, reply-ind rmem rs h)) (reply-Holds rmem rs h).0)
        (omega (arith, reply-ind rmem rs h)) v

  call_m-arrival :
      is_negative h.ret ≡ false → call_m (map kind_of rs) h.ret (take_in read_reply) ≡ (h.ret, rs)
  unfolding call_m take_in
  call_m-arrival fine =
      let (g, d) =
        read_all (take_in read_reply) rs p (ground (arith, reply-ind rmem rs h)) refl
          (reply-ind rmem rs h)
          (arrived_at-Holds mem (reply rmem h rs) (encode_all rs) 24
            (omega (arith, reply-ind rmem rs h)) (reply-Holds rmem rs h).1) in
      rw (fine, g, d)

-- The client behind the arrival of a reply that it waits for.
abbrev pub taken : (xid ret : ℕ) → Unmarshall → Client → Client
taken xid ret rep c = record c {
  xid_rep_window = update_xid_rep xid c.xid_rep_window;
  calls = insert xid (record { un = take_in rep; intret = ret; done = true }) c.calls;
}

hand_over-waiting :
    (xid ret : ℕ) (rep : Unmarshall) (c : Client) (ca : Caller)
    → lookup xid c.calls ≡ some ca
    → ca.done ≡ false
    → hand_over xid ret rep c ≡ record c {
      calls = insert xid (record { un = take_in rep; intret = ret; done = true }) c.calls;
    }
unfolding hand_over
hand_over-waiting xid ret rep c ca e waits = rw (e, hand_over, waits)

end_call-done :
    (xid : ℕ) (c : Client) (ca : Caller)
    → lookup xid c.calls ≡ some ca
    → ca.done ≡ true
    → ((end_call xid c).0 ≡ ca.intret) × ((end_call xid c).1 ≡ ca.un)
unfolding end_call
end_call-done xid c ca e d = rw (e, end_call, d) (refl, refl)

-- The arrival of the bytes of a reply, at a client that waits for it.
module _ (mem rmem : ℕ → ℕ) (h : ReplyHeader) (rs : List Item) (p : IsPayload rs)
    (v : IsReplyHeader h) (c : Client) (ca : Caller) (e : lookup h.xid c.calls ≡ some ca)
    (waits : ca.done ≡ false) where
  pub got_pdu-reply :
      got_pdu (arrived_at mem (reply rmem h rs)) (reply rmem h rs).ind c
      ≡ taken h.xid h.ret (read_reply mem rmem h rs p) c
  unfolding got_pdu
  got_pdu-reply =
      let c1 = record c { xid_rep_window = update_xid_rep h.xid c.xid_rep_window } in
      rw (
        reply_header mem rmem h rs p v,
        hand_over-waiting h.xid h.ret (read_reply mem rmem h rs p) c1 ca e waits,
      )

  pub end_call-taken :
      is_negative h.ret ≡ false
      → let last = end_call h.xid (taken h.xid h.ret (read_reply mem rmem h rs p) c) in
        (last.0 ≡ h.ret) × (call_m (map kind_of rs) last.0 last.1 ≡ (h.ret, rs))
  end_call-taken fine =
      let rep = read_reply mem rmem h rs p in
      let there : lookup h.xid (taken h.xid h.ret rep c).calls
          ≡ some (record { un = take_in rep; intret = h.ret; done = true }) =
        lookup-insert h.xid h.xid _ c.calls ∙ if_true _ _ (eq→== h.xid h.xid refl) in
      let (status, result) = end_call-done h.xid (taken h.xid h.ret rep c) _ there refl in
      rw (status, result) (refl, call_m-arrival mem rmem h rs p fine)

-- A reply with 32-bit numbers and a status that is no failure, packed by a server and read from the
-- network into memory that held anything before, ends the call that waits for it with its status,
-- and with exactly the items that the server packed as its result.
pub end_call-got_pdu :
    (mem rmem : ℕ → ℕ) (h : ReplyHeader) (rs : List Item) (c : Client) (ca : Caller)
    → IsPayload rs
    → IsReplyHeader h
    → is_negative h.ret ≡ false
    → lookup h.xid c.calls ≡ some ca
    → ca.done ≡ false
    → let ended =
        end_call h.xid (got_pdu (arrived_at mem (reply rmem h rs)) (reply rmem h rs).ind c) in
      (ended.0 ≡ h.ret) × (call_m (map kind_of rs) ended.0 ended.1 ≡ (h.ret, rs))
end_call-got_pdu mem rmem h rs c ca p v fine e waits =
    rw (got_pdu-reply mem rmem h rs p v c ca e waits)
      (end_call-taken mem rmem h rs p v c ca e waits fine)

-- A pdu of a header alone, whatever its status, ends the call that waits for it with that status.
pub end_call-status :
    (mem rmem : ℕ → ℕ) (h : ReplyHeader) (c : Client) (ca : Caller)
    → IsReplyHeader h
    → lookup h.xid c.calls ≡ some ca
    → ca.done ≡ false
    → (end_call h.xid (got_pdu (arrived_at mem (reply rmem h [])) (reply rmem h []).ind c)).0
      ≡ h.ret
end_call-status mem rmem h c ca v e waits =
    let p : IsPayload [] = record { items = tt; size = omega arith } in
    let rep = read_reply mem rmem h [] p in
    let there : lookup h.xid (taken h.xid h.ret rep c).calls
        ≡ some (record { un = take_in rep; intret = h.ret; done = true }) =
      lookup-insert h.xid h.xid _ c.calls ∙ if_true _ _ (eq→== h.xid h.xid refl) in
    rw (got_pdu-reply mem rmem h [] p v c ca e waits)
      (end_call-done h.xid (taken h.xid h.ret rep c) _ there refl).0

hand_over-kept :
    (x xid ret : ℕ) (rep : Unmarshall) (c : Client) (ca : Caller)
    → lookup x c.calls ≡ some ca
    → ca.done ≡ true
    → lookup x (hand_over xid ret rep c).calls ≡ some ca
unfolding hand_over
hand_over-kept x xid ret rep c ca e d = elim (Option-cases (lookup xid c.calls)) [
  | inl none_there ↦ rw (none_there, hand_over, e)
  | inr (other, there) ↦
      rw (there, hand_over)
        (elim (Bool-cases other.done) [
          | inl yes_done ↦ rw (yes_done, e)
          | inr waits ↦ rw waits (
              lookup-insert xid x (record { un = take_in rep; intret = ret; done = true }) c.calls
              ∙ if_false _ _ (ne→== xid x (λ same. ground (arith, rw same at there, e, d, waits)))
              ∙ e)
        ])
]

-- Once a call has its reply, no pdu that arrives, of whatever bytes, changes the reply that is kept
-- for it.
pub got_pdu-keeps_reply :
    (buf : ℕ → ℕ) (sz x : ℕ) (c : Client) (ca : Caller)
    → lookup x c.calls ≡ some ca
    → ca.done ≡ true
    → lookup x (got_pdu buf sz c).calls ≡ some ca
unfolding got_pdu
got_pdu-keeps_reply buf sz x c ca e d =
    let (h, rep) = unpack_reply_header (unmarshall buf sz) in
    let c1 = record c { xid_rep_window = update_xid_rep h.xid c.xid_rep_window } in
    elim (Bool-cases rep.is_ok) [
      | inl fine ↦ rw (fine, hand_over-kept x h.xid h.ret rep c1 ca e d)
      | inr bad ↦ rw (bad, e)
    ]

-- `end_call` forgets the call and notes its number.
pub end_call_frame :
    (xid : ℕ) (c : Client)
    → (end_call xid c).2
      ≡ record c { calls = erase xid c.calls; xid_rep_window = update_xid_rep xid c.xid_rep_window }
unfolding end_call
end_call_frame xid c = elim (Option-cases (lookup xid c.calls)) [
  | inl e ↦ rw (e, end_call)
  | inr (ca, e) ↦ rw (e, end_call) (elim (Bool-cases ca.done) [ inl d ↦ rw d | inr d ↦ rw d ])
]
