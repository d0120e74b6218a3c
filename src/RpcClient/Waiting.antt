-- ===== src/RpcClient/Waiting.antt =====
-- The calls that wait for a reply in lab/rpc/rpc.cc, while others of the same client begin and end.
use ds14_project.Base.{
  List, ◌⊎◌, if_true, if_false, leb, leb→le, leb→le, leb, ℕ, ◌+◌, ◌%◌, ◌^◌, ◌<◌, ◌≡◌, ◌≢◌, ◌∙◌, sym,
  refl, true, false, not, ◌&&◌, ◌||◌, ◌==◌, some, none, lookup, insert, erase, lookup-insert,
  lookup-erase, arith, inl, inr, Bool-cases, Option-cases, ne→==, ==_iff,
}
use ds14_project.Marshall.{
  take_in, pack_req_header, Marshall, unmarshall, unpack_reply_header, Unmarshall,
}
use ds14_project.RpcConst
use ds14_project.RpcClient.{
  Client, Caller, begin_call, hand_over, got_pdu, end_call, next_header, no_reply,
}
use ds14_project.RpcClient.XidWindow.{update_xid_rep, front}
use ds14_project.RpcClient.XidWindow.Laws.{IsWindow, arrived, update_xid_rep_lem, front-arrived}

-- The numbers of a client: its calls and the replies that arrived have smaller ones than the next
-- call, and the reply to a call that waits has not arrived.
pub record IsOrdered (c : Client) : Type 0 where
  pub window : IsWindow c.xid_rep_window
  pub room : c.xid < 2 ^ 32
  pub below : (n : ℕ) → arrived n c.xid_rep_window ≡ true → n < c.xid
  pub known : (x : ℕ) (ca : Caller) → lookup x c.calls ≡ some ca → x < c.xid
  pub waits :
      (x : ℕ) (ca : Caller)
      → lookup x c.calls ≡ some ca
      → ca.done ≡ false
      → arrived x c.xid_rep_window ≡ false

-- What every operation keeps: the client's name, and the replies that arrived.
pub record Follows (c c' : Client) : Type 0 where
  pub nonce : c'.clt_nonce ≡ c.clt_nonce
  pub arrivals : (n : ℕ) → arrived n c'.xid_rep_window ≡ false → arrived n c.xid_rep_window ≡ false

-- What a client reports is below every reply that has not arrived.
pub front-below :
    (c : Client) (x : ℕ)
    → IsOrdered c
    → arrived x c.xid_rep_window ≡ false
    → front c.xid_rep_window < x
front-below c x o h =
    let (all, next) = front-arrived c.xid_rep_window o.window in
    elim (Bool-cases (leb x (front c.xid_rep_window))) [
      | inl le ↦ (let e : true ≡ false = sym (all x (leb→le x _ le)) ∙ h in cc e)
      | inr gt ↦ ground (arith, gt)
    ]

fresh_number : (c : Client) → IsOrdered c → arrived c.xid c.xid_rep_window ≡ false
fresh_number c o = elim (Bool-cases (arrived c.xid c.xid_rep_window)) [
  | inl there ↦ absurd (omega (arith, o.below c.xid there))
  | inr away ↦ away
]

-- What a look-up finds behind an insertion.
found :
    (k x : ℕ) (ca a : Caller) (calls : List (ℕ × Caller))
    → lookup x (insert k ca calls) ≡ some a
    → ((x ≡ k) × (ca ≡ a)) ⊎ ((x ≢ k) × (lookup x calls ≡ some a))
found k x ca a calls e = elim (Bool-cases (k == x)) [
  | inl same ↦
      (let f : some ca ≡ some a = sym (if_true _ _ same) ∙ (sym (lookup-insert k x ca calls) ∙ e) in
        inl (sym ((==_iff k x).0 same), cc f))
  | inr other ↦ inr (
    λ p. ground (arith, p, other),
    sym (if_false _ _ other) ∙ (sym (lookup-insert k x ca calls) ∙ e),
  )
]

-- What a look-up finds behind a removal.
left :
    (k x : ℕ) (a : Caller) (calls : List (ℕ × Caller))
    → lookup x (erase k calls) ≡ some a
    → (x ≢ k) × (lookup x calls ≡ some a)
left k x a calls e = elim (Bool-cases (k == x)) [
  | inl same ↦
      (let f : none ≡ some a = sym (if_true _ _ same) ∙ (sym (lookup-erase k x calls) ∙ e) in cc f)
  | inr other ↦
      (λ p. ground (arith, p, other), sym (if_false _ _ other) ∙ (sym (lookup-erase k x calls) ∙ e))
]

began :
    (c : Client) (ca : Caller)
    → c.xid + 1 < 2 ^ 32
    → IsOrdered c
    → IsOrdered (record c { xid = (c.xid + 1) % 2 ^ 32; calls = insert c.xid ca c.calls })
began c ca small o =
    let next : (c.xid + 1) % 2 ^ 32 ≡ c.xid + 1 = omega (arith, small) in
    rw next (record {
      window = o.window;
      room = small;
      below = λ n h. omega (arith, o.below n h);
      known = λ x a e. elim (found c.xid x ca a c.calls e) [
        | inl (same, v) ↦ omega (arith, same)
        | inr (other, old) ↦ omega (arith, o.known x a old)
      ];
      waits = λ x a e fresh. elim (found c.xid x ca a c.calls e) [
        | inl (same, v) ↦ rw same (fresh_number c o)
        | inr (other, old) ↦ o.waits x a old fresh
      ];
    })

pub begin_call-IsOrdered :
    (proc x : ℕ) (req m : Marshall) (c c' : Client)
    → begin_call proc req c ≡ some (x, m, c')
    → c.xid + 1 < 2 ^ 32
    → IsOrdered c
    → IsOrdered c' × Follows c c' × (x ≡ c.xid)
unfolding begin_call
begin_call-IsOrdered proc x req m c c' e small o =
    let refused =
      (not (proc == RpcConst.bind) && not c.bind_done) || (proc == RpcConst.bind && c.bind_done) in
    elim (Bool-cases refused) [
      | inl no_call ↦ absurd (ground (arith, e, no_call))
      | inr calls ↦
          (let ca : Caller = record { un = no_reply; intret = 0; done = false } in
            let n : Client = record c {
              xid = (c.xid + 1) % 2 ^ 32;
              calls = insert c.xid ca c.calls;
            } in
            let f : some (c.xid, pack_req_header (next_header proc c) req, n) ≡ some (x, m, c') =
              rw (begin_call, calls) at e in
            let result : n ≡ c' = cc f in
            let number : c.xid ≡ x = cc f in
            let after : IsOrdered n × Follows c n =
              (began c ca small o, record { nonce = refl; arrivals = λ k h. h }) in
            let (o', follows) = rw result at after in (o', follows, sym number))
    ]

-- The arrival of a reply to an earlier call, for the window.
arrive :
    (xid : ℕ) (c : Client)
    → IsOrdered c
    → xid < c.xid
    → let w = update_xid_rep xid c.xid_rep_window in
      IsWindow w
      × ((n : ℕ) → arrived n w ≡ true → n < c.xid)
      × ((n : ℕ) → arrived n w ≡ false → arrived n c.xid_rep_window ≡ false)
      × ((n : ℕ) → n ≢ xid → arrived n c.xid_rep_window ≡ false → arrived n w ≡ false)
arrive xid c o h =
    let (window, same) = update_xid_rep_lem xid c.xid_rep_window o.window (omega (arith, o.room)) in
    (
      window,
      λ n e. elim (Bool-cases (n == xid)) [
        | inl this ↦ omega (arith, (==_iff n xid).0 this, h)
        | inr other ↦ o.below n (ground (arith, same n, other, e))
      ],
      λ n e. ground (arith, same n, e),
      λ n d e. ground (arith, same n, e, ne→== n xid d),
    )

-- A client whose window took in a number, and whose calls are those of before but for that one.
settled :
    (xid : ℕ) (c : Client) (calls : List (ℕ × Caller))
    → IsOrdered c
    → xid < c.xid
    → ((x : ℕ) (a : Caller) → lookup x calls ≡ some a → x < c.xid)
    → ((x : ℕ) (a : Caller)
        → lookup x calls ≡ some a
        → a.done ≡ false
        → (x ≢ xid) × (lookup x c.calls ≡ some a))
    → let c' : Client = record c {
      xid_rep_window = update_xid_rep xid c.xid_rep_window;
      calls = calls;
    } in
      IsOrdered c' × Follows c c'
settled xid c calls o h known waits =
    let (window, below, back, same) = arrive xid c o h in
    (
      record {
        window = window;
        room = o.room;
        below = below;
        known = known;
        waits = λ x a e fresh.
            (let (other, old) = waits x a e fresh in same x other (o.waits x a old fresh));
      },
      record { nonce = refl; arrivals = back },
    )

end_call-client :
    (xid : ℕ) (c : Client)
    → (end_call xid c).2
      ≡ record c { calls = erase xid c.calls; xid_rep_window = update_xid_rep xid c.xid_rep_window }
unfolding end_call
end_call-client xid c = elim (Option-cases (lookup xid c.calls)) [
  | inl gone ↦ rw (end_call, gone) refl
  | inr (ca, there) ↦ elim (Bool-cases ca.done) [
    | inl done ↦ rw (end_call, there, done) refl
    | inr waiting ↦ rw (end_call, there, waiting) refl
  ]
]

pub end_call-IsOrdered :
    (xid : ℕ) (c : Client)
    → IsOrdered c
    → xid < c.xid
    → IsOrdered (end_call xid c).2 × Follows c (end_call xid c).2
end_call-IsOrdered xid c o h = rw (end_call-client xid c) (
    settled xid c (erase xid c.calls) o h (λ x a e. o.known x a (left xid x a c.calls e).1)
      (λ x a e fresh. left xid x a c.calls e))

hand_over-IsOrdered :
    (xid ret : ℕ) (rep : Unmarshall) (c : Client)
    → IsOrdered c
    → xid < c.xid
    → let c1 = record c { xid_rep_window = update_xid_rep xid c.xid_rep_window } in
      IsOrdered (hand_over xid ret rep c1) × Follows c (hand_over xid ret rep c1)
unfolding hand_over
hand_over-IsOrdered xid ret rep c o h = elim (Option-cases (lookup xid c.calls)) [
  | inl gone ↦
      rw (hand_over, gone)
        (settled xid c c.calls o h o.known
          (λ x a e fresh. (λ p. (let f : none ≡ some a = sym gone ∙ rw p at e in cc f), e)))
  | inr (ca, there) ↦ elim (Bool-cases ca.done) [
    | inl done ↦
        rw (hand_over, there, done)
          (settled xid c c.calls o h o.known (λ x a e fresh. (
            λ p.
                (let f : some ca ≡ some a = sym there ∙ rw p at e in
                  ground (arith, f, done, fresh)),
            e,
          )))
    | inr waiting ↦
        rw (hand_over, there, waiting)
          (let answered : Caller = record { un = take_in rep; intret = ret; done = true } in
            settled xid c (insert xid answered c.calls) o h
              (λ x a e. elim (found xid x answered a c.calls e) [
                | inl (same, v) ↦ rw same h
                | inr (other, old) ↦ o.known x a old
              ])
              (λ x a e fresh. elim (found xid x answered a c.calls e) [
                | inl (same, v) ↦ absurd (ground (arith, v, fresh))
                | inr (other, old) ↦ (other, old)
              ]))
  ]
]

pub got_pdu-IsOrdered :
    (buf : ℕ → ℕ) (sz : ℕ) (c : Client)
    → IsOrdered c
    → (unpack_reply_header (unmarshall buf sz)).0.xid < c.xid
    → IsOrdered (got_pdu buf sz c) × Follows c (got_pdu buf sz c)
unfolding got_pdu
got_pdu-IsOrdered buf sz c o h =
    let (head, rep) = unpack_reply_header (unmarshall buf sz) in
    elim (Bool-cases rep.is_ok) [
      | inl fine ↦ rw (got_pdu, fine) (hand_over-IsOrdered head.xid head.ret rep c o h)
      | inr broken ↦ rw (got_pdu, broken) (o, record { nonce = refl; arrivals = λ n e. e })
    ]
