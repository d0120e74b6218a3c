-- ===== src/RpcServer/ReplyWindow/Entries.antt =====
-- The window as a map from a client and a request number to the reply kept for it.
use ds14_project.Base.{
  ℕ, ◌<◌, ◌≡◌, refl, ap, true, List, [], ◌∷◌, ◌++◌, leb, ◌==◌, if◌then◌else◌, Option, some, none,
  arith, lookup, insert, lookup-insert, Option-cases, inl, inr, append-nil, eq→==, ne→==,
  ℕ_discrete,
}
use ds14_project.RpcServer.ReplyWindow.{
  Reply, RpcState, fresh, inprogress, done, forgotten, ReplyWindow, fresh_reply, scan, replies_of,
  checkduplicate_and_update, store, add_reply, register_client,
}

unfoldable pub find_reply : ℕ → List Reply → Option Reply
find_reply xid [] = none
find_reply xid (r ∷ rs) = if r.xid == xid then some r else find_reply xid rs

abbrev pub entry : (clt xid : ℕ) → ReplyWindow → Option Reply
entry clt xid w = find_reply xid (replies_of clt w)

-- The verdict on a request, by the reply that is kept for it.
abbrev pub verdict : (xid xid_rep : ℕ) → Option Reply → RpcState × List ℕ
verdict xid xid_rep none = (fresh, [])
verdict xid xid_rep (some r) =
    if leb xid xid_rep
    then (forgotten, [])
    else (if r.cb_present then (done, r.buf) else (inprogress, []))

or_fresh : Option (RpcState × List ℕ) → RpcState × List ℕ
or_fresh none = (fresh, [])
or_fresh (some v) = v

scan-verdict :
    (xid rep : ℕ) (rs : List Reply)
    → or_fresh (scan xid rep rs).0 ≡ verdict xid rep (find_reply xid rs)
unfolding scan find_reply or_fresh
scan-verdict xid rep [] = refl
scan-verdict xid rep (r ∷ rs) = ground (arith, scan-verdict xid rep rs)

scan-none : (xid rep : ℕ) (rs : List Reply) → find_reply xid rs ≡ none → (scan xid rep rs).0 ≡ none
unfolding scan find_reply
scan-none xid rep [] e = refl
scan-none xid rep (r ∷ rs) e = ground (arith, scan-none xid rep rs)

scan-some :
    (xid rep : ℕ) (rs : List Reply) (r : Reply)
    → find_reply xid rs ≡ some r
    → (scan xid rep rs).0 ≡ some (verdict xid rep (some r))
unfolding scan find_reply
scan-some xid rep [] r e = cc
scan-some xid rep (q ∷ rs) r e = ground (arith, scan-some xid rep rs r)

-- A reply that is not acknowledged stays.
scan-keeps :
    (xid rep y : ℕ) (rs : List Reply) → rep < y → find_reply y (scan xid rep rs).1 ≡ find_reply y rs
unfolding scan find_reply
scan-keeps xid rep y [] h = refl
scan-keeps xid rep y (r ∷ rs) h = ground (arith, scan-keeps xid rep y rs)

find_reply-snoc :
    (y xid : ℕ) (rs : List Reply)
    → find_reply y (rs ++ fresh_reply xid ∷ []) ≡ elim (find_reply y rs) [
      | some r ↦ some r
      | none ↦ if xid == y then some (fresh_reply xid) else none
    ]
unfolding find_reply
find_reply-snoc y xid [] = refl
find_reply-snoc y xid (r ∷ rs) = ground (arith, find_reply-snoc y xid rs)

find_reply-store :
    (xid y : ℕ) (b : List ℕ) (rs : List Reply)
    → find_reply y (store xid b rs) ≡ (
        if xid == y
        then elim (find_reply y rs) [
          | some r ↦ some (record { xid = y; cb_present = true; buf = b })
          | none ↦ none
        ]
        else find_reply y rs)
unfolding find_reply store
find_reply-store xid y b [] = ground arith
find_reply-store xid y b (r ∷ rs) = ground (arith, find_reply-store xid y b rs)

replies_of-insert :
    (clt c : ℕ) (rs : List Reply) (w : ReplyWindow)
    → replies_of c (insert clt rs w) ≡ (if clt == c then rs else replies_of c w)
replies_of-insert clt c rs w = ground (arith, lookup-insert clt c rs w)

or_same : (o : Option Reply) → o ≡ elim o [ some r ↦ some r | none ↦ none ]
or_same none = refl
or_same (some r) = refl

present :
    (xid y : ℕ) (rs : List Reply) (r : Reply)
    → find_reply xid rs ≡ some r
    → find_reply y rs ≡ elim (find_reply y rs) [
      | some q ↦ some q
      | none ↦ if xid == y then some (fresh_reply xid) else none
    ]
present xid y rs r e = elim (Option-cases (find_reply y rs)) [
  | inl f ↦ ground (arith, e, f)
  | inr (q, f) ↦ rw f
]

scan-entry :
    (xid rep y : ℕ) (rs : List Reply)
    → rep < y
    → find_reply y (
        (scan xid rep rs).1
        ++ elim (find_reply xid rs) [ none ↦ fresh_reply xid ∷ [] | some r ↦ [] ])
      ≡ elim (find_reply y rs) [
        | some r ↦ some r
        | none ↦ if xid == y then some (fresh_reply xid) else none
      ]
scan-entry xid rep y rs h = elim (Option-cases (find_reply xid rs)) [
  | inl e ↦ rw (e, find_reply-snoc y xid (scan xid rep rs).1, scan-keeps xid rep y rs h)
  | inr (r, e) ↦ rw (e, append-nil, scan-keeps xid rep y rs h) (present xid y rs r e)
]

module _ (clt xid rep : ℕ) (w : ReplyWindow) where
  -- `checkduplicate_and_update` goes by the reply that is kept for the request.
  pub check_verdict :
      (checkduplicate_and_update clt xid rep w).0 ≡ verdict xid rep (entry clt xid w)
  unfolding checkduplicate_and_update
  check_verdict = elim (Option-cases (entry clt xid w)) [
    | inl e ↦ rw (e, checkduplicate_and_update, scan-none xid rep (replies_of clt w) e)
    | inr (r, e) ↦ rw (e, checkduplicate_and_update, scan-some xid rep (replies_of clt w) r e)
  ]

  pub check_replies :
      (c : ℕ)
      → replies_of c (checkduplicate_and_update clt xid rep w).1 ≡ (
          if clt == c
          then (scan xid rep (replies_of clt w)).1
            ++ elim (entry clt xid w) [ none ↦ fresh_reply xid ∷ [] | some r ↦ [] ]
          else replies_of c w)
  unfolding checkduplicate_and_update
  check_replies c = elim (Option-cases (entry clt xid w)) [
    | inl e ↦
        rw (e, checkduplicate_and_update, scan-none xid rep (replies_of clt w) e)
          (replies_of-insert clt c _ w)
    | inr (r, e) ↦
        rw (e, checkduplicate_and_update, scan-some xid rep (replies_of clt w) r e, append-nil)
          (replies_of-insert clt c _ w)
  ]

  -- Behind a request that does not acknowledge `y`, the reply to `y` is as before; that to the
  -- request itself is there, without its contents if it was not.
  pub entry-check :
      (c y : ℕ)
      → (clt ≡ c → rep < y)
      → entry c y (checkduplicate_and_update clt xid rep w).1 ≡ (
          if clt == c
          then elim (entry c y w) [
            | some r ↦ some r
            | none ↦ if xid == y then some (fresh_reply xid) else none
          ]
          else entry c y w)
  entry-check c y h = elim (ℕ_discrete clt c) [
    | yes e ↦
        rw (← e, check_replies clt, eq→== clt clt refl)
          (scan-entry xid rep y (replies_of clt w) (h e))
    | no e ↦ rw (check_replies c, ne→== clt c e)
  ]

pub entry-check_self :
    (clt xid rep : ℕ) (w : ReplyWindow)
    → rep < xid
    → entry clt xid (checkduplicate_and_update clt xid rep w).1
      ≡ elim (entry clt xid w) [ some r ↦ some r | none ↦ some (fresh_reply xid) ]
entry-check_self clt xid rep w h = elim (Option-cases (entry clt xid w)) [
  | inl e ↦
      rw (entry-check clt xid rep w clt xid (λ _. h), eq→== clt clt refl, e, eq→== xid xid refl)
  | inr (r, e) ↦ rw (entry-check clt xid rep w clt xid (λ _. h), eq→== clt clt refl, e)
]

-- `add_reply` stores the reply where the request has an entry, and touches nothing else.
pub entry-add_reply :
    (clt xid c y : ℕ) (b : List ℕ) (w : ReplyWindow)
    → entry c y (add_reply clt xid b w) ≡ (
        if clt == c
        then (if xid == y
            then elim (entry c y w) [
              | some r ↦ some (record { xid = y; cb_present = true; buf = b })
              | none ↦ none
            ]
            else entry c y w)
        else entry c y w)
unfolding add_reply
entry-add_reply clt xid c y b w = elim (ℕ_discrete clt c) [
  | yes e ↦
      rw (← e, replies_of-insert clt clt (store xid b (replies_of clt w)) w, eq→== clt clt refl)
        (find_reply-store xid y b (replies_of clt w))
  | no e ↦ rw (replies_of-insert clt c (store xid b (replies_of clt w)) w, ne→== clt c e)
]

no_replies : (clt : ℕ) (w : ReplyWindow) → lookup clt w ≡ none → replies_of clt w ≡ []
no_replies clt w e =
    ap (λ (o : Option (List Reply)). elim o as (λ _. List Reply) [ none ↦ [] | some rs ↦ rs ]) e

new_client :
    (clt c y : ℕ) (w : ReplyWindow)
    → lookup clt w ≡ none
    → entry c y (insert clt [] w) ≡ entry c y w
new_client clt c y w e = elim (ℕ_discrete clt c) [
  | yes same ↦ rw (← same, replies_of-insert clt clt [] w, eq→== clt clt refl, no_replies clt w e)
  | no other ↦ rw (replies_of-insert clt c [] w, ne→== clt c other)
]

pub entry-register :
    (clt c y : ℕ) (w : ReplyWindow) → entry c y (register_client clt w) ≡ entry c y w
unfolding register_client
entry-register clt c y w = elim (Option-cases (lookup clt w)) [
  | inl e ↦ rw (e, register_client) (new_client clt c y w e)
  | inr (rs, e) ↦ rw (e, register_client)
]
