-- ===== src/RpcServer/ReplyWindow/AtMostOnce.antt =====
-- The reply window of lab/rpc/rpc.cc over sequences of requests and completions, in whatever order the
-- server's threads make them.
use ds14_project.Base.{
  ℕ, ◌+◌, ◌≤◌, ◌<◌, ◌≡◌, ◌≢◌, refl, ◌∙◌, Bool, true, false, List, [], ◌∷◌, ◌==◌, if◌then◌else◌,
  some, none, arith, Option-cases, Bool-cases, inl, inr, All, ◌⊎◌, ℕ_discrete, eq→==, ne→==, lt→leb,
}
use ds14_project.RpcServer.ReplyWindow.{
  Reply, RpcState, fresh, inprogress, done, forgotten, ReplyWindow, fresh_reply,
  checkduplicate_and_update, add_reply, register_client,
}
use ds14_project.RpcServer.ReplyWindow.Entries.{
  entry, verdict, check_verdict, entry-check, entry-add_reply, entry-register,
}

-- A request of a client is looked up, or the reply to a request is stored.
pub data Event : Type 0 where
  request : (clt xid xid_rep : ℕ) → Event
  completed : (clt xid : ℕ) → List ℕ → Event

unfoldable pub step : Event → ReplyWindow → ReplyWindow
step (request clt xid rep) w = (checkduplicate_and_update clt xid rep (register_client clt w)).1
step (completed clt xid b) w = add_reply clt xid b w

abbrev pub is_fresh : RpcState → Bool
is_fresh fresh = true
is_fresh inprogress = false
is_fresh done = false
is_fresh forgotten = false

-- Does the event start an execution of this request?
unfoldable pub starts : (clt xid : ℕ) → Event → ReplyWindow → Bool
starts c x (request clt xid rep) w =
    if clt == c
    then (if xid == x
        then is_fresh (checkduplicate_and_update clt xid rep (register_client clt w)).0.0
        else false)
    else false
starts c x (completed clt xid b) w = false

pub run : List Event → ReplyWindow → ReplyWindow
run [] w = w
run (e ∷ es) w = run es (step e w)

-- How often the request is executed.
unfoldable pub executions : (clt xid : ℕ) → List Event → ReplyWindow → ℕ
executions c x [] w = 0
executions c x (e ∷ es) w = (if starts c x e w then 1 else 0) + executions c x es (step e w)

-- The client does not acknowledge the reply to the request.
abbrev pub Unacknowledged : (clt xid : ℕ) → Event → Type 0
Unacknowledged c x (request clt xid rep) = clt ≡ c → rep < x
Unacknowledged c x (completed clt xid b) = Unit {0}

-- The entry after a request or a completion.
pub after_request :
    (c x clt xid rep : ℕ) (w : ReplyWindow)
    → (clt ≡ c → rep < x)
    → entry c x (step (request clt xid rep) w) ≡ (
        if clt == c
        then elim (entry c x w) [
          | some r ↦ some r
          | none ↦ if xid == x then some (fresh_reply xid) else none
        ]
        else entry c x w)
unfolding step
after_request c x clt xid rep w h =
    entry-check clt xid rep (register_client clt w) c x h ∙ rw (entry-register clt c x w)

pub starts-request :
    (c x clt xid rep : ℕ) (w : ReplyWindow)
    → starts c x (request clt xid rep) w ≡ (
        if clt == c
        then (if xid == x then is_fresh (verdict xid rep (entry clt xid w)).0 else false)
        else false)
unfolding starts
starts-request c x clt xid rep w =
    rw (check_verdict clt xid rep (register_client clt w), entry-register clt clt xid w)

not_fresh :
    (present : Bool) (b : List ℕ)
    → is_fresh (if◌then◌else◌ {A = RpcState × List ℕ} present (done, b) (inprogress, [])).0 ≡ false
not_fresh true b = refl
not_fresh false b = refl

kept_request :
    (c x clt xid rep : ℕ) (w : ReplyWindow) (r : Reply)
    → (clt ≡ c → rep < x)
    → entry c x w ≡ some r
    → starts c x (request clt xid rep) w ≡ false
kept_request c x clt xid rep w r u e =
    rw (starts-request c x clt xid rep w) (elim (ℕ_discrete clt c) [
      | yes p ↦ (elim (ℕ_discrete xid x) [
        | yes q ↦
            rw (p, q, e, lt→leb x rep (u p), eq→== c c refl, eq→== x x refl)
              (not_fresh r.cb_present r.buf)
        | no q ↦ rw (p, eq→== c c refl, ne→== xid x q)
      ])
      | no p ↦ rw (ne→== clt c p)
    ])

entry-request :
    (c x clt xid rep : ℕ) (w : ReplyWindow) (r : Reply)
    → (clt ≡ c → rep < x)
    → entry c x w ≡ some r
    → entry c x (step (request clt xid rep) w) ≡ some r
entry-request c x clt xid rep w r u e = elim (ℕ_discrete clt c) [
  | yes p ↦ rw (after_request c x clt xid rep w u, e, p, eq→== c c refl)
  | no p ↦ rw (after_request c x clt xid rep w u, e, ne→== clt c p)
]

-- The reply that stands for (c, x) once the reply of (clt, xid) is stored.
abbrev stored : (c x clt xid : ℕ) → List ℕ → Reply → Reply
stored c x clt xid b r =
    if clt == c then (if xid == x then record { xid = x; cb_present = true; buf = b } else r) else r

entry-completed :
    (c x clt xid : ℕ) (b : List ℕ) (w : ReplyWindow) (r : Reply)
    → entry c x w ≡ some r
    → entry c x (step (completed clt xid b) w) ≡ some (stored c x clt xid b r)
unfolding step
entry-completed c x clt xid b w r e =
    rw (entry-add_reply clt xid c x b w, e) (both (clt == c) (xid == x))
  where
    both :
        (p q : Bool)
        → (if p
            then (if q then some (record { xid = x; cb_present = true; buf = b }) else some r)
            else some r)
          ≡ some
              (if p then (if q then record { xid = x; cb_present = true; buf = b } else r) else r)
    both true true = refl
    both true false = refl
    both false q = refl

-- A reply that is there is kept, and so the request is not executed again.
kept :
    (c x : ℕ) (e : Event) (w : ReplyWindow) (r : Reply)
    → Unacknowledged c x e
    → entry c x w ≡ some r
    → (starts c x e w ≡ false) × ((q : Reply) × (entry c x (step e w) ≡ some q))
kept c x (request clt xid rep) w r u e =
    (kept_request c x clt xid rep w r u e, (r, entry-request c x clt xid rep w r u e))
kept c x (completed clt xid b) w r u e =
    (unfold starts in refl, (stored c x clt xid b r, entry-completed c x clt xid b w r e))

never_again :
    (c x : ℕ) (es : List Event) (w : ReplyWindow) (r : Reply)
    → All (Unacknowledged c x) es
    → entry c x w ≡ some r
    → executions c x es w ≡ 0
unfolding executions
never_again c x [] w r u e = refl
never_again c x (ev ∷ es) w r (u, us) e =
    let k = kept c x ev w r u e in
    rw k.0 (omega (arith, never_again c x es (step ev w) k.1.0 us k.1.1))

-- An execution leaves an entry.
started :
    (c x : ℕ) (e : Event) (w : ReplyWindow)
    → Unacknowledged c x e
    → starts c x e w ≡ true
    → (r : Reply) × (entry c x (step e w) ≡ some r)
started c x (request clt xid rep) w u s = elim (ℕ_discrete clt c) [
  | yes p ↦ (elim (ℕ_discrete xid x) [
    | yes q ↦ (elim (Option-cases (entry c x w)) [
      | inl e ↦ (
        fresh_reply xid,
        rw (after_request c x clt xid rep w u, e, p, eq→== c c refl, eq→== xid x q),
      )
      | inr (r, e) ↦ (r, entry-request c x clt xid rep w r u e)
    ])
    | no q ↦
        (let f = rw (starts-request c x clt xid rep w, p, eq→== c c refl, ne→== xid x q) at s in cc)
  ])
  | no p ↦ (let f = rw (starts-request c x clt xid rep w, ne→== clt c p) at s in cc)
]
started c x (completed clt xid b) w u s = unfold starts in cc

-- A request is executed at most once over any sequence of events in which the client does not
-- acknowledge its reply, from any window.
pub executions-le-one :
    (c x : ℕ) (es : List Event) (w : ReplyWindow)
    → All (Unacknowledged c x) es
    → executions c x es w ≤ 1
unfolding executions
executions-le-one c x [] w u = omega arith
executions-le-one c x (e ∷ es) w (u, us) = elim (Bool-cases (starts c x e w)) [
  | inl s ↦
      (let (r, there) = started c x e w u s in
        rw s (omega (arith, never_again c x es (step e w) r us there)))
  | inr s ↦ rw s (omega (arith, executions-le-one c x es (step e w) us))
]

-- The event neither acknowledges the reply nor stores another in its place.
abbrev pub Retains : (clt xid : ℕ) → Event → Type 0
Retains c x (request clt xid rep) = clt ≡ c → rep < x
Retains c x (completed clt xid b) = (clt ≢ c) ⊎ (xid ≢ x)

reply_stays :
    (c x : ℕ) (es : List Event) (w : ReplyWindow) (r : Reply)
    → All (Retains c x) es
    → entry c x w ≡ some r
    → entry c x (run es w) ≡ some r
unfolding run
reply_stays c x [] w r u e = e
reply_stays c x (request clt xid rep ∷ es) w r (u, us) e =
    reply_stays c x es _ r us (entry-request c x clt xid rep w r u e)
reply_stays c x (completed clt xid b ∷ es) w r (u, us) e =
    reply_stays c x es _ r us (entry-completed c x clt xid b w r e ∙ ground (arith, u))

-- Once the reply to an execution is stored, every later duplicate is answered by those bytes, for
-- as long as the reply is neither acknowledged nor replaced.
pub duplicate_gets_reply :
    (c x rep : ℕ) (b : List ℕ) (es : List Event) (w : ReplyWindow) (r : Reply)
    → entry c x w ≡ some r
    → All (Retains c x) es
    → rep < x
    → (checkduplicate_and_update c x rep (run es (step (completed c x b) w))).0 ≡ (done, b)
duplicate_gets_reply c x rep b es w r e us h =
    let first : entry c x (step (completed c x b) w)
        ≡ some (record { xid = x; cb_present = true; buf = b }) =
      entry-completed c x c x b w r e ∙ ground arith in
    let last = reply_stays c x es (step (completed c x b) w) _ us first in
    rw (check_verdict c x rep (run es (step (completed c x b) w)), last, lt→leb x rep h)
