-- ===== src/RpcServer/ReplyWindow/Delivered.antt =====
-- Requests that reach the reply window of lab/rpc/rpc.cc: the first copy starts the execution.
use ds14_project.Base.{
  ℕ, ◌<◌, ◌≡◌, refl, ◌∙◌, sym, true, false, List, [], ◌∷◌, none, arith, Bool-cases, inl, inr, All,
  In, ℕ_discrete, eq→==, ne→==,
}
use ds14_project.RpcServer.ReplyWindow.{ReplyWindow}
use ds14_project.RpcServer.ReplyWindow.Entries.{entry, entry-add_reply}
use ds14_project.RpcServer.ReplyWindow.AtMostOnce.{
  Event, request, completed, step, starts, executions, executions-le-one, Unacknowledged,
  after_request, starts-request,
}

first_starts :
    (c x rep : ℕ) (w : ReplyWindow) → entry c x w ≡ none → starts c x (request c x rep) w ≡ true
first_starts c x rep w e = rw (starts-request c x c x rep w, eq→== c c refl, eq→== x x refl, e) refl

-- An event that starts no execution of a request without an entry makes no entry for it.
still_none :
    (c x : ℕ) (e : Event) (w : ReplyWindow)
    → Unacknowledged c x e
    → entry c x w ≡ none
    → starts c x e w ≡ false
    → entry c x (step e w) ≡ none
unfolding step
still_none c x (request clt xid rep) w u e s = elim (ℕ_discrete clt c) [
  | no p ↦ rw (after_request c x clt xid rep w u, e, ne→== clt c p)
  | yes p ↦ elim (ℕ_discrete xid x) [
    | no q ↦ rw (after_request c x clt xid rep w u, e, p, eq→== c c refl, ne→== xid x q)
    | yes q ↦
        (let f : starts c x (request c x rep) w ≡ false = rw (p, q) at s in
          let g : true ≡ false = sym (first_starts c x rep w e) ∙ f in cc g)
  ]
]
still_none c x (completed clt xid b) w u e s =
    rw (entry-add_reply clt xid c x b w, e) (ground arith)

starts_once :
    (c x rep : ℕ) (es : List Event) (w : ReplyWindow)
    → entry c x w ≡ none
    → All (Unacknowledged c x) es
    → In (request c x rep) es
    → 0 < executions c x es w
unfolding executions
starts_once c x rep [] w e u here = absurd here
starts_once c x rep (ev ∷ es) w e (u, us) here = elim (Bool-cases (starts c x ev w)) [
  | inl s ↦ rw s (omega arith)
  | inr s ↦ elim here [
    | inl same ↦
        (let f : starts c x (request c x rep) w ≡ false = rw (← same) at s in
          let g : true ≡ false = sym (first_starts c x rep w e) ∙ f in cc g)
    | inr later ↦
        (let more = starts_once c x rep es (step ev w) (still_none c x ev w u e s) us later in
          omega (arith, more))
  ]
]

-- A request that the window has no entry for, and that arrives, is executed exactly once, over any
-- events that do not acknowledge it.
pub executions-eq-one :
    (c x rep : ℕ) (es : List Event) (w : ReplyWindow)
    → entry c x w ≡ none
    → All (Unacknowledged c x) es
    → In (request c x rep) es
    → executions c x es w ≡ 1
executions-eq-one c x rep es w e u here =
    omega (arith, starts_once c x rep es w e u here, executions-le-one c x es w u)
