-- ===== src/Listener/Calls.antt =====
-- A call on a connection of lab/rpc/connection.cc: what it finds and what it leaves.
use ds14_project.Base.{
  ℕ, ◌-◌, ◌<◌, ◌≡◌, ◌≢◌, ◌⊎◌, ◌∙◌, sym, true, ◌&&◌, Option, some, none, ◌==◌, arith, Bool-cases,
  Option-cases, inl, inr, ==_iff, if_true, if_false,
}
use ds14_project.Connection
use ds14_project.Connection.{Connection}
use ds14_project.RpcClient.Refconn.{closeconn_at, Conns, set_at, incref_at, decref_at}

-- A call on a connection finds it there.
pub closeconn_at_parts :
    (k : ℕ) (h h' : Conns)
    → closeconn_at k h ≡ some h'
    → (c : Connection) × (h.at k ≡ some c) × (h' ≡ set_at k (some (Connection.closeconn c)) h)
unfolding closeconn_at
closeconn_at_parts k h h' e = elim (Option-cases (h.at k)) [
  | inl gone ↦ absurd (ground (arith, gone, e))
  | inr (c, at) ↦
      (let f : some (set_at k (some (Connection.closeconn c)) h) ≡ some h' =
          rw (closeconn_at, at) at e in
        (c, at, sym (cc f)))
]

pub incref_at_parts :
    (k : ℕ) (h h' : Conns)
    → incref_at k h ≡ some h'
    → (c : Connection) × (h.at k ≡ some c) × (h' ≡ set_at k (some (Connection.incref c)) h)
unfolding incref_at
incref_at_parts k h h' e = elim (Option-cases (h.at k)) [
  | inl gone ↦ absurd (ground (arith, gone, e))
  | inr (c, at) ↦
      (let f : some (set_at k (some (Connection.incref c)) h) ≡ some h' = rw (incref_at, at) at e in
        (c, at, sym (cc f)))
]

pub decref_at_parts :
    (k : ℕ) (h h' : Conns)
    → decref_at k h ≡ some h'
    → (c : Connection) × (h.at k ≡ some c)
      × ((h' ≡ set_at k none h)
          ⊎ ((h' ≡ set_at k (some (record c { refno = c.refno - 1 })) h)
              × (c.dead ≡ true → 1 < c.refno)))
unfolding decref_at Connection.decref
decref_at_parts k h h' e = elim (Option-cases (h.at k)) [
  | inl gone ↦ absurd (ground (arith, gone, e))
  | inr (c, at) ↦ (
    c,
    at,
    elim (Bool-cases (c.refno == 0)) [
      | inl zero ↦ (let f : none ≡ some h' = rw (decref_at, at, zero) at e in cc f)
      | inr left ↦ elim (Bool-cases (c.refno == 1 && c.dead)) [
        | inl last ↦ elim (Bool-cases (Connection.is_written c)) [
          | inl fine ↦
              (let f : some (set_at k none h) ≡ some h' =
                  rw (decref_at, at, left, last, fine) at e in
                inl (sym (cc f)))
          | inr half ↦ (let f : none ≡ some h' = rw (decref_at, at, left, last, half) at e in cc f)
        ]
        | inr more ↦
            (let h1 = set_at k (some (record c { refno = c.refno - 1 })) h in
              let f : some h1 ≡ some h' = rw (decref_at, at, left, more) at e in
              inr (sym (cc f), λ dead. ground (arith, left, more, dead)))
      ]
    ],
  )
]

-- Where a connection is after a change at `k`.
pub at_set_at :
    (k j : ℕ) (o : Option Connection) (h : Conns) (c : Connection)
    → (set_at k o h).at j ≡ some c
    → ((j ≡ k) × (o ≡ some c)) ⊎ ((j ≢ k) × (h.at j ≡ some c))
at_set_at k j o h c e = elim (Bool-cases (j == k)) [
  | inl same ↦ inl ((==_iff j k).0 same, sym (if_true _ _ same) ∙ e)
  | inr other ↦ inr (λ x. ground (arith, x, other), sym (if_false _ _ other) ∙ e)
]

pub some_inj {ℓ} : {A : Type ℓ} {a b : A} → some a ≡ some b → a ≡ b
some_inj e = cc e
