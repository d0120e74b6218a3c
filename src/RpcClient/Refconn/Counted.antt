-- ===== src/RpcClient/Refconn/Counted.antt =====
-- The references that `get_refconn` of lab/rpc/rpc.cc counts.
use ds14_project.Base.{
  ◌≢◌, ◌&&◌, ltb, ltb→lt, ℕ, ◌+◌, ◌-◌, ◌<◌, ◌≤◌, ◌≡◌, ◌∙◌, sym, refl, ap, Bool, true, false, Option,
  some, none, ◌==◌, if◌then◌else◌, arith, Bool-cases, Option-cases, inl, inr, eq→==, ne→==, ==_iff,
}
use ds14_project.Connection
use ds14_project.Connection.{Connection, Kept, kept, deleted}
use ds14_project.RpcClient.Refconn.{
  closeconn_at, destroy, Conns, set_at, incref_at, decref_at, drop_ref, connect_to_dst, reconnect,
  take_ref, get_refconn,
}

-- The reference that a variable holds.
abbrev pub holds : Option ℕ → ℕ → ℕ
holds none j = 0
holds (some k) j = if j == k then 1 else 0

abbrev pub refs_of : Option Connection → ℕ
refs_of none = 0
refs_of (some c) = c.refno

abbrev pub is_whole : Option Connection → Bool
is_whole none = true
is_whole (some c) = Connection.is_written c

-- Every connection counts its references and has no pdu half written, there is no reference to one
-- that is gone, and the next number is free.
pub record IsCounted (n : ℕ → ℕ) (h : Conns) : Type 0 where
  pub counts : (j : ℕ) → refs_of (h.at j) ≡ n j
  pub unused : (j : ℕ) → h.fresh ≤ j → h.at j ≡ none
  pub whole : (j : ℕ) → is_whole (h.at j) ≡ true

pub set_at-IsCounted :
    (n m : ℕ → ℕ) (h : Conns) (k : ℕ) (o : Option Connection)
    → IsCounted n h
    → k < h.fresh
    → refs_of o ≡ m k
    → ((j : ℕ) → j ≢ k → n j ≡ m j)
    → is_whole o ≡ true
    → IsCounted m (set_at k o h)
set_at-IsCounted n m h k o v used this others fine = record {
  counts = λ j. elim (Bool-cases (j == k)) [
    | inl same ↦ (let e : j ≡ k = (==_iff j k).0 same in rw (e, eq→== k k refl) this)
    | inr other ↦ rw other (v.counts j ∙ others j (λ e. ground (arith, e, other)))
  ];
  unused =
      λ j le. (let away : (j == k) ≡ false = ground (arith, used, le) in rw away (v.unused j le));
  whole = λ j. elim (Bool-cases (j == k)) [
    | inl same ↦ rw same fine
    | inr other ↦ rw other (v.whole j)
  ];
}

refno_written :
    (c : Connection) (n : ℕ)
    → Connection.is_written (record c { refno = n }) ≡ Connection.is_written c
unfolding Connection.is_written
refno_written c n = refl

incref_written :
    (c : Connection) → Connection.is_written (Connection.incref c) ≡ Connection.is_written c
unfolding Connection.is_written Connection.incref
incref_written c = refl

init_written : Connection.is_written Connection.init ≡ true
unfolding Connection.is_written
init_written = refl

closeconn_written :
    (c : Connection) → Connection.is_written (Connection.closeconn c) ≡ Connection.is_written c
unfolding Connection.is_written Connection.closeconn
closeconn_written c = elim (Bool-cases c.dead) [ inl e ↦ rw e refl | inr e ↦ rw e refl ]

-- A connection that has a reference is there.
pub present :
    (n : ℕ → ℕ) (h : Conns) (k : ℕ)
    → IsCounted n h
    → 0 < n k
    → (c : Connection) × (h.at k ≡ some c) × (c.refno ≡ n k) × (k < h.fresh)
present n h k v pos = elim (Option-cases (h.at k)) [
  | inl gone ↦ absurd (omega (arith, ap refs_of gone, v.counts k, pos))
  | inr (c, e) ↦ (
    c,
    e,
    sym (ap refs_of e) ∙ v.counts k,
    (elim (Bool-cases (ltb k h.fresh)) [
      | inl lt ↦ ltb→lt k h.fresh lt
      | inr ge ↦ absurd (ground (arith, v.unused k (ground (arith, ge)), e))
    ]),
  )
]

minus_other : (n : ℕ → ℕ) (k j : ℕ) → j ≢ k → n j ≡ n j - holds (some k) j
minus_other n k j d = rw (ne→== j k d) (omega arith)

plus_other : (n : ℕ → ℕ) (k j : ℕ) → j ≢ k → n j ≡ n j + holds (some k) j
plus_other n k j d = rw (ne→== j k d) (omega arith)

pub decref_at_lem :
    (n : ℕ → ℕ) (h : Conns) (k : ℕ)
    → IsCounted n h
    → 0 < n k
    → (h' : Conns) × (decref_at k h ≡ some h') × IsCounted (λ j. n j - holds (some k) j) h'
unfolding decref_at Connection.decref
decref_at_lem n h k v pos =
    let (c, e, count, used) = present n h k v pos in
    let m : ℕ → ℕ = λ j. n j - holds (some k) j in
    let here : m k ≡ n k - 1 = rw (eq→== k k refl) in
    let some_left : (c.refno == 0) ≡ false = ground (arith, count, pos) in
    let fine : Connection.is_written c ≡ true = rw e at (v.whole k) in
    elim (Bool-cases (c.refno == 1 && c.dead)) [
      | inl last ↦ (
        set_at k none h,
        rw (decref_at, e, some_left, last, fine),
        set_at-IsCounted n m h k none v used (ground (arith, here, count, last)) (minus_other n k)
            refl,
      )
      | inr more ↦ (
        set_at k (some (record c { refno = c.refno - 1 })) h,
        rw (decref_at, e, some_left, more),
        set_at-IsCounted n m h k (some (record c { refno = c.refno - 1 })) v used
            (omega (arith, here, count)) (minus_other n k) (refno_written c (c.refno - 1) ∙ fine),
      )
    ]

pub incref_at_lem :
    (n : ℕ → ℕ) (h : Conns) (k : ℕ)
    → IsCounted n h
    → 0 < n k
    → (h' : Conns) × (incref_at k h ≡ some h') × IsCounted (λ j. n j + holds (some k) j) h'
unfolding incref_at Connection.incref
incref_at_lem n h k v pos =
    let (c, e, count, used) = present n h k v pos in
    let m : ℕ → ℕ = λ j. n j + holds (some k) j in
    let here : m k ≡ n k + 1 = rw (eq→== k k refl) in
    (
      set_at k (some (Connection.incref c)) h,
      rw (incref_at, e),
      set_at-IsCounted n m h k (some (Connection.incref c)) v used (omega (arith, here, count))
          (plus_other n k) (incref_written c ∙ rw e at (v.whole k)),
    )

pub connect_to_dst_lem :
    (connects : Bool) (n : ℕ → ℕ) (h : Conns)
    → IsCounted n h
    → let r = connect_to_dst connects h in IsCounted (λ j. n j + holds r.0 j) r.1
unfolding connect_to_dst
connect_to_dst_lem true n h v =
    let free : n h.fresh ≡ 0 =
      sym (v.counts h.fresh) ∙ ap refs_of (v.unused h.fresh (omega arith)) in
    record {
      counts = λ j. elim (Bool-cases (j == h.fresh)) [
        | inl same ↦
            (let e : j ≡ h.fresh = (==_iff j h.fresh).0 same in
              rw (e, eq→== h.fresh h.fresh refl) (omega (arith, free)))
        | inr other ↦ rw other (omega (arith, v.counts j))
      ];
      unused = λ j le.
          (let away : (j == h.fresh) ≡ false = ground (arith, le) in
            rw away (v.unused j (omega (arith, le))));
      whole = λ j. elim (Bool-cases (j == h.fresh)) [
        | inl same ↦ rw same init_written
        | inr other ↦ rw other (v.whole j)
      ];
    }
connect_to_dst_lem false n h v = record {
  counts = λ j. omega (arith, v.counts j);
  unused = v.unused;
  whole = v.whole;
}

pub IsCounted-same :
    (n m : ℕ → ℕ) (h : Conns) → IsCounted n h → ((j : ℕ) → n j ≡ m j) → IsCounted m h
IsCounted-same n m h v e = record {
  counts = λ j. v.counts j ∙ e j;
  unused = v.unused;
  whole = v.whole;
}

held_once : (k : ℕ) (m : ℕ → ℕ) → 0 < holds (some k) k + m k
held_once k m = rw (eq→== k k refl) (omega arith)

drop_ref_lem :
    (o : Option ℕ) (m : ℕ → ℕ) (h : Conns)
    → IsCounted (λ j. holds o j + m j) h
    → (h' : Conns) × (drop_ref o h ≡ some h') × IsCounted m h'
unfolding drop_ref
drop_ref_lem none m h v = (h, refl, IsCounted-same _ m h v (λ j. omega arith))
drop_ref_lem (some k) m h v =
    let (h', run, v') = decref_at_lem (λ j. holds (some k) j + m j) h k v (held_once k m) in
    (h', run, IsCounted-same _ m h' v' (λ j. omega arith))

reconnect_lem :
    (connects : Bool) (chan : Option ℕ) (m : ℕ → ℕ) (h : Conns)
    → IsCounted (λ j. holds chan j + m j) h
    → (chan' : Option ℕ) × (h' : Conns) × (reconnect connects chan h ≡ some (chan', h'))
      × IsCounted (λ j. holds chan' j + m j) h'
unfolding reconnect
reconnect_lem connects none m h v =
    let r = connect_to_dst connects h in
    let v' = connect_to_dst_lem connects m h (IsCounted-same _ m h v (λ j. omega arith)) in
    (r.0, r.1, refl, IsCounted-same _ _ r.1 v' (λ j. omega arith))
reconnect_lem connects (some k) m h v =
    let (c, e, count, used) = present (λ j. holds (some k) j + m j) h k v (held_once k m) in
    elim (Bool-cases c.dead) [
      | inr alive ↦ (some k, h, rw (reconnect, e, alive), v)
      | inl dead ↦
          (let (h1, run, v1) = drop_ref_lem (some k) m h v in
            let r = connect_to_dst connects h1 in
            (
              r.0,
              r.1,
              rw (reconnect, e, dead, run),
              IsCounted-same _ _ r.1 (connect_to_dst_lem connects m h1 v1) (λ j. omega arith),
            ))
    ]

take_ref_lem :
    (ch chan : Option ℕ) (others : ℕ → ℕ) (h : Conns)
    → IsCounted (λ j. holds chan j + (holds ch j + others j)) h
    → (ch' : Option ℕ) × (h' : Conns) × (take_ref ch chan h ≡ some (ch', h'))
      × IsCounted (λ j. holds chan j + (holds ch' j + others j)) h'
      × (ch' ≡ elim chan [ none ↦ ch | some k ↦ some k ])
unfolding take_ref
take_ref_lem ch none others h v = (ch, h, refl, v, refl)
take_ref_lem ch (some k) others h v =
    let m : ℕ → ℕ = λ j. holds (some k) j + others j in
    let (h1, run1, v1) = drop_ref_lem ch m h (IsCounted-same _ _ h v (λ j. omega arith)) in
    let (h2, run2, v2) = incref_at_lem m h1 k v1 (held_once k others) in
    (some k, h2, rw (take_ref, run1, run2), IsCounted-same _ _ h2 v2 (λ j. omega arith), refl)

-- `get_refconn`, where every connection counts the references of the client, of the caller's variable
-- and of others, and none has a pdu half written, calls no connection that is gone and fails no assertion; every connection counts
-- its references afterwards, and the variable then holds the client's connection where there is one.
pub get_refconn_lem :
    (connects : Bool) (ch chan : Option ℕ) (others : ℕ → ℕ) (h : Conns)
    → IsCounted (λ j. holds chan j + (holds ch j + others j)) h
    → (ch' : Option ℕ) × (chan' : Option ℕ) × (h' : Conns) × (get_refconn connects ch chan h
        ≡ some (ch', chan', h'))
      × IsCounted (λ j. holds chan' j + (holds ch' j + others j)) h'
      × (ch' ≡ elim chan' [ none ↦ ch | some k ↦ some k ])
unfolding get_refconn
get_refconn_lem connects ch chan others h v =
    let (chan', h1, run1, v1) = reconnect_lem connects chan (λ j. holds ch j + others j) h v in
    let (ch', h2, run2, v2, e) = take_ref_lem ch chan' others h1 v1 in
    (ch', chan', h2, rw (get_refconn, run1, run2), v2, e)

pub closeconn-refno :
    (c : Connection)
    → ((Connection.closeconn c).refno ≡ c.refno) × ((Connection.closeconn c).dead ≡ true)
unfolding Connection.closeconn
closeconn-refno c = ground arith

pub closeconn_at_lem :
    (n : ℕ → ℕ) (k : ℕ) (h : Conns)
    → IsCounted n h
    → 0 < n k
    → (c : Connection) × (closeconn_at k h ≡ some (set_at k (some (Connection.closeconn c)) h))
      × (h.at k ≡ some c)
      × IsCounted n (set_at k (some (Connection.closeconn c)) h)
unfolding closeconn_at
closeconn_at_lem n k h v pos =
    let (c, at, count, used) = present n h k v pos in
    (
      c,
      rw (closeconn_at, at),
      at,
      set_at-IsCounted n n h k (some (Connection.closeconn c)) v used
          ((closeconn-refno c).0 ∙ count) (λ j d. refl)
          (closeconn_written c ∙ rw at at (v.whole k)),
    )

-- The destructor of a client that waits for no call closes its connection and gives its reference back:
-- the connection is there, and every connection then counts the references of the others.
pub destroy_lem :
    (chan : Option ℕ) (others : ℕ → ℕ) (h : Conns)
    → IsCounted (λ j. holds chan j + others j) h
    → (h' : Conns) × (destroy 0 chan h ≡ some h') × IsCounted others h'
unfolding destroy
destroy_lem none others h v = (h, refl, IsCounted-same _ others h v (λ j. omega arith))
destroy_lem (some k) others h v =
    let n : ℕ → ℕ = λ j. holds (some k) j + others j in
    let (c, run1, at, v1) = closeconn_at_lem n k h v (held_once k others) in
    let h1 = set_at k (some (Connection.closeconn c)) h in
    let (h2, run2, v2) = decref_at_lem n h1 k v1 (held_once k others) in
    (h2, rw (destroy, run1, run2), IsCounted-same _ others h2 v2 (λ j. omega arith))
