-- ===== src/Listener/Destructor.antt =====
-- The destructor of `tcpsconn` of lab/rpc/connection.cc.
use ds14_project.Base.{
  refl, ◌-◌, none, if_false, ◌∙◌, ap, if_true, ne→==, eq→==, sym, ◌≢◌, ◌∷◌, inl, inr, inl, arith,
  true, [], List, ◌⊎◌, some, ℕ, ◌+◌, ◌<◌, ◌≡◌,
}
use ds14_project.Connection
use ds14_project.Connection.{Connection}
use ds14_project.RpcClient.Refconn.{Conns, set_at, decref_at}
use ds14_project.RpcClient.Refconn.Counted.{
  closeconn_at_lem, closeconn-refno, refs_of, IsCounted, IsCounted-same, decref_at_lem,
}
use ds14_project.Listener.{Listener, close_all, destroy}
use ds14_project.Listener.Lifetime.{table_refs, Steps, empty, served}
use ds14_project.Listener.Calls.{decref_at_parts, at_set_at, some_inj}

-- A connection that is there is in the table, or dead with a reference of another.
abbrev pub IsKept : (table : List (ℕ × ℕ)) → (others : ℕ → ℕ) → Conns → Type 0
IsKept table others h =
    (j : ℕ) (c : Connection)
    → h.at j ≡ some c
    → (0 < table_refs table j) ⊎ ((c.dead ≡ true) × (0 < others j))

-- Another connection than the one that is closed.
IsKept-other :
    (fd k j : ℕ) (rest : List (ℕ × ℕ)) (others : ℕ → ℕ) (h : Conns) (c d : Connection)
    → IsKept ((fd, k) ∷ rest) others h
    → j ≢ k
    → (set_at k (some (Connection.closeconn c)) h).at j ≡ some d
    → (0 < table_refs rest j) ⊎ ((d.dead ≡ true) × (0 < others j))
IsKept-other fd k j rest others h c d kept other at =
    let away = ne→== j k other in
    elim (kept j d (sym (if_false _ _ away) ∙ at)) [
      | inl listed ↦ inl (ground (arith, listed, away))
      | inr shared ↦ inr shared
    ]

some_one : (a b n : ℕ) → n ≡ a + b → 0 < n → (0 < a) ⊎ (0 < b)
some_one a b n e pos = ground (arith, e, pos)

IsKept-closed :
    (fd k : ℕ) (rest : List (ℕ × ℕ)) (others : ℕ → ℕ) (h h2 : Conns) (c : Connection)
    → IsKept ((fd, k) ∷ rest) others h
    → IsCounted (λ j. table_refs rest j + others j) h2
    → decref_at k (set_at k (some (Connection.closeconn c)) h) ≡ some h2
    → IsKept rest others h2
IsKept-closed fd k rest others h h2 c kept counted e j d at =
    let h1 = set_at k (some (Connection.closeconn c)) h in
    let (c1, at1, change) = decref_at_parts k h1 h2 e in
    let closed : some (Connection.closeconn c) ≡ some c1 =
      sym (if_true _ _ (eq→== k k refl)) ∙ at1 in
    let dead : c1.dead ≡ true = rw (← some_inj closed) ((closeconn-refno c).1) in
    elim change [
      | inl gone ↦ elim (at_set_at k j none h1 d (rw gone at at)) [
        | inl (same, x) ↦ cc x
        | inr (other, x) ↦ IsKept-other fd k j rest others h c d kept other x
      ]
      | inr (less, more) ↦
          (let c2 : Connection = record c1 { refno = c1.refno - 1 } in
            elim (at_set_at k j (some c2) h1 d (rw less at at)) [
              | inl (same, x) ↦
                  (let y : c2 ≡ d = some_inj x in
                    let n = sym (ap refs_of at) ∙ counted.counts j in
                    let z : d.refno ≡ c1.refno - 1 = sym (ap (λ (a : Connection). a.refno) y) in
                    elim (some_one (table_refs rest j) (others j) d.refno n
                      (omega (arith, z, more dead))) [
                        | inl listed ↦ inl listed
                        | inr shared ↦ inr (rw (← y) dead, shared)
                      ])
              | inr (other, x) ↦ IsKept-other fd k j rest others h c d kept other x
            ])
    ]

-- What the destructor leaves of a table: each connection that is left is dead and counts the
-- references that others still hold.
close_all_lem :
    (table : List (ℕ × ℕ)) (others : ℕ → ℕ) (h : Conns)
    → IsCounted (λ j. table_refs table j + others j) h
    → IsKept table others h
    → (h' : Conns) × (close_all table h ≡ some h') × IsCounted others h' × IsKept [] others h'
unfolding close_all
close_all_lem [] others h v kept = (h, refl, IsCounted-same _ _ h v (λ j. omega arith), kept)
close_all_lem ((fd, k) ∷ rest) others h v kept =
    let n : ℕ → ℕ = λ j. table_refs ((fd, k) ∷ rest) j + others j in
    let pos : 0 < n k = rw (eq→== k k refl) (omega arith) in
    let (c, run1, at, v1) = closeconn_at_lem n k h v pos in
    let h1 = set_at k (some (Connection.closeconn c)) h in
    let (h2, run2, v2) = decref_at_lem n h1 k v1 pos in
    let counted : IsCounted (λ j. table_refs rest j + others j) h2 =
      IsCounted-same _ _ h2 v2 (λ j. omega arith) in
    let kept2 = IsKept-closed fd k rest others h h2 c kept counted run2 in
    let (h', run, v', kept') = close_all_lem rest others h2 counted kept2 in
    (h', rw (close_all, run1, run2, run), v', kept')

-- However connections are accepted on descriptors that the table does not have, closed, and shared
-- with others that give their references back or not, from an empty table on, as long as no call of
-- process_accept meets a dead connection with one reference, which it would erase: the destructor of
-- the tcpsconn, where the `close` of its pipe and its `pthread_join` succeed, calls no connection that
-- is gone and fails no assertion of a decref, and every connection that is left behind it is dead and
-- counts the references that others still hold, of which there is at least one.
pub close_all-frees :
    {l : Listener} {n : ℕ → ℕ}
    → Steps empty (λ j. 0) l n
    → (h : Conns) × (destroy true true l ≡ some h)
      × ((j : ℕ) (c : Connection) → h.at j ≡ some c → (c.dead ≡ true) × (c.refno ≡ n j) × (0 < n j))
unfolding destroy
close_all-frees {l} {n} ss =
    let v = served ss in
    let (h, run, counted, kept) =
      close_all_lem l.table n l.conns v.counted (λ j c at. inl (v.listed j c at)) in
    (
      h,
      run,
      λ j c at. elim (kept j c at) [
        | inl none_left ↦ absurd (omega (arith, none_left))
        | inr (dead, held) ↦ (dead, sym (ap refs_of at) ∙ counted.counts j, held)
      ],
    )
