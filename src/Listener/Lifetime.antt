-- ===== src/Listener/Lifetime.antt =====
-- How long the connections of `tcpsconn` of lab/rpc/connection.cc live.
use ds14_project.Base.{
  erase, ℕ, ◌+◌, ◌-◌, ◌<◌, ◌≡◌, ◌∙◌, sym, refl, true, List, [], ◌∷◌, Option, some, none, ◌==◌,
  arith, Bool-cases, inl, inr, ==_iff, if_false, insert, lookup,
}
use ds14_project.Connection
use ds14_project.Connection.{Connection}
use ds14_project.RpcClient.Refconn.{
  closeconn_at, Conns, set_at, incref_at, decref_at, connect_to_dst,
}
use ds14_project.RpcClient.Refconn.Counted.{
  closeconn_at_lem, holds, IsCounted, IsCounted-same, decref_at_lem, incref_at_lem,
  connect_to_dst_lem,
}
use ds14_project.Listener.Calls.{
  closeconn_at_parts, incref_at_parts, decref_at_parts, at_set_at, some_inj,
}
use ds14_project.Listener.{
  erase_dead, Listener, Loop, Round, Collected, collect_dead, process_accept, accept_round,
}

-- The references that the table holds.
abbrev pub table_refs : List (ℕ × ℕ) → ℕ → ℕ
table_refs [] j = 0
table_refs ((fd, k) ∷ rest) j = holds (some k) j + table_refs rest j

-- Every connection counts the references of the table and of the others, and the table holds all.
pub record IsServing (l : Listener) (others : ℕ → ℕ) : Type 0 where
  pub counted : IsCounted (λ j. table_refs l.table j + others j) l.conns
  pub listed : (j : ℕ) (c : Connection) → l.conns.at j ≡ some c → 0 < table_refs l.table j

table_refs-insert :
    (fd k j : ℕ) (table : List (ℕ × ℕ))
    → lookup fd table ≡ none
    → table_refs (insert fd k table) j ≡ table_refs table j + holds (some k) j
unfolding insert lookup
table_refs-insert fd k j [] e = omega arith
table_refs-insert fd k j ((key, v) ∷ rest) e = elim (Bool-cases (key == fd)) [
  | inl same ↦ absurd (ground (arith, e, same))
  | inr other ↦ rw other (omega (arith, table_refs-insert fd k j rest (ground (arith, e, other))))
]

-- What the threads do: the table takes in a connection on a descriptor that it does not have, a
-- connection is closed, or another thread takes or gives back a reference.
pub data Step : Listener → (ℕ → ℕ) → Listener → (ℕ → ℕ) → Type 0 where
  rounds :
      (r : Round) {l l' : Listener} {others : ℕ → ℕ}
      → ((fd : ℕ) → r ≡ Round.tcp_ready (some fd) → lookup fd l.table ≡ none)
      → accept_round r l ≡ Loop.waiting l'
      → Step l others l' others
  closes :
      (k : ℕ) {l : Listener} {h : Conns} {others : ℕ → ℕ}
      → closeconn_at k l.conns ≡ some h
      → Step l others (record l { conns = h }) others
  shares :
      (k : ℕ) {l : Listener} {h : Conns} {others : ℕ → ℕ}
      → incref_at k l.conns ≡ some h
      → Step l others (record l { conns = h }) (λ j. others j + holds (some k) j)
  returns :
      (k : ℕ) {l : Listener} {h : Conns} {others : ℕ → ℕ}
      → 0 < others k
      → decref_at k l.conns ≡ some h
      → Step l others (record l { conns = h }) (λ j. others j - holds (some k) j)

listed_new :
    (fd : ℕ) (l : Listener) (others : ℕ → ℕ) (j : ℕ) (c : Connection)
    → IsServing l others
    → lookup fd l.table ≡ none
    → (connect_to_dst true l.conns).1.at j ≡ some c
    → 0 < table_refs (insert fd l.conns.fresh l.table) j
unfolding connect_to_dst
listed_new fd l others j c v new at =
    let e = table_refs-insert fd l.conns.fresh j l.table new in
    elim (Bool-cases (j == l.conns.fresh)) [
      | inl same ↦ ground (arith, e, same)
      | inr other ↦
          (let there : l.conns.at j ≡ some c = sym (if_false _ _ other) ∙ at in
            omega (arith, e, v.listed j c there))
    ]

fresh_handle : (h : Conns) → (connect_to_dst true h).0 ≡ some h.fresh
unfolding connect_to_dst
fresh_handle h = refl

waiting_inj : {a b : Listener} → Loop.waiting a ≡ Loop.waiting b → a ≡ b
waiting_inj e = cc e

-- The loop that goes through the whole table changes no connection.
collect_dead-all_kept :
    (table : List (ℕ × ℕ)) (h h' : Conns) → collect_dead table h ≡ Collected.all_kept h' → h ≡ h'
unfolding collect_dead erase_dead
collect_dead-all_kept [] h h' e = cc e
collect_dead-all_kept ((fd, k) ∷ rest) h h' e = ground (arith, collect_dead-all_kept rest h h', e)

-- What the loop comes to, as `process_accept` uses it.
abbrev accepted_by : (fd : ℕ) → Listener → Collected → Loop
accepted_by s1 l c = elim c [
  | Collected.all_kept h ↦
      Loop.waiting (record { table = insert s1 l.conns.fresh l.table; conns = h })
  | Collected.erased fd h ↦ Loop.undefined (record { table = erase fd l.table; conns = h })
  | Collected.calls_gone ↦ Loop.gone
]

kept_by :
    (fd : ℕ) (l l' : Listener) (c : Collected)
    → collect_dead l.table (connect_to_dst true l.conns).1 ≡ c
    → accepted_by fd l c ≡ Loop.waiting l'
    → record { table = insert fd l.conns.fresh l.table; conns = (connect_to_dst true l.conns).1 }
      ≡ l'
kept_by fd l l' (Collected.all_kept h) e w =
    rw (collect_dead-all_kept l.table _ h e) (waiting_inj w)
kept_by fd l l' (Collected.erased x h) e w = cc w
kept_by fd l l' Collected.calls_gone e w = cc w

process_accept-kept :
    (fd : ℕ) (l l' : Listener)
    → process_accept (some fd) l ≡ Loop.waiting l'
    → record { table = insert fd l.conns.fresh l.table; conns = (connect_to_dst true l.conns).1 }
      ≡ l'
unfolding process_accept
process_accept-kept fd l l' e =
    kept_by fd l l' (collect_dead l.table (connect_to_dst true l.conns).1) refl e

process_accept-IsServing :
    (fd : ℕ) (l l' : Listener) (others : ℕ → ℕ)
    → lookup fd l.table ≡ none
    → process_accept (some fd) l ≡ Loop.waiting l'
    → IsServing l others
    → IsServing l' others
process_accept-IsServing fd l l' others new e v =
    let h = (connect_to_dst true l.conns).1 in
    let n : Listener = record { table = insert fd l.conns.fresh l.table; conns = h } in
    let served : IsServing n others = record {
      counted =
          IsCounted-same _ _ h
            (connect_to_dst_lem true (λ j. table_refs l.table j + others j) l.conns v.counted)
            (λ j.
              rw (fresh_handle l.conns)
                (omega (arith, table_refs-insert fd l.conns.fresh j l.table new)));
      listed = λ j c at. listed_new fd l others j c v new at;
    } in
    rw (← process_accept-kept fd l l' e) served

-- A connection that is there after a change at `k`, to one that was there, was there before.
was_listed :
    (k j : ℕ) (o : Option Connection) (h : Conns) (c d : Connection) (table : List (ℕ × ℕ))
    → ((i : ℕ) (a : Connection) → h.at i ≡ some a → 0 < table_refs table i)
    → h.at k ≡ some d
    → (set_at k o h).at j ≡ some c
    → 0 < table_refs table j
was_listed k j o h c d table listed there at = elim (at_set_at k j o h c at) [
  | inl (same, e) ↦ rw same (listed k d there)
  | inr (other, e) ↦ listed j c e
]

take_back :
    (n : ℕ → ℕ) (k j t : ℕ) → 0 < n k → t + n j - holds (some k) j ≡ t + (n j - holds (some k) j)
take_back n k j t held = elim (Bool-cases (j == k)) [
  | inl same ↦ rw (same, (==_iff j k).0 same) (omega (arith, held))
  | inr other ↦ rw other (omega arith)
]

accept_round-IsServing :
    (r : Round) (l l' : Listener) (n : ℕ → ℕ)
    → ((fd : ℕ) → r ≡ Round.tcp_ready (some fd) → lookup fd l.table ≡ none)
    → accept_round r l ≡ Loop.waiting l'
    → IsServing l n
    → IsServing l' n
unfolding accept_round process_accept
accept_round-IsServing Round.interrupted l l' n new e v = rw (← waiting_inj e) v
accept_round-IsServing Round.select_failed l l' n new e v = cc e
accept_round-IsServing Round.pipe_ready l l' n new e v = cc e
accept_round-IsServing Round.none_ready l l' n new e v = cc e
accept_round-IsServing (Round.tcp_ready none) l l' n new e v = cc e
accept_round-IsServing (Round.tcp_ready (some fd)) l l' n new e v =
    process_accept-IsServing fd l l' n (new fd refl) e v

-- Whatever the threads do, where `accept` gives a descriptor that the table does not have.
pub Step-IsServing :
    {l l' : Listener} {n n' : ℕ → ℕ} → Step l n l' n' → IsServing l n → IsServing l' n'
Step-IsServing {l} {l'} {n} (rounds r new e) v = accept_round-IsServing r l l' n new e v
Step-IsServing {l} {l'} {n} (closes k {h = h'} e) v =
    let (c, at, same) = closeconn_at_parts k l.conns h' e in
    let pos = v.listed k c at in
    let (d, run, there, counted) =
      closeconn_at_lem (λ j. table_refs l.table j + n j) k l.conns v.counted (omega (arith, pos)) in
    let f : some (set_at k (some (Connection.closeconn d)) l.conns) ≡ some h' = sym run ∙ e in
    record {
      counted = rw (← some_inj f) counted;
      listed = λ j a x. was_listed k j _ l.conns a c l.table v.listed at (rw same at x);
    }
Step-IsServing {l} {l'} {n} (shares k {h = h'} e) v =
    let (c, at, same) = incref_at_parts k l.conns h' e in
    let pos = v.listed k c at in
    let (h2, run, counted) =
      incref_at_lem (λ j. table_refs l.table j + n j) l.conns k v.counted (omega (arith, pos)) in
    let f : some h2 ≡ some h' = sym run ∙ e in
    let more : IsCounted (λ j. table_refs l.table j + n j + holds (some k) j) h' =
      rw (← some_inj f) counted in
    record {
      counted = IsCounted-same _ _ h' more (λ j. omega arith);
      listed = λ j a x. was_listed k j _ l.conns a c l.table v.listed at (rw same at x);
    }
Step-IsServing {l} {l'} {n} (returns k {h = h'} held e) v =
    let (c, at, change) = decref_at_parts k l.conns h' e in
    let (h2, run, counted) =
      decref_at_lem (λ j. table_refs l.table j + n j) l.conns k v.counted (omega (arith, held)) in
    let f : some h2 ≡ some h' = sym run ∙ e in
    let left : IsCounted (λ j. table_refs l.table j + n j - holds (some k) j) h' =
      rw (← some_inj f) counted in
    record {
      counted = IsCounted-same _ _ h' left (λ j. take_back n k j (table_refs l.table j) held);
      listed = λ j a x. elim change [
        | inl gone ↦ was_listed k j _ l.conns a c l.table v.listed at (rw gone at x)
        | inr (less, more) ↦ was_listed k j _ l.conns a c l.table v.listed at (rw less at x)
      ];
    }

-- Any number of steps.
pub data Steps : Listener → (ℕ → ℕ) → Listener → (ℕ → ℕ) → Type 0 where
  done : {l : Listener} {n : ℕ → ℕ} → Steps l n l n
  then :
      {l l' l'' : Listener} {n n' n'' : ℕ → ℕ}
      → Step l n l' n'
      → Steps l' n' l'' n''
      → Steps l n l'' n''

Steps-IsServing :
    {l l' : Listener} {n n' : ℕ → ℕ} → Steps l n l' n' → IsServing l n → IsServing l' n'
Steps-IsServing done v = v
Steps-IsServing (then s ss) v = Steps-IsServing ss (Step-IsServing s v)

abbrev pub empty : Listener
empty = record { table = []; conns = record { at = λ j. none; fresh = 0 } }

pub served : {l : Listener} {n : ℕ → ℕ} → Steps empty (λ j. 0) l n → IsServing l n
served ss = Steps-IsServing ss (record {
  counted = record { counts = λ j. refl; unused = λ j h. refl; whole = λ j. refl };
  listed = λ j c e. cc e;
})
