-- ===== src/Listener.antt =====
-- `tcpsconn` of lab/rpc/connection.cc: the thread that accepts the connections of a server, and its
-- table of them. What `select` and `accept` answer is an argument.
pub mod Calls
pub mod Lifetime
pub mod Destructor
use ds14_project.Base.{
  ℕ, ◌≡◌, Bool, true, false, ◌&&◌, List, [], ◌∷◌, ◌==◌, if◌then◌else◌, Option, some, none, insert,
  erase, not,
}
use ds14_project.Connection
use ds14_project.Connection.{Connection}
use ds14_project.RpcClient.Refconn.{closeconn_at, Conns, set_at, decref_at, connect_to_dst}

-- `conns_`, from descriptors to connections, and the connections.
pub record Listener : Type 0 where
  pub table : List (ℕ × ℕ)
  pub conns : Conns

-- The loop of `process_accept` over the table: it goes through the whole of it, it erases the element
-- of its iterator and then increments the iterator, which is undefined, or it calls a connection that
-- is gone.
pub data Collected : Type 0 where
  all_kept : Conns → Collected
  erased : (fd : ℕ) → Conns → Collected
  calls_gone : Collected

-- The body behind `isdead()` and `ref()`: decref and erase.
unfoldable pub erase_dead : (fd k : ℕ) → Conns → Collected
erase_dead fd k h = elim (decref_at k h) [
  | none ↦ Collected.calls_gone
  | some h' ↦ Collected.erased fd h'
]

unfoldable pub collect_dead : List (ℕ × ℕ) → Conns → Collected
collect_dead [] h = Collected.all_kept h
collect_dead ((fd, k) ∷ rest) h =
    let others = collect_dead rest h in
    elim (h.at k) [
      | none ↦ Collected.calls_gone
      | some c ↦ if c.dead && c.refno == 1 then erase_dead fd k h else others
    ]

pub data Loop : Type 0 where
  waiting : Listener → Loop
  stopped : Listener → Loop
  exited : Loop
  asserted : Loop
  undefined : Listener → Loop
  gone : Loop

-- `process_accept` with the descriptor that `accept` gives, or its failure. What it does behind the
-- increment of an erased iterator is not modelled: `undefined` has the table without the element.
unfoldable pub process_accept : Option ℕ → Listener → Loop
process_accept none l = Loop.exited
process_accept (some s1) l = elim (collect_dead l.table (connect_to_dst true l.conns).1) [
  | Collected.all_kept h ↦
      Loop.waiting (record { table = insert s1 l.conns.fresh l.table; conns = h })
  | Collected.erased fd h ↦ Loop.undefined (record { table = erase fd l.table; conns = h })
  | Collected.calls_gone ↦ Loop.gone
]

-- A round of `accept_conn`: what `select` answers, and `accept` where it is called.
pub data Round : Type 0 where
  interrupted : Round
  select_failed : Round
  pipe_ready : Round
  tcp_ready : Option ℕ → Round
  none_ready : Round

unfoldable pub accept_round : Round → Listener → Loop
accept_round Round.interrupted l = Loop.waiting l
accept_round Round.select_failed l = Loop.asserted
accept_round Round.pipe_ready l = Loop.stopped l
accept_round (Round.tcp_ready s) l = process_accept s l
accept_round Round.none_ready l = Loop.asserted

unfoldable pub accept_conn : List Round → Listener → Loop
accept_conn [] l = Loop.waiting l
accept_conn (r ∷ rs) l = elim (accept_round r l) [
  | Loop.waiting l' ↦ accept_conn rs l'
  | ended ↦ ended
]

-- The loop of `~tcpsconn`, behind the end of the thread; `none` is a call on a connection that is gone.
unfoldable pub close_all : List (ℕ × ℕ) → Conns → Option Conns
close_all [] h = some h
close_all ((fd, k) ∷ rest) h = elim (closeconn_at k h) [
  | none ↦ none
  | some h1 ↦ (elim (decref_at k h1) [ none ↦ none | some h2 ↦ close_all rest h2 ])
]

-- `~tcpsconn`, by whether the `close` of the pipe and the `pthread_join` succeed; `none` is a failed
-- assertion or a call on a connection that is gone.
unfoldable pub destroy : (closed joined : Bool) → Listener → Option Conns
destroy closed joined l = if closed && joined then close_all l.table l.conns else none
