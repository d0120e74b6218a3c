-- ===== src/RpcClient/Refconn.antt =====
-- `get_refconn` of lab/rpc/rpc.cc: the connection of a client, with the references to it. Connections are
-- numbered, and one that is freed is gone.
pub mod Counted
use ds14_project.Base.{ℕ, ◌+◌, Bool, true, false, Option, some, none, ◌==◌, if◌then◌else◌}
use ds14_project.Connection
use ds14_project.Connection.{Connection, Kept, kept, deleted}

pub record Conns : Type 0 where
  pub at : ℕ → Option Connection
  pub fresh : ℕ

abbrev pub set_at : ℕ → Option Connection → Conns → Conns
set_at k c h = record h { at = λ j. if j == k then c else h.at j }

-- `none` is a call on a connection that is gone, or a failed assertion.
unfoldable pub incref_at : ℕ → Conns → Option Conns
incref_at k h = elim (h.at k) [
  | none ↦ none
  | some c ↦ some (set_at k (some (Connection.incref c)) h)
]

unfoldable pub decref_at : ℕ → Conns → Option Conns
decref_at k h = elim (h.at k) [
  | none ↦ none
  | some c ↦ (elim (Connection.decref c) [
    | none ↦ none
    | some deleted ↦ some (set_at k none h)
    | some (kept c') ↦ some (set_at k (some c') h)
  ])
]

unfoldable pub closeconn_at : ℕ → Conns → Option Conns
closeconn_at k h = elim (h.at k) [
  | none ↦ none
  | some c ↦ some (set_at k (some (Connection.closeconn c)) h)
]

unfoldable pub drop_ref : Option ℕ → Conns → Option Conns
drop_ref none h = some h
drop_ref (some k) h = decref_at k h

-- `connect_to_dst`, with whether it succeeds.
unfoldable pub connect_to_dst : Bool → Conns → Option ℕ × Conns
connect_to_dst true h =
    (some h.fresh, record (set_at h.fresh (some Connection.init) h) { fresh = h.fresh + 1 })
connect_to_dst false h = (none, h)

-- The connection of the client, which is made again where it is dead.
unfoldable pub reconnect : (connects : Bool) → (chan : Option ℕ) → Conns → Option (Option ℕ × Conns)
reconnect connects none h = some (connect_to_dst connects h)
reconnect connects (some k) h = elim (h.at k) [
  | none ↦ none
  | some c ↦
      (if c.dead
        then elim (drop_ref (some k) h) [
          | none ↦ none
          | some h1 ↦ some (connect_to_dst connects h1)
        ]
        else some (some k, h))
]

-- The caller's reference, given back and taken again.
unfoldable pub take_ref : (ch chan : Option ℕ) → Conns → Option (Option ℕ × Conns)
take_ref ch none h = some (ch, h)
take_ref ch (some k) h = elim (drop_ref ch h) [
  | none ↦ none
  | some h1 ↦ (elim (incref_at k h1) [ none ↦ none | some h2 ↦ some (some k, h2) ])
]

-- `get_refconn` with what the caller's variable and `chan_` hold; it gives both back.
unfoldable pub get_refconn :
    (connects : Bool) → (ch chan : Option ℕ) → Conns → Option (Option ℕ × Option ℕ × Conns)
get_refconn connects ch chan h = elim (reconnect connects chan h) [
  | none ↦ none
  | some (chan', h1) ↦ (elim (take_ref ch chan' h1) [
    | none ↦ none
    | some (ch', h2) ↦ some (ch', chan', h2)
  ])
]

-- `~rpcc`, where `waiting` calls are still in `calls_`.
unfoldable pub destroy : (waiting : ℕ) → (chan : Option ℕ) → Conns → Option Conns
destroy waiting none h = if waiting == 0 then some h else none
destroy waiting (some k) h = elim (closeconn_at k h) [
  | none ↦ none
  | some h1 ↦ (elim (decref_at k h1) [
    | none ↦ none
    | some h2 ↦ if waiting == 0 then some h2 else none
  ])
]
