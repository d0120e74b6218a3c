-- ===== src/Connection.antt =====
-- lab/rpc/connection.h and lab/rpc/connection.cc: a connection's reference count, its pdus on their
-- way, and what it asks of the poll manager. What `read`, `write` and the channel manager answer
-- are arguments. Threads that wait for their turn to send are not modelled, and the shutdown of a
-- lossy connection shows in the later answers of `read` and `write`.
pub mod Reading
pub mod Writing
pub mod Sending
pub mod Receiving
pub mod Wire
use ds14_project.Base.{
  ℕ, ◌+◌, ◌-◌, ◌*◌, ◌/◌, ◌%◌, ◌^◌, Bool, true, false, not, ◌&&◌, ◌||◌, List, [], ◌∷◌, ◌++◌, length,
  take, drop, ltb, ◌==◌, if◌then◌else◌, Option, some, none,
}
use ds14_project.RpcConst.{is_negative}

-- `MAX_PDU`
abbrev pub max_pdu : ℕ
max_pdu = 10 * 2 ^ 20

-- `charbuf`, with the bytes that the program has stored behind the pointer.
pub record CharBuf : Type 0 where
  pub buf : Option (List ℕ)
  pub sz : ℕ
  pub solong : ℕ

abbrev pub no_pdu : CharBuf
no_pdu = record { buf = none; sz = 0; solong = 0 }

-- `rd` and `wr` are the callbacks that the poll manager has, and `out` what the kernel took.
pub record Connection : Type 0 where
  pub dead : Bool
  pub wpdu : CharBuf
  pub rpdu : CharBuf
  pub refno : ℕ
  pub rd : Bool
  pub wr : Bool
  pub out : List ℕ

abbrev pub init : Connection
init = record {
  dead = false;
  wpdu = no_pdu;
  rpdu = no_pdu;
  refno = 1;
  rd = true;
  wr = false;
  out = [];
}

-- What `write` answers: that it took so many bytes, `EAGAIN`, or another error.
pub data Wrote : Type 0 where
  wrote : ℕ → Wrote
  again : Wrote
  failed : Wrote

pub data Kept : Type 0 where
  kept : Connection → Kept
  deleted : Kept

-- `htonl`, as the bytes in memory.
abbrev pub htonl : ℕ → List ℕ
htonl x = x / 2 ^ 24 % 256 ∷ x / 2 ^ 16 % 256 ∷ x / 2 ^ 8 % 256 ∷ x % 256 ∷ []

-- The callbacks are gone and the connection is dead.
abbrev pub die : Connection → Connection
die c = record c { dead = true; rd = false; wr = false }

unfoldable pub incref : Connection → Connection
incref c = record c { refno = c.refno + 1 }

-- `!wpdu_.buf`, which the destructor behind `delete this` asserts.
unfoldable pub is_written : Connection → Bool
is_written c = elim c.wpdu.buf [ none ↦ true | some b ↦ false ]

-- `none` is a failed assertion, of decref or of the destructor.
unfoldable pub decref : Connection → Option Kept
decref c =
    if c.refno == 0
    then none
    else (if c.refno == 1 && c.dead
        then (if is_written c then some deleted else none)
        else some (kept (record c { refno = c.refno - 1 })))

unfoldable pub closeconn : Connection → Connection
closeconn c = if c.dead then c else die c

-- One `write`, of the bytes that are left of the pdu: the result, what the kernel took, and the pdu.
unfoldable pub write_some : Wrote → List ℕ → CharBuf → Bool × List ℕ × CharBuf
write_some (Wrote.wrote n) b w =
    (true, take n (drop w.solong b), record w { buf = some b; solong = w.solong + n })
write_some Wrote.again b w = (true, [], record w { buf = some b })
write_some Wrote.failed b w = (false, [], record { buf = some b; sz = 0; solong = 2 ^ 32 - 1 })

-- `none` is the failed assertion, or a store behind the null pointer.
unfoldable pub writepdu : Wrote → CharBuf → Option (Bool × List ℕ × CharBuf)
writepdu r w =
    if is_negative w.solong
    then none
    else (if w.solong == w.sz then some (true, [], w) else elim w.buf [
      | none ↦ none
      | some b ↦ some (write_some r (if w.solong == 0 then htonl w.sz ++ drop 4 b else b) w)
    ])

-- The condition that `send` waits on.
abbrev pub send_waits : Connection → Bool
send_waits c = not c.dead && not (is_negative c.wpdu.solong) && ltb c.wpdu.solong c.wpdu.sz

-- `send` up to its wait for the rest of the pdu.
unfoldable pub send_begin : Wrote → List ℕ → ℕ → Connection → Option Connection
send_begin r b sz c = elim (writepdu r (record { buf = some b; sz = sz; solong = 0 })) [
  | none ↦ none
  | some (succ, bytes, w) ↦
      (let c' = record c { wpdu = w; out = c.out ++ bytes } in
        some (if succ then (if w.solong == w.sz then c' else record c' { wr = true }) else die c'))
]

unfoldable pub send_end : Connection → Bool × Connection
send_end c = (not c.dead && c.wpdu.solong == c.wpdu.sz, record c { wpdu = no_pdu })

-- A callback of the poll manager; `none` is a failed assertion.
unfoldable pub write_cb : Wrote → Connection → Option Connection
write_cb r c =
    if c.dead
    then none
    else (if c.wpdu.sz == 0 then some (record c { wr = false }) else elim (writepdu r c.wpdu) [
      | none ↦ none
      | some (succ, bytes, w) ↦
          (let c' = record c { wpdu = w; out = c.out ++ bytes } in
            some (if succ then c' else die c'))
    ])

-- The callbacks of a connection, for as long as the poll manager has it registered.
unfoldable pub write_cbs : List Wrote → Connection → Option Connection
write_cbs [] c = some c
write_cbs (r ∷ rs) c =
    if c.wr then elim (write_cb r c) [ none ↦ none | some c' ↦ write_cbs rs c' ] else some c

pub data Sent : Type 0 where
  returned : Bool → Sent
  blocked : Sent

-- How `send` stands: waiting, or done.
unfoldable pub outcome : Connection → Sent × Connection
outcome c =
    if send_waits c then (blocked, c) else (let (ret, c') = send_end c in (returned ret, c'))

-- `send` with the answers of `write`, first its own and then those to the callbacks while it waits.
unfoldable pub send : Wrote → List Wrote → List ℕ → ℕ → Connection → Option (Sent × Connection)
send r rs b sz c = if c.dead then some (returned false, c) else elim (send_begin r b sz c) [
  | none ↦ none
  | some c1 ↦ (elim (write_cbs rs c1) [ none ↦ none | some c2 ↦ some (outcome c2) ])
]
