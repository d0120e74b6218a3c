-- ===== src/Examples/Wires.antt =====
-- Connections, their references and the poll manager at concrete inputs: a pdu of six bytes, which is written in two
-- parts and read in two.
use ds14_project.Base.{
  none, ◌==◌, ◌+◌, if◌then◌else◌, Bool-cases, inl, inr, Option, ℕ, ◌≡◌, ◌≢◌, refl, true, false,
  Bool, List, [], ◌∷◌, ◌++◌, take, drop, some, arith,
}
use ds14_project.Connection.{is_written, Connection, Wrote, no_pdu, send, returned}
use ds14_project.Connection.Reading.{Got, read_cbs}
use ds14_project.Connection.Writing.{Fits, frame}
use ds14_project.Connection.Sending.{send_lem}
use ds14_project.Connection.Receiving.{Arrives, size_answer}
use ds14_project.Connection.Wire.{send-read_cbs}
use ds14_project.PollMgr
use ds14_project.RpcClient.Refconn.{Conns, get_refconn}
use ds14_project.RpcClient.Refconn.Counted.{IsCounted, holds, get_refconn_lem}
use ds14_project.PollMgr.{PollMgr, init_aio, PollFlag, add_callback, watch_fd, watch_set}
use ds14_project.PollMgr.Registered.{init-IsRegistered, Step, IsRegistered, Step-IsRegistered}

abbrev idle : Connection
idle = record {
  dead = false;
  wpdu = no_pdu;
  rpdu = no_pdu;
  refno = 1;
  rd = true;
  wr = false;
  out = [];
}

abbrev pdu : List ℕ
pdu = 0 ∷ 0 ∷ 0 ∷ 0 ∷ 65 ∷ 66 ∷ []

abbrev later : List Wrote
later = Wrote.again ∷ Wrote.wrote 4 ∷ []

pdu-Fits : Fits 6 (Wrote.wrote 2 ∷ later)
pdu-Fits = (omega arith, (omega arith, tt))

send_lem_example :
    (c' : Connection) × (send (Wrote.wrote 2) later pdu 6 idle ≡ some (returned true, c'))
    × (c'.out ≡ [] ++ take 6 (frame 6 pdu))
    × (c'.dead ≡ false)
send_lem_example =
    send_lem idle 6 pdu (omega arith) (omega arith) (Wrote.wrote 2) later refl pdu-Fits

abbrev pieces : List (Got × Got × Bool)
pieces =
    (size_answer 6, Got.again, true)
    ∷ (Got.failed, Got.got 65 [], true)
    ∷ (Got.failed, Got.got 66 [], true)
    ∷ []

pieces-Arrives : Arrives 6 (drop 4 pdu) pieces
unfolding drop
pieces-Arrives = (refl, (omega arith, (66 ∷ [], refl, refl, ([], refl, refl, refl))))

send-read_cbs_example :
    (c' : Connection) × (send (Wrote.wrote 2) later pdu 6 idle ≡ some (returned true, c'))
    × (c'.out ≡ [] ++ frame 6 pdu)
    × (read_cbs pieces idle ≡ some (idle, (frame 6 pdu, 6) ∷ []))
send-read_cbs_example =
    send-read_cbs idle idle pdu (Wrote.wrote 2) later pieces refl refl refl (omega arith)
      (omega arith) pdu-Fits refl pieces-Arrives

-- The poll manager with connection 1 at descriptor 7, and its pipe at 3.
adds_seven : (m' : PollMgr) × (add_callback true 7 PollFlag.cb_rdonly 1 (PollMgr.init 3) ≡ some m')
unfolding add_callback watch_fd
adds_seven = (_, refl)

pipe_away : 7 ≢ (PollMgr.init 3).aio.pipefd
unfolding init_aio
pipe_away e = omega (arith, e)

Step-IsRegistered_example : IsRegistered adds_seven.0
Step-IsRegistered_example =
    Step-IsRegistered (Step.adds true 7 PollFlag.cb_rdonly 1 pipe_away adds_seven.1)
      (init-IsRegistered 3)

-- A client whose connection 0 is dead and held by a caller too.
abbrev heap : Conns
heap = record {
  at = λ j. if j == 0 then some (record idle { dead = true; refno = 2 }) else none;
  fresh = 1;
}

heap-IsCounted : IsCounted (λ j. holds (some 0) j + (holds (some 0) j + 0)) heap
unfolding is_written
heap-IsCounted = record {
  counts = λ j. elim (Bool-cases (j == 0)) [ inl e ↦ rw e refl | inr e ↦ rw e refl ];
  unused = λ j le. (let away : (j == 0) ≡ false = ground (arith, le) in rw away);
  whole = λ j. elim (Bool-cases (j == 0)) [ inl e ↦ rw e refl | inr e ↦ rw e refl ];
}

get_refconn_lem_example :
    (ch' : Option ℕ) × (chan' : Option ℕ) × (h' : Conns) × (get_refconn true (some 0) (some 0) heap
      ≡ some (ch', chan', h'))
    × IsCounted (λ j. holds chan' j + (holds ch' j + 0)) h'
    × (ch' ≡ elim chan' [ none ↦ some 0 | some k ↦ some k ])
get_refconn_lem_example = get_refconn_lem true (some 0) (some 0) (λ j. 0) heap heap-IsCounted
