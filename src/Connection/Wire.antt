-- ===== src/Connection/Wire.antt =====
-- Two connections of lab/rpc/connection.cc, the one's stream of bytes read by the other.
use ds14_project.Base.{
  ℕ, ◌+◌, ◌<◌, ◌≤◌, ◌≡◌, ◌∙◌, refl, List, [], ◌∷◌, ◌++◌, true, false, length, drop, take-length,
  length-drop, some, arith, eq→==, Bool,
}
use ds14_project.Connection.{Connection, Wrote, no_pdu, max_pdu, send, returned}
use ds14_project.Connection.Reading.{Got, read_cbs}
use ds14_project.Connection.Writing.{Fits, accepted, frame}
use ds14_project.Connection.Sending.{send_lem}
use ds14_project.Connection.Receiving.{Arrives, read_cbs_lem}

-- A pdu of more than four bytes and at most MAX_PDU that one live connection sends is what another,
-- live and idle, receives: under writes that take all of it, `send` returns true with the whole pdu in
-- the kernel, its size in the first four bytes; and that stream, cut in any way behind its size, gives
-- the channel manager, which refuses none, the pdu once and whole, and the connection is idle again.
pub send-read_cbs :
    (c d : Connection) (b : List ℕ) (r : Wrote) (rs : List Wrote) (es : List (Got × Got × Bool))
    → c.dead ≡ false
    → d.dead ≡ false
    → d.rpdu ≡ no_pdu
    → 4 < length b
    → length b ≤ max_pdu
    → Fits (length b) (r ∷ rs)
    → accepted (length b) (r ∷ rs) ≡ (length b, false)
    → Arrives (length b) (drop 4 b) es
    → (c' : Connection) × (send r rs b (length b) c ≡ some (returned true, c'))
      × (c'.out ≡ c.out ++ frame (length b) b)
      × (read_cbs es d ≡ some (d, (frame (length b) b, length b) ∷ []))
send-read_cbs c d b r rs es alive living idle more fits f all arrives =
    let (c', run, out, dead) =
      send_lem c (length b) b (omega (arith, more)) (omega (arith, fits)) r rs alive f in
    let body : length (drop 4 b) + 4 ≡ length b = length-drop 4 b (omega (arith, more)) in
    (
      c',
      run ∙ rw (all, eq→== (length b) (length b) refl),
      out ∙ rw (all, take-length (length b) (frame (length b) b) (omega (arith, body))),
      read_cbs_lem d (length b) (drop 4 b) es living idle more fits body arrives,
    )
