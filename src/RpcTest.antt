-- ===== src/RpcTest.antt =====
-- lab/rpc/rpctest.cc: the test of the marshalling, the handlers of the test server, and the calls that
-- the threads of the concurrent test make, on a network that delivers. What `random` gives is an
-- argument; a failed assertion is `none`.
pub mod Marshalled
pub mod Clients
use ds14_project.Deadline.{Timespec, diff_timespec}
use ds14_project.Base.{
  ℕ, zero, suc, ◌+◌, ◌%◌, ◌^◌, ◌≡◌, Bool, true, false, ◌&&◌, List, [], ◌∷◌, ◌++◌, ◌==◌, length,
  if◌then◌else◌, Option, some, none,
}
use ds14_project.Marshall.{
  Marshall, ReqHeader, marshall, unmarshall, put_int, put_ulonglong, put_string, pack_req_header,
  unpack_req_header, get_int, get_ulonglong, get_string, okdone, rpc_header_sz,
}
use ds14_project.Stub.{Item, Kind, Handler}
use ds14_project.RpcServer.{Server, reg1, rpcs}
use ds14_project.Session.{Network, Peers, rpc_call, uint_or}
use ds14_project.ExtentService.{string_or, ◌>>=◌}

-- `std::string(n, x)`
abbrev pub repeated : ℕ → ℕ → List ℕ
repeated zero x = []
repeated (suc n) x = x ∷ repeated n x

-- `srv`, whose methods use no state; the last clause of each is for arguments of other types, which
-- are not read. A length is not negative.
abbrev pub handle_22 : List Item → Unit {0} → ℕ × List Item × Unit {0}
handle_22 (Item.string a ∷ Item.string b ∷ []) s = (0, Item.string (a ++ b) ∷ [], s)
handle_22 xs s = (0, [], s)

abbrev pub handle_fast : List Item → Unit {0} → ℕ × List Item × Unit {0}
handle_fast (Item.uint a ∷ []) s = (0, Item.uint ((a + 1) % 2 ^ 32) ∷ [], s)
handle_fast xs s = (0, [], s)

abbrev pub handle_slow : List Item → Unit {0} → ℕ × List Item × Unit {0}
handle_slow (Item.uint a ∷ []) s = (0, Item.uint ((a + 2) % 2 ^ 32) ∷ [], s)
handle_slow xs s = (0, [], s)

abbrev pub handle_bigrep : List Item → Unit {0} → ℕ × List Item × Unit {0}
handle_bigrep (Item.uint len ∷ []) s = (0, Item.string (repeated len 120) ∷ [], s)
handle_bigrep xs s = (0, [], s)

abbrev pub concat_handler : Handler (Unit {0})
concat_handler = record { params = Kind.string ∷ Kind.string ∷ []; meth = handle_22 }

abbrev pub fast_handler : Handler (Unit {0})
fast_handler = record { params = Kind.uint ∷ []; meth = handle_fast }

abbrev pub slow_handler : Handler (Unit {0})
slow_handler = record { params = Kind.uint ∷ []; meth = handle_slow }

abbrev pub bigrep_handler : Handler (Unit {0})
bigrep_handler = record { params = Kind.uint ∷ []; meth = handle_bigrep }

unfoldable pub startserver : (random : ℕ) → Option (Server (Unit {0}))
startserver random = do
  s0 ← rpcs random 0 tt
  s1 ← reg1 22 concat_handler s0
  s2 ← reg1 23 fast_handler s1
  s3 ← reg1 24 slow_handler s2
  reg1 25 bigrep_handler s3

abbrev pub same_header : ReqHeader → ReqHeader → Bool
same_header g h =
    g.xid == h.xid
    && g.proc == h.proc
    && g.clt_nonce == h.clt_nonce
    && g.srv_nonce == h.srv_nonce
    && g.xid_rep == h.xid_rep

abbrev pub same_bytes : List ℕ → List ℕ → Bool
same_bytes [] [] = true
same_bytes (x ∷ xs) (y ∷ ys) = x == y && same_bytes xs ys
same_bytes xs ys = false

-- `testmarshall`, of any header, numbers and string; whether every assertion holds.
unfoldable pub testmarshall : (mem : ℕ → ℕ) → ReqHeader → (i l : ℕ) → List ℕ → Bool
testmarshall mem rh i l s =
    let m0 = pack_req_header rh (marshall mem) in
    let m = put_string s (put_ulonglong l (put_int i m0)) in
    let un = unmarshall m.buf m.ind in
    let (rh1, u0) = unpack_req_header un in
    let (i1, u1) = get_int u0 in
    let (l1, u2) = get_ulonglong u1 in
    let (s1, u3) = get_string u2 in
    (m0.ind == rpc_header_sz)
    && (m.ind == rpc_header_sz + 4 + 8 + length s + 4)
    && same_header rh rh1
    && okdone u3
    && (i1 == i)
    && (l1 == l)
    && same_bytes s1 s

-- A round of the second loop of `client1`: `which`, what `random` gives for the argument, and the
-- times that the clock shows before and behind the call.
abbrev pub Mixed : Type 0
Mixed = Bool × ℕ × Timespec × Timespec

module _ (w : Network) where
  -- The first loop of `client1`, over what `random` gives.
  unfoldable pub big_calls : List ℕ → Peers (Unit {0}) → Option (Peers (Unit {0}))
  big_calls [] p = some p
  big_calls (random ∷ more) p =
      let arg = random % 2000 in
      let (ret, r, p') = rpc_call w 25 (Item.uint arg ∷ []) (Kind.string ∷ []) p in
      let rest = big_calls more p' in
      if (ret == 0) && (length (string_or [] r) == arg) then rest else none

  -- The second loop, over what `random` and the clock give; `junk` is what the variable for the reply
  -- held. `none` is a failed assertion, that of diff_timespec too.
  unfoldable pub mixed_calls :
      (junk : ℕ) → List Mixed → Peers (Unit {0}) → Option (Peers (Unit {0}))
  mixed_calls junk [] p = some p
  mixed_calls junk ((which, random, start, end) ∷ more) p =
      let arg = random % 1000 in
      let (ret, r, p') =
        rpc_call w (if which then 23 else 24) (Item.uint arg ∷ []) (Kind.uint ∷ []) p in
      let rest = mixed_calls junk more p' in
      elim (diff_timespec end start) [
        | none ↦ none
        | some diff ↦
            if (ret == 0) && (uint_or junk r == (if which then arg + 1 else arg + 2))
            then rest
            else none
      ]

  unfoldable pub client1 :
      (junk : ℕ) → List ℕ → List Mixed → Peers (Unit {0}) → Option (Peers (Unit {0}))
  client1 junk big mixed p = big_calls big p >>= mixed_calls junk mixed
