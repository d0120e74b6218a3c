-- ===== src/RpcTest/Clients.antt =====
-- The calls of `client1` of lab/rpc/rpctest.cc on the server that `startserver` starts.
use ds14_project.Base.{
  Option-cases, All, ◌≤◌, ℕ, zero, suc, ◌+◌, ◌%◌, ◌^◌, ◌<◌, ◌≡◌, ◌≢◌, ◌∙◌, sym, ap, refl, true,
  false, List, [], ◌∷◌, length, some, lookup, insert, arith, inl, inr, append-nil, map, ◌==◌, eq→==,
}
use ds14_project.RpcConst
use ds14_project.RpcClient
use ds14_project.RpcClient.{Client}
use ds14_project.RpcServer.{Server, rpcbind_meth, reg1, rpcs}
use ds14_project.RpcServer.ReplyWindow.Entries.{find_reply}
use ds14_project.Deadline.{Timespec, diff_timespec}
use ds14_project.Session
use ds14_project.Session.{Network, Peers, rpc_call}
use ds14_project.Session.Linked.{IsLinked, rpc_call_lem}
use ds14_project.Stub.{Item, Kind, Handler, kind_of}
use ds14_project.Stub.Calls.{IsPayload}
use ds14_project.RpcTest.{
  startserver, concat_handler, fast_handler, slow_handler, bigrep_handler, repeated, big_calls,
  Mixed, mixed_calls, client1,
}

abbrev procs_of : (random : ℕ) → List (ℕ × Handler (Unit {0}))
procs_of random =
    (RpcConst.bind, record { params = Kind.uint ∷ []; meth = rpcbind_meth (random % 2 ^ 32) })
    ∷ (22, concat_handler)
    ∷ (23, fast_handler)
    ∷ (24, slow_handler)
    ∷ (25, bigrep_handler)
    ∷ []

-- A bound client of the test server, which has room for `n` more calls.
pub record IsTested (random n : ℕ) (p : Peers (Unit {0})) : Type 0 where
  pub client : Client
  pub server : Server (Unit {0})
  pub peers : p ≡ (client, some server)
  pub linked : IsLinked n client server
  pub bound : client.bind_done ≡ true
  pub instance_known : client.srv_nonce ≡ server.nonce
  pub procs : server.procs ≡ procs_of random

abbrev started : (random : ℕ) → Server (Unit {0})
started random = record {
  nonce = random % 2 ^ 32;
  procs = procs_of random;
  reply_window = [];
  conns = [];
  counting = 0;
  curr_counts = 0;
  counts = [];
  object = tt;
  refs = λ c. 0;
  sent = [];
}

startserver_lem : (random : ℕ) → startserver random ≡ some (started random)
unfolding startserver rpcs reg1 insert lookup
startserver_lem random = refl

-- A call of a procedure of the server.
IsTested-call :
    (w : Network) (random n proc : ℕ) (xs : List Item) (f : Handler (Unit {0}))
    (p : Peers (Unit {0}))
    → IsTested random (suc n) p
    → proc ≢ RpcConst.bind
    → proc < 2 ^ 32
    → lookup proc (procs_of random) ≡ some f
    → f.params ≡ map kind_of xs
    → IsPayload xs
    → IsPayload (f.meth xs tt).1
    → (f.meth xs tt).0 < 2 ^ 31
    → (p' : Peers (Unit {0})) × (rpc_call w proc xs (map kind_of (f.meth xs tt).1) p
        ≡ ((f.meth xs tt).0, (f.meth xs tt).1, p'))
      × IsTested random n p'
IsTested-call w random n proc xs f p t other fits known types args result small =
    let c = t.client in
    let s = t.server in
    let (c', s', run, linked, object, procs, same, b, i) =
      rpc_call_lem w n proc xs c s f t.linked (inl (t.bound, other, t.instance_known)) fits
        (ap (lookup proc) t.procs ∙ known) types args result small in
    (
      (c', some s'),
      rw t.peers run,
      record {
        client = c';
        server = s';
        peers = refl;
        linked = linked;
        bound = b ∙ t.bound;
        instance_known = i ∙ t.instance_known ∙ sym same;
        procs = procs ∙ t.procs;
      },
    )

length-repeated : (n x : ℕ) → length (repeated n x) ≡ n
length-repeated zero x = refl
length-repeated (suc n) x = ap suc (length-repeated n x)

IsTested-same :
    (random : ℕ) (p : Peers (Unit {0})) (m n : ℕ)
    → m ≡ n
    → IsTested random m p
    → IsTested random n p
IsTested-same random p m n e t = rw (← e) t

one_uint : (x : ℕ) → x < 2 ^ 32 → IsPayload (Item.uint x ∷ [])
one_uint x h = record { items = (h, tt); size = omega arith }

one_string : (s : List ℕ) → length s < 2 ^ 16 → IsPayload (Item.string s ∷ [])
one_string s h = record {
  items = (omega (arith, h), tt);
  size = omega (arith, h, ap length (append-nil s));
}

not_bind : (proc : ℕ) → 20 < proc → proc ≢ RpcConst.bind
not_bind proc h e = omega (arith, h, e)

big_calls_lem :
    (w : Network) (random n : ℕ) (more : List ℕ) (p : Peers (Unit {0}))
    → IsTested random (length more + n) p
    → (p' : Peers (Unit {0})) × (big_calls w more p ≡ some p') × IsTested random n p'
unfolding big_calls kind_of lookup
big_calls_lem w random n [] p t = (p, refl, IsTested-same random p (0 + n) n (omega arith) t)
big_calls_lem w random n (r ∷ more) p t =
    let arg = r % 2000 in
    let sized = length-repeated arg 120 in
    let (p1, run, t1) =
      IsTested-call w random (length more + n) 25 (Item.uint arg ∷ []) bigrep_handler p
        (IsTested-same random p _ (suc (length more + n)) (omega arith) t)
        (not_bind 25 (omega arith)) (omega arith) refl refl (one_uint arg (omega arith))
        (one_string (repeated arg 120) (omega (arith, sized))) (omega arith) in
    let (p', rest, t') = big_calls_lem w random n more p1 t1 in
    let right : (length (repeated arg 120) == arg) ≡ true = eq→== _ _ sized in
    (p', rw (big_calls, run, right, rest) refl, t')

-- The clock does not go back over a call, to the second, and a call takes less than 2 000 000 s.
abbrev pub IsTimed : Mixed → Type 0
IsTimed (which, random, start, end) =
    (start.tv_sec ≤ end.tv_sec) × (end.tv_sec < start.tv_sec + 2_000_000)

diff_timespec-timed :
    (start end : Timespec)
    → start.tv_sec ≤ end.tv_sec
    → end.tv_sec < start.tv_sec + 2_000_000
    → (d : ℕ) × (diff_timespec end start ≡ some d)
unfolding diff_timespec
diff_timespec-timed start end le lt = elim (Option-cases (diff_timespec end start)) [
  | inl fails ↦ absurd (ground (arith, fails, le, lt))
  | inr fine ↦ fine
]

mixed_calls_lem :
    (w : Network) (random junk n : ℕ) (more : List Mixed) (p : Peers (Unit {0}))
    → All IsTimed more
    → IsTested random (length more + n) p
    → (p' : Peers (Unit {0})) × (mixed_calls w junk more p ≡ some p') × IsTested random n p'
unfolding mixed_calls kind_of lookup
mixed_calls_lem w random junk n [] p timed t =
    (p, refl, IsTested-same random p (0 + n) n (omega arith) t)
mixed_calls_lem w random junk n ((true, r, start, end) ∷ more) p ((le, lt), timed) t =
    let (d, spent) = diff_timespec-timed start end le lt in
    let arg = r % 1000 in
    let (p1, run, t1) =
      IsTested-call w random (length more + n) 23 (Item.uint arg ∷ []) fast_handler p
        (IsTested-same random p _ (suc (length more + n)) (omega arith) t)
        (not_bind 23 (omega arith)) (omega arith) refl refl (one_uint arg (omega arith))
        (one_uint ((arg + 1) % 2 ^ 32) (omega arith)) (omega arith) in
    let (p', rest, t') = mixed_calls_lem w random junk n more p1 timed t1 in
    let right : ((arg + 1) % 2 ^ 32 == arg + 1) ≡ true = eq→== _ _ (omega arith) in
    (p', rw (mixed_calls, spent, run, right, rest) refl, t')
mixed_calls_lem w random junk n ((false, r, start, end) ∷ more) p ((le, lt), timed) t =
    let (d, spent) = diff_timespec-timed start end le lt in
    let arg = r % 1000 in
    let (p1, run, t1) =
      IsTested-call w random (length more + n) 24 (Item.uint arg ∷ []) slow_handler p
        (IsTested-same random p _ (suc (length more + n)) (omega arith) t)
        (not_bind 24 (omega arith)) (omega arith) refl refl (one_uint arg (omega arith))
        (one_uint ((arg + 2) % 2 ^ 32) (omega arith)) (omega arith) in
    let (p', rest, t') = mixed_calls_lem w random junk n more p1 timed t1 in
    let right : ((arg + 2) % 2 ^ 32 == arg + 2) ≡ true = eq→== _ _ (omega arith) in
    (p', rw (mixed_calls, spent, run, right, rest) refl, t')

-- A new client of the test server, behind its `bind`.
bind-IsTested :
    (w : Network) (n r random old : ℕ)
    → r % 2 ^ 32 ≢ 0
    → n + 2 < 2 ^ 32
    → (p : Peers (Unit {0})) × (Session.bind w old (RpcClient.init true r, startserver random)
        ≡ (0, p))
      × IsTested random n p
unfolding Session.bind lookup RpcClient.init RpcClient.bound kind_of find_reply
bind-IsTested w n r random old nonce room =
    let s = started random in
    let c = RpcClient.init true r in
    let f : Handler (Unit {0}) = record {
      params = Kind.uint ∷ [];
      meth = rpcbind_meth (random % 2 ^ 32);
    } in
    let first : IsLinked (suc n) c s = record {
      clt_nonce = omega arith;
      at_most_once = nonce;
      srv_nonce = omega arith;
      xid = omega arith;
      room = omega (arith, room);
      window = (omega arith, tt);
      quiet = refl;
      unseen = λ y le. refl;
    } in
    let (c', s', run, linked, object, procs, same, b, i) =
      rpc_call_lem w n RpcConst.bind (Item.uint 0 ∷ []) c s f first (inr (refl, refl, refl))
        (omega arith) refl refl (one_uint 0 (omega arith))
        (one_uint (random % 2 ^ 32) (omega arith)) (omega arith) in
    (
      (RpcClient.bound 0 (random % 2 ^ 32) c', some s'),
      rw (startserver_lem random, run) refl,
      record {
        client = RpcClient.bound 0 (random % 2 ^ 32) c';
        server = s';
        peers = refl;
        linked = record {
          clt_nonce = linked.clt_nonce;
          at_most_once = linked.at_most_once;
          srv_nonce = omega arith;
          xid = linked.xid;
          room = linked.room;
          window = linked.window;
          quiet = linked.quiet;
          unseen = linked.unseen;
        };
        bound = refl;
        instance_known = sym same;
        procs = procs;
      },
    )

-- On a network that delivers, the `bind` of a new client, whose nonce is not zero, to a new test server
-- succeeds, and no assertion of `client1` then fails, that of diff_timespec included, whatever `random`
-- gives, where the clock does not go back over a timed call and the call takes less than 2 000 000 s:
-- each big reply has the length that was asked for, and each other reply is the argument plus one or
-- two; the calls are fewer than the 32-bit numbers allow.
pub client1_passes :
    (w : Network) (r random old junk : ℕ) (big : List ℕ) (mixed : List Mixed)
    → r % 2 ^ 32 ≢ 0
    → length big + length mixed + 2 < 2 ^ 32
    → All IsTimed mixed
    → (p p' : Peers (Unit {0})) × (Session.bind w old (RpcClient.init true r, startserver random)
        ≡ (0, p))
      × (client1 w junk big mixed p ≡ some p')
unfolding client1
client1_passes w r random old junk big mixed nonce room timed =
    let (p, run, t) =
      bind-IsTested w (length big + (length mixed + 0)) r random old nonce (omega (arith, room)) in
    let (p1, run1, t1) = big_calls_lem w random (length mixed + 0) big p t in
    let (p2, run2, t2) = mixed_calls_lem w random junk 0 mixed p1 timed t1 in
    (p, p2, run, rw (client1, run1, run2))
