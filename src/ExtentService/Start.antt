-- ===== src/ExtentService/Start.antt =====
-- The start of the extent server by `main` of lab/extent_smain.cc, and of a client by the constructor
-- of lab/extent_client.cc.
use ds14_project.RpcConst.{bind}
use ds14_project.Extent.{no_attr, serialize, ExtentServer, Attr}
use ds14_project.Base.{
  ap, sym, suc, lookup-insert_cases, ℕ, ◌+◌, ◌%◌, ◌^◌, ◌<◌, ◌≡◌, ◌≢◌, refl, true, [], ◌∷◌, some,
  arith, insert, lookup,
}
use ds14_project.RpcConst
use ds14_project.Base.{inl, inr}
use ds14_project.Session.Linked.{rpc_call_lem, IsLinked}
use ds14_project.Stub.{kind_of}
use ds14_project.Extent
use ds14_project.RpcClient
use ds14_project.RpcServer.ReplyWindow.Entries.{find_reply}
use ds14_project.Session
use ds14_project.RpcServer.{rpcbind_meth, Server, reg1, rpcs}
use ds14_project.ExtentService.{
  Handler, Item, Peers, Network, remove_handler, remove_proc, put_handler, put_proc,
  getattr_handler, getattr_proc, get_handler, Kind, extent_smain, get_proc,
}
use ds14_project.ExtentService.Linked.{IsSmall, IsServed}

abbrev started : (random : ℕ) → Attr → (junk : ℕ) → Server ExtentServer
started random junk_attr junk = record {
  nonce = random % 2 ^ 32;
  procs =
      (RpcConst.bind, record { params = Kind.uint ∷ []; meth = rpcbind_meth (random % 2 ^ 32) })
      ∷ (get_proc, get_handler)
      ∷ (getattr_proc, getattr_handler junk_attr)
      ∷ (put_proc, put_handler junk)
      ∷ (remove_proc, remove_handler junk)
      ∷ [];
  reply_window = [];
  conns = [];
  counting = 0;
  curr_counts = 0;
  counts = [];
  object = Extent.init;
  refs = λ c. 0;
  sent = [];
}

extent_smain_lem :
    (random : ℕ) (junk_attr : Attr) (junk : ℕ)
    → extent_smain random junk_attr junk ≡ some (started random junk_attr junk)
unfolding extent_smain rpcs reg1 insert lookup
extent_smain_lem random junk_attr junk = refl

init-IsSmall : IsSmall Extent.init
unfolding Extent.init lookup insert serialize
init-IsSmall = record {
  blobs = λ j b e. elim (lookup-insert_cases 1 j (serialize []) b [] e) [
    | inl same ↦ rw same (omega arith)
    | inr old ↦ cc old
  ];
  attrs = λ j a e. elim (lookup-insert_cases 1 j no_attr a [] e) [
    | inl same ↦ rw same (omega arith)
    | inr old ↦ cc old
  ];
}

init-IsLinked :
    (n r random : ℕ) (junk_attr : Attr) (junk : ℕ)
    → r % 2 ^ 32 ≢ 0
    → n + 1 < 2 ^ 32
    → IsLinked n (RpcClient.init true r) (started random junk_attr junk)
unfolding RpcClient.init find_reply lookup
init-IsLinked n r random junk_attr junk nonce room = record {
  clt_nonce = omega arith;
  at_most_once = nonce;
  srv_nonce = omega arith;
  xid = omega arith;
  room = omega (arith, room);
  window = (omega arith, tt);
  quiet = refl;
  unseen = λ y le. refl;
}

-- The `bind` of a new client, whose nonce is not zero, to a new extent server succeeds on a network
-- that delivers, and the client is then served by an extent server with the empty root directory and
-- every operation registered, for as many calls as its 32-bit numbers allow.
pub start_served :
    (w : Network) (n r random junk : ℕ) (junk_attr : Attr) (old : ℕ)
    → r % 2 ^ 32 ≢ 0
    → n + 2 < 2 ^ 32
    → (p : Peers ExtentServer) × (Session.bind w old
          (RpcClient.init true r, extent_smain random junk_attr junk)
        ≡ (0, p))
      × IsServed junk_attr junk n p Extent.init
unfolding Session.bind lookup RpcClient.init RpcClient.bound kind_of
start_served w n r random junk junk_attr old nonce room =
    let s = started random junk_attr junk in
    let c = RpcClient.init true r in
    let f : Handler ExtentServer = record {
      params = Kind.uint ∷ [];
      meth = rpcbind_meth (random % 2 ^ 32);
    } in
    let (c', s', run, linked, object, procs, same, b, i) =
      rpc_call_lem w n RpcConst.bind (Item.uint 0 ∷ []) c s f
        (init-IsLinked (suc n) r random junk_attr junk nonce (omega (arith, room)))
        (inr (refl, refl, refl)) (omega arith) refl refl
        (record { items = (omega arith, tt); size = omega arith })
        (record { items = (omega arith, tt); size = omega arith }) (omega arith) in
    (
      (RpcClient.bound 0 (random % 2 ^ 32) c', some s'),
      rw (extent_smain_lem random junk_attr junk, run) refl,
      record {
        client = RpcClient.bound 0 (random % 2 ^ 32) c';
        server = s';
        peers = refl;
        linked = record {
          clt_nonce = linked.clt_nonce;
          at_most_once = linked.at_most_once;
          srv_nonce = omega arith;
          xid = linked.xid;
          room = linked.room;
          window = linked.window;
          quiet = linked.quiet;
          unseen = linked.unseen;
        };
        bound = refl;
        instance_known = sym same;
        procs = record {
          get = ap (lookup get_proc) procs;
          getattr = ap (lookup getattr_proc) procs;
          put = ap (lookup put_proc) procs;
          remove = ap (lookup remove_proc) procs;
        };
        object = object;
        small = init-IsSmall;
      },
    )
