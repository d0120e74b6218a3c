-- ===== src/ExtentService/Linked.antt =====
-- One call of the extent client of lab/extent_client.cc on a server that lab/extent_smain.cc set up.
use ds14_project.Base.{
  Bool-cases, lookup-insert_cases, append-nil, sym, ℕ, suc, ◌-◌, ◌^◌, ◌<◌, ◌≡◌, ◌≢◌, refl, ap, ◌∙◌,
  true, List, [], ◌∷◌, length, map, some, lookup, has_key, arith, Option-cases, inl, inr,
}
use ds14_project.Stub.{Item, kind_of, Handler}
use ds14_project.Stub.Calls.{IsPayload}
use ds14_project.Extent
use ds14_project.Extent.{Attr, ExtentServer, no_attr}
use ds14_project.Extent.Server.{put_status, get-some, get-none}
use ds14_project.RpcConst
use ds14_project.RpcServer.{Server}
use ds14_project.RpcClient.{Client}
use ds14_project.Session.{Network, Peers, rpc_call}
use ds14_project.Session.Linked.{IsLinked, rpc_call_lem}
use ds14_project.ExtentService.{
  put_proc, get_proc, getattr_proc, remove_proc, get_handler, getattr_handler, put_handler,
  remove_handler, attr_items, client_get, client_getattr, client_put,
}

-- The longest contents that fit a call.
abbrev pub max_blob : ℕ
max_blob = 2 ^ 31 - 36

pub record IsAttr (a : Attr) : Type 0 where
  pub atime : a.atime < 2 ^ 32
  pub mtime : a.mtime < 2 ^ 32
  pub ctime : a.ctime < 2 ^ 32
  pub size : a.size < 2 ^ 32

pub record IsSmall (o : ExtentServer) : Type 0 where
  pub blobs : (id : ℕ) (b : List ℕ) → lookup id o.blobs ≡ some b → length b < max_blob
  pub attrs : (id : ℕ) (a : Attr) → lookup id o.attrs ≡ some a → IsAttr a

pub record HasProcs (junk_attr : Attr) (junk : ℕ) (s : Server ExtentServer) : Type 0 where
  pub get : lookup get_proc s.procs ≡ some get_handler
  pub getattr : lookup getattr_proc s.procs ≡ some (getattr_handler junk_attr)
  pub put : lookup put_proc s.procs ≡ some (put_handler junk)
  pub remove : lookup remove_proc s.procs ≡ some (remove_handler junk)

-- A client that is bound to an extent server with this object, with so many calls left.
pub record IsServed (junk_attr : Attr) (junk n : ℕ) (p : Peers ExtentServer) (o : ExtentServer)
    : Type 0 where
  pub client : Client
  pub server : Server ExtentServer
  pub peers : p ≡ (client, some server)
  pub linked : IsLinked n client server
  pub bound : client.bind_done ≡ true
  pub instance_known : client.srv_nonce ≡ server.nonce
  pub procs : HasProcs junk_attr junk server
  pub object : server.object ≡ o
  pub small : IsSmall o

get-status : (id : ℕ) (old : List ℕ) (o : ExtentServer) → (Extent.get id old o).0 < 2 ^ 31
get-status id old o = elim (Option-cases (lookup id o.blobs)) [
  | inl e ↦ rw (get-none id old o e) (omega arith)
  | inr (b, e) ↦ rw (get-some id old o b e) (omega arith)
]

string-IsPayload : (b : List ℕ) → length b < max_blob → IsPayload (Item.string b ∷ [])
string-IsPayload b h = record {
  items = (omega (arith, h), tt);
  size = rw append-nil (omega (arith, h));
}

get-IsPayload :
    (id : ℕ) (o : ExtentServer) → IsSmall o → IsPayload (Item.string (Extent.get id [] o).1 ∷ [])
get-IsPayload id o s = elim (Option-cases (lookup id o.blobs)) [
  | inl e ↦ rw (get-none id [] o e) (string-IsPayload [] (omega arith))
  | inr (b, e) ↦ rw (get-some id [] o b e) (string-IsPayload b (s.blobs id b e))
]

getattr-IsAttr :
    (id : ℕ) (old : Attr) (o : ExtentServer)
    → IsAttr old
    → IsSmall o
    → ((Extent.getattr id old o).0 < 2 ^ 31) × IsAttr (Extent.getattr id old o).1
unfolding Extent.getattr
getattr-IsAttr id old o j s = elim (Option-cases (lookup id o.attrs)) [
  | inl e ↦ rw (e, Extent.getattr) (omega arith, j)
  | inr (a, e) ↦ rw (e, Extent.getattr) (omega arith, s.attrs id a e)
]

attr-IsPayload : (a : Attr) → IsAttr a → IsPayload (attr_items a)
attr-IsPayload a v = record {
  items = (v.atime, (v.mtime, (v.ctime, (v.size, tt))));
  size = omega arith;
}

put-IsSmall :
    (id : ℕ) (b : List ℕ) (o : ExtentServer)
    → length b < max_blob
    → IsSmall o
    → IsSmall (Extent.put id b o).1
unfolding Extent.put
put-IsSmall id b o h s = record {
  blobs = λ j c e. elim (lookup-insert_cases id j b c o.blobs e) [
    | inl same ↦ omega (arith, ap length same, h)
    | inr old ↦ s.blobs j c old
  ];
  attrs = λ j a e. elim (Bool-cases (has_key id o.attrs)) [
    | inl there ↦ s.attrs j a (rw there at e)
    | inr new ↦ (elim (lookup-insert_cases id j no_attr a o.attrs (rw new at e)) [
      | inl same ↦ rw same (omega arith)
      | inr old ↦ s.attrs j a old
    ])
  ];
}

module _ (w : Network) (junk_attr : Attr) (junk : ℕ) (n : ℕ) (p : Peers ExtentServer)
    (o : ExtentServer) (d : IsServed junk_attr junk (suc n) p o) where
  call_served :
      (proc : ℕ) (xs rs : List Item) (f : Handler ExtentServer) (ret : ℕ) (o' : ExtentServer)
      → proc ≢ RpcConst.bind
      → proc < 2 ^ 32
      → lookup proc d.server.procs ≡ some f
      → f.params ≡ map kind_of xs
      → IsPayload xs
      → IsPayload rs
      → ret < 2 ^ 31
      → f.meth xs o ≡ (ret, rs, o')
      → IsSmall o'
      → (p' : Peers ExtentServer) × (rpc_call w proc xs (map kind_of rs) p ≡ (ret, rs, p'))
        × IsServed junk_attr junk n p' o'
  call_served proc xs rs f ret o' other fits known types px pr small e so =
      let m : f.meth xs d.server.object ≡ (ret, rs, o') = rw d.object e in
      let (c', s', run, linked, object, procs, nonce, b, i) =
        rpc_call_lem w n proc xs d.client d.server f d.linked
          (inl (d.bound, other, d.instance_known)) fits known types px (rw m pr) (rw m small) in
      (
        (c', some s'),
        rw d.peers (rw m at run),
        record {
          client = c';
          server = s';
          peers = refl;
          linked = linked;
          bound = b ∙ d.bound;
          instance_known = i ∙ d.instance_known ∙ sym nonce;
          procs = record {
            get = ap (lookup get_proc) procs ∙ d.procs.get;
            getattr = ap (lookup getattr_proc) procs ∙ d.procs.getattr;
            put = ap (lookup put_proc) procs ∙ d.procs.put;
            remove = ap (lookup remove_proc) procs ∙ d.procs.remove;
          };
          object = object ∙ ap (λ (r : ℕ × List Item × ExtentServer). r.2) m;
          small = so;
        },
      )

  id-IsPayload : (id : ℕ) → id < 2 ^ 64 → IsPayload (Item.ulonglong id ∷ [])
  id-IsPayload id h = record { items = (h, tt); size = omega arith }

  -- `get` of an extent, into an empty string: the server's answer, and its empty string where it has
  -- none.
  pub client_get_lem :
      (id : ℕ) (old : List ℕ)
      → id < 2 ^ 64
      → (p' : Peers ExtentServer) × (client_get w id old p
          ≡ ((Extent.get id [] o).0, (Extent.get id [] o).1, p'))
        × IsServed junk_attr junk n p' o
  unfolding client_get kind_of
  client_get_lem id old h =
      let got = Extent.get id [] o in
      let (p', run, d') =
        call_served get_proc (Item.ulonglong id ∷ []) (Item.string got.1 ∷ []) get_handler got.0 o
          (omega arith) (omega arith) d.procs.get refl (id-IsPayload id h)
          (get-IsPayload id o d.small) (get-status id [] o) refl d.small in
      (p', rw run, d')

  -- `getattr` of an extent: the server's answer, with what its handler's variable held where it has
  -- none.
  pub client_getattr_lem :
      (id : ℕ) (old : Attr)
      → id < 2 ^ 64
      → IsAttr junk_attr
      → (p' : Peers ExtentServer) × (client_getattr w id old p
          ≡ ((Extent.getattr id junk_attr o).0, (Extent.getattr id junk_attr o).1, p'))
        × IsServed junk_attr junk n p' o
  unfolding client_getattr kind_of
  client_getattr_lem id old h j =
      let got = Extent.getattr id junk_attr o in
      let (status, fits) = getattr-IsAttr id junk_attr o j d.small in
      let (p', run, d') =
        call_served getattr_proc (Item.ulonglong id ∷ []) (attr_items got.1)
          (getattr_handler junk_attr) got.0 o (omega arith) (omega arith) d.procs.getattr refl
          (id-IsPayload id h) (attr-IsPayload got.1 fits) status refl d.small in
      (p', rw run, d')

  -- `put` of contents that fit a call.
  pub client_put_lem :
      (id : ℕ) (buf : List ℕ)
      → id < 2 ^ 64
      → length buf < max_blob
      → junk < 2 ^ 32
      → (p' : Peers ExtentServer) × (client_put w id buf p ≡ ((Extent.put id buf o).0, p'))
        × IsServed junk_attr junk n p' (Extent.put id buf o).1
  unfolding client_put kind_of
  client_put_lem id buf h size j =
      let (p', run, d') =
        call_served put_proc (Item.ulonglong id ∷ Item.string buf ∷ []) (Item.uint junk ∷ [])
          (put_handler junk) (Extent.put id buf o).0 (Extent.put id buf o).1 (omega arith)
          (omega arith) d.procs.put refl
          (record {
            items = (h, (omega (arith, size), tt));
            size = rw append-nil (omega (arith, size));
          })
          (record { items = (j, tt); size = omega arith }) (omega (arith, put_status id buf o)) refl
          (put-IsSmall id buf o size d.small) in
      (p', rw run, d')
