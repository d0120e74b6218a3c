-- ===== src/ExtentService.antt =====
-- The extent service: lab/extent_smain.cc registers the operations of the extent server, and
-- lab/extent_client.cc calls them. A handler's result that its method leaves unset is `junk`.
pub mod Linked
pub mod Start
pub mod Agreement
use ds14_project.Base.{ℕ, List, [], ◌∷◌, Option, some, none}
use ds14_project.Stub.{Item, Kind, Handler}
use ds14_project.Extent
use ds14_project.Extent.{Attr, ExtentServer}
use ds14_project.RpcServer.{Server, reg1, rpcs}
use ds14_project.Session.{Network, Peers, rpc_call}
use ds14_project.Yfs.{ExtentClient}

-- `extent_protocol::rpc_numbers`
abbrev pub put_proc : ℕ
put_proc = 0x6001

abbrev pub get_proc : ℕ
get_proc = 0x6002

abbrev pub getattr_proc : ℕ
getattr_proc = 0x6003

abbrev pub remove_proc : ℕ
remove_proc = 0x6004

-- `operator<<` and `operator>>` of `extent_protocol::attr`.
abbrev pub attr_items : Attr → List Item
attr_items a = Item.uint a.atime ∷ Item.uint a.mtime ∷ Item.uint a.ctime ∷ Item.uint a.size ∷ []

abbrev pub attr_kinds : List Kind
attr_kinds = Kind.uint ∷ Kind.uint ∷ Kind.uint ∷ Kind.uint ∷ []

-- What the handlers' functions call, with the arguments that they have read; the last clause of each
-- is for arguments of other types, which they do not read.
abbrev pub get_meth : List Item → ExtentServer → ℕ × List Item × ExtentServer
get_meth (Item.ulonglong id ∷ []) s = let (r, b) = Extent.get id [] s in (r, Item.string b ∷ [], s)
get_meth xs s = (0, [], s)

abbrev pub getattr_meth : Attr → List Item → ExtentServer → ℕ × List Item × ExtentServer
getattr_meth junk (Item.ulonglong id ∷ []) s =
    let (r, a) = Extent.getattr id junk s in (r, attr_items a, s)
getattr_meth junk xs s = (0, [], s)

abbrev pub put_meth : ℕ → List Item → ExtentServer → ℕ × List Item × ExtentServer
put_meth junk (Item.ulonglong id ∷ Item.string b ∷ []) s =
    let (r, s') = Extent.put id b s in (r, Item.uint junk ∷ [], s')
put_meth junk xs s = (0, [], s)

abbrev pub remove_meth : ℕ → List Item → ExtentServer → ℕ × List Item × ExtentServer
remove_meth junk (Item.ulonglong id ∷ []) s =
    let (r, s') = Extent.remove id s in (r, Item.uint junk ∷ [], s')
remove_meth junk xs s = (0, [], s)

abbrev pub get_handler : Handler ExtentServer
get_handler = record { params = Kind.ulonglong ∷ []; meth = get_meth }

abbrev pub getattr_handler : Attr → Handler ExtentServer
getattr_handler junk = record { params = Kind.ulonglong ∷ []; meth = getattr_meth junk }

abbrev pub put_handler : ℕ → Handler ExtentServer
put_handler junk = record { params = Kind.ulonglong ∷ Kind.string ∷ []; meth = put_meth junk }

abbrev pub remove_handler : ℕ → Handler ExtentServer
remove_handler junk = record { params = Kind.ulonglong ∷ []; meth = remove_meth junk }

infixl 5 ◌>>=◌
abbrev pub ◌>>=◌ {ℓ} : {A B : Type ℓ} → Option A → (A → Option B) → Option B
none >>= f = none
some a >>= f = f a

-- `main` of the extent server, up to its endless sleep.
unfoldable pub extent_smain : (random : ℕ) → Attr → (junk : ℕ) → Option (Server ExtentServer)
extent_smain random junk_attr junk = do
  s0 ← rpcs random 0 Extent.init
  s1 ← reg1 get_proc get_handler s0
  s2 ← reg1 getattr_proc (getattr_handler junk_attr) s1
  s3 ← reg1 put_proc (put_handler junk) s2
  reg1 remove_proc (remove_handler junk) s3

-- The variable of the caller, which stays where nothing was read into it.
abbrev pub string_or : List ℕ → List Item → List ℕ
string_or old (Item.string b ∷ xs) = b
string_or old xs = old

abbrev pub attr_or : Attr → List Item → Attr
attr_or old (Item.uint a ∷ Item.uint m ∷ Item.uint c ∷ Item.uint n ∷ xs) = record {
  atime = a;
  mtime = m;
  ctime = c;
  size = n;
}
attr_or old xs = old

-- `extent_client`: its operations as calls.
module _ (w : Network) where
  unfoldable pub client_get : ℕ → List ℕ → Peers ExtentServer → ℕ × List ℕ × Peers ExtentServer
  client_get eid buf p =
      let (ret, r, p') = rpc_call w get_proc (Item.ulonglong eid ∷ []) (Kind.string ∷ []) p in
      (ret, string_or buf r, p')

  unfoldable pub client_getattr : ℕ → Attr → Peers ExtentServer → ℕ × Attr × Peers ExtentServer
  client_getattr eid a p =
      let (ret, r, p') = rpc_call w getattr_proc (Item.ulonglong eid ∷ []) attr_kinds p in
      (ret, attr_or a r, p')

  unfoldable pub client_put : ℕ → List ℕ → Peers ExtentServer → ℕ × Peers ExtentServer
  client_put eid buf p =
      let args = Item.ulonglong eid ∷ Item.string buf ∷ [] in
      let (ret, r, p') = rpc_call w put_proc args (Kind.uint ∷ []) p in (ret, p')

  unfoldable pub client_remove : ℕ → Peers ExtentServer → ℕ × Peers ExtentServer
  client_remove eid p =
      let (ret, r, p') = rpc_call w remove_proc (Item.ulonglong eid ∷ []) (Kind.uint ∷ []) p in
      (ret, p')

  abbrev pub over_rpc : ExtentClient (Peers ExtentServer)
  over_rpc = record { get = client_get; getattr = client_getattr; put = client_put }
