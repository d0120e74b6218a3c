-- ===== src/ExtentService/Agreement.antt =====
-- The file system client of lab/yfs_client.cc on an extent server that it calls over the RPC library,
-- and on one that it calls directly.
use ds14_project.Base.{
  lookup, ◌==◌, ℕ, suc, ◌^◌, ◌<◌, ◌≡◌, refl, ◌∷◌, ◌++◌, [], List, length, arith, inl, inr,
  Bool-cases, Option-cases,
}
use ds14_project.Extent
use ds14_project.Yfs.Inum.{new_inum_kinds}
use ds14_project.Extent.Server.{put_status}
use ds14_project.Extent.{no_attr, ExtentServer, Attr, FileList, deserialize, serialize}
use ds14_project.Session.{Network, Peers}
use ds14_project.Yfs
use ds14_project.Yfs.{FileInfo, direct, c_str, find_name, new_inum, ok}
use ds14_project.ExtentService.{over_rpc}
use ds14_project.ExtentService.Linked.{
  IsServed, IsAttr, max_blob, client_get_lem, client_put_lem, client_getattr_lem,
}

-- What an operation gives over the calls is what it gives directly, and the server behind has the
-- object of the direct server.
abbrev pub Agrees :
    {A : Type 0} → Attr → (junk n : ℕ) → ℕ × A × Peers ExtentServer → ℕ × A × ExtentServer → Type 0
Agrees junk_attr junk n x y = (x ≡ (y.0, y.1, x.2)) × IsServed junk_attr junk n x.2 y.2

IsServed-suc :
    (junk_attr : Attr) (junk n : ℕ) (p : Peers ExtentServer) (o : ExtentServer)
    → IsServed junk_attr junk (suc n) p o
    → IsServed junk_attr junk n p o
IsServed-suc junk_attr junk n p o d = record {
  client = d.client;
  server = d.server;
  peers = d.peers;
  linked = record {
    clt_nonce = d.linked.clt_nonce;
    at_most_once = d.linked.at_most_once;
    srv_nonce = d.linked.srv_nonce;
    xid = d.linked.xid;
    room = omega (arith, d.linked.room);
    window = d.linked.window;
    quiet = d.linked.quiet;
    unseen = d.linked.unseen;
  };
  bound = d.bound;
  instance_known = d.instance_known;
  procs = d.procs;
  object = d.object;
  small = d.small;
}

module _ (w : Network) (junk_attr : Attr) (junk n : ℕ) (mem : ℕ → ℕ) (p : Peers ExtentServer)
    (o : ExtentServer) (d : IsServed junk_attr junk (suc n) p o) where
  pub lookup-over_rpc :
      (dir id : ℕ) (name : List ℕ)
      → dir < 2 ^ 64
      → let r = Yfs.lookup direct mem dir name id o in
        (p' : Peers ExtentServer) × (Yfs.lookup (over_rpc w) mem dir name id p ≡ (r.0, r.1, p'))
        × IsServed junk_attr junk n p' o
  unfolding Yfs.lookup
  lookup-over_rpc dir id name h =
      let (p', run, d') = client_get_lem w junk_attr junk n p o d dir [] h in
      let got = Extent.get dir [] o in
      let (good, fl) = deserialize (c_str mem got.1) (length got.1) [] in
      (
        p',
        rw run (elim (Bool-cases (got.0 == 0)) [
          | inr bad ↦ rw bad
          | inl fine ↦ (elim (Bool-cases good) [
            | inr bad ↦ rw (fine, bad)
            | inl read ↦ (elim (Option-cases (find_name name fl)) [
              | inl e ↦ rw (fine, read, e, run)
              | inr (found, e) ↦ rw (fine, read, e, run)
            ])
          ])
        ]),
        d',
      )

  pub readdir-over_rpc :
      (dir : ℕ) (old : FileList)
      → dir < 2 ^ 64
      → let r = Yfs.readdir direct mem dir old o in
        (p' : Peers ExtentServer) × (Yfs.readdir (over_rpc w) mem dir old p ≡ (r.0, r.1, p'))
        × IsServed junk_attr junk n p' o
  unfolding Yfs.readdir
  readdir-over_rpc dir old h =
      let (p', run, d') = client_get_lem w junk_attr junk n p o d dir [] h in
      let got = Extent.get dir [] o in
      let (good, fl) = deserialize (c_str mem got.1) (length got.1) old in
      (
        p',
        rw run (elim (Bool-cases (got.0 == 0)) [
          | inr bad ↦ rw bad
          | inl fine ↦ (elim (Bool-cases good) [
            | inr bad ↦ rw (fine, bad)
            | inl read ↦ rw (fine, read)
          ])
        ]),
        d',
      )

  pub getfile-over_rpc :
      (inum : ℕ) (fin : FileInfo)
      → inum < 2 ^ 64
      → IsAttr junk_attr
      → let r = Yfs.getfile direct mem inum fin o in
        (p' : Peers ExtentServer) × (Yfs.getfile (over_rpc w) mem inum fin p ≡ (r.0, r.1, p'))
        × IsServed junk_attr junk n p' o
  unfolding Yfs.getfile Extent.getattr
  getfile-over_rpc inum fin h j =
      let (p', run, d') = client_getattr_lem w junk_attr junk n p o d inum no_attr h j in
      (
        p',
        rw run (elim (Option-cases (lookup inum o.attrs)) [
          | inl e ↦ rw (Extent.getattr, e)
          | inr (a, e) ↦ rw (Extent.getattr, e)
        ]),
        d',
      )

lookup-state :
    (mem : ℕ → ℕ) (dir id : ℕ) (name : List ℕ) (o : ExtentServer)
    → (Yfs.lookup direct mem dir name id o).2 ≡ o
unfolding Yfs.lookup
lookup-state mem dir id name o =
    let got = Extent.get dir [] o in
    let (good, fl) = deserialize (c_str mem got.1) (length got.1) [] in
    elim (Bool-cases (got.0 == 0)) [
      | inr bad ↦ rw bad
      | inl fine ↦ (elim (Bool-cases good) [
        | inr bad ↦ rw (fine, bad)
        | inl read ↦ (elim (Option-cases (find_name name fl)) [
          | inl e ↦ rw (fine, read, e)
          | inr (found, e) ↦ rw (fine, read, e)
        ])
      ])
    ]

readdir-state :
    (mem : ℕ → ℕ) (dir : ℕ) (old : FileList) (o : ExtentServer)
    → (Yfs.readdir direct mem dir old o).2 ≡ o
unfolding Yfs.readdir
readdir-state mem dir old o =
    let got = Extent.get dir [] o in
    let (good, fl) = deserialize (c_str mem got.1) (length got.1) old in
    elim (Bool-cases (got.0 == 0)) [
      | inr bad ↦ rw bad
      | inl fine ↦ (elim (Bool-cases good) [
        | inr bad ↦ rw (fine, bad)
        | inl read ↦ rw (fine, read)
      ])
    ]

module _ (w : Network) (junk_attr : Attr) (junk n : ℕ) (mem : ℕ → ℕ) where
  add_entry-over_rpc :
      (rand dir : ℕ) (name : List ℕ) (fl : FileList) (p : Peers ExtentServer) (o : ExtentServer)
      → IsServed junk_attr junk (suc (suc n)) p o
      → dir < 2 ^ 64
      → junk < 2 ^ 32
      → length (serialize (fl ++ (new_inum rand 1, name) ∷ [])) < max_blob
      → Agrees junk_attr junk n
          (Yfs.add_entry (over_rpc w) mem rand dir name fl p)
          (Yfs.add_entry direct mem rand dir name fl o)
  unfolding Yfs.add_entry
  add_entry-over_rpc rand dir name fl p o d h j size =
      let id = new_inum rand 1 in
      let b = serialize (fl ++ (id, name) ∷ []) in
      let (p1, run1, d1) = client_put_lem w junk_attr junk (suc n) p o d dir b h size j in
      let (p2, run2, d2) =
        client_put_lem w junk_attr junk n p1 (Extent.put dir b o).1 d1 id []
          (omega (arith, (new_inum_kinds rand).2)) (omega arith) j in
      rw (run1, run2, put_status dir b o, put_status id [] (Extent.put dir b o).1) (refl, d2)

  -- `createfile` over the calls of a bound client, which has four calls left on a network that
  -- delivers, gives the status and the number that it gives on the server itself, and the server
  -- ends with the same extents, if the numbers fit their types and the directory with the new entry
  -- fits a call.
  pub createfile-over_rpc :
      (rand dir id : ℕ) (name : List ℕ) (p : Peers ExtentServer) (o : ExtentServer)
      → IsServed junk_attr junk (suc (suc (suc (suc n)))) p o
      → dir < 2 ^ 64
      → junk < 2 ^ 32
      → length (serialize ((Yfs.readdir direct mem dir [] o).1 ++ (new_inum rand 1, name) ∷ []))
        < max_blob
      → Agrees junk_attr junk n
          (Yfs.createfile (over_rpc w) mem rand dir name id p)
          (Yfs.createfile direct mem rand dir name id o)
  unfolding Yfs.createfile
  createfile-over_rpc rand dir id name p o d h j size =
      let found = Yfs.lookup direct mem dir name id o in
      let read = Yfs.readdir direct mem dir [] o in
      let (p1, run1, d1) =
        lookup-over_rpc w junk_attr junk (suc (suc (suc n))) mem p o d dir id name h in
      let (p2, run2, d2) = readdir-over_rpc w junk_attr junk (suc (suc n)) mem p1 o d1 dir [] h in
      let e1 = lookup-state mem dir id name o in
      let e2 = readdir-state mem dir [] o in
      let less1 = IsServed-suc junk_attr junk n p1 o (
        IsServed-suc junk_attr junk (suc n) p1 o
          (IsServed-suc junk_attr junk (suc (suc n)) p1 o d1)) in
      let less2 =
        IsServed-suc junk_attr junk n p2 o (IsServed-suc junk_attr junk (suc n) p2 o d2) in
      elim (Bool-cases (found.0 == 0)) [
        | inl there ↦ rw (run1, run2, e1, e2, there) (refl, less1)
        | inr absent ↦ (elim (Bool-cases (found.0 == 2)) [
          | inr bad ↦ rw (run1, run2, e1, e2, absent, bad) (refl, less1)
          | inl free ↦ (elim (Bool-cases (read.0 == 0)) [
            | inr bad ↦ rw (run1, run2, e1, e2, absent, free, bad) (refl, less2)
            | inl good ↦
                rw (run1, run2, e1, e2, absent, free, good)
                  (add_entry-over_rpc rand dir name read.1 p2 o d2 h j size)
          ])
        ])
      ]
