-- ===== src/Fuse/Requests.antt =====
-- The requests of lab/fuse.cc and their replies, over a file system client.
use ds14_project.Base.{
  eq→==, ℕ, ◌+◌, ◌^◌, ◌<◌, ◌≡◌, ◌∙◌, refl, true, false, ◌==◌, List, [], ◌∷◌, ◌++◌, length, none,
  has_key, arith, inl, inr, Bool-cases, Option-cases, lookup,
}
use ds14_project.Extent
use ds14_project.Extent.{ExtentServer, Attr, FileList, serialize, no_attr}
use ds14_project.Extent.Server.{getattr_put}
use ds14_project.Yfs.{ExtentClient, direct, isfile, isdir, find_name, new_inum}
use ds14_project.Yfs
use ds14_project.Yfs.Inum.{new_inum_kinds}
use ds14_project.Yfs.Directory.{IsDirectory}
use ds14_project.Yfs.Create.{after_create, createfile_new}
use ds14_project.Fuse.{
  sets_size, Stat, Reply, reply_entry, reply_create, Libfuse, Unset, file_mode, getattr,
  fuseserver_setattr, fuseserver_read, fuseserver_write, fuseserver_open, fuseserver_mkdir,
  fuseserver_unlink, fuseserver_statfs, fuseserver_getattr, fuseserver_create,
  fuseserver_createhelper, fuseserver_mknod, fuseserver_lookup, fuseserver_readdir,
}

-- The requests that `main` registers a handler for, with the number that `rand` gives.
pub data Request : Type 0 where
  getattr_of : ℕ → Request
  setattr_of : ℕ → (to_set : ℕ) → Request
  read_of : (ino size off : ℕ) → Request
  write_of : ℕ → List ℕ → ℕ → Request
  create_in : (rand parent : ℕ) → List ℕ → Request
  mknod_in : (rand parent : ℕ) → List ℕ → Request
  lookup_in : (parent : ℕ) → List ℕ → Request
  readdir_of : (ino size off : ℕ) → Request
  open_of : ℕ → Request
  mkdir_in : ℕ → List ℕ → Request
  unlink_in : ℕ → List ℕ → Request
  statfs : Request

module _ {S : Type 0} (ec : ExtentClient S) (mem : ℕ → ℕ) (u : Unset) (lib : Libfuse) where
  -- `fuseserver_oper`, the table of the handlers.
  unfoldable pub handle : Request → S → List Reply × S
  handle (getattr_of ino) s = fuseserver_getattr ec mem u ino s
  handle (setattr_of ino to_set) s = (fuseserver_setattr to_set, s)
  handle (read_of ino size off) s = (fuseserver_read ino size off, s)
  handle (write_of ino buf off) s = (fuseserver_write ino buf off, s)
  handle (create_in rand parent name) s = fuseserver_create ec mem u rand parent name s
  handle (mknod_in rand parent name) s = fuseserver_mknod ec mem u rand parent name s
  handle (lookup_in parent name) s = fuseserver_lookup ec mem u parent name s
  handle (readdir_of ino size off) s = fuseserver_readdir ec mem u lib ino size off s
  handle (open_of ino) s = (fuseserver_open ino, s)
  handle (mkdir_in parent name) s = (fuseserver_mkdir parent name, s)
  handle (unlink_in parent name) s = (fuseserver_unlink parent name, s)
  handle statfs s = (fuseserver_statfs, s)

  -- Every request is answered once, whatever the extent client gives.
  pub handle-once : (q : Request) (s : S) → length (handle q s).0 ≡ 1
  unfolding handle fuseserver_getattr fuseserver_create fuseserver_mknod fuseserver_lookup
      fuseserver_readdir fuseserver_setattr fuseserver_read fuseserver_write fuseserver_open
      fuseserver_mkdir fuseserver_unlink fuseserver_statfs
  handle-once (getattr_of ino) s = elim (Bool-cases ((getattr ec mem u ino s).0 == 0)) [
    | inl e ↦ rw e
    | inr e ↦ rw e
  ]
  handle-once (setattr_of ino to_set) s = elim (Bool-cases (sets_size to_set)) [
    | inl e ↦ rw e
    | inr e ↦ rw e
  ]
  handle-once (read_of ino size off) s = refl
  handle-once (write_of ino buf off) s = refl
  handle-once (create_in rand parent name) s =
      elim (Bool-cases ((fuseserver_createhelper ec mem u rand parent name s).0 == 0)) [
        | inl e ↦ rw e
        | inr e ↦ rw e
      ]
  handle-once (mknod_in rand parent name) s =
      elim (Bool-cases ((fuseserver_createhelper ec mem u rand parent name s).0 == 0)) [
        | inl e ↦ rw e
        | inr e ↦ rw e
      ]
  handle-once (lookup_in parent name) s =
      let r = Yfs.lookup ec mem parent name u.id s in
      elim (Bool-cases (r.0 == 0)) [
        | inr e ↦ rw e
        | inl e ↦ (elim (Bool-cases ((getattr ec mem u r.1 r.2).0 == 0)) [
          | inl f ↦ rw (e, f)
          | inr f ↦ rw (e, f)
        ])
      ]
  handle-once (readdir_of ino size off) s = elim (Bool-cases (isdir ino)) [
    | inl e ↦ rw e
    | inr e ↦ rw e
  ]
  handle-once (open_of ino) s = refl
  handle-once (mkdir_in parent name) s = refl
  handle-once (unlink_in parent name) s = refl
  handle-once statfs s = refl

put-attrs :
    (id : ℕ) (buf : List ℕ) (o : ExtentServer) (old : Attr)
    → (a : Attr) × (Extent.getattr id old (Extent.put id buf o).1 ≡ (Extent.ok, a))
unfolding Extent.getattr
put-attrs id buf o old = elim (Option-cases (lookup id o.attrs)) [
  | inl e ↦
      (let absent : has_key id o.attrs ≡ false = ground (arith, e) in
        (no_attr, getattr_put id buf old o id ∙ rw (absent, eq→== id id refl)))
  | inr (a, e) ↦
      (let there : has_key id o.attrs ≡ true = ground (arith, e) in
        (a, getattr_put id buf old o id ∙ rw (there, Extent.getattr, e)))
]

module _ (mem : ℕ → ℕ) (u : Unset) where
  attrs_new :
      (id : ℕ) (s : ExtentServer) (a : Attr)
      → isfile id ≡ true
      → Extent.getattr id no_attr s ≡ (Extent.ok, a)
      → getattr direct mem u id s ≡ (
        0,
        record {
          ino = id;
          mode = file_mode;
          nlink = 1;
          atime = a.atime;
          mtime = a.mtime;
          ctime = a.ctime;
          size = a.size;
        },
        s,
      )
  unfolding getattr Yfs.getfile
  attrs_new id s a file has = rw (file, has)

  -- A file that `fuseserver_create` makes in a directory that lacks its name, which has a character
  -- and fits the sizes, is then found there by `fuseserver_lookup`, under the number and with the
  -- attributes that the creation replied with; the creation replies with generation 0, the lookup
  -- with what its variable held.
  pub create-lookup :
      (s : ExtentServer) (p : ℕ) (fl : FileList) (rand : ℕ) (name : List ℕ)
      → IsDirectory s p fl
      → isdir p ≡ true
      → find_name name fl ≡ none
      → 0 < length name
      → length (serialize (fl ++ (new_inum rand 1, name) ∷ [])) + 1 < 2 ^ 32
      → let s' = after_create rand p name fl s in
        (st : Stat) × (st.ino ≡ new_inum rand 1)
        × (st.mode ≡ file_mode)
        × (fuseserver_create direct mem u rand p name s ≡ (
          reply_create (record {
            ino = new_inum rand 1;
            generation = 0;
            attr = st;
            attr_timeout = 0;
            entry_timeout = 0;
          })
              ∷ [],
          s',
        ))
        × (fuseserver_lookup direct mem u p name s' ≡ (
          reply_entry (record {
            ino = new_inum rand 1;
            generation = u.generation;
            attr = st;
            attr_timeout = 0;
            entry_timeout = 0;
          })
              ∷ [],
          s',
        ))
  unfolding fuseserver_create fuseserver_createhelper fuseserver_lookup
  create-lookup s p fl rand name d dir free pos small =
      let new = new_inum rand 1 in
      let s' = after_create rand p name fl s in
      let (made, file, d', found, empty, others) =
        createfile_new mem s p fl rand name u.id d dir free pos small in
      let (a, has) =
        put-attrs new [] (Extent.put p (serialize (fl ++ (new, name) ∷ [])) s).1 no_attr in
      let st : Stat = record {
        ino = new;
        mode = file_mode;
        nlink = 1;
        atime = a.atime;
        mtime = a.mtime;
        ctime = a.ctime;
        size = a.size;
      } in
      let attrs : getattr direct mem u new s' ≡ (0, st, s') =
        attrs_new new s' a (new_inum_kinds rand).0 has in
      (st, refl, refl, rw (made, attrs), rw (found, attrs))
