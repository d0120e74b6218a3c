-- ===== src/Fuse.antt =====
-- lab/fuse.cc: the handlers that libfuse calls, over the file system client of lab/yfs_client.cc.
-- Each gives the replies that it makes, in order. What libfuse writes for a directory's entry, the
-- number that `rand` gives and what an unset variable holds are parameters.
pub mod Paging
pub mod Requests
use ds14_project.Base.{
  ℕ, ◌+◌, ◌-◌, ◌%◌, ◌/◌, Bool, true, false, not, List, [], ◌∷◌, ◌++◌, length, take, drop, ltb, ◌==◌,
  if◌then◌else◌,
}
use ds14_project.Extent.{FileList}
use ds14_project.Yfs.{ExtentClient, isfile, isdir, FileInfo, DirInfo}
use ds14_project.Yfs

abbrev pub enoent : ℕ
enoent = 2

abbrev pub enotdir : ℕ
enotdir = 20

abbrev pub enosys : ℕ
enosys = 38

-- `struct stat`, as far as the handlers set it.
pub record Stat : Type 0 where
  pub ino : ℕ
  pub mode : ℕ
  pub nlink : ℕ
  pub atime : ℕ
  pub mtime : ℕ
  pub ctime : ℕ
  pub size : ℕ

-- `struct fuse_entry_param`; the timeouts are in seconds.
pub record Entry : Type 0 where
  pub ino : ℕ
  pub generation : ℕ
  pub attr : Stat
  pub attr_timeout : ℕ
  pub entry_timeout : ℕ

pub data Reply : Type 0 where
  reply_err : ℕ → Reply
  reply_attr : Stat → (timeout : ℕ) → Reply
  reply_create : Entry → Reply
  reply_entry : Entry → Reply
  reply_buf : List ℕ → Reply
  reply_open : Reply
  reply_statfs : (namemax bsize : ℕ) → Reply

-- `fuse_dirent_size` of a name's length, and the bytes that `fuse_add_dirent` stores for a name and a
-- number, with the size it is told.
pub record Libfuse : Type 0 where
  pub dirent_size : ℕ → ℕ
  pub add_dirent : List ℕ → ℕ → ℕ → List ℕ

-- What the variables hold that the handlers leave unset.
pub record Unset : Type 0 where
  pub id : ℕ
  pub generation : ℕ
  pub ino : ℕ
  pub attr : Stat
  pub file : FileInfo
  pub dir : DirInfo

-- `bzero(&st, sizeof(st)); st.st_ino = inum;`
abbrev pub blank : ℕ → Stat
blank inum = record { ino = inum; mode = 0; nlink = 0; atime = 0; mtime = 0; ctime = 0; size = 0 }

-- `S_IFREG | 0666` and `S_IFDIR | 0777`
abbrev pub file_mode : ℕ
file_mode = 0x8000 + 0x1b6

abbrev pub dir_mode : ℕ
dir_mode = 0x4000 + 0x1ff

-- The characters before the first NUL.
unfoldable pub until_nul : List ℕ → List ℕ
until_nul [] = []
until_nul (x ∷ xs) = let rest = until_nul xs in if x == 0 then [] else x ∷ rest

-- `dirbuf`: the bytes behind its pointer, and its size.
pub record DirBuf : Type 0 where
  pub p : List ℕ
  pub size : ℕ

unfoldable pub dirbuf_add : Libfuse → DirBuf → List ℕ → ℕ → DirBuf
dirbuf_add lib b name ino =
    let n = until_nul name in
    let sz = b.size + lib.dirent_size (length n) in
    record { p = b.p ++ lib.add_dirent n ino sz; size = sz }

-- The loop of `fuseserver_readdir` over the entries.
unfoldable pub add_all : Libfuse → DirBuf → FileList → DirBuf
add_all lib b [] = b
add_all lib b ((id, name) ∷ fl) = add_all lib (dirbuf_add lib b name id) fl

-- `min(bufsize - off, maxsize)`, the macro.
abbrev pub limit : (bufsize off maxsize : ℕ) → ℕ
limit bufsize off maxsize = if ltb (bufsize - off) maxsize then bufsize - off else maxsize

unfoldable pub reply_buf_limited : List ℕ → (bufsize off maxsize : ℕ) → Reply
reply_buf_limited buf bufsize off maxsize =
    if ltb off bufsize
    then reply_buf (take (limit bufsize off maxsize) (drop off buf))
    else reply_buf []

-- `FUSE_SET_ATTR_SIZE & to_set`
abbrev pub sets_size : ℕ → Bool
sets_size to_set = to_set / 8 % 2 == 1

unfoldable pub fuseserver_setattr : (to_set : ℕ) → List Reply
fuseserver_setattr to_set =
    if sets_size to_set then reply_err enosys ∷ [] else reply_err enosys ∷ []

unfoldable pub fuseserver_read : (ino size off : ℕ) → List Reply
fuseserver_read ino size off = reply_err enosys ∷ []

unfoldable pub fuseserver_write : (ino : ℕ) → List ℕ → (off : ℕ) → List Reply
fuseserver_write ino buf off = reply_err enosys ∷ []

unfoldable pub fuseserver_open : (ino : ℕ) → List Reply
fuseserver_open ino = reply_open ∷ []

unfoldable pub fuseserver_mkdir : (parent : ℕ) → List ℕ → List Reply
fuseserver_mkdir parent name = reply_err enosys ∷ []

unfoldable pub fuseserver_unlink : (parent : ℕ) → List ℕ → List Reply
fuseserver_unlink parent name = reply_err enosys ∷ []

unfoldable pub fuseserver_statfs : List Reply
fuseserver_statfs = reply_statfs 255 512 ∷ []

module _ {S : Type 0} (ec : ExtentClient S) (mem : ℕ → ℕ) (u : Unset) where
  unfoldable pub getattr : ℕ → S → ℕ × Stat × S
  getattr inum s =
      let st = blank inum in
      let (r1, f, s1) = Yfs.getfile ec mem inum u.file s in
      let (r2, d, s2) = Yfs.getdir ec mem inum u.dir s in
      if isfile inum
      then (if r1 == Yfs.ok
          then (
            Yfs.ok,
            record st {
              mode = file_mode;
              nlink = 1;
              atime = f.atime;
              mtime = f.mtime;
              ctime = f.ctime;
              size = f.size;
            },
            s1,
          )
          else (r1, st, s1))
      else (if r2 == Yfs.ok
          then (
            Yfs.ok,
            record st {
              mode = dir_mode;
              nlink = 2;
              atime = d.atime;
              mtime = d.mtime;
              ctime = d.ctime;
            },
            s2,
          )
          else (r2, st, s2))

  unfoldable pub fuseserver_getattr : ℕ → S → List Reply × S
  fuseserver_getattr ino s =
      let (ret, st, s') = getattr ino s in
      if ret == Yfs.ok then (reply_attr st 0 ∷ [], s') else (reply_err enoent ∷ [], s')

  unfoldable pub fuseserver_createhelper : (rand parent : ℕ) → List ℕ → S → ℕ × Entry × S
  fuseserver_createhelper rand parent name s =
      let e : Entry = record {
        ino = u.ino;
        generation = 0;
        attr = u.attr;
        attr_timeout = 0;
        entry_timeout = 0;
      } in
      let (r, id, s1) = Yfs.createfile ec mem rand parent name u.id s in
      let (r2, st, s2) = getattr id s1 in
      if r == Yfs.ok
      then (if r2 == Yfs.ok then (Yfs.ok, record e { ino = id; attr = st }, s2) else (r2, e, s2))
      else (r, e, s1)

  unfoldable pub fuseserver_create : (rand parent : ℕ) → List ℕ → S → List Reply × S
  fuseserver_create rand parent name s =
      let (r, e, s') = fuseserver_createhelper rand parent name s in
      if r == Yfs.ok then (reply_create e ∷ [], s') else (reply_err enoent ∷ [], s')

  unfoldable pub fuseserver_mknod : (rand parent : ℕ) → List ℕ → S → List Reply × S
  fuseserver_mknod rand parent name s =
      let (r, e, s') = fuseserver_createhelper rand parent name s in
      if r == Yfs.ok then (reply_entry e ∷ [], s') else (reply_err enoent ∷ [], s')

  unfoldable pub fuseserver_lookup : (parent : ℕ) → List ℕ → S → List Reply × S
  fuseserver_lookup parent name s =
      let (r, id, s1) = Yfs.lookup ec mem parent name u.id s in
      let (r2, st, s2) = getattr id s1 in
      let e : Entry = record {
        ino = id;
        generation = u.generation;
        attr = st;
        attr_timeout = 0;
        entry_timeout = 0;
      } in
      if r == Yfs.ok
      then (if r2 == Yfs.ok then (reply_entry e ∷ [], s2) else (reply_err enoent ∷ [], s2))
      else (reply_err enoent ∷ [], s1)

  unfoldable pub fuseserver_readdir : Libfuse → (ino size off : ℕ) → S → List Reply × S
  fuseserver_readdir lib ino size off s =
      let empty : DirBuf = record { p = []; size = 0 } in
      let (r, fl, s') = Yfs.readdir ec mem ino [] s in
      let b = if r == Yfs.ok then add_all lib empty fl else empty in
      if isdir ino
      then (reply_buf_limited b.p b.size off size ∷ [], s')
      else (reply_err enotdir ∷ [], s)
