-- ===== src/Yfs.antt =====
-- lab/yfs_client.h and lab/yfs_client.cc: the file system client, over the extent client as an
-- interface. `mem` is what the memory holds behind the characters of a string.
pub mod Inum
pub mod Directory
pub mod Create
use Prim.Native.Nat.{bit_or}
use ds14_project.Base.{
  ℕ, ◌+◌, ◌-◌, ◌*◌, ◌/◌, ◌%◌, ◌^◌, Bool, true, false, not, ◌&&◌, List, [], ◌∷◌, ◌++◌, length, ◌==◌,
  if◌then◌else◌, Option, some, none,
}
use ds14_project.Marshall.{write_at}
use ds14_project.Extent.{Attr, no_attr, FileList, serialize, deserialize, ExtentServer}
use ds14_project.Extent

-- `yfs_client::xxstatus`, whose numbers are those of the extent protocol.
abbrev pub ok : ℕ
ok = 0

abbrev pub noent : ℕ
noent = 2

abbrev pub ioerr : ℕ
ioerr = 3

-- The calls of `extent_client` that the client makes, on the state behind them.
pub record ExtentClient (S : Type 0) : Type 0 where
  pub get : ℕ → List ℕ → S → ℕ × List ℕ × S
  pub getattr : ℕ → Attr → S → ℕ × Attr × S
  pub put : ℕ → List ℕ → S → ℕ × S

-- A client whose calls reach the server.
abbrev pub direct : ExtentClient ExtentServer
direct = record {
  get = λ id buf s. (let (r, b) = Extent.get id buf s in (r, b, s));
  getattr = λ id a s. (let (r, b) = Extent.getattr id a s in (r, b, s));
  put = Extent.put;
}

-- `inum & 0x80000000`
unfoldable pub isfile : ℕ → Bool
isfile inum = inum / 2 ^ 31 % 2 == 1

unfoldable pub isdir : ℕ → Bool
isdir inum = not (isfile inum)

-- `(rand() % 0x7FFFFFFF) | (isfile << 31)`, with what `rand` gave.
pub new_inum : (rand isfile : ℕ) → ℕ
new_inum rand isfile = bit_or (rand % 0x7fff_ffff) (isfile * 2 ^ 31 % 2 ^ 32)

pub record FileInfo : Type 0 where
  pub size : ℕ
  pub atime : ℕ
  pub mtime : ℕ
  pub ctime : ℕ

pub record DirInfo : Type 0 where
  pub atime : ℕ
  pub mtime : ℕ
  pub ctime : ℕ

-- `buf.c_str()`: the characters, a NUL, and the memory behind.
abbrev pub c_str : (ℕ → ℕ) → List ℕ → ℕ → ℕ
c_str mem buf = write_at mem 0 (buf ++ 0 ∷ [])

-- `==` of two strings.
unfoldable pub same_name : List ℕ → List ℕ → Bool
same_name [] [] = true
same_name [] (y ∷ ys) = false
same_name (x ∷ xs) [] = false
same_name (x ∷ xs) (y ∷ ys) = x == y && same_name xs ys

-- The loop of `lookup` over the directory.
unfoldable pub find_name : List ℕ → FileList → Option ℕ
find_name name [] = none
find_name name ((id, other) ∷ fl) = if same_name other name then some id else find_name name fl

module _ {S : Type 0} (ec : ExtentClient S) (mem : ℕ → ℕ) where
  unfoldable pub getfile : ℕ → FileInfo → S → ℕ × FileInfo × S
  getfile inum fin s =
      let (r, a, s') = ec.getattr inum no_attr s in
      if r == 0
      then (ok, record { size = a.size; atime = a.atime; mtime = a.mtime; ctime = a.ctime }, s')
      else (ioerr, fin, s')

  unfoldable pub getdir : ℕ → DirInfo → S → ℕ × DirInfo × S
  getdir inum din s =
      let (r, a, s') = ec.getattr inum no_attr s in
      if r == 0
      then (ok, record { atime = a.atime; mtime = a.mtime; ctime = a.ctime }, s')
      else (ioerr, din, s')

  unfoldable pub lookup : ℕ → List ℕ → ℕ → S → ℕ × ℕ × S
  lookup p_id name id s =
      let (r, buf, s') = ec.get p_id [] s in
      let (good, fl) = deserialize (c_str mem buf) (length buf) [] in
      if r == 0
      then (if good
          then elim (find_name name fl) [ some found ↦ (ok, found, s') | none ↦ (noent, id, s') ]
          else (ioerr, id, s'))
      else (ioerr, id, s')

  unfoldable pub readdir : ℕ → FileList → S → ℕ × FileList × S
  readdir id fl s =
      let (r, buf, s') = ec.get id [] s in
      let (good, fl') = deserialize (c_str mem buf) (length buf) fl in
      if r == 0 then (if good then (ok, fl', s') else (ioerr, fl', s')) else (ioerr, fl, s')

  -- What `createfile` does once the name is known to be free, and the directory is read.
  unfoldable pub add_entry : (rand p_id : ℕ) → List ℕ → FileList → S → ℕ × ℕ × S
  add_entry rand p_id name fl s =
      let id = new_inum rand 1 in
      let (r1, s1) = ec.put p_id (serialize (fl ++ (id, name) ∷ [])) s in
      let (r2, s2) = ec.put id [] s1 in
      if r1 == 0 then (if r2 == 0 then (ok, id, s2) else (ioerr, id, s2)) else (ioerr, id, s1)

  unfoldable pub createfile : (rand p_id : ℕ) → List ℕ → ℕ → S → ℕ × ℕ × S
  unfolding add_entry
  createfile rand p_id name id s =
      let (r, id1, s1) = lookup p_id name id s in
      let (r2, fl, s2) = readdir p_id [] s1 in
      if r == ok
      then (ok, id1, s1)
      else (if r == noent
          then (if r2 == ok then add_entry rand p_id name fl s2 else (ioerr, id1, s2))
          else (ioerr, id1, s1))
