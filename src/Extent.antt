-- ===== src/Extent.antt =====
-- lab/extent_protocol.h and lab/extent_server.cc: the directory format, the status codes and the
-- extent server. Machine words are laid out little-endian, as on the x86 hosts of the code.
pub mod Layout
pub mod RoundTrip
pub mod Server
use ds14_project.Base.{
  ℕ, zero, suc, ◌+◌, ◌-◌, ◌*◌, ◌/◌, ◌%◌, ◌^◌, Bool, true, false, List, [], ◌∷◌, ◌++◌, length, leb,
  ltb, ◌==◌, if◌then◌else◌, lookup, insert, has_key, some, none,
}
use ds14_project.Marshall.{read_at}

-- `xxstatus`; a call may also give an RPC failure, another number.
abbrev pub ok : ℕ
ok = 0

abbrev pub noent : ℕ
noent = 2

abbrev pub ioerr : ℕ
ioerr = 3

-- `filelist`: an inode number and a name, in bytes.
abbrev pub FileList : Type 0
FileList = List (ℕ × List ℕ)

-- The object representation of an `unsigned int` and of an `extentid_t`.
abbrev pub le32 : ℕ → List ℕ
le32 x = (x % 256) ∷ (x / 2 ^ 8 % 256) ∷ (x / 2 ^ 16 % 256) ∷ (x / 2 ^ 24 % 256) ∷ []

abbrev pub le64 : ℕ → List ℕ
le64 x = le32 (x % 2 ^ 32) ++ le32 (x / 2 ^ 32)

abbrev pub entry_bytes : ℕ × List ℕ → List ℕ
entry_bytes (id, name) = le64 id ++ (le32 (length name % 2 ^ 32) ++ name)

abbrev pub entries_bytes : FileList → List ℕ
entries_bytes [] = []
entries_bytes (e ∷ fl) = entry_bytes e ++ entries_bytes fl

unfoldable pub serialize : FileList → List ℕ
serialize fl = le32 (length fl % 2 ^ 32) ++ entries_bytes fl

-- `*(unsigned int*)(cbuf + p)` and `*(extentid_t*)(cbuf + p)`
abbrev pub load32 : (ℕ → ℕ) → ℕ → ℕ
load32 c p = c p + c (p + 1) * 2 ^ 8 + c (p + 2) * 2 ^ 16 + c (p + 3) * 2 ^ 24

abbrev pub load64 : (ℕ → ℕ) → ℕ → ℕ
load64 c p = load32 c p + load32 c (p + 4) * 2 ^ 32

-- The loop, with the rounds left first. `p` wraps as an `unsigned int`, and the name is read before
-- the test that it lies within the buffer.
unfoldable pub deserialize_loop :
    (ℕ → ℕ) → (size_buf size_fl rounds i p : ℕ) → FileList → Bool × FileList
deserialize_loop c size_buf size_fl zero i p fl = (true, fl)
deserialize_loop c size_buf size_fl (suc n) i p fl =
    let id = load64 c p in
    let p1 = (p + 8) % 2 ^ 32 in
    let size_name = load32 c p1 in
    let p2 = (p1 + 4) % 2 ^ 32 in
    let name = read_at c p2 size_name in
    let p3 = (p2 + size_name) % 2 ^ 32 in
    let last : ℕ = if i == size_fl - 1 then 1 else 0 in
    let rest = deserialize_loop c size_buf size_fl n (i + 1) p3 (fl ++ (id, name) ∷ []) in
    if leb size_buf p1
    then (false, fl)
    else (if leb size_buf p2
        then (false, fl)
        else (if leb ((size_buf + last) % 2 ^ 32) p3 then (false, fl) else rest))

-- `deserialize` of the characters at `c`, `size` of them; the list is appended to also on failure.
pub deserialize : (ℕ → ℕ) → ℕ → FileList → Bool × FileList
deserialize c size fl =
    let size_buf = size % 2 ^ 32 in
    let size_fl = load32 c 0 in
    if ltb size_buf (size_fl * 12 + 4)
    then (false, fl)
    else deserialize_loop c size_buf size_fl size_fl 0 4 fl

pub record Attr : Type 0 where
  pub atime : ℕ
  pub mtime : ℕ
  pub ctime : ℕ
  pub size : ℕ

-- `attr()`
abbrev pub no_attr : Attr
no_attr = record { atime = 0; mtime = 0; ctime = 0; size = 0 }

pub record ExtentServer : Type 0 where
  pub blobs : List (ℕ × List ℕ)
  pub attrs : List (ℕ × Attr)

-- The constructor: extent 1 is the empty root directory.
unfoldable pub init : ExtentServer
unfolding insert
init = record { blobs = insert 1 (serialize []) []; attrs = insert 1 no_attr [] }

unfoldable pub put : ℕ → List ℕ → ExtentServer → ℕ × ExtentServer
put id buf s = (
  ok,
  record {
    blobs = insert id buf s.blobs;
    attrs = if has_key id s.attrs then s.attrs else insert id no_attr s.attrs;
  },
)

-- `buf` is the caller's string, which a failure leaves alone; `_data[id]` is there.
unfoldable pub get : ℕ → List ℕ → ExtentServer → ℕ × List ℕ
get id buf s = elim (lookup id s.blobs) [ none ↦ (noent, buf) | some found ↦ (ok, found) ]

unfoldable pub getattr : ℕ → Attr → ExtentServer → ℕ × Attr
getattr id a s = elim (lookup id s.attrs) [ none ↦ (noent, a) | some found ↦ (ok, found) ]

-- Not implemented in the source.
pub remove : ℕ → ExtentServer → ℕ × ExtentServer
remove id s = (ioerr, s)
