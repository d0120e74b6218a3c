-- ===== src/Fuse/Paging.antt =====
-- Reading a directory of lab/fuse.cc page by page.
use ds14_project.Base.{
  append-nil, length-drop, take-nil, drop-length, inl, inr, sym, Bool-cases, true, sym, drop-taken,
  Bool-cases, drop-add, ℕ, zero, suc, ◌+◌, ◌-◌, ◌*◌, ◌≤◌, ◌≡◌, ◌∙◌, refl, ap, List, [], ◌∷◌, ◌++◌,
  length, length-append, take, drop, take-add, take-length, ltb, arith,
}
use ds14_project.Extent.{ExtentServer, FileList}
use ds14_project.Yfs.{direct, isdir}
use ds14_project.Yfs.Directory.{IsDirectory, readdir_dir}
use ds14_project.Fuse.{
  Unset, fuseserver_readdir, Libfuse, DirBuf, Reply, reply_buf, reply_buf_limited, add_all,
  dirbuf_add, until_nul,
}

-- The bytes of a reply.
abbrev pub payload : Reply → List ℕ
payload (reply_buf b) = b
payload r = []

-- The pages from an offset on, each asked for at the end of the one before.
abbrev pub pages : List ℕ → (maxsize : ℕ) → (count off : ℕ) → List ℕ
pages buf maxsize zero off = []
pages buf maxsize (suc n) off =
    let b = payload (reply_buf_limited buf (length buf) off maxsize) in
    b ++ pages buf maxsize n (off + length b)

page_lem :
    (buf : List ℕ) (off maxsize : ℕ)
    → payload (reply_buf_limited buf (length buf) off maxsize) ≡ take maxsize (drop off buf)
unfolding reply_buf_limited
page_lem buf off maxsize = elim (Bool-cases (ltb off (length buf))) [
  | inr past ↦
      (let none_left = drop-length off buf (ground (arith, past)) in
        rw (past, none_left) (sym (take-nil maxsize)))
  | inl inside ↦ (elim (Bool-cases (ltb (length buf - off) maxsize)) [
    | inr long ↦ rw (inside, long)
    | inl short ↦
        (let left = length-drop off buf (ground (arith, inside)) in
          let small : length (drop off buf) ≤ length buf - off = omega (arith, left) in
          let smaller : length (drop off buf) ≤ maxsize = ground (arith, small, short) in
          rw (inside, short)
            (take-length (length buf - off) (drop off buf) small
              ∙ sym (take-length maxsize (drop off buf) smaller)))
  ])
]

pages_lem :
    (buf : List ℕ) (maxsize n off : ℕ) → pages buf maxsize n off ≡ take (n * maxsize) (drop off buf)
unfolding take
pages_lem buf maxsize zero off = let e : 0 * maxsize ≡ 0 = omega arith in rw e
pages_lem buf maxsize (suc n) off =
    let left = drop off buf in
    let b = take maxsize left in
    let e : suc n * maxsize ≡ maxsize + n * maxsize = omega arith in
    rw
      (
        page_lem buf off maxsize,
        pages_lem buf maxsize n (off + length b),
        drop-add off (length b) buf,
        drop-taken maxsize left,
        e,
      )
      (sym (take-add maxsize (n * maxsize) left))

-- The size that the buffer is said to have is the size that it has, if libfuse writes an entry as long
-- as it says.
add_all-size :
    (lib : Libfuse) (fl : FileList) (b : DirBuf)
    → ((name : List ℕ) (ino room : ℕ)
        → length (lib.add_dirent name ino room) ≡ lib.dirent_size (length name))
    → length b.p ≡ b.size
    → length (add_all lib b fl).p ≡ (add_all lib b fl).size
unfolding add_all dirbuf_add
add_all-size lib [] b h e = e
add_all-size lib ((id, name) ∷ fl) b h e =
    let n = until_nul name in
    let sz = b.size + lib.dirent_size (length n) in
    add_all-size lib fl (dirbuf_add lib b name id) h
      (omega (arith, length-append b.p (lib.add_dirent n id sz), h n id sz, e))

-- The whole of a directory as `fuseserver_readdir` lays it out.
abbrev pub listing : Libfuse → FileList → List ℕ
listing lib fl = (add_all lib (record { p = []; size = 0 }) fl).p

abbrev pub replies_payload : List Reply → List ℕ
replies_payload [] = []
replies_payload (r ∷ rs) = payload r ++ replies_payload rs

-- A reader that asks for pages of one size, each behind the bytes that it has.
module _ (mem : ℕ → ℕ) (u : Unset) (lib : Libfuse) (ino maxsize : ℕ) where
  abbrev pub read_pages : (count off : ℕ) → ExtentServer → List ℕ × ExtentServer
  read_pages zero off s = ([], s)
  read_pages (suc n) off s =
      let (rs, s') = fuseserver_readdir direct mem u lib ino maxsize off s in
      let b = replies_payload rs in
      let (rest, s2) = read_pages n (off + length b) s' in (b ++ rest, s2)

  module _ (s : ExtentServer) (fl : FileList) (d : IsDirectory s ino fl) (dir : isdir ino ≡ true)
      (h : (name : List ℕ) (i room : ℕ)
        → length (lib.add_dirent name i room) ≡ lib.dirent_size (length name)) where
    readdir_page :
        (off : ℕ)
        → fuseserver_readdir direct mem u lib ino maxsize off s
          ≡ (reply_buf_limited (listing lib fl) (length (listing lib fl)) off maxsize ∷ [], s)
    unfolding fuseserver_readdir
    readdir_page off = rw (
      readdir_dir mem s ino fl d [],
      dir,
      ← add_all-size lib fl (record { p = []; size = 0 }) h refl,
    )

    read_pages_lem : (n off : ℕ) → read_pages n off s ≡ (pages (listing lib fl) maxsize n off, s)
    read_pages_lem zero off = refl
    read_pages_lem (suc n) off = rw (
      readdir_page off,
      append-nil,
      read_pages_lem n (
          off
          + length
              (payload (reply_buf_limited (listing lib fl) (length (listing lib fl)) off maxsize))),
    )

    -- Reading an extent that holds a directory in pages of any size, each behind the bytes so far, gives
    -- the entries' bytes in order, whole and without a gap or a repetition, once the pages are enough,
    -- if libfuse writes as many bytes for an entry as it says; the server stays as it was.
    pub readdir_pages :
        (n : ℕ) → length (listing lib fl) ≤ n * maxsize → read_pages n 0 s ≡ (listing lib fl, s)
    unfolding drop
    readdir_pages n enough =
        read_pages_lem n 0
        ∙ ap (λ b. (b, s))
            (pages_lem (listing lib fl) maxsize n 0
              ∙ take-length (n * maxsize) (listing lib fl) enough)
