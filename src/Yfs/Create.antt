-- ===== src/Yfs/Create.antt =====
-- `yfs_client::createfile` of lab/yfs_client.cc, over a server that holds the directory.
use ds14_project.Base.{
  ℕ, ◌+◌, ◌^◌, ◌<◌, ◌≡◌, ◌≢◌, ◌∙◌, refl, ap, true, ◌==◌, arith, List, [], ◌∷◌, ◌++◌, length, Option,
  some, none, if◌then◌else◌, All-append,
}
use ds14_project.Extent
use ds14_project.Extent.{FileList, serialize, ExtentServer}
use ds14_project.Extent.Layout.{IsEntry}
use ds14_project.Extent.RoundTrip.{EndsNamed, deserialize_unnamed, length-last}
use ds14_project.Extent.Server.{contents, contents-put, put_status}
use ds14_project.Yfs.{
  isfile, ok, ioerr, direct, c_str, find_name, lookup, createfile, add_entry, new_inum, isdir,
}
use ds14_project.Yfs.Inum.{dir-ne-new, new_inum_kinds}
use ds14_project.Yfs.Directory.{
  IsDirectory, lookup_dir, readdir_dir, same_name_iff, c_str-Holds, lookup_unreadable,
}

EndsNamed-snoc :
    (fl : FileList) (id : ℕ) (name : List ℕ) → 0 < length name → EndsNamed (fl ++ (id, name) ∷ [])
EndsNamed-snoc [] id name h = h
EndsNamed-snoc (e ∷ []) id name h = h
EndsNamed-snoc (e ∷ f ∷ fl) id name h = EndsNamed-snoc (f ∷ fl) id name h

find_name-snoc :
    (name : List ℕ) (fl : FileList) (id : ℕ)
    → find_name name fl ≡ none
    → find_name name (fl ++ (id, name) ∷ []) ≡ some id
unfolding find_name
find_name-snoc name [] id h = rw ((same_name_iff name name).1 refl)
find_name-snoc name ((i, other) ∷ fl) id h = ground (arith, find_name-snoc name fl id)

-- The server behind `createfile` of a name that is free.
abbrev pub after_create : (rand p : ℕ) → List ℕ → FileList → ExtentServer → ExtentServer
after_create rand p name fl s =
    let id = new_inum rand 1 in
    (Extent.put id [] (Extent.put p (serialize (fl ++ (id, name) ∷ [])) s).1).1

module _ (mem : ℕ → ℕ) (s : ExtentServer) (p : ℕ) (fl : FileList) (d : IsDirectory s p fl) where
  -- `createfile` of a name that the directory has gives the number of that entry and leaves the
  -- server as it was.
  pub createfile_present :
      (rand : ℕ) (name : List ℕ) (id found : ℕ)
      → find_name name fl ≡ some found
      → createfile direct mem rand p name id s ≡ (ok, found, s)
  unfolding createfile
  createfile_present rand name id found e = rw (lookup_dir mem s p fl d name id, e)

  pub createfile_absent :
      (rand : ℕ) (name : List ℕ) (id : ℕ)
      → find_name name fl ≡ none
      → createfile direct mem rand p name id s
        ≡ (ok, new_inum rand 1, after_create rand p name fl s)
  unfolding createfile add_entry
  createfile_absent rand name id e = rw (
    lookup_dir mem s p fl d name id,
    e,
    readdir_dir mem s p fl d [],
    put_status p (serialize (fl ++ (new_inum rand 1, name) ∷ [])) s,
    put_status (new_inum rand 1) []
        (Extent.put p (serialize (fl ++ (new_inum rand 1, name) ∷ [])) s).1,
  )

-- What the extents hold behind a creation: the directory with the new entry, an empty new file,
-- and all else as before.
pub contents-after_create :
    (rand p : ℕ) (name : List ℕ) (fl : FileList) (s : ExtentServer) (j : ℕ)
    → contents (after_create rand p name fl s) j ≡ (
        if new_inum rand 1 == j
        then some []
        else (if p == j
            then some (serialize (fl ++ (new_inum rand 1, name) ∷ []))
            else contents s j))
contents-after_create rand p name fl s j =
    let id = new_inum rand 1 in
    let dir = serialize (fl ++ (id, name) ∷ []) in
    contents-put id [] (Extent.put p dir s).1 j
    ∙ ap (λ (o : Option (List ℕ)). if id == j then some [] else o) (contents-put p dir s j)

-- `createfile` of a name that the directory lacks, with a character and within the sizes, gives the
-- number that new_inum draws, which has the file bit, whether it was in use or not: the readable
-- directory, whose own number has no file bit, then has the entry behind the others and `lookup`
-- finds it, the file of that number is empty, and every other extent is as before.
pub createfile_new :
    (mem : ℕ → ℕ) (s : ExtentServer) (p : ℕ) (fl : FileList) (rand : ℕ) (name : List ℕ) (id : ℕ)
    → IsDirectory s p fl
    → isdir p ≡ true
    → find_name name fl ≡ none
    → 0 < length name
    → length (serialize (fl ++ (new_inum rand 1, name) ∷ [])) + 1 < 2 ^ 32
    → let new = new_inum rand 1 in
      let s' = after_create rand p name fl s in
      (createfile direct mem rand p name id s ≡ (ok, new, s'))
      × (isfile new ≡ true)
      × IsDirectory s' p (fl ++ (new, name) ∷ [])
      × (lookup direct mem p name id s' ≡ (ok, new, s'))
      × (contents s' new ≡ some [])
      × ((j : ℕ) → j ≢ p → j ≢ new → contents s' j ≡ contents s j)
createfile_new mem s p fl rand name id d dir free pos small =
    let new = new_inum rand 1 in
    let s' = after_create rand p name fl s in
    let entry : IsEntry (new, name) = record {
      id = omega (arith, (new_inum_kinds rand).2);
      name = omega (arith, length-last fl new name);
    } in
    let d' : IsDirectory s' p (fl ++ (new, name) ∷ []) = record {
      stored = ground (arith, contents-after_create rand p name fl s p, dir-ne-new p rand dir);
      small = small;
      entries = All-append IsEntry fl ((new, name) ∷ []) d.entries (entry, tt);
      named = EndsNamed-snoc fl new name pos;
    } in
    (
      createfile_absent mem s p fl d rand name id free,
      (new_inum_kinds rand).0,
      d',
      rw (lookup_dir mem s' p (fl ++ (new, name) ∷ []) d' name id, find_name-snoc name fl new free),
      ground (arith, contents-after_create rand p name fl s new),
      λ j h k. ground (arith, contents-after_create rand p name fl s j, h, k),
    )

-- In a readable directory, whose own number has no file bit, that has no entry of the empty name, and
-- within the sizes, `createfile` of the empty name succeeds and leaves the directory unreadable: right
-- behind it a `lookup` there, of any name, fails with IOERR.
pub createfile_unnamed :
    (mem : ℕ → ℕ) (s : ExtentServer) (p : ℕ) (fl : FileList) (rand id : ℕ) (other : List ℕ)
    → IsDirectory s p fl
    → isdir p ≡ true
    → find_name [] fl ≡ none
    → length (serialize (fl ++ (new_inum rand 1, []) ∷ [])) + 1 < 2 ^ 32
    → let s' = after_create rand p [] fl s in
      (createfile direct mem rand p [] id s ≡ (ok, new_inum rand 1, s'))
      × (lookup direct mem p other id s' ≡ (ioerr, id, s'))
createfile_unnamed mem s p fl rand id other d dir free small =
    let new = new_inum rand 1 in
    let s' = after_create rand p [] fl s in
    let stored : contents s' p ≡ some (serialize (fl ++ (new, []) ∷ [])) =
      ground (arith, contents-after_create rand p [] fl s p, dir-ne-new p rand dir) in
    (
      createfile_absent mem s p fl d rand [] id free,
      lookup_unreadable mem s' p id other (serialize (fl ++ (new, []) ∷ [])) stored (
          deserialize_unnamed (c_str mem (serialize (fl ++ (new, []) ∷ []))) [] fl new
            (c_str-Holds mem (serialize (fl ++ (new, []) ∷ []))) small d.entries),
    )
