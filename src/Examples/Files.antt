-- ===== src/Examples/Files.antt =====
-- Files and directories at concrete inputs: the root directory with one file of one letter.
use ds14_project.Base.{
  ℕ, ◌+◌, ◌^◌, ◌<◌, ◌≡◌, ◌≢◌, refl, ◌==◌, ◌++◌, List, [], ◌∷◌, some, none, lookup, arith, All, true,
  length, has_key, if◌then◌else◌,
}
use ds14_project.Marshall.{write_at}
use ds14_project.Marshall.Reads.{write_at-Holds}
use ds14_project.Extent
use ds14_project.Extent.{
  FileList, serialize, deserialize, ExtentServer, Attr, no_attr, put, getattr,
}
use ds14_project.Extent.Layout.{IsEntry}
use ds14_project.Extent.RoundTrip.{deserialize-serialize}
use ds14_project.Extent.Server.{contents, getattr_put}
use ds14_project.Yfs.{
  ok, noent, ioerr, direct, find_name, same_name, isfile, isdir, new_inum, createfile,
}
use ds14_project.Yfs
use ds14_project.Yfs.Inum.{new_inum_kinds}
use ds14_project.Yfs.Directory.{IsDirectory}
use ds14_project.Yfs.Create.{after_create, createfile_new, createfile_unnamed}

abbrev zeros : ℕ → ℕ
zeros i = 0

-- A file number, and the name "a".
abbrev one_file : FileList
one_file = (2147483650, 97 ∷ []) ∷ []

-- The extents with the root directory.
abbrev server : ExtentServer
server = record { blobs = (1, serialize one_file) ∷ []; attrs = (1, no_attr) ∷ [] }

one_file-entries : All IsEntry one_file
one_file-entries = (record { id = omega arith; name = omega arith }, tt)

one_file-small : length (serialize one_file) + 1 < 2 ^ 32
unfolding serialize
one_file-small = omega arith

root : IsDirectory server 1 one_file
unfolding lookup
root = record {
  stored = refl;
  small = one_file-small;
  entries = one_file-entries;
  named = omega arith;
}

deserialize-serialize_example :
    deserialize (write_at zeros 0 (serialize one_file)) (length (serialize one_file)) []
    ≡ (true, [] ++ one_file)
deserialize-serialize_example =
    deserialize-serialize (write_at zeros 0 (serialize one_file)) [] one_file
      (write_at-Holds (serialize one_file) zeros 0) one_file-small one_file-entries (omega arith)

unnamed-small : (id : ℕ) → length (serialize (one_file ++ (id, []) ∷ [])) + 1 < 2 ^ 32
unfolding serialize
unnamed-small id = omega arith

root_is_dir : isdir 1 ≡ true
unfolding isdir isfile
root_is_dir = refl

abbrev name_b : List ℕ
name_b = 98 ∷ []

no_b : find_name name_b one_file ≡ none
unfolding find_name same_name
no_b = refl

no_unnamed : find_name [] one_file ≡ none
unfolding find_name same_name
no_unnamed = refl

some_a : find_name (97 ∷ []) one_file ≡ some 2147483650
unfolding find_name same_name
some_a = refl

b-small : (id : ℕ) → length (serialize (one_file ++ (id, name_b) ∷ [])) + 1 < 2 ^ 32
unfolding serialize
b-small id = omega arith

createfile_new_example :
    let new = new_inum 5 1 in
    let s' = after_create 5 1 name_b one_file server in
    (createfile direct zeros 5 1 name_b 0 server ≡ (ok, new, s'))
    × (isfile new ≡ true)
    × IsDirectory s' 1 (one_file ++ (new, name_b) ∷ [])
    × (Yfs.lookup direct zeros 1 name_b 0 s' ≡ (ok, new, s'))
    × (contents s' new ≡ some [])
    × ((j : ℕ) → j ≢ 1 → j ≢ new → contents s' j ≡ contents server j)
createfile_new_example =
    createfile_new zeros server 1 one_file 5 name_b 0 root root_is_dir no_b (omega arith)
      (b-small (new_inum 5 1))

createfile_unnamed_example :
    let s' = after_create 5 1 [] one_file server in
    (createfile direct zeros 5 1 [] 0 server ≡ (ok, new_inum 5 1, s'))
    × (Yfs.lookup direct zeros 1 name_b 0 s' ≡ (ioerr, 0, s'))
createfile_unnamed_example =
    createfile_unnamed zeros server 1 one_file 5 0 name_b root root_is_dir no_unnamed
      (unnamed-small (new_inum 5 1))

new_inum_kinds_example :
    (isfile (new_inum 5 1) ≡ true)
    × (isdir (new_inum 5 0) ≡ true)
    × (new_inum 5 1 < 2 ^ 32)
    × (new_inum 5 0 < 2 ^ 31)
new_inum_kinds_example = new_inum_kinds 5

getattr_put_example : getattr 1 no_attr (put 2 (1 ∷ []) server).1 ≡ (
    if has_key 2 server.attrs
    then getattr 1 no_attr server
    else (if 2 == 1 then (Extent.ok, no_attr) else getattr 1 no_attr server))
getattr_put_example = getattr_put 2 (1 ∷ []) no_attr server 1
