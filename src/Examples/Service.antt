-- ===== src/Examples/Service.antt =====
-- A new extent server, its client, and the file system over them.
use ds14_project.Base.{
  ℕ, ◌*◌, ◌%◌, ◌^◌, ◌<◌, ◌≤◌, ◌≡◌, ◌≢◌, refl, true, List, [], ◌∷◌, ◌++◌, length, none, lookup,
  insert, arith,
}
use ds14_project.Extent
use ds14_project.Extent.{Attr, ExtentServer, FileList, no_attr, serialize}
use ds14_project.RpcClient
use ds14_project.Session
use ds14_project.Session.{Network, Peers}
use ds14_project.Yfs
use ds14_project.Yfs.{direct, new_inum, isdir, find_name, same_name, isfile, FileInfo, DirInfo}
use ds14_project.Yfs.Create.{after_create}
use ds14_project.Yfs.Directory.{IsDirectory, readdir_dir}
use ds14_project.ExtentService.{extent_smain, over_rpc}
use ds14_project.ExtentService.Linked.{IsServed, max_blob}
use ds14_project.ExtentService.Start.{start_served}
use ds14_project.ExtentService.Agreement.{Agrees, createfile-over_rpc}
use ds14_project.Fuse.{
  Libfuse, Unset, Stat, blank, reply_entry, reply_create, file_mode, fuseserver_create,
  fuseserver_lookup, add_all, dirbuf_add, until_nul,
}
use ds14_project.Fuse.Paging.{readdir_pages, read_pages, listing}
use ds14_project.Fuse.Requests.{Request, handle, handle-once, create-lookup}

abbrev zeros : ℕ → ℕ
zeros i = 0

abbrev pub network : Network
network = record { mem = λ i. 1; rmem = λ i. 2; net = λ i. 3; conn = 4 }

pub nonzero : 7 % 2 ^ 32 ≢ 0
nonzero e = omega (arith, e)

abbrev bound_to : (old : ℕ) → ℕ × Peers ExtentServer
bound_to old = Session.bind network old (RpcClient.init true 7, extent_smain 9 no_attr 5)

start_served_example :
    (p : Peers ExtentServer) × (bound_to 0 ≡ (0, p)) × IsServed no_attr 5 4 p Extent.init
start_served_example = start_served network 4 7 9 5 no_attr 0 nonzero (omega arith)

-- The peers behind the `bind` of that client.
new_peers : (p : Peers ExtentServer) × (bound_to 0 ≡ (0, p)) × IsServed no_attr 5 4 p Extent.init
new_peers = start_served network 4 7 9 5 no_attr 0 nonzero (omega arith)

root : IsDirectory Extent.init 1 []
unfolding Extent.init lookup insert serialize
root = record { stored = refl; small = omega arith; entries = tt; named = tt }

abbrev name_a : List ℕ
name_a = 97 ∷ []

entry_size : (id : ℕ) → length (serialize ((id, name_a) ∷ [])) < 100
unfolding serialize
entry_size id = omega arith

fits_call :
    length
      (serialize ((Yfs.readdir direct zeros 1 [] Extent.init).1 ++ (new_inum 5 1, name_a) ∷ []))
    < max_blob
fits_call =
    rw (readdir_dir zeros Extent.init 1 [] root []) (omega (arith, entry_size (new_inum 5 1)))

createfile-over_rpc_example :
    Agrees no_attr 5 0
      (Yfs.createfile (over_rpc network) zeros 5 1 name_a 0 new_peers.0)
      (Yfs.createfile direct zeros 5 1 name_a 0 Extent.init)
createfile-over_rpc_example =
    createfile-over_rpc network no_attr 5 0 zeros 5 1 0 name_a new_peers.0 Extent.init new_peers.2
      (omega arith) (omega arith) fits_call

abbrev unset : Unset
unset = record {
  id = 11;
  generation = 12;
  ino = 13;
  attr = blank 14;
  file = record { size = 0; atime = 0; mtime = 0; ctime = 0 };
  dir = record { atime = 0; mtime = 0; ctime = 0 };
}

-- A libfuse whose entries are the characters of the name.
abbrev libfuse : Libfuse
libfuse = record { dirent_size = λ n. n; add_dirent = λ name ino room. name }

handle-once_example :
    length (handle direct zeros unset libfuse (Request.create_in 5 1 name_a) Extent.init).0 ≡ 1
handle-once_example =
    handle-once direct zeros unset libfuse (Request.create_in 5 1 name_a) Extent.init

root_is_dir : isdir 1 ≡ true
unfolding isdir isfile
root_is_dir = refl

no_a : find_name name_a [] ≡ none
unfolding find_name
no_a = refl

create-lookup_example :
    let s' = after_create 5 1 name_a [] Extent.init in
    (st : Stat) × (st.ino ≡ new_inum 5 1)
    × (st.mode ≡ file_mode)
    × (fuseserver_create direct zeros unset 5 1 name_a Extent.init ≡ (
      reply_create (record {
        ino = new_inum 5 1;
        generation = 0;
        attr = st;
        attr_timeout = 0;
        entry_timeout = 0;
      })
          ∷ [],
      s',
    ))
    × (fuseserver_lookup direct zeros unset 1 name_a s' ≡ (
      reply_entry (record {
        ino = new_inum 5 1;
        generation = 12;
        attr = st;
        attr_timeout = 0;
        entry_timeout = 0;
      })
          ∷ [],
      s',
    ))
create-lookup_example =
    create-lookup zeros unset Extent.init 1 [] 5 name_a root root_is_dir no_a (omega arith)
      (omega (arith, entry_size (new_inum 5 1)))

-- A directory of two files, in pages of one byte.
abbrev two_files : FileList
two_files = (2147483650, 97 ∷ []) ∷ (2147483651, 98 ∷ 99 ∷ []) ∷ []

abbrev disk : ExtentServer
disk = record { blobs = (1, serialize two_files) ∷ []; attrs = (1, no_attr) ∷ [] }

two_files-dir : IsDirectory disk 1 two_files
unfolding lookup serialize
two_files-dir = record {
  stored = refl;
  small = omega arith;
  entries = (
    record { id = omega arith; name = omega arith },
    (record { id = omega arith; name = omega arith }, tt),
  );
  named = omega arith;
}

listing_size : length (listing libfuse two_files) ≤ 3 * 1
unfolding add_all until_nul dirbuf_add
listing_size = omega arith

readdir_pages_example :
    read_pages zeros unset libfuse 1 1 3 0 disk ≡ (listing libfuse two_files, disk)
readdir_pages_example =
    readdir_pages zeros unset libfuse 1 1 disk two_files two_files-dir root_is_dir
      (λ name i room. refl) 3 listing_size
