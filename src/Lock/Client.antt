-- ===== src/Lock/Client.antt =====
-- lab/lock_client.cc: the lock client's operations as calls. `none` is a failed assertion, and `junk`
-- is what the variable for the result held.
use ds14_project.Base.{ℕ, [], ◌∷◌, Option, some, none, ◌==◌, if◌then◌else◌}
use ds14_project.Stub.{Item, Kind}
use ds14_project.Session.{Network, Peers, rpc_call, uint_or}

-- `lock_protocol::rpc_numbers`
abbrev pub acquire_proc : ℕ
acquire_proc = 0x7001

abbrev pub release_proc : ℕ
release_proc = 0x7002

abbrev pub stat_proc : ℕ
stat_proc = 0x7004

-- The arguments: the client's number, which is its nonce, and the lock.
module _ {S : Type 0} (w : Network) where
  unfoldable pub call_lock : (proc : ℕ) → (lid junk : ℕ) → Peers S → Option (ℕ × Peers S)
  call_lock proc lid junk p =
      let args = Item.uint p.0.clt_nonce ∷ Item.ulonglong lid ∷ [] in
      let (ret, r, p') = rpc_call w proc args (Kind.uint ∷ []) p in
      if ret == 0 then some (uint_or junk r, p') else none

  unfoldable pub client_stat : (lid junk : ℕ) → Peers S → Option (ℕ × Peers S)
  client_stat lid junk p = call_lock stat_proc lid junk p

  unfoldable pub client_acquire : (lid junk : ℕ) → Peers S → Option (ℕ × Peers S)
  client_acquire lid junk p = call_lock acquire_proc lid junk p

  unfoldable pub client_release : (lid junk : ℕ) → Peers S → Option (ℕ × Peers S)
  client_release lid junk p = call_lock release_proc lid junk p
