-- ===== src/RpcServer/ReplyWindow.antt =====
-- `rpcs::checkduplicate_and_update` and `rpcs::add_reply` of lab/rpc/rpc.cc, with `reply_t` and
-- `rpcstate_t` of lab/rpc/rpc.h: the window of replies that the server keeps for each client.
pub mod Entries
pub mod AtMostOnce
pub mod Limits
pub mod Delivered
use ds14_project.Base.{
  ℕ, Bool, true, false, List, [], ◌∷◌, ◌++◌, leb, ◌==◌, if◌then◌else◌, Option, some, none, lookup,
  insert,
}

-- `buf` and `sz` are the bytes of the stored reply; none before it is there.
pub record Reply : Type 0 where
  pub xid : ℕ
  pub cb_present : Bool
  pub buf : List ℕ

abbrev pub fresh_reply : ℕ → Reply
fresh_reply xid = record { xid = xid; cb_present = false; buf = [] }

pub data RpcState : Type 0 where
  fresh inprogress done forgotten : RpcState

abbrev pub ReplyWindow : Type 0
ReplyWindow = List (ℕ × List Reply)

-- The loop over a client's replies: what it returns, with `*b`, and the replies that it leaves. It
-- erases acknowledged replies up to the one that matches.
pub scan : (xid xid_rep : ℕ) → List Reply → Option (RpcState × List ℕ) × List Reply
scan xid xid_rep [] = (none, [])
scan xid xid_rep (r ∷ rs) =
    let (found, rest) = scan xid xid_rep rs in
    if r.xid == xid
    then (if leb r.xid xid_rep
        then (some (forgotten, []), rs)
        else (if r.cb_present
            then (some (done, r.buf), r ∷ rs)
            else (some (inprogress, []), r ∷ rs)))
    else (if leb r.xid xid_rep then (found, rest) else (found, r ∷ rest))

-- `dispatch` has made the client's entry in the window by then.
abbrev pub replies_of : ℕ → ReplyWindow → List Reply
replies_of clt w = elim (lookup clt w) [ none ↦ [] | some rs ↦ rs ]

pub checkduplicate_and_update :
    (clt xid xid_rep : ℕ) → ReplyWindow → (RpcState × List ℕ) × ReplyWindow
checkduplicate_and_update clt xid xid_rep w =
    let (found, rest) = scan xid xid_rep (replies_of clt w) in
    elim found [
      | some result ↦ (result, insert clt rest w)
      | none ↦ ((fresh, []), insert clt (rest ++ fresh_reply xid ∷ []) w)
    ]

-- The reply is copied into the first entry of its number, if there is one.
pub store : ℕ → List ℕ → List Reply → List Reply
store xid b [] = []
store xid b (r ∷ rs) =
    if r.xid == xid then record r { cb_present = true; buf = b } ∷ rs else r ∷ store xid b rs

pub add_reply : (clt xid : ℕ) → List ℕ → ReplyWindow → ReplyWindow
add_reply clt xid b w = insert clt (store xid b (replies_of clt w)) w

-- `if (reply_window_.find(clt) == end()) reply_window_[clt]`
pub register_client : ℕ → ReplyWindow → ReplyWindow
register_client clt w = elim (lookup clt w) [ none ↦ insert clt [] w | some rs ↦ w ]

-- `rpcs::free_reply_window`
pub free_reply_window : ReplyWindow → ReplyWindow
free_reply_window w = []
