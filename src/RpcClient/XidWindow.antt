-- ===== src/RpcClient/XidWindow.antt =====
-- `rpcc::update_xid_rep` of lab/rpc/rpc.cc: the window of reply numbers that have arrived. Its front
-- is what the client reports to the server as `xid_rep`.
pub mod Laws
pub mod Below
use ds14_project.Base.{ℕ, ◌+◌, ◌%◌, ◌^◌, List, [], ◌∷◌, ◌++◌, ltb, leb, ◌==◌, if◌then◌else◌}

-- `xid_rep_window_.front()`
unfoldable pub front : List ℕ → ℕ
front [] = 0
front (x ∷ w) = x

-- Before the first greater element, or at the end.
pub insert_xid : ℕ → List ℕ → List ℕ
insert_xid xid [] = xid ∷ []
insert_xid xid (y ∷ w) = if ltb xid y then xid ∷ y ∷ w else y ∷ insert_xid xid w

-- `while (front() + 1 == *it) pop_front()`, on the elements before `it`; once these are gone the
-- front is `*it` itself, and the test fails.
pub pop_below : ℕ → List ℕ → List ℕ
pop_below y [] = []
pop_below y (x ∷ xs) = let rest = pop_below y xs in if (x + 1) % 2 ^ 32 == y then rest else x ∷ xs

-- The loop under `compress`, with what stands before `it` and what stands from it on.
pub compress_loop : List ℕ → List ℕ → List ℕ
compress_loop before [] = before
compress_loop before (y ∷ w) = compress_loop (pop_below y before ++ y ∷ []) w

pub compress : List ℕ → List ℕ
compress [] = []
compress (x ∷ w) = compress_loop (x ∷ []) w

-- The window is never empty: it begins as the list of 0 alone.
pub update_xid_rep : ℕ → List ℕ → List ℕ
update_xid_rep xid [] = []
update_xid_rep xid (front ∷ w) =
    if leb xid front then front ∷ w else compress (insert_xid xid (front ∷ w))
