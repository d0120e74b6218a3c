-- ===== src/RpcClient/XidWindow/Below.antt =====
-- The numbers that the window of lab/rpc/rpc.cc holds, bounded from above.
use ds14_project.Base.{ℕ, ◌+◌, ◌<◌, List, [], ◌∷◌, ◌++◌, All, All-append, arith}
use ds14_project.RpcClient.XidWindow.{
  front, insert_xid, pop_below, compress_loop, compress, update_xid_rep,
}

-- The numbers of a window stay below a bound.
abbrev pub Below : ℕ → List ℕ → Type 0
Below n = All (λ x. x < n)

module _ (n : ℕ) where
  insert_xid-Below : (xid : ℕ) (w : List ℕ) → xid < n → Below n w → Below n (insert_xid xid w)
  unfolding insert_xid
  insert_xid-Below xid [] h b = (h, tt)
  insert_xid-Below xid (y ∷ w) h b = ground (arith, insert_xid-Below xid w h b.1)

  pop_below-Below : (y : ℕ) (w : List ℕ) → Below n w → Below n (pop_below y w)
  unfolding pop_below
  pop_below-Below y [] b = tt
  pop_below-Below y (x ∷ w) b = ground (arith, pop_below-Below y w b.1)

  compress_loop-Below :
      (before w : List ℕ) → Below n before → Below n w → Below n (compress_loop before w)
  unfolding compress_loop
  compress_loop-Below before [] b c = b
  compress_loop-Below before (y ∷ w) b (cy, c) =
      compress_loop-Below (pop_below y before ++ y ∷ []) w
        (All-append (λ x. x < n) (pop_below y before) (y ∷ []) (pop_below-Below y before b)
          (cy, tt))
        c

  compress-Below : (w : List ℕ) → Below n w → Below n (compress w)
  unfolding compress
  compress-Below [] b = tt
  compress-Below (x ∷ w) (b, c) = compress_loop-Below (x ∷ []) w (b, tt) c

  pub update_xid_rep-Below :
      (xid : ℕ) (w : List ℕ) → xid < n → Below n w → Below n (update_xid_rep xid w)
  unfolding update_xid_rep
  update_xid_rep-Below xid [] h b = tt
  update_xid_rep-Below xid (x ∷ w) h b =
      ground (arith, compress-Below (insert_xid xid (x ∷ w)) (insert_xid-Below xid (x ∷ w) h b))

pub Below-suc : (n : ℕ) (w : List ℕ) → Below n w → Below (n + 1) w
Below-suc n [] b = tt
Below-suc n (x ∷ w) (b, c) = (omega (arith, b), Below-suc n w c)

pub front-Below : (n : ℕ) (w : List ℕ) → 0 < n → Below n w → front w < n
unfolding front
front-Below n [] h b = h
front-Below n (x ∷ w) h b = b.0
