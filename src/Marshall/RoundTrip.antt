-- ===== src/Marshall/RoundTrip.antt =====
-- The request and reply headers of lab/rpc/marshall.h, written and then read.
use ds14_project.Base.{ℕ, ◌+◌, ◌^◌, ◌≤◌, ◌<◌, ◌≡◌, refl, ◌∙◌, List, [], ◌∷◌, ◌++◌, length, arith}
use ds14_project.Marshall.{
  Marshall, Unmarshall, ReqHeader, ReplyHeader, update, write_at, pack, pack_req_header,
  pack_reply_header, unpack, unpack_req_header, unpack_reply_header, rpc_sz_size, rpc_header_sz,
}
use ds14_project.Marshall.Writes.{Appends, Appends-trans, be32, pack-Appends}
use ds14_project.Marshall.Reads.{Holds, Holds-split, get_uint_lem, skip}

abbrev pub words : List ℕ → List ℕ
words [] = []
words (x ∷ xs) = be32 x ++ words xs

pack_all : List ℕ → Marshall → Marshall
pack_all [] m = m
pack_all (x ∷ xs) m = pack_all xs (pack x m)

pack_all-Appends : (xs : List ℕ) (m : Marshall) → Appends m (pack_all xs m) (words xs)
unfolding pack_all write_at
pack_all-Appends [] m = record { head = omega arith; bytes = refl; fits = λ h. h }
pack_all-Appends (x ∷ xs) m =
    Appends-trans m (pack x m) _ (be32 x) (words xs) (pack-Appends x m)
      (pack_all-Appends xs (pack x m))

abbrev pub req_words : ReqHeader → List ℕ
req_words h = words (h.xid ∷ h.proc ∷ h.clt_nonce ∷ h.srv_nonce ∷ h.xid_rep ∷ [])

abbrev pub reply_words : ReplyHeader → List ℕ
reply_words h = words (h.xid ∷ h.ret ∷ [])

pub pack_req_header-bytes :
    (h : ReqHeader) (m : Marshall)
    → (pack_req_header h m).buf ≡ write_at m.buf rpc_sz_size (req_words h)
unfolding pack_req_header pack_all
pack_req_header-bytes h m =
    (pack_all-Appends (h.xid ∷ h.proc ∷ h.clt_nonce ∷ h.srv_nonce ∷ h.xid_rep ∷ [])
      (record m { ind = rpc_sz_size })).bytes

pub pack_req_header-ind : (h : ReqHeader) (m : Marshall) → (pack_req_header h m).ind ≡ m.ind
unfolding pack_req_header
pack_req_header-ind h m = refl

pub pack_reply_header-bytes :
    (h : ReplyHeader) (m : Marshall)
    → (pack_reply_header h m).buf ≡ write_at m.buf rpc_sz_size (reply_words h)
unfolding pack_reply_header pack_all
pack_reply_header-bytes h m =
    (pack_all-Appends (h.xid ∷ h.ret ∷ []) (record m { ind = rpc_sz_size })).bytes

pub pack_reply_header-ind : (h : ReplyHeader) (m : Marshall) → (pack_reply_header h m).ind ≡ m.ind
unfolding pack_reply_header
pack_reply_header-ind h m = refl

pub record IsReqHeader (h : ReqHeader) : Type 0 where
  pub xid : h.xid < 2 ^ 32
  pub proc : h.proc < 2 ^ 32
  pub clt_nonce : h.clt_nonce < 2 ^ 32
  pub srv_nonce : h.srv_nonce < 2 ^ 32
  pub xid_rep : h.xid_rep < 2 ^ 32

pub record IsReplyHeader (h : ReplyHeader) : Type 0 where
  pub xid : h.xid < 2 ^ 32
  pub ret : h.ret < 2 ^ 32

unpack_lem :
    (u : Unmarshall) (x : ℕ)
    → Holds u.buf u.ind (be32 x)
    → u.ind + 4 ≤ u.sz
    → x < 2 ^ 32
    → unpack u ≡ (x, skip 4 u)
unfolding unpack
unpack_lem u x h fits small = get_uint_lem u x h fits small

at : ℕ → Unmarshall → Unmarshall
at n u = record u { ind = n }

-- One word, and where the next begins.
next_word :
    (u : Unmarshall) (x p : ℕ) (xs : List ℕ)
    → Holds u.buf p (words (x ∷ xs))
    → p + 4 ≤ u.sz
    → x < 2 ^ 32
    → (unpack (at p u) ≡ (x, at (p + 4) u)) × Holds u.buf (p + 4) (words xs)
unfolding at
next_word u x p xs h fits small =
    let (l, r) = Holds-split u.buf p (be32 x) (words xs) h in
    (unpack_lem (record u { ind = p }) x l fits small, r)

pub unpack_req_header_lem :
    (u : Unmarshall) (h : ReqHeader)
    → Holds u.buf rpc_sz_size (req_words h)
    → rpc_header_sz ≤ u.sz
    → IsReqHeader h
    → unpack_req_header u ≡ (h, record u { ind = rpc_header_sz })
unfolding unpack_req_header at
unpack_req_header_lem u h m fits v =
    let (e1, m1) =
      next_word u h.xid 4 (h.proc ∷ h.clt_nonce ∷ h.srv_nonce ∷ h.xid_rep ∷ []) m (omega arith)
        v.xid in
    let (e2, m2) =
      next_word u h.proc 8 (h.clt_nonce ∷ h.srv_nonce ∷ h.xid_rep ∷ []) m1 (omega arith) v.proc in
    let (e3, m3) =
      next_word u h.clt_nonce 12 (h.srv_nonce ∷ h.xid_rep ∷ []) m2 (omega arith) v.clt_nonce in
    let (e4, m4) = next_word u h.srv_nonce 16 (h.xid_rep ∷ []) m3 (omega arith) v.srv_nonce in
    let (e5, m5) = next_word u h.xid_rep 20 [] m4 (omega arith) v.xid_rep in rw (e1, e2, e3, e4, e5)

pub unpack_reply_header_lem :
    (u : Unmarshall) (h : ReplyHeader)
    → Holds u.buf rpc_sz_size (reply_words h)
    → rpc_header_sz ≤ u.sz
    → IsReplyHeader h
    → unpack_reply_header u ≡ (h, record u { ind = rpc_header_sz })
unfolding unpack_reply_header at
unpack_reply_header_lem u h m fits v =
    let (e1, m1) = next_word u h.xid 4 (h.ret ∷ []) m (omega arith) v.xid in
    let (e2, m2) = next_word u h.ret 8 [] m1 (omega arith) v.ret in rw (e1, e2)

-- Bytes from behind the written range on stay.
pub write_at_behind :
    (bs : List ℕ) (f : ℕ → ℕ) (p i : ℕ) → p + length bs ≤ i → write_at f p bs i ≡ f i
unfolding write_at
write_at_behind [] f p i h = refl
write_at_behind (b ∷ bs) f p i h =
    write_at_behind bs (update f p b) (p + 1) i (omega arith) ∙ ground arith

pub write_at-Holds_behind :
    (bs : List ℕ) (f : ℕ → ℕ) (p q : ℕ) (cs : List ℕ)
    → p + length bs ≤ q
    → Holds f q cs
    → Holds (write_at f p bs) q cs
write_at-Holds_behind bs f p q [] h k = tt
write_at-Holds_behind bs f p q (c ∷ cs) h (e, k) =
    (write_at_behind bs f p q h ∙ e, write_at-Holds_behind bs f p (q + 1) cs (omega arith) k)
