-- ===== src/Stub/Calls.antt =====
-- The stubs of client and server against each other: a packed request and a packed reply, read.
use ds14_project.Base.{
  ℕ, ◌+◌, ◌-◌, ◌^◌, ◌<◌, ◌≡◌, refl, sym, ap, ◌∙◌, List, [], ◌∷◌, ◌++◌, length, length-append,
  append_assoc, arith, true, false, All, map,
}
use ds14_project.Marshall.{
  Marshall, Unmarshall, ReqHeader, ReplyHeader, marshall, unmarshall, take_in, okdone,
  pack_req_header, pack_reply_header, unpack_req_header, rpc_header_sz,
}
use ds14_project.Marshall.Reads.{Holds, Holds-split, write_at-Holds, skip}
use ds14_project.Marshall.RoundTrip.{
  IsReqHeader, unpack_req_header_lem, pack_req_header-bytes, pack_req_header-ind,
  pack_reply_header-bytes, pack_reply_header-ind, write_at-Holds_behind, req_words, reply_words,
}
use ds14_project.RpcConst.{unmarshal_args_failure, is_negative}
use ds14_project.Stub.{Item, kind_of, put_items, get_items, Handler, handler_fn, call_m}
use ds14_project.Stub.Items.{encode, encode_all, IsItem, put_items-Appends, get_items_lem}

-- The buffer of `marshall m; m << a1; …` under a request header.
abbrev pub request : (ℕ → ℕ) → ReqHeader → List Item → Marshall
request mem h xs = pack_req_header h (put_items xs (marshall mem))

abbrev pub reply : (ℕ → ℕ) → ReplyHeader → List Item → Marshall
reply mem h xs = pack_reply_header h (put_items xs (marshall mem))

-- Arguments that a pdu can carry: each fits its type, and the sizes are ints.
pub record IsPayload (xs : List Item) : Type 0 where
  pub items : All IsItem xs
  pub size : length (encode_all xs) < 2 ^ 31 - rpc_header_sz

module _ (mem : ℕ → ℕ) (xs : List Item) where
  body-Holds : Holds (put_items xs (marshall mem)).buf rpc_header_sz (encode_all xs)
  body-Holds =
      rw (put_items-Appends xs (marshall mem)).bytes
        (write_at-Holds (encode_all xs) mem rpc_header_sz)

  body-ind : (put_items xs (marshall mem)).ind ≡ rpc_header_sz + length (encode_all xs)
  body-ind = (put_items-Appends xs (marshall mem)).head

  request-Holds :
      (h : ReqHeader)
      → Holds (request mem h xs).buf 4 (req_words h)
        × Holds (request mem h xs).buf rpc_header_sz (encode_all xs)
  request-Holds h = rw (pack_req_header-bytes h (put_items xs (marshall mem))) (
    write_at-Holds (req_words h) (put_items xs (marshall mem)).buf 4,
    write_at-Holds_behind (req_words h) _ 4 24 (encode_all xs) (omega arith) body-Holds,
  )

  pub reply-Holds :
      (h : ReplyHeader)
      → Holds (reply mem h xs).buf 4 (reply_words h)
        × Holds (reply mem h xs).buf rpc_header_sz (encode_all xs)
  reply-Holds h = rw (pack_reply_header-bytes h (put_items xs (marshall mem))) (
    write_at-Holds (reply_words h) (put_items xs (marshall mem)).buf 4,
    write_at-Holds_behind (reply_words h) _ 4 24 (encode_all xs) (omega arith) body-Holds,
  )

  request-ind : (h : ReqHeader) → (request mem h xs).ind ≡ rpc_header_sz + length (encode_all xs)
  request-ind h = pack_req_header-ind h (put_items xs (marshall mem)) ∙ body-ind

  pub reply-ind : (h : ReplyHeader) → (reply mem h xs).ind ≡ rpc_header_sz + length (encode_all xs)
  reply-ind h = pack_reply_header-ind h (put_items xs (marshall mem)) ∙ body-ind

-- The reader behind the header of a buffer.
abbrev pub behind_header : Marshall → Unmarshall
behind_header m = record { buf = m.buf; sz = m.ind; ind = rpc_header_sz; is_ok = true }

-- A server that unpacks the header of a packed request, of 32-bit numbers, gets that header, and its
-- reader then stands at the arguments.
pub request_header :
    (mem : ℕ → ℕ) (h : ReqHeader) (xs : List Item)
    → IsReqHeader h
    → unpack_req_header (unmarshall (request mem h xs).buf (request mem h xs).ind)
      ≡ (h, behind_header (request mem h xs))
request_header mem h xs v =
    unpack_req_header_lem (unmarshall (request mem h xs).buf (request mem h xs).ind) h
      (request-Holds mem xs h).0 (omega (arith, request-ind mem xs h)) v

-- A reader at the start of the arguments reads them all, and stops at the end.
pub read_all :
    (u : Unmarshall) (xs : List Item)
    → IsPayload xs
    → u.is_ok ≡ true
    → u.ind ≡ rpc_header_sz
    → u.sz ≡ rpc_header_sz + length (encode_all xs)
    → Holds u.buf rpc_header_sz (encode_all xs)
    → (get_items (map kind_of xs) u ≡ (xs, skip (length (encode_all xs)) u))
      × (okdone (skip (length (encode_all xs)) u) ≡ true)
unfolding okdone
read_all u xs p fine start size h = (
  get_items_lem xs u (omega (arith, p.size)) fine p.items (rw start h) (omega arith),
  ground (arith, fine, start, size),
)

-- The status and the reply of a handler that has taken its arguments.
abbrev pub answer : {S : Type 0} → Marshall → ℕ × List Item × S → ℕ × Marshall × S
answer ret (b, r, s) = (b, put_items r ret, s)

request_reads :
    (mem : ℕ → ℕ) (h : ReqHeader) (xs : List Item)
    → IsPayload xs
    → let u = behind_header (request mem h xs) in
      (get_items (map kind_of xs) u ≡ (xs, skip (length (encode_all xs)) u))
      × (okdone (skip (length (encode_all xs)) u) ≡ true)
request_reads mem h xs p =
    read_all (behind_header (request mem h xs)) xs p refl refl (request-ind mem xs h)
      (request-Holds mem xs h).1

-- A handler whose parameters are the types of the arguments that a client packed calls its method
-- on exactly those arguments, and answers with the method's status, result and new object.
pub handler_fn-request :
    {S : Type 0} (mem : ℕ → ℕ) (h : ReqHeader) (xs : List Item) (f : Handler S) (ret : Marshall)
    (s : S)
    → IsPayload xs
    → f.params ≡ map kind_of xs
    → handler_fn f (behind_header (request mem h xs)) ret s ≡ answer ret (f.meth xs s)
unfolding handler_fn
handler_fn-request mem h xs f ret s p e = let (g, d) = request_reads mem h xs p in rw (e, g, d)

encode-pos : (a : Item) → 0 < length (encode a)
encode-pos (Item.uchar x) = omega arith
encode-pos (Item.ushort x) = omega arith
encode-pos (Item.uint x) = omega arith
encode-pos (Item.ulonglong x) = omega arith
encode-pos (Item.string s) = omega arith

encode_all-append : (xs ys : List Item) → encode_all (xs ++ ys) ≡ encode_all xs ++ encode_all ys
encode_all-append [] ys = refl
encode_all-append (x ∷ xs) ys =
    rw (encode_all-append xs ys) (sym (append_assoc (encode x) (encode_all xs) (encode_all ys)))

All-append_left : (xs ys : List Item) → All IsItem (xs ++ ys) → All IsItem xs
All-append_left [] ys h = tt
All-append_left (x ∷ xs) ys (h, hs) = (h, All-append_left xs ys hs)

-- A handler that is sent more arguments than it has parameters refuses the call, and its object
-- stays as it was.
pub handler_fn-extra :
    {S : Type 0} (mem : ℕ → ℕ) (h : ReqHeader) (xs : List Item) (y : Item) (ys : List Item)
    (f : Handler S) (ret : Marshall) (s : S)
    → IsPayload (xs ++ y ∷ ys)
    → f.params ≡ map kind_of xs
    → handler_fn f (behind_header (request mem h (xs ++ y ∷ ys))) ret s
      ≡ (unmarshal_args_failure, ret, s)
unfolding handler_fn okdone
handler_fn-extra mem h xs y ys f ret s p e =
    let all = xs ++ y ∷ ys in
    let u : Unmarshall = behind_header (request mem h all) in
    let split : encode_all all ≡ encode_all xs ++ encode_all (y ∷ ys) =
      encode_all-append xs (y ∷ ys) in
    let sizes = length-append (encode_all xs) (encode_all (y ∷ ys)) in
    let more = length-append (encode y) (encode_all ys) in
    let size : length (encode_all all) ≡ length (encode_all xs) + length (encode_all (y ∷ ys)) =
      ap length split ∙ sizes in
    let held =
      Holds-split u.buf rpc_header_sz (encode_all xs) (encode_all (y ∷ ys))
        (rw split at (request-Holds mem all h).1) in
    let g =
      get_items_lem xs u (omega (arith, request-ind mem all h, p.size)) refl
        (All-append_left xs (y ∷ ys) p.items) held.0 (omega (arith, request-ind mem all h, size)) in
    let d : okdone (skip (length (encode_all xs)) u) ≡ false =
      ground (arith, request-ind mem all h, size, more, encode-pos y) in
    rw (e, g, d)

-- The client gets the status and the result that the server packed into its reply, where the
-- status is no failure.
pub call_m-reply :
    (mem : ℕ → ℕ) (h : ReplyHeader) (xs : List Item)
    → IsPayload xs
    → is_negative h.ret ≡ false
    → call_m (map kind_of xs) h.ret (take_in (unmarshall (reply mem h xs).buf (reply mem h xs).ind))
      ≡ (h.ret, xs)
unfolding call_m take_in
call_m-reply mem h xs p fine =
    let u : Unmarshall = take_in (unmarshall (reply mem h xs).buf (reply mem h xs).ind) in
    let (g, d) =
      read_all u xs p (ground (arith, reply-ind mem xs h)) refl (reply-ind mem xs h)
        (reply-Holds mem xs h).1 in
    rw (fine, g, d)
