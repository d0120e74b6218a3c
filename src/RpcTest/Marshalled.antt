-- ===== src/RpcTest/Marshalled.antt =====
-- `testmarshall` of lab/rpc/rpctest.cc.
use ds14_project.Base.{
  ℕ, ◌+◌, ◌%◌, ◌^◌, ◌<◌, ◌≤◌, ◌≡◌, ◌∙◌, refl, true, ◌==◌, List, [], ◌∷◌, ◌++◌, length, arith, eq→==,
}
use ds14_project.Marshall.{
  Marshall, Unmarshall, ReqHeader, marshall, unmarshall, put_int, put_ulonglong, put_string,
  pack_req_header, okdone, rpc_header_sz, rpc_sz_size, write_at,
}
use ds14_project.Marshall.Writes.{
  Appends, Appends-trans, be32, be64, be_string, put_int-Appends, put_ulonglong-Appends,
  put_string-Appends,
}
use ds14_project.Marshall.Reads.{
  Holds, Holds-split, write_at-Holds, write_at-Holds_before, get_int-get_uint, get_uint_lem,
  get_ulonglong_lem, get_string_lem, skip,
}
use ds14_project.Marshall.RoundTrip.{
  IsReqHeader, req_words, pack_req_header-bytes, pack_req_header-ind, unpack_req_header_lem,
}
use ds14_project.RpcTest.{testmarshall, same_bytes, same_header}

same_bytes_refl : (s : List ℕ) → same_bytes s s ≡ true
same_bytes_refl [] = refl
same_bytes_refl (x ∷ s) = rw (eq→== x x refl, same_bytes_refl s)

same_header_refl : (h : ReqHeader) → same_header h h ≡ true
same_header_refl h = ground arith

written-Holds : (f g : ℕ → ℕ) (p : ℕ) (bs : List ℕ) → f ≡ write_at g p bs → Holds f p bs
written-Holds f g p bs e = rw e (write_at-Holds bs g p)

kept-Holds :
    (f g : ℕ → ℕ) (p q : ℕ) (bs cs : List ℕ)
    → f ≡ write_at g p bs
    → q + length cs ≤ p
    → Holds g q cs
    → Holds f q cs
kept-Holds f g p q bs cs e h k = rw e (write_at-Holds_before bs g p q cs h k)

Holds-at : (f : ℕ → ℕ) (p q : ℕ) (bs : List ℕ) → p ≡ q → Holds f p bs → Holds f q bs
Holds-at f p q bs e h = rw (← e) h

-- The bytes behind the header.
body : (i l : ℕ) → List ℕ → List ℕ
body i l s = be32 (i % 2 ^ 32) ++ (be64 l ++ be_string s)

module _ (mem : ℕ → ℕ) (rh : ReqHeader) (i l : ℕ) (s : List ℕ) where
  abbrev packed : Marshall
  packed = pack_req_header rh (marshall mem)

  abbrev filled : Marshall
  filled = put_string s (put_ulonglong l (put_int i packed))

  filled-Appends : Appends packed filled (body i l s)
  unfolding body
  filled-Appends =
      let m1 = put_int i packed in
      let m2 = put_ulonglong l m1 in
      Appends-trans packed m1 filled (be32 (i % 2 ^ 32)) (be64 l ++ be_string s)
        (put_int-Appends i packed)
        (Appends-trans m1 m2 filled (be64 l) (be_string s) (put_ulonglong-Appends l m1)
          (put_string-Appends s m2))

  filled-size : filled.ind ≡ rpc_header_sz + 4 + 8 + length s + 4
  unfolding body
  filled-size = omega (arith, filled-Appends.head, pack_req_header-ind rh (marshall mem))

  head-Holds : Holds filled.buf rpc_sz_size (req_words rh)
  head-Holds =
      kept-Holds filled.buf packed.buf packed.ind rpc_sz_size (body i l s) (req_words rh)
        filled-Appends.bytes (omega (arith, pack_req_header-ind rh (marshall mem)))
        (written-Holds packed.buf mem rpc_sz_size (req_words rh)
          (pack_req_header-bytes rh (marshall mem)))

  body-Holds : Holds filled.buf rpc_header_sz (body i l s)
  body-Holds =
      Holds-at filled.buf packed.ind rpc_header_sz (body i l s)
        (pack_req_header-ind rh (marshall mem))
        (written-Holds filled.buf packed.buf packed.ind (body i l s) filled-Appends.bytes)

  -- `testmarshall` finds the header and every item as they were packed, and nothing behind them,
  -- for any header and items that fit their types, in a pdu below 2^32 bytes, and whatever the memory
  -- of the buffer held before.
  pub testmarshall_passes :
      IsReqHeader rh
      → i < 2 ^ 32
      → l < 2 ^ 64
      → length s + 100 < 2 ^ 32
      → testmarshall mem rh i l s ≡ true
  unfolding testmarshall body okdone
  testmarshall_passes v hi hl hs =
      let u : Unmarshall = unmarshall filled.buf filled.ind in
      let n = filled-size in
      let u0 : Unmarshall = record u { ind = rpc_header_sz } in
      let (b1, b23) =
        Holds-split filled.buf rpc_header_sz (be32 (i % 2 ^ 32)) (be64 l ++ be_string s)
          body-Holds in
      let (b2, b3) = Holds-split filled.buf (rpc_header_sz + 4) (be64 l) (be_string s) b23 in
      let same_i : i % 2 ^ 32 ≡ i = omega (arith, hi) in
      let r0 = unpack_req_header_lem u rh head-Holds (omega (arith, n)) v in
      let r1 =
        get_int-get_uint u0 ∙ get_uint_lem u0 (i % 2 ^ 32) b1 (omega (arith, n)) (omega arith) in
      let r2 = get_ulonglong_lem (skip 4 u0) l b2 (omega (arith, n)) hl in
      let r3 =
        get_string_lem (skip 8 (skip 4 u0)) s b3 (omega (arith, n)) (omega (arith, n, hs)) refl in
      let at_end = skip (4 + length s) (skip 8 (skip 4 u0)) in
      let ended : okdone at_end ≡ true = ground (arith, n) in
      let start : (packed.ind == rpc_header_sz) ≡ true =
        eq→== _ _ (pack_req_header-ind rh (marshall mem)) in
      let size : (filled.ind == rpc_header_sz + 4 + 8 + length s + 4) ≡ true = eq→== _ _ n in
      let first : (i % 2 ^ 32 == i) ≡ true = eq→== _ _ same_i in
      rw
        (
          testmarshall,
          r0,
          r1,
          r2,
          r3,
          start,
          size,
          ended,
          first,
          same_header_refl rh,
          eq→== l l refl,
          same_bytes_refl s,
        )
        refl
