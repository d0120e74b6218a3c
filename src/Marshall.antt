-- ===== src/Marshall.antt =====
-- lab/rpc/marshall.h and the marshalling part of lab/rpc/rpc.cc: the `marshall` buffer and the
-- `unmarshall` reader. A `char *` is a function from offsets to bytes, so that whatever malloc and
-- realloc leave in the memory is arbitrary; a number is its bit pattern.
pub mod Writes
pub mod Reads
pub mod RoundTrip
pub mod Containers
use Prim.Native.Nat.{bit_or}
use ds14_project.Base.{
  ℕ, zero, suc, ◌+◌, ◌*◌, ◌/◌, ◌%◌, ◌^◌, ◌-◌, Bool, true, false, ◌&&◌, List, [], ◌∷◌, ltb, leb,
  ◌==◌, if◌then◌else◌, length,
}

-- A write through a `char *`.
abbrev pub update : (ℕ → ℕ) → ℕ → ℕ → ℕ → ℕ
update f p b i = if i == p then b else f i

-- memcpy of a list of bytes to an offset.
unfoldable pub write_at : (ℕ → ℕ) → ℕ → List ℕ → ℕ → ℕ
write_at f p [] = f
write_at f p (b ∷ bs) = write_at (update f p b) (p + 1) bs

-- `std::string(buf + p, n)`
unfoldable pub read_at : (ℕ → ℕ) → ℕ → ℕ → List ℕ
read_at f p zero = []
read_at f p (suc n) = f p ∷ read_at f (p + 1) n

pub record ReqHeader : Type 0 where
  pub xid : ℕ
  pub proc : ℕ
  pub clt_nonce : ℕ
  pub srv_nonce : ℕ
  pub xid_rep : ℕ

pub record ReplyHeader : Type 0 where
  pub xid : ℕ
  pub ret : ℕ

abbrev pub default_rpc_sz : ℕ
default_rpc_sz = 1024

-- sizeof(rpc_sz_t), and the larger header of 5 ints behind it; RPC_CHECKSUMMING is not set.
abbrev pub rpc_sz_size : ℕ
rpc_sz_size = 4

abbrev pub rpc_header_sz : ℕ
rpc_header_sz = 24

pub record Marshall : Type 0 where
  pub buf : ℕ → ℕ
  pub capa : ℕ
  pub ind : ℕ

-- The constructor, over the memory that malloc returns.
abbrev pub marshall : (ℕ → ℕ) → Marshall
marshall mem = record { buf = mem; capa = default_rpc_sz; ind = rpc_header_sz }

unfoldable pub rawbyte : ℕ → Marshall → Marshall
rawbyte x m = record {
  buf = update m.buf m.ind x;
  capa = if leb m.capa m.ind then m.capa * 2 else m.capa;
  ind = m.ind + 1;
}

unfoldable pub rawbytes : List ℕ → Marshall → Marshall
rawbytes p m = record {
  buf = write_at m.buf m.ind p;
  capa =
      if ltb m.capa (m.ind + n) then (if ltb n m.capa then 2 * m.capa else m.capa + n) else m.capa;
  ind = m.ind + n;
}
  where
    n : ℕ
    n = length p

pub put_uchar : ℕ → Marshall → Marshall
put_uchar x m = rawbyte x m

pub put_char : ℕ → Marshall → Marshall
put_char x m = put_uchar (x % 2 ^ 8) m

pub put_ushort : ℕ → Marshall → Marshall
put_ushort x m = rawbyte (x % 256) (rawbyte (x / 2 ^ 8 % 256) m)

pub put_short : ℕ → Marshall → Marshall
put_short x m = put_ushort (x % 2 ^ 16) m

unfoldable pub put_uint : ℕ → Marshall → Marshall
put_uint x m =
    rawbyte (x % 256)
      (rawbyte (x / 2 ^ 8 % 256) (rawbyte (x / 2 ^ 16 % 256) (rawbyte (x / 2 ^ 24 % 256) m)))

pub put_int : ℕ → Marshall → Marshall
put_int x m = put_uint (x % 2 ^ 32) m

unfoldable pub put_string : List ℕ → Marshall → Marshall
put_string s m = rawbytes s (put_uint (length s % 2 ^ 32) m)

pub put_ulonglong : ℕ → Marshall → Marshall
put_ulonglong x m = put_uint (x % 2 ^ 32) (put_uint (x / 2 ^ 32 % 2 ^ 32) m)

pub pack : ℕ → Marshall → Marshall
pack x m =
    rawbyte (x % 256)
      (rawbyte (x / 2 ^ 8 % 256) (rawbyte (x / 2 ^ 16 % 256) (rawbyte (x / 2 ^ 24 % 256) m)))

pub pack_req_header : ReqHeader → Marshall → Marshall
pack_req_header h m =
    let packed = pack h.xid_rep (
      pack h.srv_nonce
        (pack h.clt_nonce (pack h.proc (pack h.xid (record m { ind = rpc_sz_size }))))) in
    record packed { ind = m.ind }

pub pack_reply_header : ReplyHeader → Marshall → Marshall
pack_reply_header h m =
    let packed = pack h.ret (pack h.xid (record m { ind = rpc_sz_size })) in
    record packed { ind = m.ind }

pub record Unmarshall : Type 0 where
  pub buf : ℕ → ℕ
  pub sz : ℕ
  pub ind : ℕ
  pub is_ok : Bool

-- `unmarshall(char *b, int sz)`
abbrev pub unmarshall : (ℕ → ℕ) → ℕ → Unmarshall
unmarshall b sz = record { buf = b; sz = sz; ind = 0; is_ok = true }

-- A `char` widened to `unsigned int` carries its sign along.
abbrev pub widen_char : ℕ → ℕ
widen_char c = if ltb c 128 then c else c + (2 ^ 32 - 256)

-- `_ind`, `_sz` and `_capa` are ints: the buffers that are modelled stay below 2 ^ 31 bytes, as those
-- of the pdus do, which MAX_PDU bounds.
pub get_rawbyte : Unmarshall → ℕ × Unmarshall
get_rawbyte u =
    if leb u.sz u.ind
    then (0, record u { is_ok = false })
    else (widen_char (u.buf u.ind), record u { ind = u.ind + 1 })

-- The test `(_ind + n) > (unsigned)_sz` is made modulo 2 ^ 32.
pub get_rawbytes : ℕ → Unmarshall → List ℕ × Unmarshall
get_rawbytes n u =
    if ltb u.sz ((u.ind + n) % 2 ^ 32)
    then ([], record u { is_ok = false })
    else (read_at u.buf u.ind n, record u { ind = (u.ind + n) % 2 ^ 32 })

pub get_uchar : Unmarshall → ℕ × Unmarshall
get_uchar u = let (c, u') = get_rawbyte u in (c % 2 ^ 8, u')

pub get_ushort : Unmarshall → ℕ × Unmarshall
get_ushort u =
    let (a, u1) = get_rawbyte u in
    let (b, u2) = get_rawbyte u1 in (bit_or (a % 256 * 2 ^ 8) (b % 256), u2)

pub get_uint : Unmarshall → ℕ × Unmarshall
get_uint u =
    let (a, u1) = get_rawbyte u in
    let (b, u2) = get_rawbyte u1 in
    let (c, u3) = get_rawbyte u2 in
    let (d, u4) = get_rawbyte u3 in
    let high = bit_or (a % 256 * 2 ^ 24) (b % 256 * 2 ^ 16) in
    (bit_or (bit_or high (c % 256 * 2 ^ 8)) (d % 256), u4)

-- The low byte, as a bit pattern.
pub get_char : Unmarshall → ℕ × Unmarshall
get_char u = let (c, u') = get_rawbyte u in (c % 2 ^ 8, u')

pub get_short : Unmarshall → ℕ × Unmarshall
get_short u =
    let (a, u1) = get_rawbyte u in
    let (b, u2) = get_rawbyte u1 in (bit_or (a % 256 * 2 ^ 8) (b % 256), u2)

pub get_int : Unmarshall → ℕ × Unmarshall
get_int u =
    let (a, u1) = get_rawbyte u in
    let (b, u2) = get_rawbyte u1 in
    let (c, u3) = get_rawbyte u2 in
    let (d, u4) = get_rawbyte u3 in
    let high = bit_or (a % 256 * 2 ^ 24) (b % 256 * 2 ^ 16) in
    (bit_or (bit_or high (c % 256 * 2 ^ 8)) (d % 256), u4)

pub get_ulonglong : Unmarshall → ℕ × Unmarshall
get_ulonglong u =
    let (h, u1) = get_uint u in let (l, u2) = get_uint u1 in (bit_or l (h * 2 ^ 32), u2)

pub get_string : Unmarshall → List ℕ × Unmarshall
get_string u = let (sz, u1) = get_uint u in if u1.is_ok then get_rawbytes sz u1 else ([], u1)

-- `unpack` reads an int just as `>>` does.
pub unpack : Unmarshall → ℕ × Unmarshall
unfolding get_uint
unpack u = get_uint u

pub unpack_req_header : Unmarshall → ReqHeader × Unmarshall
unpack_req_header u =
    let (xid, u1) = unpack (record u { ind = rpc_sz_size }) in
    let (proc, u2) = unpack u1 in
    let (clt, u3) = unpack u2 in
    let (srv, u4) = unpack u3 in
    let (rep, u5) = unpack u4 in
    (
      record { xid = xid; proc = proc; clt_nonce = clt; srv_nonce = srv; xid_rep = rep },
      record u5 { ind = rpc_header_sz },
    )

pub unpack_reply_header : Unmarshall → ReplyHeader × Unmarshall
unpack_reply_header u =
    let (xid, u1) = unpack (record u { ind = rpc_sz_size }) in
    let (ret, u2) = unpack u1 in
    (record { xid = xid; ret = ret }, record u2 { ind = rpc_header_sz })

-- The contents of `another`, read from behind the header on.
unfoldable pub take_in : Unmarshall → Unmarshall
take_in another = record {
  buf = another.buf;
  sz = another.sz;
  ind = rpc_header_sz;
  is_ok = leb rpc_header_sz another.sz;
}

unfoldable pub okdone : Unmarshall → Bool
okdone u = u.is_ok && (u.ind == u.sz)
