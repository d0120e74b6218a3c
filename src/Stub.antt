-- ===== src/Stub.antt =====
-- The call stubs of lab/rpc/rpc.h: `rpcc::call` writes its arguments one after the other and
-- `call_m` reads the result; the handler that `rpcs::reg` registers reads the arguments, calls the
-- method and writes the result. All arities of each template are one function over a list.
pub mod Items
pub mod Calls
use ds14_project.Base.{ℕ, not, List, [], ◌∷◌, if◌then◌else◌}
use ds14_project.Marshall.{
  Marshall, Unmarshall, put_uchar, put_ushort, put_uint, put_ulonglong, put_string, get_uchar,
  get_ushort, get_uint, get_ulonglong, get_string, okdone,
}
use ds14_project.RpcConst.{unmarshal_args_failure, unmarshal_reply_failure, is_negative}

-- The types that the stubs are instantiated at; an `int` travels as its bit pattern.
pub data Kind : Type 0 where
  uchar ushort uint ulonglong string : Kind

pub data Item : Type 0 where
  uchar : ℕ → Item
  ushort : ℕ → Item
  uint : ℕ → Item
  ulonglong : ℕ → Item
  string : List ℕ → Item

unfoldable pub kind_of : Item → Kind
kind_of (Item.uchar x) = Kind.uchar
kind_of (Item.ushort x) = Kind.ushort
kind_of (Item.uint x) = Kind.uint
kind_of (Item.ulonglong x) = Kind.ulonglong
kind_of (Item.string s) = Kind.string

pub put_item : Item → Marshall → Marshall
put_item (Item.uchar x) m = put_uchar x m
put_item (Item.ushort x) m = put_ushort x m
put_item (Item.uint x) m = put_uint x m
put_item (Item.ulonglong x) m = put_ulonglong x m
put_item (Item.string s) m = put_string s m

-- `m << a1; m << a2; …`
unfoldable pub put_items : List Item → Marshall → Marshall
put_items [] m = m
put_items (a ∷ as') m = put_items as' (put_item a m)

pub get_item : Kind → Unmarshall → Item × Unmarshall
get_item Kind.uchar u = let (x, u') = get_uchar u in (Item.uchar x, u')
get_item Kind.ushort u = let (x, u') = get_ushort u in (Item.ushort x, u')
get_item Kind.uint u = let (x, u') = get_uint u in (Item.uint x, u')
get_item Kind.ulonglong u = let (x, u') = get_ulonglong u in (Item.ulonglong x, u')
get_item Kind.string u = let (s, u') = get_string u in (Item.string s, u')

-- `args >> a1; args >> a2; …`
pub get_items : List Kind → Unmarshall → List Item × Unmarshall
get_items [] u = ([], u)
get_items (k ∷ ks) u =
    let (a, u1) = get_item k u in let (rest, u2) = get_items ks u1 in (a ∷ rest, u2)

-- What `rpcs::reg` registers: the method takes the arguments and the served object, and gives the
-- status, the result and the object after the call.
pub record Handler (S : Type 0) : Type 0 where
  pub params : List Kind
  pub meth : List Item → S → ℕ × List Item × S

-- `h1::fn`
pub handler_fn : {S : Type 0} → Handler S → Unmarshall → Marshall → S → ℕ × Marshall × S
handler_fn h args ret s =
    let (as', args') = get_items h.params args in
    if not (okdone args')
    then (unmarshal_args_failure, ret, s)
    else (let (b, r, s') = h.meth as' s in (b, put_items r ret, s'))

-- `rpcc::call_m` behind `call1`: the status it gave, and the reply that it left in `u`; the
-- variable `r` stays empty where nothing is read into it.
unfoldable pub call_m : List Kind → ℕ → Unmarshall → ℕ × List Item
call_m result intret u =
    if is_negative intret
    then (intret, [])
    else (let (r, u') = get_items result u in
        if not (okdone u') then (unmarshal_reply_failure, r) else (intret, r))
