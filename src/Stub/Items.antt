-- ===== src/Stub/Items.antt =====
-- A list of arguments, written and then read.
use ds14_project.Base.{
  ℕ, ◌+◌, ◌^◌, ◌≤◌, ◌<◌, ◌≡◌, refl, ap, List, [], ◌∷◌, ◌++◌, length, length-append, arith, true,
  All, map,
}
use ds14_project.Marshall.{Marshall, Unmarshall, write_at}
use ds14_project.Marshall.Writes.{
  Appends, Appends-trans, be16, be32, be64, be_string, put_uchar-Appends, put_ushort-Appends,
  put_uint-Appends, put_ulonglong-Appends, put_string-Appends,
}
use ds14_project.Marshall.Reads.{
  Holds, Holds-split, get_uchar_lem, get_ushort_lem, get_uint_lem, get_ulonglong_lem,
  get_string_lem, skip,
}
use ds14_project.Stub.{Item, kind_of, put_item, put_items, get_item, get_items}

-- The bytes of one argument on the wire.
abbrev pub encode : Item → List ℕ
encode (Item.uchar x) = x ∷ []
encode (Item.ushort x) = be16 x
encode (Item.uint x) = be32 x
encode (Item.ulonglong x) = be64 x
encode (Item.string s) = be_string s

abbrev pub encode_all : List Item → List ℕ
encode_all [] = []
encode_all (a ∷ as') = encode a ++ encode_all as'

-- A value that its C++ type can hold.
abbrev pub IsItem : Item → Type 0
IsItem (Item.uchar x) = x < 256
IsItem (Item.ushort x) = x < 2 ^ 16
IsItem (Item.uint x) = x < 2 ^ 32
IsItem (Item.ulonglong x) = x < 2 ^ 64
IsItem (Item.string s) = length s < 2 ^ 32

pub put_item-Appends : (a : Item) (m : Marshall) → Appends m (put_item a m) (encode a)
unfolding put_item
put_item-Appends (Item.uchar x) m = put_uchar-Appends x m
put_item-Appends (Item.ushort x) m = put_ushort-Appends x m
put_item-Appends (Item.uint x) m = put_uint-Appends x m
put_item-Appends (Item.ulonglong x) m = put_ulonglong-Appends x m
put_item-Appends (Item.string s) m = put_string-Appends s m

pub put_items-Appends : (xs : List Item) (m : Marshall) → Appends m (put_items xs m) (encode_all xs)
unfolding put_items write_at
put_items-Appends [] m = record { head = omega arith; bytes = refl; fits = λ h. h }
put_items-Appends (a ∷ xs) m =
    Appends-trans m (put_item a m) _ (encode a) (encode_all xs) (put_item-Appends a m)
      (put_items-Appends xs (put_item a m))

module _ (u : Unmarshall) (small : u.sz < 2 ^ 32) (fine : u.is_ok ≡ true) where
  pub get_item_lem :
      (a : Item)
      → IsItem a
      → Holds u.buf u.ind (encode a)
      → u.ind + length (encode a) ≤ u.sz
      → get_item (kind_of a) u ≡ (a, skip (length (encode a)) u)
  unfolding get_item kind_of
  get_item_lem (Item.uchar x) v h fits = rw (get_uchar_lem u x h (omega arith) v)
  get_item_lem (Item.ushort x) v h fits = rw (get_ushort_lem u x h (omega arith) v)
  get_item_lem (Item.uint x) v h fits = rw (get_uint_lem u x h (omega arith) v)
  get_item_lem (Item.ulonglong x) v h fits = rw (get_ulonglong_lem u x h (omega arith) v)
  get_item_lem (Item.string s) v h fits =
      rw (get_string_lem u s h (omega arith) small fine)
        (ap (λ (n : ℕ). (Item.string s, skip n u)) (omega arith))

pub get_items_lem :
    (xs : List Item) (u : Unmarshall)
    → u.sz < 2 ^ 32
    → u.is_ok ≡ true
    → All IsItem xs
    → Holds u.buf u.ind (encode_all xs)
    → u.ind + length (encode_all xs) ≤ u.sz
    → get_items (map kind_of xs) u ≡ (xs, skip (length (encode_all xs)) u)
unfolding get_items
get_items_lem [] u small fine v h fits = ground arith
get_items_lem (a ∷ xs) u small fine (v, vs) h fits =
    let (l, r) = Holds-split u.buf u.ind (encode a) (encode_all xs) h in
    let e = length-append (encode a) (encode_all xs) in
    rw
      (
        get_item_lem u small fine a v l (omega (arith, e)),
        get_items_lem xs (skip (length (encode a)) u) small fine vs r (omega (arith, e)),
      )
      (ap (λ (w : Unmarshall). (a ∷ xs, w)) (ground (arith, e)))
