-- ===== src/Extent/Server.antt =====
-- The extent server against its abstract view, a partial map from extents to their bytes.
use ds14_project.Base.{
  ℕ, ◌≡◌, refl, true, List, if◌then◌else◌, ◌==◌, Option, some, none, arith, lookup, insert,
  lookup-insert, has_key,
}
use ds14_project.Extent.{Attr, ExtentServer, no_attr, ok, noent, init, put, get, getattr}

-- What the server holds under an extent.
abbrev pub contents : ExtentServer → ℕ → Option (List ℕ)
contents s id = lookup id s.blobs

-- `put` sets one extent and no other, and `get` answers from the contents, failing without a write
-- to the caller's string exactly where there are none.
pub contents-put :
    (id : ℕ) (buf : List ℕ) (s : ExtentServer) (j : ℕ)
    → contents (put id buf s).1 j ≡ (if id == j then some buf else contents s j)
unfolding put
contents-put id buf s j = lookup-insert id j buf s.blobs

pub get-some :
    (id : ℕ) (buf : List ℕ) (s : ExtentServer) (found : List ℕ)
    → contents s id ≡ some found
    → get id buf s ≡ (ok, found)
unfolding get
get-some id buf s found e = rw (e, get)

pub get-none :
    (id : ℕ) (buf : List ℕ) (s : ExtentServer) → contents s id ≡ none → get id buf s ≡ (noent, buf)
unfolding get
get-none id buf s e = rw (e, get)

pub put_status : (id : ℕ) (buf : List ℕ) (s : ExtentServer) → (put id buf s).0 ≡ ok
unfolding put
put_status id buf s = refl

pub get_put :
    (id : ℕ) (buf old : List ℕ) (s : ExtentServer) (j : ℕ)
    → get j old (put id buf s).1 ≡ (if id == j then (ok, buf) else get j old s)
unfolding put get
get_put id buf old s j = ground (arith, lookup-insert id j buf s.blobs)

-- An extent that has contents has attributes.
abbrev pub HasAttrs : ExtentServer → Type 0
HasAttrs s = (id : ℕ) → has_key id s.blobs ≡ true → has_key id s.attrs ≡ true

pub init-HasAttrs : HasAttrs init
unfolding init lookup insert
init-HasAttrs id h = ground arith

-- `put` keeps the invariant that every extent with contents has attributes, so that `getattr`
-- succeeds wherever `get` does.
pub put-HasAttrs :
    (id : ℕ) (buf : List ℕ) (s : ExtentServer) → HasAttrs s → HasAttrs (put id buf s).1
unfolding put
put-HasAttrs id buf s v j h =
    ground (arith, v j, lookup-insert id j buf s.blobs, lookup-insert id j no_attr s.attrs)

-- `put` gives an extent without attributes the zero ones, and changes no others: not the size or the
-- times of the extent that it overwrites.
pub getattr_put :
    (id : ℕ) (buf : List ℕ) (a : Attr) (s : ExtentServer) (j : ℕ)
    → getattr j a (put id buf s).1 ≡ (
        if has_key id s.attrs
        then getattr j a s
        else (if id == j then (ok, no_attr) else getattr j a s))
unfolding put getattr
getattr_put id buf a s j = ground (arith, lookup-insert id j no_attr s.attrs)
