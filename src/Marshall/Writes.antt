-- ===== src/Marshall/Writes.antt =====
-- What the `marshall` operations write: the bytes that each appends, within the capacity.
use ds14_project.Base.{
  ℕ, suc, ◌+◌, ◌/◌, ◌%◌, ◌^◌, ◌≤◌, ◌<◌, ◌≡◌, refl, sym, ◌∙◌, List, [], ◌∷◌, ◌++◌, length,
  length-append, arith,
}
use ds14_project.Marshall.{
  put_int, Marshall, update, write_at, rawbyte, rawbytes, put_uchar, put_ushort, put_uint,
  put_ulonglong, put_string, pack,
}

pub write_at-append :
    (f : ℕ → ℕ) (p : ℕ) (bs cs : List ℕ)
    → write_at f p (bs ++ cs) ≡ write_at (write_at f p bs) (p + length bs) cs
unfolding write_at
write_at-append f p [] cs = let e : p + 0 ≡ p = omega arith in rw e refl
write_at-append f p (b ∷ bs) cs =
    let e : p + suc (length bs) ≡ p + 1 + length bs = omega arith in
    rw e (write_at-append (update f p b) (p + 1) bs cs)

-- Bytes before the offset stay.
pub write_at_before : (bs : List ℕ) (f : ℕ → ℕ) (p i : ℕ) → i < p → write_at f p bs i ≡ f i
unfolding write_at
write_at_before [] f p i h = refl
write_at_before (b ∷ bs) f p i h =
    write_at_before bs (update f p b) (p + 1) i (omega arith) ∙ ground arith

-- The buffer's well-formedness: the head lies within what was allocated.
pub record Fits (m : Marshall) : Type 0 where
  pub within : m.ind ≤ m.capa
  pub allocated : 0 < m.capa

-- `m'` is `m` with `bs` appended.
pub record Appends (m m' : Marshall) (bs : List ℕ) : Type 0 where
  pub head : m'.ind ≡ m.ind + length bs
  pub bytes : m'.buf ≡ write_at m.buf m.ind bs
  pub fits : Fits m → Fits m'

pub Appends-trans :
    (m m' m'' : Marshall) (bs cs : List ℕ)
    → Appends m m' bs
    → Appends m' m'' cs
    → Appends m m'' (bs ++ cs)
Appends-trans m m' m'' bs cs a b = record {
  head = omega (arith, a.head, b.head, length-append bs cs);
  bytes = b.bytes ∙ rw (a.head, a.bytes) (sym (write_at-append m.buf m.ind bs cs));
  fits = λ h. b.fits (a.fits h);
}

pub rawbyte-Appends : (x : ℕ) (m : Marshall) → Appends m (rawbyte x m) (x ∷ [])
unfolding rawbyte write_at
rawbyte-Appends x m = record { head = omega arith; bytes = refl; fits = λ h. ground arith }

pub put_uchar-Appends : (x : ℕ) (m : Marshall) → Appends m (put_uchar x m) (x ∷ [])
unfolding put_uchar
put_uchar-Appends x m = rawbyte-Appends x m

pub rawbytes-Appends : (p : List ℕ) (m : Marshall) → Appends m (rawbytes p m) p
unfolding rawbytes
rawbytes-Appends p m = record { head = refl; bytes = refl; fits = λ h. ground arith }

abbrev pub be16 : ℕ → List ℕ
be16 x = (x / 2 ^ 8 % 256) ∷ (x % 256) ∷ []

abbrev pub be32 : ℕ → List ℕ
be32 x = (x / 2 ^ 24 % 256) ∷ (x / 2 ^ 16 % 256) ∷ (x / 2 ^ 8 % 256) ∷ (x % 256) ∷ []

two-Appends : (m : Marshall) (a b : ℕ) → Appends m (rawbyte b (rawbyte a m)) (a ∷ b ∷ [])
two-Appends m a b =
    Appends-trans m (rawbyte a m) _ (a ∷ []) (b ∷ []) (rawbyte-Appends a m)
      (rawbyte-Appends b (rawbyte a m))

four-Appends :
    (m : Marshall) (a b c d : ℕ)
    → Appends m (rawbyte d (rawbyte c (rawbyte b (rawbyte a m)))) (a ∷ b ∷ c ∷ d ∷ [])
four-Appends m a b c d =
    Appends-trans m (rawbyte b (rawbyte a m)) _ (a ∷ b ∷ []) (c ∷ d ∷ []) (two-Appends m a b)
      (two-Appends (rawbyte b (rawbyte a m)) c d)

pub put_ushort-Appends : (x : ℕ) (m : Marshall) → Appends m (put_ushort x m) (be16 x)
unfolding put_ushort
put_ushort-Appends x m = two-Appends m (x / 2 ^ 8 % 256) (x % 256)

pub put_uint-Appends : (x : ℕ) (m : Marshall) → Appends m (put_uint x m) (be32 x)
unfolding put_uint
put_uint-Appends x m =
    four-Appends m (x / 2 ^ 24 % 256) (x / 2 ^ 16 % 256) (x / 2 ^ 8 % 256) (x % 256)

pub pack-Appends : (x : ℕ) (m : Marshall) → Appends m (pack x m) (be32 x)
unfolding pack
pack-Appends x m = four-Appends m (x / 2 ^ 24 % 256) (x / 2 ^ 16 % 256) (x / 2 ^ 8 % 256) (x % 256)

abbrev pub be64 : ℕ → List ℕ
be64 x = be32 (x / 2 ^ 32 % 2 ^ 32) ++ be32 (x % 2 ^ 32)

pub put_ulonglong-Appends : (x : ℕ) (m : Marshall) → Appends m (put_ulonglong x m) (be64 x)
unfolding put_ulonglong
put_ulonglong-Appends x m =
    let h = x / 2 ^ 32 % 2 ^ 32 in
    Appends-trans m (put_uint h m) _ (be32 h) (be32 (x % 2 ^ 32)) (put_uint-Appends h m)
      (put_uint-Appends (x % 2 ^ 32) (put_uint h m))

abbrev pub be_string : List ℕ → List ℕ
be_string s = be32 (length s % 2 ^ 32) ++ s

pub put_string-Appends : (s : List ℕ) (m : Marshall) → Appends m (put_string s m) (be_string s)
unfolding put_string
put_string-Appends s m =
    let n = length s % 2 ^ 32 in
    Appends-trans m (put_uint n m) _ (be32 n) s (put_uint-Appends n m)
      (rawbytes-Appends s (put_uint n m))

pub put_int-Appends : (x : ℕ) (m : Marshall) → Appends m (put_int x m) (be32 (x % 2 ^ 32))
unfolding put_int
put_int-Appends x m = put_uint-Appends (x % 2 ^ 32) m
