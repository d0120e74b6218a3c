-- ===== src/Marshall/Reads.antt =====
-- What the `unmarshall` operations read from a buffer that holds an encoding.
use Prim.Native.Nat.{bit_or}
use ds14_project.Base.{
  ℕ, suc, ◌+◌, ◌*◌, ◌/◌, ◌%◌, ◌^◌, ◌≤◌, ◌<◌, ◌≡◌, refl, ap, ◌∙◌, List, [], ◌∷◌, ◌++◌, length, arith,
  true, if_true,
}
use ds14_project.Base.Bits.{bit_or_disjoint, bit_or_disjoint_low}
use ds14_project.Marshall.{
  get_int, Unmarshall, write_at, read_at, widen_char, get_rawbyte, get_rawbytes, get_uchar,
  get_ushort, get_uint, get_ulonglong, get_string,
}
use ds14_project.Marshall.Writes.{write_at_before, be16, be32, be64, be_string}

abbrev pub IsByte : ℕ → Type 0
IsByte b = b < 256

-- From offset `p` on the memory holds the bytes.
abbrev pub Holds : (ℕ → ℕ) → ℕ → List ℕ → Type 0
Holds f p [] = Unit {0}
Holds f p (b ∷ bs) = (f p ≡ b) × Holds f (p + 1) bs

pub write_at-Holds : (bs : List ℕ) (f : ℕ → ℕ) (p : ℕ) → Holds (write_at f p bs) p bs
unfolding write_at
write_at-Holds [] f p = tt
write_at-Holds (b ∷ bs) f p =
    (write_at_before bs _ (p + 1) p (omega arith) ∙ ground arith, write_at-Holds bs _ (p + 1))

pub Holds-split :
    (f : ℕ → ℕ) (p : ℕ) (bs cs : List ℕ)
    → Holds f p (bs ++ cs)
    → Holds f p bs × Holds f (p + length bs) cs
Holds-split f p [] cs h = let e : p + 0 ≡ p = omega arith in (tt, rw e h)
Holds-split f p (b ∷ bs) cs (e, h) =
    let (l, r) = Holds-split f (p + 1) bs cs h in
    let q : p + suc (length bs) ≡ p + 1 + length bs = omega arith in ((e, l), rw q r)

pub read_at-Holds : (f : ℕ → ℕ) (p : ℕ) (bs : List ℕ) → Holds f p bs → read_at f p (length bs) ≡ bs
unfolding read_at
read_at-Holds f p [] h = refl
read_at-Holds f p (b ∷ bs) (e, h) = rw (e, read_at-Holds f (p + 1) bs h)

-- The reader behind `n` more bytes.
abbrev pub skip : ℕ → Unmarshall → Unmarshall
skip n u = record u { ind = u.ind + n }

pub get_rawbyte_lem :
    (u : Unmarshall) (b : ℕ)
    → u.buf u.ind ≡ b
    → u.ind < u.sz
    → get_rawbyte u ≡ (widen_char b, skip 1 u)
unfolding get_rawbyte
get_rawbyte_lem u b e h = ground arith

widen_byte : (b : ℕ) → b < 256 → widen_char b % 256 ≡ b
widen_byte b h = ground arith

pub get_rawbytes_lem :
    (u : Unmarshall) (bs : List ℕ)
    → Holds u.buf u.ind bs
    → u.ind + length bs ≤ u.sz
    → u.sz < 2 ^ 32
    → get_rawbytes (length bs) u ≡ (bs, skip (length bs) u)
unfolding get_rawbytes
get_rawbytes_lem u bs h fits small = ground (arith, read_at-Holds u.buf u.ind bs h)

pub get_uchar_lem :
    (u : Unmarshall) (x : ℕ)
    → Holds u.buf u.ind (x ∷ [])
    → u.ind < u.sz
    → x < 256
    → get_uchar u ≡ (x, skip 1 u)
unfolding get_uchar
get_uchar_lem u x h fits small = rw (get_rawbyte_lem u x h.0 fits, widen_byte x small)

skip-skip : (m n : ℕ) (u : Unmarshall) → skip n (skip m u) ≡ skip (m + n) u
skip-skip m n u = ground arith

get_two :
    (u : Unmarshall) (a b : ℕ)
    → Holds u.buf u.ind (a ∷ b ∷ [])
    → u.ind + 2 ≤ u.sz
    → a < 256
    → b < 256
    → get_ushort u ≡ (a * 2 ^ 8 + b, skip 2 u)
unfolding get_ushort
get_two u a b h fits ha hb = rw (
  get_rawbyte_lem u a h.0 (omega arith),
  get_rawbyte_lem (skip 1 u) b h.1.0 (omega arith),
  widen_byte a ha,
  widen_byte b hb,
  bit_or_disjoint 8 a b hb,
  skip-skip 1 1 u,
)

join32 :
    (a b c d : ℕ)
    → b < 256
    → c < 256
    → d < 256
    → bit_or (bit_or (bit_or (a * 2 ^ 24) (b * 2 ^ 16)) (c * 2 ^ 8)) d
      ≡ a * 2 ^ 24 + b * 2 ^ 16 + c * 2 ^ 8 + d
join32 a b c d hb hc hd =
    ap (λ (t : ℕ). bit_or (bit_or t (c * 2 ^ 8)) d)
      (bit_or_disjoint 24 a (b * 2 ^ 16) (omega arith))
    ∙ ap (λ (t : ℕ). bit_or (bit_or t (c * 2 ^ 8)) d) e2
    ∙ ap (λ (t : ℕ). bit_or t d) (bit_or_disjoint 16 (a * 2 ^ 8 + b) (c * 2 ^ 8) (omega arith))
    ∙ ap (λ (t : ℕ). bit_or t d) e1
    ∙ bit_or_disjoint 8 ((a * 2 ^ 8 + b) * 2 ^ 8 + c) d hd
    ∙ omega arith
  where
    e2 : a * 2 ^ 24 + b * 2 ^ 16 ≡ (a * 2 ^ 8 + b) * 2 ^ 16
    e2 = omega arith

    e1 : (a * 2 ^ 8 + b) * 2 ^ 16 + c * 2 ^ 8 ≡ ((a * 2 ^ 8 + b) * 2 ^ 8 + c) * 2 ^ 8
    e1 = omega arith

get_four :
    (u : Unmarshall) (a b c d : ℕ)
    → Holds u.buf u.ind (a ∷ b ∷ c ∷ d ∷ [])
    → u.ind + 4 ≤ u.sz
    → a < 256
    → b < 256
    → c < 256
    → d < 256
    → get_uint u ≡ (a * 2 ^ 24 + b * 2 ^ 16 + c * 2 ^ 8 + d, skip 4 u)
unfolding get_uint
get_four u a b c d h fits ha hb hc hd =
    rw
      (
        get_rawbyte_lem u a h.0 (omega arith),
        get_rawbyte_lem (skip 1 u) b h.1.0 (omega arith),
        get_rawbyte_lem (skip 1 (skip 1 u)) c h.1.1.0 (omega arith),
        get_rawbyte_lem (skip 1 (skip 1 (skip 1 u))) d h.1.1.1.0 (omega arith),
        widen_byte a ha,
        widen_byte b hb,
        widen_byte c hc,
        widen_byte d hd,
        join32 a b c d hb hc hd,
      )
      (ap (λ (v : Unmarshall). (a * 2 ^ 24 + b * 2 ^ 16 + c * 2 ^ 8 + d, v)) (ground arith))

pub get_ushort_lem :
    (u : Unmarshall) (x : ℕ)
    → Holds u.buf u.ind (be16 x)
    → u.ind + 2 ≤ u.sz
    → x < 2 ^ 16
    → get_ushort u ≡ (x, skip 2 u)
get_ushort_lem u x h fits small =
    get_two u (x / 2 ^ 8 % 256) (x % 256) h fits (omega arith) (omega arith)
    ∙ ap (λ (y : ℕ). (y, skip 2 u)) (omega arith)

pub get_uint_lem :
    (u : Unmarshall) (x : ℕ)
    → Holds u.buf u.ind (be32 x)
    → u.ind + 4 ≤ u.sz
    → x < 2 ^ 32
    → get_uint u ≡ (x, skip 4 u)
get_uint_lem u x h fits small =
    get_four u (x / 2 ^ 24 % 256) (x / 2 ^ 16 % 256) (x / 2 ^ 8 % 256) (x % 256) h fits
      (omega arith) (omega arith) (omega arith) (omega arith)
    ∙ ap (λ (y : ℕ). (y, skip 4 u)) (omega arith)

pub get_ulonglong_lem :
    (u : Unmarshall) (x : ℕ)
    → Holds u.buf u.ind (be64 x)
    → u.ind + 8 ≤ u.sz
    → x < 2 ^ 64
    → get_ulonglong u ≡ (x, skip 8 u)
unfolding get_ulonglong
get_ulonglong_lem u x h fits small =
    let hi = x / 2 ^ 32 % 2 ^ 32 in
    let lo = x % 2 ^ 32 in
    let (hh, hl) = Holds-split u.buf u.ind (be32 hi) (be32 lo) h in
    rw
      (
        get_uint_lem u hi hh (omega arith) (omega arith),
        get_uint_lem (skip 4 u) lo hl (omega arith) (omega arith),
        bit_or_disjoint_low 32 hi lo (omega arith),
        skip-skip 4 4 u,
      )
      (ap (λ (y : ℕ). (y, skip 8 u)) (omega arith))

pub get_string_lem :
    (u : Unmarshall) (s : List ℕ)
    → Holds u.buf u.ind (be_string s)
    → u.ind + 4 + length s ≤ u.sz
    → u.sz < 2 ^ 32
    → u.is_ok ≡ true
    → get_string u ≡ (s, skip (4 + length s) u)
unfolding get_string
get_string_lem u s h fits small fine =
    let n : length s % 2 ^ 32 ≡ length s = omega arith in
    let (hh, hl) = Holds-split u.buf u.ind (be32 (length s % 2 ^ 32)) s h in
    rw (get_uint_lem u (length s % 2 ^ 32) hh (omega arith) (omega arith), n)
      (if_true _ _ fine
        ∙ get_rawbytes_lem (skip 4 u) s hl fits small
        ∙ ap (λ (v : Unmarshall). (s, v)) (skip-skip 4 (length s) u))

-- An `int` is read as its bit pattern.
pub get_int-get_uint : (u : Unmarshall) → get_int u ≡ get_uint u
unfolding get_int get_uint
get_int-get_uint u = refl

-- Bytes before the written range stay.
pub write_at-Holds_before :
    (bs : List ℕ) (f : ℕ → ℕ) (p q : ℕ) (cs : List ℕ)
    → q + length cs ≤ p
    → Holds f q cs
    → Holds (write_at f p bs) q cs
write_at-Holds_before bs f p q [] h k = tt
write_at-Holds_before bs f p q (c ∷ cs) h (e, k) = (
  write_at_before bs f p q (omega (arith, h)) ∙ e,
  write_at-Holds_before bs f p (q + 1) cs (omega (arith, h)) k,
)
