-- ===== src/Marshall/Containers/RoundTrip.antt =====
-- Vectors and maps of lab/rpc/marshall.h, written and then read.
use ds14_project.Base.{
  ℕ, ◌+◌, ◌%◌, ◌^◌, ◌≤◌, ◌<◌, ◌≡◌, ap, ◌∙◌, true, List, [], ◌∷◌, ◌++◌, length, arith,
}
use ds14_project.Marshall.{get_string, put_string, Marshall, Unmarshall, put_uint, get_uint}
use ds14_project.Marshall.Writes.{put_string-Appends, be_string, Appends, be32, put_uint-Appends}
use ds14_project.Marshall.Reads.{get_string_lem, Holds, get_uint_lem, skip}
use ds14_project.Marshall.Containers.{Codec}

-- What the operators of an element type promise: `<<` appends the encoding of a value, and `>>` of a
-- good reader that stands before it reads the value back.
pub record IsCodec {ℓ} {A : Type ℓ} (c : Codec A) (IsValue : A → Type 0) : Type ℓ where
  pub encode : A → List ℕ
  pub put-Appends : (x : A) (m : Marshall) → Appends m (c.put x m) (encode x)
  pub get_lem :
      (u : Unmarshall) (x : A)
      → u.sz < 2 ^ 31
      → u.is_ok ≡ true
      → IsValue x
      → Holds u.buf u.ind (encode x)
      → u.ind + length (encode x) ≤ u.sz
      → c.get u ≡ (x, skip (length (encode x)) u)

-- The reader of what a writer has appended.
abbrev pub appended : Marshall → Marshall → Unmarshall
appended m m' = record { buf = m'.buf; sz = m'.ind; ind = m.ind; is_ok = true }

module _ {ℓ} {A : Type ℓ} {c : Codec A} {IsValue : A → Type 0} (l : IsCodec c IsValue) where
  encode_each : List A → List ℕ
  encode_each [] = []
  encode_each (x ∷ xs) = l.encode x ++ encode_each xs

  encode_vector : List A → List ℕ
  encode_vector v = be32 (length v % 2 ^ 32) ++ encode_each v

-- The operators of `unsigned int` and of `std::string`.
abbrev pub uint_codec : Codec ℕ
uint_codec = record { put = put_uint; get = get_uint }

pub uint_codec-IsCodec : IsCodec uint_codec (λ x. x < 2 ^ 32)
uint_codec-IsCodec = record {
  encode = be32;
  put-Appends = put_uint-Appends;
  get_lem = λ u x small fine good h fits. get_uint_lem u x h fits good;
}

abbrev pub string_codec : Codec (List ℕ)
string_codec = record { put = put_string; get = get_string }

pub string_codec-IsCodec : IsCodec string_codec (λ s. length s < 2 ^ 32)
string_codec-IsCodec = record {
  encode = be_string;
  put-Appends = put_string-Appends;
  get_lem = λ u s small fine good h fits.
      get_string_lem u s h (omega (arith, fits)) (omega (arith, small)) fine
      ∙ ap (λ (n : ℕ). (s, skip n u)) (omega arith);
}
