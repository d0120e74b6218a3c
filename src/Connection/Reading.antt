-- ===== src/Connection/Reading.antt =====
-- `read_cb` and `readpdu` of lab/rpc/connection.cc, over what `read` and the channel manager answer.
use ds14_project.Base.{
  ℕ, ◌+◌, ◌*◌, ◌^◌, Bool, true, false, not, ◌&&◌, List, [], ◌∷◌, ◌++◌, length, ltb, ◌==◌,
  if◌then◌else◌, Option, some, none,
}
use ds14_project.RpcConst.{is_negative}
use ds14_project.Connection.{Connection, CharBuf, no_pdu, max_pdu, die}

-- What `read` answers: one byte or more, the end of the stream, or an error; at the end of the stream `errno`
-- is what an earlier call left, which may be `EAGAIN`.
pub data Got : Type 0 where
  got : (first : ℕ) → List ℕ → Got
  closed : (stale_again : Bool) → Got
  again : Got
  failed : Got

-- `ntohl`, on the bytes in memory.
unfoldable pub ntohl : List ℕ → Option ℕ
ntohl (a ∷ b ∷ c ∷ d ∷ []) = some (a * 2 ^ 24 + b * 2 ^ 16 + c * 2 ^ 8 + d)
ntohl bytes = none

-- What `readpdu` makes of the answer to its read of the size.
pub data SizeRead : Type 0 where
  size_read : ℕ → List ℕ → SizeRead
  no_size : SizeRead
  asserted : SizeRead

unfoldable pub read_size : Got → SizeRead
read_size (Got.got b bs) = elim (ntohl (b ∷ bs)) [
  | none ↦ no_size
  | some sz ↦ if not (is_negative sz) && ltb max_pdu sz then no_size else size_read sz (b ∷ bs)
]
read_size (Got.closed stale_again) = no_size
read_size Got.again = asserted
read_size Got.failed = no_size

-- The read of what is left. The buffer holds four bytes more than the pdu; `none` is a store outside.
unfoldable pub read_rest : Got → List ℕ → CharBuf → Option (Bool × CharBuf)
read_rest (Got.got first bs) old r =
    let n = r.solong + length (first ∷ bs) in
    if ltb (r.sz + 4) n
    then none
    else some (true, record r { buf = some (old ++ first ∷ bs); solong = n })
read_rest (Got.closed stale_again) old r =
    if stale_again then some (true, r) else some (false, no_pdu)
read_rest Got.again old r = some (true, r)
read_rest Got.failed old r = some (false, no_pdu)

-- `none` is a failed assertion, that of the allocation of a negative size among them, or a store
-- outside the buffer.
unfoldable pub readpdu : Got → Got → CharBuf → Option (Bool × CharBuf)
readpdu first rest r =
    if r.sz == 0
    then elim (read_size first) [
      | asserted ↦ none
      | no_size ↦ some (false, r)
      | size_read sz bytes ↦ elim r.buf [
        | some b ↦ none
        | none ↦
            (if is_negative sz
              then none
              else read_rest rest bytes (record { buf = some bytes; sz = sz; solong = 4 }))
      ]
    ]
    else elim r.buf [ none ↦ none | some b ↦ read_rest rest b r ]

-- The pdus that the channel manager takes: at most one, which it may refuse.
unfoldable pub offer : (accepts : Bool) → Connection → Connection × List (List ℕ × ℕ)
offer accepts c = elim c.rpdu.buf [
  | none ↦ (c, [])
  | some b ↦
      (if c.rpdu.sz == c.rpdu.solong && accepts
        then (record c { rpdu = no_pdu }, (b, c.rpdu.sz) ∷ [])
        else (c, []))
]

abbrev pub wants_read : CharBuf → Bool
wants_read r = elim r.buf [ none ↦ true | some b ↦ ltb r.solong r.sz ]

unfoldable pub read_cb :
    Got → Got → (accepts : Bool) → Connection → Option (Connection × List (List ℕ × ℕ))
read_cb first rest accepts c =
    if c.dead
    then some (c, [])
    else elim (if wants_read c.rpdu then readpdu first rest c.rpdu else some (true, c.rpdu)) [
      | none ↦ none
      | some (succ, r) ↦
          (let c' = record c { rpdu = r } in some (offer accepts (if succ then c' else die c')))
    ]

-- The callbacks of a connection that is registered, with the answers that each gets.
unfoldable pub read_cbs :
    List (Got × Got × Bool) → Connection → Option (Connection × List (List ℕ × ℕ))
read_cbs [] c = some (c, [])
read_cbs ((first, rest, accepts) ∷ es) c = elim (read_cb first rest accepts c) [
  | none ↦ none
  | some (c1, pdus) ↦ (elim (read_cbs es c1) [
    | none ↦ none
    | some (c2, more) ↦ some (c2, pdus ++ more)
  ])
]
