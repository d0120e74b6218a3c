-- ===== src/Connection/Receiving.antt =====
-- `read_cb` of lab/rpc/connection.cc, where the stream comes in pieces.
use ds14_project.Base.{
  ◌/◌, ◌%◌, ◌∙◌, sym, ◌==◌, ltb, length-append, append-nil, ltb, ◌∙◌, ap, ℕ, ◌+◌, ◌≤◌, ◌^◌, ◌<◌,
  ◌≡◌, refl, List, [], ◌∷◌, ◌++◌, Bool, true, false, length, some, arith, append_assoc,
}
use ds14_project.RpcConst.{is_negative}
use ds14_project.Connection.{Connection, no_pdu, htonl, max_pdu}
use ds14_project.Connection.Reading.{
  size_read, read_rest, read_size, Got, ntohl, readpdu, read_rest, read_cb, read_cbs, offer,
}

ntohl-htonl : (x : ℕ) → x < 2 ^ 32 → ntohl (htonl x) ≡ some x
unfolding ntohl
ntohl-htonl x h = ap some (omega (arith, h))

-- The answers of `read` cut what is left of a pdu into pieces, with `EAGAIN` between them, and the
-- channel manager refuses no pdu. The last piece is the last answer.
abbrev pub Cuts : List ℕ → List (Got × Got × Bool) → Type 0
Cuts left [] = left ≡ []
Cuts left ((first, Got.got b bs, accepts) ∷ es) =
    (rest : List ℕ) × (left ≡ b ∷ bs ++ rest) × (accepts ≡ true) × Cuts rest es
Cuts left ((first, Got.again, accepts) ∷ es) = (0 < length left) × Cuts left es
Cuts left ((first, Got.closed stale_again, accepts) ∷ es) = ⊥
Cuts left ((first, Got.failed, accepts) ∷ es) = ⊥

-- In the middle of a pdu.
abbrev reading : Connection → (sz : ℕ) → List ℕ → Connection
reading c sz b = record c {
  dead = false;
  rpdu = record { buf = some b; sz = sz; solong = length b };
}

Cuts-nil : (es : List (Got × Got × Bool)) → Cuts [] es → es ≡ []
Cuts-nil [] cuts = refl
Cuts-nil ((first, Got.got x xs, accepts) ∷ es) (rest, e, taken, cuts) =
    absurd (omega (arith, ap length e))
Cuts-nil ((first, Got.again, accepts) ∷ es) (more, cuts) = absurd (omega (arith, more))
Cuts-nil ((first, Got.closed stale_again, accepts) ∷ es) cuts = elim cuts [ ]
Cuts-nil ((first, Got.failed, accepts) ∷ es) cuts = elim cuts [ ]

read_cbs-cons :
    (first rest : Got) (accepts : Bool) (es : List (Got × Got × Bool)) (c c1 c2 : Connection)
    (pdus more : List (List ℕ × ℕ))
    → read_cb first rest accepts c ≡ some (c1, pdus)
    → read_cbs es c1 ≡ some (c2, more)
    → read_cbs ((first, rest, accepts) ∷ es) c ≡ some (c2, pdus ++ more)
unfolding read_cbs
read_cbs-cons first rest accepts es c c1 c2 pdus more e f = rw (read_cbs, e, f)

read_cbs-same :
    (first rest : Got) (accepts : Bool) (es : List (Got × Got × Bool)) (c c' : Connection)
    → read_cb first rest accepts c ≡ read_cb first rest accepts c'
    → read_cbs ((first, rest, accepts) ∷ es) c ≡ read_cbs ((first, rest, accepts) ∷ es) c'
unfolding read_cbs
read_cbs-same first rest accepts es c c' e = rw (read_cbs, e)

abbrev finished : Connection → Connection
finished c = record c { dead = false; rpdu = no_pdu }

module _ (c : Connection) (sz : ℕ) where
  module _ (first : Got) (accepts : Bool) (b : List ℕ) (more : length b < sz) where
    started : (sz == 0) ≡ false
    started = ground (arith, more)

    wanting : ltb (length b) sz ≡ true
    wanting = ground (arith, more)

    read_cb-again : read_cb first Got.again accepts (reading c sz b) ≡ some (reading c sz b, [])
    unfolding read_cb readpdu read_rest offer
    read_cb-again =
        let part : (sz == length b) ≡ false = ground (arith, more) in rw (wanting, started, part)

    module _ (x : ℕ) (xs : List ℕ) where
      no_overrun :
          length b + length (x ∷ xs) ≤ sz → ltb (sz + 4) (length b + length (x ∷ xs)) ≡ false
      no_overrun h = ground (arith, h)

      read_cb-part :
          length b + length (x ∷ xs) < sz
          → read_cb first (Got.got x xs) accepts (reading c sz b)
            ≡ some (reading c sz (b ++ x ∷ xs), [])
      unfolding read_cb readpdu read_rest offer
      read_cb-part h =
          let part : (sz == length b + length (x ∷ xs)) ≡ false = ground (arith, h) in
          rw (wanting, started, no_overrun (omega (arith, h)), part, length-append b (x ∷ xs))

      read_cb-last :
          length b + length (x ∷ xs) ≡ sz
          → accepts ≡ true
          → read_cb first (Got.got x xs) accepts (reading c sz b)
            ≡ some (finished c, (b ++ x ∷ xs, sz) ∷ [])
      unfolding read_cb readpdu read_rest offer
      read_cb-last h taken =
          let whole : (sz == length b + length (x ∷ xs)) ≡ true = ground (arith, h) in
          rw (wanting, started, no_overrun (omega (arith, h)), whole, taken)

  read_cbs-reading :
      (es : List (Got × Got × Bool)) (b left : List ℕ)
      → length b + length left ≡ sz
      → 0 < length left
      → Cuts left es
      → read_cbs es (reading c sz b) ≡ some (finished c, (b ++ left, sz) ∷ [])
  unfolding read_cbs
  read_cbs-reading [] b left size more cuts = absurd (omega (arith, more, ap length cuts))
  read_cbs-reading ((first, Got.got x xs, accepts) ∷ es) b left size more ([], e, taken, cuts) =
      let whole : left ≡ x ∷ xs = e ∙ append-nil (x ∷ xs) in
      rw whole (
        read_cbs-cons first (Got.got x xs) accepts es (reading c sz b) (finished c) (finished c) _
          []
          (read_cb-last first accepts b (omega (arith, more)) x xs (omega (arith, ap length whole))
            taken)
          (rw (Cuts-nil es cuts) refl))
  read_cbs-reading ((first, Got.got x xs, accepts) ∷ es) b left size more
        (y ∷ rest, e, taken, cuts) =
      let sum : length left ≡ length (x ∷ xs) + length (y ∷ rest) =
        ap length e ∙ length-append (x ∷ xs) (y ∷ rest) in
      let h : length b + length (x ∷ xs) < sz = omega (arith, sum, size) in
      let same : b ++ left ≡ (b ++ x ∷ xs) ++ y ∷ rest =
        ap (λ t. b ++ t) e ∙ sym (append_assoc b (x ∷ xs) (y ∷ rest)) in
      rw same (
        read_cbs-cons first (Got.got x xs) accepts es (reading c sz b) (reading c sz (b ++ x ∷ xs))
          (finished c) [] _ (read_cb-part first accepts b (omega (arith, more)) x xs h)
          (read_cbs-reading es (b ++ x ∷ xs) (y ∷ rest)
            (omega (arith, length-append b (x ∷ xs), sum, size)) (omega arith) cuts))
  read_cbs-reading ((first, Got.again, accepts) ∷ es) b left size more (some_left, cuts) =
      read_cbs-cons first Got.again accepts es (reading c sz b) (reading c sz b) (finished c) [] _
        (read_cb-again first accepts b (omega (arith, more)))
        (read_cbs-reading es b left size more cuts)
  read_cbs-reading ((first, Got.closed stale_again, accepts) ∷ es) b left size more cuts =
      elim cuts [ ]
  read_cbs-reading ((first, Got.failed, accepts) ∷ es) b left size more cuts = elim cuts [ ]

-- The size that an idle connection reads.
abbrev pub size_answer : ℕ → Got
size_answer sz = Got.got (sz / 2 ^ 24 % 256) (sz / 2 ^ 16 % 256 ∷ sz / 2 ^ 8 % 256 ∷ sz % 256 ∷ [])

-- A stream of one pdu behind the idle connection: four bytes of size, and then any pieces.
abbrev pub Arrives : (sz : ℕ) → List ℕ → List (Got × Got × Bool) → Type 0
Arrives sz body [] = ⊥
Arrives sz body ((first, rest, accepts) ∷ es) =
    (first ≡ size_answer sz) × Cuts body ((size_answer sz, rest, accepts) ∷ es)

idle-finished : (c : Connection) → c.dead ≡ false → c.rpdu ≡ no_pdu → c ≡ finished c
idle-finished c alive idle =
    ap (λ d. record c { dead = d }) alive ∙ ap (λ r. record c { dead = false; rpdu = r }) idle

read_size-answer : (sz : ℕ) → sz ≤ max_pdu → read_size (size_answer sz) ≡ size_read sz (htonl sz)
unfolding read_size
read_size-answer sz fits =
    let e = ntohl-htonl sz (omega (arith, fits)) in
    let in_range : ltb max_pdu sz ≡ false = ground (arith, fits) in
    let sign : is_negative sz ≡ false = ground (arith, fits) in rw (read_size, e, in_range, sign)

read_cb-start :
    (rest : Got) (accepts : Bool) (c : Connection) (sz : ℕ)
    → 4 < sz
    → sz ≤ max_pdu
    → read_cb (size_answer sz) rest accepts (finished c)
      ≡ read_cb (size_answer sz) rest accepts (reading c sz (htonl sz))
unfolding read_cb readpdu
read_cb-start rest accepts c sz more fits =
    let sign : is_negative sz ≡ false = ground (arith, fits) in
    let some_size : (sz == 0) ≡ false = ground (arith, more) in
    let wanting : ltb 4 sz ≡ true = ground (arith, more) in
    rw (read_size-answer sz fits, sign, some_size, wanting)

-- A pdu that comes in on an idle connection, however the stream cuts it behind its size, reaches the
-- channel manager once and whole, with its size in front; the connection is idle again.
pub read_cbs_lem :
    (c : Connection) (sz : ℕ) (body : List ℕ) (es : List (Got × Got × Bool))
    → c.dead ≡ false
    → c.rpdu ≡ no_pdu
    → 4 < sz
    → sz ≤ max_pdu
    → length body + 4 ≡ sz
    → Arrives sz body es
    → read_cbs es c ≡ some (c, (htonl sz ++ body, sz) ∷ [])
read_cbs_lem c sz body [] alive idle more fits total arrives = elim arrives [ ]
read_cbs_lem c sz body ((first, rest, accepts) ∷ es) alive idle more fits total (head, cuts) =
    let same = idle-finished c alive idle in
    rw (same, head)
      (read_cbs-same (size_answer sz) rest accepts es (finished c) (reading c sz (htonl sz))
          (read_cb-start rest accepts c sz more fits)
        ∙ read_cbs-reading c sz ((size_answer sz, rest, accepts) ∷ es) (htonl sz) body
            (omega (arith, total)) (omega (arith, more, total)) cuts)
