-- ===== src/Extent/RoundTrip.antt =====
-- `serialize` and then `deserialize` of lab/extent_protocol.h.
use ds14_project.Base.{
  ℕ, suc, ◌+◌, ◌-◌, ◌*◌, ◌%◌, ◌^◌, ◌≤◌, ◌<◌, ◌≡◌, refl, ap, ◌∙◌, true, false, List, [], ◌∷◌, ◌++◌,
  length, leb, ltb, ◌==◌, if◌then◌else◌, length-append, arith, All, le→ltb, append-nil,
  append_assoc,
}
use ds14_project.Marshall.Reads.{Holds, Holds-split}
use ds14_project.Extent.{
  le32, load32, entry_bytes, entries_bytes, FileList, deserialize_loop, deserialize, serialize,
}
use ds14_project.Extent.Layout.{IsEntry, one_round, load32_lem}

-- The last name has a character.
abbrev pub EndsNamed : FileList → Type 0
EndsNamed [] = Unit {0}
EndsNamed ((id, name) ∷ []) = 0 < length name
EndsNamed (e ∷ f ∷ fl) = EndsNamed (f ∷ fl)

entry_length : (e : ℕ × List ℕ) → length (entry_bytes e) ≡ 12 + length e.1
entry_length (id, name) = omega arith

entries_length :
    (e : ℕ × List ℕ) (es : FileList)
    → length (entries_bytes (e ∷ es)) ≡ 12 + length e.1 + length (entries_bytes es)
entries_length e es =
    omega (arith, length-append (entry_bytes e) (entries_bytes es), entry_length e)

entries_room : (f : ℕ × List ℕ) (es : FileList) → 12 ≤ length (entries_bytes (f ∷ es))
entries_room f es = omega (arith, entries_length f es)

entries_count : (es : FileList) → 12 * length es ≤ length (entries_bytes es)
entries_count [] = omega arith
entries_count (e ∷ es) = omega (arith, entries_length e es, entries_count es)

-- One round at the first of several entries, whose bytes reach to the end of the buffer.
round_then :
    (e : ℕ × List ℕ) (es : FileList) (c : ℕ → ℕ) (size_buf size_fl n i p : ℕ) (fl : FileList)
    → size_buf + 1 < 2 ^ 32
    → p + length (entries_bytes (e ∷ es)) ≡ size_buf
    → IsEntry e
    → Holds c p (entries_bytes (e ∷ es))
    → p + 12 < size_buf
    → p + 12 + length e.1 < size_buf + (if i == size_fl - 1 then 1 else 0)
    → deserialize_loop c size_buf size_fl (suc n) i p fl
      ≡ deserialize_loop c size_buf size_fl n (i + 1) (p + 12 + length e.1) (fl ++ e ∷ [])
round_then (id, name) es c size_buf size_fl n i p fl small size v h mid end =
    one_round c size_buf size_fl n i p fl id name small
      (omega (arith, length-append (entry_bytes (id, name)) (entries_bytes es))) v
      (Holds-split c p (entry_bytes (id, name)) (entries_bytes es) h).0 mid end

-- What follows an entry: it needs 12 bytes at least, or the entry is the last.
loop_lem :
    (es : FileList) (c : ℕ → ℕ) (size_buf size_fl i p : ℕ) (fl : FileList)
    → size_buf + 1 < 2 ^ 32
    → p + length (entries_bytes es) ≡ size_buf
    → i + length es ≡ size_fl
    → All IsEntry es
    → EndsNamed es
    → Holds c p (entries_bytes es)
    → deserialize_loop c size_buf size_fl (length es) i p fl ≡ (true, fl ++ es)
loop_lem [] c size_buf size_fl i p fl small size count v last h =
    rw append-nil (unfold deserialize_loop in refl)
loop_lem (e ∷ []) c size_buf size_fl i p fl small size count v last h =
    let n = entries_length e [] in
    round_then e [] c size_buf size_fl 0 i p fl small size v.0 h (omega arith) (ground arith)
    ∙ unfold deserialize_loop in refl
loop_lem (e ∷ f ∷ es) c size_buf size_fl i p fl small size count v last h =
    let n = entries_length e (f ∷ es) in
    let room = entries_room f es in
    let next : p + length (entry_bytes e) ≡ p + 12 + length e.1 = omega (arith, entry_length e) in
    let h' : Holds c (p + 12 + length e.1) (entries_bytes (f ∷ es)) =
      rw next at (Holds-split c p (entry_bytes e) (entries_bytes (f ∷ es)) h).1 in
    round_then e (f ∷ es) c size_buf size_fl (suc (length es)) i p fl small size v.0 h (omega arith)
      (ground arith)
    ∙ loop_lem (f ∷ es) c size_buf size_fl (i + 1) (p + 12 + length e.1) (fl ++ e ∷ []) small
        (omega arith) (omega arith) v.1 last h'
    ∙ ap (λ (l : FileList). (true, l)) (append_assoc fl (e ∷ []) (f ∷ es))

more_room : (es : FileList) (id : ℕ) → 12 ≤ length (entries_bytes (es ++ (id, []) ∷ []))
more_room [] id = entries_room (id, []) []
more_room (e ∷ es) id = entries_room e (es ++ (id, []) ∷ [])

pub length-last :
    (fl : FileList) (id : ℕ) (name : List ℕ)
    → length name ≤ length (serialize (fl ++ (id, name) ∷ []))
unfolding serialize
length-last [] id name = omega (arith, entries_length (id, name) [])
length-last (e ∷ fl) id name =
    omega (arith, entries_length e (fl ++ (id, name) ∷ []), length-last fl id name)

-- Whatever characters stand behind the string, a directory whose last name is not empty, and whose
-- bytes an `unsigned int` can count, is read back behind the entries that were there.
pub deserialize-serialize :
    (c : ℕ → ℕ) (fl es : FileList)
    → Holds c 0 (serialize es)
    → length (serialize es) + 1 < 2 ^ 32
    → All IsEntry es
    → EndsNamed es
    → deserialize c (length (serialize es)) fl ≡ (true, fl ++ es)
unfolding deserialize serialize
deserialize-serialize c fl es h small v last =
    let (h0, h1) = Holds-split c 0 (le32 (length es % 2 ^ 32)) (entries_bytes es) h in
    let many = entries_count es in
    let n : load32 c 0 ≡ length es =
      load32_lem c 0 (length es % 2 ^ 32) h0 (omega arith) ∙ omega arith in
    let size : length (serialize es) % 2 ^ 32 ≡ length (serialize es) = omega arith in
    let t : ltb (length (serialize es)) (length es * 12 + 4) ≡ false =
      le→ltb (length (serialize es)) (length es * 12 + 4) (omega arith) in
    rw (size, n, t)
      (loop_lem es c (length (serialize es)) (length es) 0 4 fl small (omega arith) (omega arith) v
        last h1)

unnamed_entry :
    (c : ℕ → ℕ) (size_buf size_fl n i p : ℕ) (fl : FileList)
    → size_buf + 1 < 2 ^ 32
    → p + 12 ≡ size_buf
    → (deserialize_loop c size_buf size_fl (suc n) i p fl).0 ≡ false
unfolding deserialize_loop
unnamed_entry c size_buf size_fl n i p fl small e =
    let e1 : (p + 8) % 2 ^ 32 ≡ p + 8 = omega arith in
    let e2 : (p + 8 + 4) % 2 ^ 32 ≡ p + 12 = omega arith in
    let t1 : leb size_buf (p + 8) ≡ false = ground arith in
    let t2 : leb size_buf (p + 12) ≡ true = ground arith in rw (e1, e2, t1, t2)

loop_unnamed :
    (es : FileList) (id : ℕ) (c : ℕ → ℕ) (size_buf size_fl i p : ℕ) (fl : FileList)
    → size_buf + 1 < 2 ^ 32
    → p + length (entries_bytes (es ++ (id, []) ∷ [])) ≡ size_buf
    → All IsEntry es
    → Holds c p (entries_bytes (es ++ (id, []) ∷ []))
    → (deserialize_loop c size_buf size_fl (length (es ++ (id, []) ∷ [])) i p fl).0 ≡ false
loop_unnamed [] id c size_buf size_fl i p fl small size v h =
    unnamed_entry c size_buf size_fl 0 i p fl small (omega (arith, entries_length (id, []) []))
loop_unnamed (e ∷ es) id c size_buf size_fl i p fl small size v h =
    let more = es ++ (id, []) ∷ [] in
    let n = entries_length e more in
    let room = more_room es id in
    let next : p + length (entry_bytes e) ≡ p + 12 + length e.1 = omega (arith, entry_length e) in
    let h' : Holds c (p + 12 + length e.1) (entries_bytes more) =
      rw next at (Holds-split c p (entry_bytes e) (entries_bytes more) h).1 in
    rw
      (round_then e more c size_buf size_fl (length more) i p fl small size v.0 h (omega arith)
        (ground arith))
      (loop_unnamed es id c size_buf size_fl (i + 1) (p + 12 + length e.1) (fl ++ e ∷ []) small
        (omega arith) v.1 h')

-- Whatever characters stand behind the string, a directory whose last name is empty, and whose bytes
-- an `unsigned int` can count, is written by `serialize` and then refused by `deserialize`.
pub deserialize_unnamed :
    (c : ℕ → ℕ) (fl es : FileList) (id : ℕ)
    → Holds c 0 (serialize (es ++ (id, []) ∷ []))
    → length (serialize (es ++ (id, []) ∷ [])) + 1 < 2 ^ 32
    → All IsEntry es
    → (deserialize c (length (serialize (es ++ (id, []) ∷ []))) fl).0 ≡ false
unfolding deserialize serialize
deserialize_unnamed c fl es id h small v =
    let all = es ++ (id, []) ∷ [] in
    let (h0, h1) = Holds-split c 0 (le32 (length all % 2 ^ 32)) (entries_bytes all) h in
    let many = entries_count all in
    let n : load32 c 0 ≡ length all =
      load32_lem c 0 (length all % 2 ^ 32) h0 (omega arith) ∙ omega arith in
    let size : length (serialize all) % 2 ^ 32 ≡ length (serialize all) = omega arith in
    let t : ltb (length (serialize all)) (length all * 12 + 4) ≡ false =
      le→ltb (length (serialize all)) (length all * 12 + 4) (omega arith) in
    rw (size, n, t)
      (loop_unnamed es id c (length (serialize all)) (length all) 0 4 fl small (omega arith) v h1)
