-- ===== src/RpcClient/XidWindow/Laws.antt =====
-- What the window stands for: a set of numbers, all up to its front and those that it lists.
use ds14_project.Base.{
  ℕ, ◌+◌, ◌^◌, ◌≤◌, ◌<◌, ◌≡◌, ◌≢◌, refl, ◌∙◌, Bool, true, false, ◌||◌, List, [], ◌∷◌, ◌++◌, leb,
  ◌==◌, arith, All, All-append, append_assoc, Bool-cases, append-nil, ℕ_discrete, dec_lt,
}
use ds14_project.RpcClient.XidWindow.{
  front, insert_xid, pop_below, compress_loop, compress, update_xid_rep,
}

abbrev pub has : ℕ → List ℕ → Bool
has n [] = false
has n (x ∷ w) = (n == x) || has n w

-- The replies that have arrived, as the window tells them.
abbrev pub arrived : ℕ → List ℕ → Bool
arrived n [] = false
arrived n (front ∷ w) = leb n front || has n w

abbrev pub AscendsFrom : ℕ → List ℕ → Type 0
AscendsFrom lo [] = Unit {0}
AscendsFrom lo (x ∷ w) = (lo ≤ x) × AscendsFrom x w

-- A number with room for its successor.
abbrev pub IsXid : ℕ → Type 0
IsXid x = x + 1 < 2 ^ 32

-- An ascending window whose front cannot move on: the next number has not arrived.
abbrev pub IsWindow : List ℕ → Type 0
IsWindow [] = ⊥
IsWindow (front ∷ w) = AscendsFrom front w × (has (front + 1) w ≡ false) × IsXid front × All IsXid w

has-append : (n : ℕ) (xs ys : List ℕ) → has n (xs ++ ys) ≡ (has n xs || has n ys)
has-append n [] ys = refl
has-append n (x ∷ xs) ys = ground (arith, has-append n xs ys)

ascends-le : (lo y : ℕ) (xs ys : List ℕ) → AscendsFrom lo (xs ++ y ∷ ys) → lo ≤ y
ascends-le lo y [] ys h = h.0
ascends-le lo y (x ∷ xs) ys h = omega (arith, ascends-le x y xs ys h.1)

ascends-tail : (lo y : ℕ) (xs ys : List ℕ) → AscendsFrom lo (xs ++ y ∷ ys) → AscendsFrom y ys
ascends-tail lo y [] ys h = h.1
ascends-tail lo y (x ∷ xs) ys h = ascends-tail x y xs ys h.1

-- Between the front and its successor there are only copies of the front: all are popped.
module _ (x y : ℕ) (room : IsXid x) (succ : y ≡ x + 1) where
  pop_below-all :
      (xs ys : List ℕ) → AscendsFrom x (xs ++ y ∷ ys) → has y xs ≡ false → pop_below y xs ≡ []
  unfolding pop_below
  pop_below-all [] ys h new = refl
  pop_below-all (z ∷ xs) ys h new =
      let le = ascends-le z y xs ys h.1 in
      let e : z ≡ x = ground (arith, le) in ground (arith, e, pop_below-all xs ys (rw e at h.1))

  only_copies :
      (n : ℕ) (xs ys : List ℕ)
      → AscendsFrom x (xs ++ y ∷ ys)
      → has y xs ≡ false
      → has n xs ≡ true
      → n ≡ x
  only_copies n [] ys h new e = cc
  only_copies n (z ∷ xs) ys h new e =
      let le = ascends-le z y xs ys h.1 in
      let same : z ≡ x = ground (arith, le) in
      ground (arith, same, only_copies n xs ys (rw same at h.1))

-- What `w'` has to be: a window for the same replies as the ascending list `w`.
pub record Compresses (w w' : List ℕ) : Type 0 where
  pub window : IsWindow w'
  pub same : (n : ℕ) → arrived n w' ≡ arrived n w

pop_below-none : (x y : ℕ) (xs : List ℕ) → IsXid x → y ≢ x + 1 → pop_below y (x ∷ xs) ≡ x ∷ xs
unfolding pop_below
pop_below-none x y xs room h = ground (arith, h)

arrived-copies :
    (n x y : ℕ) (xs ys : List ℕ)
    → y ≡ x + 1
    → (has n xs ≡ true → n ≡ x)
    → arrived n (y ∷ ys) ≡ arrived n (x ∷ xs ++ y ∷ ys)
arrived-copies n x y xs ys e copies =
    ground (arith, has-append n xs (y ∷ ys), copies, Bool-cases (has n xs))

compress_loop-Compresses :
    (x : ℕ) (xs ys : List ℕ)
    → AscendsFrom x (xs ++ ys)
    → has (x + 1) xs ≡ false
    → IsXid x
    → All IsXid xs
    → All IsXid ys
    → Compresses (x ∷ xs ++ ys) (compress_loop (x ∷ xs) ys)
unfolding compress_loop
compress_loop-Compresses x xs [] h new room rooms rest =
    rw append-nil (record { window = (rw append-nil at h, new, room, rooms); same = λ n. refl })
compress_loop-Compresses x xs (y ∷ ys) h new room rooms (ry, rest) = elim (ℕ_discrete y (x + 1)) [
  | yes e ↦
      let popped : pop_below y (x ∷ xs) ≡ [] =
        unfold pop_below in ground (arith, pop_below-all x y room e xs ys h (rw e new)) in
      let tail = ascends-tail x y xs ys h in
      let c = compress_loop-Compresses y [] ys tail refl ry tt rest in
      rw popped (record {
        window = c.window;
        same = λ n.
            c.same n ∙ arrived-copies n x y xs ys e (only_copies x y room e n xs ys h (rw e new));
      })
  | no e ↦
      let kept = pop_below-none x y xs room e in
      let c =
        compress_loop-Compresses x (xs ++ y ∷ []) ys (rw append_assoc h)
          (ground (arith, has-append (x + 1) xs (y ∷ []), new, e)) room
          (All-append IsXid xs (y ∷ []) rooms (ry, tt)) rest in
      rw kept (record { window = c.window; same = λ n. c.same n ∙ rw append_assoc })
]

has-insert_xid : (n xid : ℕ) (w : List ℕ) → has n (insert_xid xid w) ≡ ((n == xid) || has n w)
unfolding insert_xid
has-insert_xid n xid [] = refl
has-insert_xid n xid (y ∷ w) = ground (arith, has-insert_xid n xid w)

insert_xid-ascends :
    (lo xid : ℕ) (w : List ℕ) → AscendsFrom lo w → lo ≤ xid → AscendsFrom lo (insert_xid xid w)
unfolding insert_xid
insert_xid-ascends lo xid [] h le = (le, tt)
insert_xid-ascends lo xid (y ∷ w) h le = ground (arith, insert_xid-ascends y xid w h.1)

insert_xid-rooms : (xid : ℕ) (w : List ℕ) → IsXid xid → All IsXid w → All IsXid (insert_xid xid w)
unfolding insert_xid
insert_xid-rooms xid [] r h = (r, tt)
insert_xid-rooms xid (y ∷ w) r h = ground (arith, insert_xid-rooms xid w r h.1)

insert_xid-front :
    (xid front : ℕ) (w : List ℕ)
    → front < xid
    → insert_xid xid (front ∷ w) ≡ front ∷ insert_xid xid w
unfolding insert_xid
insert_xid-front xid front w h = ground arith

-- The arrival of a reply keeps the window ascending and compressed, and the window then stands for
-- the replies of before and this one.
pub update_xid_rep_lem :
    (xid : ℕ) (w : List ℕ)
    → IsWindow w
    → IsXid xid
    → IsWindow (update_xid_rep xid w)
      × ((n : ℕ) → arrived n (update_xid_rep xid w) ≡ ((n == xid) || arrived n w))
unfolding update_xid_rep compress
update_xid_rep_lem xid [] h r = absurd h
update_xid_rep_lem xid (front ∷ w) h r = elim (dec_lt front xid) [
  | yes later ↦
      let e : leb xid front ≡ false = ground arith in
      let c =
        compress_loop-Compresses front [] (insert_xid xid w)
          (insert_xid-ascends front xid w h.0 (omega arith)) refl h.2 tt
          (insert_xid-rooms xid w r h.3) in
      rw (e, insert_xid-front xid front w later)
        (c.window, λ n. c.same n ∙ ground (arith, has-insert_xid n xid w))
  | no old ↦ let e : leb xid front ≡ true = ground arith in rw e (h, λ n. ground (arith, old))
]

-- The arrivals of a client's life, and what it then reports as `xid_rep`.
pub receive : List ℕ → List ℕ → List ℕ
receive w [] = w
receive w (xid ∷ xids) = receive (update_xid_rep xid w) xids

receive_lem :
    (w xids : List ℕ)
    → IsWindow w
    → All IsXid xids
    → IsWindow (receive w xids)
      × ((n : ℕ) → arrived n (receive w xids) ≡ (arrived n w || has n xids))
unfolding receive
receive_lem w [] h r = (h, λ n. ground arith)
receive_lem w (xid ∷ xids) h (r, rs) =
    let (window, same) = update_xid_rep_lem xid w h r in
    let (window', same') = receive_lem (update_xid_rep xid w) xids window rs in
    (window', λ n. ground (arith, same n, same' n))

pub front-arrived :
    (w : List ℕ)
    → IsWindow w
    → ((n : ℕ) → n ≤ front w → arrived n w ≡ true) × (arrived (front w + 1) w ≡ false)
unfolding front
front-arrived [] h = absurd h
front-arrived (x ∷ w) h = (λ n le. ground arith, ground (arith, h.1))

-- Whatever replies arrive, in whatever order and however often, the number that the client then
-- reports is exact: every reply up to it has arrived, and the next one has not. The numbers of the
-- replies lie below 2^32 - 1.
pub front-receive :
    (xids : List ℕ)
    → All IsXid xids
    → let reported = front (receive (0 ∷ []) xids) in
      ((n : ℕ) → 0 < n → n ≤ reported → has n xids ≡ true) × (has (reported + 1) xids ≡ false)
front-receive xids r =
    let (window, same) = receive_lem (0 ∷ []) xids (tt, refl, omega arith, tt) r in
    let w = receive (0 ∷ []) xids in
    let (below, next) = front-arrived w window in
    (λ n pos le. ground (arith, below n, same n, pos, le), ground (arith, next, same (front w + 1)))
