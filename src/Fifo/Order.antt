-- ===== src/Fifo/Order.antt =====
-- The queue of lab/rpc/fifo.h over sequences of calls that go through.
use ds14_project.Base.{
  ℕ, ◌≤◌, ◌<◌, ◌≡◌, ◌⊎◌, inr, refl, sym, ap, ◌∙◌, Bool, List, [], ◌∷◌, ◌++◌, length, length-append,
  some, arith, append_assoc,
}
use ds14_project.Fifo.{Fifo, queued, empty, enq, deq}

module _ {ℓ} {A : Type ℓ} where
  -- A queue, and what went in and came out of it so far.
  pub data Run (limit : ℕ) : (went came : List A) → Fifo A → Type ℓ where
    start : Run limit [] [] (empty limit)
    puts :
        {went came : List A} {f : Fifo A} (e : A) (blocking : Bool) (g : Fifo A)
        → Run limit went came f
        → enq e blocking f ≡ queued g
        → Run limit (went ++ e ∷ []) came g
    takes :
        {went came : List A} {f : Fifo A} (e : A) (g : Fifo A)
        → Run limit went came f
        → deq f ≡ some (e, g)
        → Run limit went (came ++ e ∷ []) g

  enq-queued :
      (e : A) (blocking : Bool) (f g : Fifo A)
      → enq e blocking f ≡ queued g
      → (g.q ≡ f.q ++ e ∷ []) × (g.max ≡ f.max) × ((f.max ≡ 0) ⊎ (length f.q < f.max))
  unfolding enq
  enq-queued e blocking f g h = ground arith

  deq-some : (e : A) (f g : Fifo A) → deq f ≡ some (e, g) → (f.q ≡ e ∷ g.q) × (g.max ≡ f.max)
  unfolding deq
  deq-some e f g h = ground arith

  -- Over any sequence of calls of `enq` and `deq` that go through, from an empty queue, what went in
  -- is what came out and then what is still in the queue, in that order; and a queue with a limit
  -- holds at most that many.
  pub run_order :
      (limit : ℕ) (went came : List A) (f : Fifo A)
      → Run limit went came f
      → (went ≡ came ++ f.q) × (f.max ≡ limit) × ((limit ≡ 0) ⊎ (length f.q ≤ limit))
  run_order limit _ _ _ start = (refl, refl, inr (omega arith))
  run_order limit _ _ _ (puts {went = w} {came = c} {f = f} e b g r h) =
      let (order, same, bound) = run_order limit w c f r in
      let (q, m, room) = enq-queued e b f g h in
      (
        rw (order, q) (append_assoc c f.q (e ∷ [])),
        m ∙ same,
        ground (arith, ap length q, length-append f.q (e ∷ []), room, bound, same),
      )
  run_order limit _ _ _ (takes {went = w} {came = c} {f = f} e g r h) =
      let (order, same, bound) = run_order limit w c f r in
      let (q, m) = deq-some e f g h in
      (
        order ∙ rw q (sym (append_assoc c (e ∷ []) g.q)),
        m ∙ same,
        ground (arith, ap length q, bound, same),
      )
