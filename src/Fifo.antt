-- ===== src/Fifo.antt =====
-- The bounded queue of lab/rpc/fifo.h. Each call holds the queue's mutex but while it waits on a
-- condition; a call that waits changes nothing, and makes its step when it goes on.
pub mod Order
use ds14_project.Base.{
  ℕ, Bool, true, false, ◌||◌, List, [], ◌∷◌, ◌++◌, length, ltb, ◌==◌, if◌then◌else◌, Option, some,
  none,
}

pub record Fifo {ℓ} (A : Type ℓ) : Type ℓ where
  pub q : List A
  pub max : ℕ

-- What a call of `enq` comes to: the queue with the element, `false`, or the wait for space.
pub data Enq {ℓ} (A : Type ℓ) : Type ℓ where
  queued : Fifo A → Enq A
  refused : Enq A
  waits : Enq A

module _ {ℓ} {A : Type ℓ} where
  abbrev pub empty : ℕ → Fifo A
  empty limit = record { q = []; max = limit }

  unfoldable pub enq : A → (blocking : Bool) → Fifo A → Enq A
  enq e blocking f =
      if f.max == 0 || ltb (length f.q) f.max
      then queued (record f { q = f.q ++ e ∷ [] })
      else (if blocking then waits else refused)

  -- `none` waits for an element.
  unfoldable pub deq : Fifo A → Option (A × Fifo A)
  deq f = elim f.q [ [] ↦ none | e ∷ rest ↦ some (e, record f { q = rest }) ]

  -- `size`, which returns a `bool`.
  unfoldable pub size : Fifo A → Bool
  size f = elim f.q [ [] ↦ false | e ∷ rest ↦ true ]
