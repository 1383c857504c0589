-- ===== src/Common/Queue.antt =====
-- `Queue<T, Capacity>` of knight/src/common/queue.h. A call runs whole under the queue's mutex, so a
-- call is a function of the queue; `none` of `wait_pop` means that the caller stays blocked.
pub mod Fifo
use dex_knight.Prelude.{
  ℕ, Bool, true, false, List, [], ◌∷◌, ◌++◌, Option, none, some, length, leb, if◌then◌else◌,
}

pub record Queue {ℓ} (T : Type ℓ) : Type ℓ where
  pub items : List T
  pub closed : Bool

module _ {ℓ} {T : Type ℓ} where
  abbrev pub empty : Queue T
  empty = record { items = []; closed = false }

  unfoldable pub try_push : ℕ → T → Queue T → Bool × Queue T
  try_push capacity item q =
      if q.closed
      then (false, q)
      else if leb capacity (length q.items)
      then (false, q)
      else (true, record q { items = q.items ++ item ∷ [] })

  unfoldable pub wait_pop : Queue T → Option (Option T × Queue T)
  wait_pop q = elim q.items [
    | [] ↦ if q.closed then some (none, q) else none
    | item ∷ rest ↦ some (some item, record q { items = rest })
  ]

  unfoldable pub close : Queue T → Queue T
  close q = record q { closed = true }
