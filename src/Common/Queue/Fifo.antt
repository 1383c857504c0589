-- ===== src/Common/Queue/Fifo.antt =====
-- The queue over any sequence of calls: first in, first out, within the capacity, and shut by `close`.
use dex_knight.Prelude.{
  ℕ, ◌≤◌, ◌≡◌, refl, ◌∙◌, sym, ap, replicate, Bool, true, false, List, [], ◌∷◌, ◌++◌, append_assoc,
  append-nil, Option, none, some, arith, length, length-append,
}
use dex_knight.Common.Queue.{Queue, empty, try_push, wait_pop, close}

pub data Call {ℓ} (T : Type ℓ) : Type ℓ where
  pushes : T → Call T
  pops : Call T
  closes : Call T

-- A queue with what it has accepted and what it has delivered, oldest first.
pub record History {ℓ} (T : Type ℓ) : Type ℓ where
  pub queue : Queue T
  pub accepted : List T
  pub delivered : List T

module _ {ℓ} {T : Type ℓ} where
  abbrev pub start : History T
  start = record { queue = empty; accepted = []; delivered = [] }

  abbrev pushed : T → History T → Bool × Queue T → History T
  pushed item h (true, q) = record h { queue = q; accepted = h.accepted ++ item ∷ [] }
  pushed item h (false, q) = record h { queue = q }

  abbrev popped : History T → Option (Option T × Queue T) → History T
  popped h none = h
  popped h (some (none, q)) = record h { queue = q }
  popped h (some (some item, q)) = record h { queue = q; delivered = h.delivered ++ item ∷ [] }

  -- One call; a `wait_pop` that would block leaves the history as it is.
  pub step : ℕ → History T → Call T → History T
  step capacity h (pushes item) = pushed item h (try_push capacity item h.queue)
  step capacity h pops = popped h (wait_pop h.queue)
  step capacity h closes = record h { queue = close h.queue }

  pub run : ℕ → History T → List (Call T) → History T
  run capacity h [] = h
  run capacity h (c ∷ cs) = run capacity (step capacity h c) cs

  pub record IsFifo (capacity : ℕ) (h : History T) : Type ℓ where
    pub order : h.accepted ≡ h.delivered ++ h.queue.items
    pub bounded : length h.queue.items ≤ capacity

  step-IsFifo :
      (capacity : ℕ) (h : History T) (c : Call T)
      → IsFifo capacity h
      → IsFifo capacity (step capacity h c)
  unfolding step try_push wait_pop close
  step-IsFifo capacity h (pushes item) v = ground (
    arith,
    append_assoc h.delivered h.queue.items (item ∷ []),
    length-append h.queue.items (item ∷ []),
  )
  step-IsFifo capacity h pops v = grind (arith, append_assoc)
  step-IsFifo capacity h closes v = record { order = v.order; bounded = v.bounded }

  run-IsFifo :
      (capacity : ℕ) (h : History T) (cs : List (Call T))
      → IsFifo capacity h
      → IsFifo capacity (run capacity h cs)
  unfolding run
  run-IsFifo capacity h [] v = v
  run-IsFifo capacity h (c ∷ cs) v =
      run-IsFifo capacity (step capacity h c) cs (step-IsFifo capacity h c v)

  -- After any calls on an empty queue, what was accepted is what was delivered and then what still
  -- waits, in order, and no more than `capacity` items wait.
  pub run-start-IsFifo :
      (capacity : ℕ) (cs : List (Call T)) → IsFifo capacity (run capacity start cs)
  run-start-IsFifo capacity cs =
      run-IsFifo capacity start cs (record { order = refl; bounded = omega arith })

  step-closed :
      (capacity : ℕ) (h : History T) (c : Call T)
      → h.queue.closed ≡ true
      → ((step capacity h c).queue.closed ≡ true) × ((step capacity h c).accepted ≡ h.accepted)
  unfolding step try_push wait_pop close
  step-closed capacity h (pushes item) e = ground arith
  step-closed capacity h pops e = ground arith
  step-closed capacity h closes e = (refl, refl)

  -- A closed queue stays closed and accepts nothing more.
  pub run-closed :
      (capacity : ℕ) (h : History T) (cs : List (Call T))
      → h.queue.closed ≡ true
      → ((run capacity h cs).queue.closed ≡ true) × ((run capacity h cs).accepted ≡ h.accepted)
  unfolding run
  run-closed capacity h [] e = (e, refl)
  run-closed capacity h (c ∷ cs) e =
      let (stays, same) = step-closed capacity h c e in
      let (stays', same') = run-closed capacity (step capacity h c) cs stays in
      (stays', same' ∙ same)

  pop_head :
      (capacity : ℕ) (h : History T) (x : T) (xs : List T)
      → h.queue.items ≡ x ∷ xs
      → ((step capacity h pops).queue.items ≡ xs)
        × ((step capacity h pops).delivered ≡ h.delivered ++ x ∷ [])
  unfolding step wait_pop
  pop_head capacity h x xs e = ground arith

  -- As many pops as items wait deliver all of them in order, none of them blocking, whether the queue
  -- is closed or not.
  pub run_drains :
      (capacity : ℕ) (h : History T) (items : List T)
      → h.queue.items ≡ items
      → ((run capacity h (replicate (length items) pops)).delivered ≡ h.delivered ++ items)
        × ((run capacity h (replicate (length items) pops)).queue.items ≡ [])
  unfolding run
  run_drains capacity h [] e = (sym (append-nil h.delivered), e)
  run_drains capacity h (x ∷ xs) e =
      let (rest, one) = pop_head capacity h x xs e in
      let (all_delivered, none_left) = run_drains capacity (step capacity h pops) xs rest in
      (all_delivered ∙ ap (λ l. l ++ xs) one ∙ append_assoc h.delivered (x ∷ []) xs, none_left)
