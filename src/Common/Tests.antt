-- ===== src/Common/Tests.antt =====
-- A queue of two places under a few calls.
use dex_knight.Prelude.{ℕ, true, List, [], ◌∷◌}
use dex_knight.Common.Queue.Fifo
use dex_knight.Common.Queue.Fifo.{
  Call, History, IsFifo, start, pushes, pops, closes, run-start-IsFifo, run-closed, run_drains,
}

abbrev calls : List (Call ℕ)
calls = pushes 5 ∷ pushes 6 ∷ pushes 7 ∷ pops ∷ closes ∷ pushes 8 ∷ []

run-start-IsFifo_example : IsFifo 2 (Fifo.run 2 start calls)
run-start-IsFifo_example = run-start-IsFifo 2 calls

abbrev shut : History ℕ
shut = record {
  queue = record { items = 6 ∷ 7 ∷ []; closed = true };
  accepted = 5 ∷ 6 ∷ 7 ∷ [];
  delivered = 5 ∷ [];
}
