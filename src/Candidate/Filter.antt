-- ===== src/Candidate/Filter.antt =====
-- knight/src/candidate/candidate_filter.cpp, pool_snapshot.cpp and knight/src/decoder/decoder.cpp: which
-- pending transactions are candidates, and how their calls and the pools' reserves are read.
pub mod Accepted
use dex_knight.Prelude.{
  ℕ, Bool, true, false, ◌&&◌, Bytes, List, [], ◌∷◌, Option, none, some, length, take, drop, leb,
  ◌==◌, same_bytes, if◌then◌else◌, ◌>>=◌,
}
use dex_knight.External.{External}
use dex_knight.Utils.Fields.{json_string, parse_hex_bytes}
use dex_knight.Evm.Contracts.{
  Pool, Swap, swap_exact_a_for_b, swap_exact_b_for_a, swap_exact_a_for_b_selector,
  swap_exact_b_for_a_selector,
}
use dex_knight.Candidate.Types.{
  PendingTransaction, PendingSnapshot, SwapKind, a_for_b, b_for_a, Candidate, CandidateSnapshot,
  PoolSnapshot,
}

-- `std::equal(selector.begin(), selector.end(), input.begin())`, with the bound on the sizes checked
-- before it.
unfoldable equal_from : Bytes → Bytes → Bool
equal_from [] input = true
equal_from (b ∷ selector) [] = false
equal_from (b ∷ selector) (c ∷ input) = b == c && equal_from selector input

unfoldable pub starts_with_selector : Bytes → Bytes → Bool
unfolding equal_from
starts_with_selector input selector =
    leb (length selector) (length input) && equal_from selector input

unfoldable pub swap_kind_from_input : Bytes → Option SwapKind
unfolding starts_with_selector
swap_kind_from_input input =
    if starts_with_selector input swap_exact_a_for_b_selector
    then some a_for_b
    else if starts_with_selector input swap_exact_b_for_a_selector
    then some b_for_a
    else none

unfoldable pub find_pool : List Pool → Bytes → Option Pool
find_pool [] address = none
find_pool (pool ∷ pools) address =
    let rest = find_pool pools address in
    if same_bytes pool.address address then some pool else rest

unfoldable pub filter : List Pool → PendingTransaction → Option Candidate
unfolding find_pool swap_kind_from_input
filter pools tx = do
  to ← tx.to
  pool ← find_pool pools to
  swap_kind ← swap_kind_from_input tx.input
  some (record { tx = tx; pool = pool; swap_kind = swap_kind })

-- The loop over the transactions of a snapshot.
unfoldable pub accepted : List Pool → List PendingTransaction → List Candidate
unfolding filter
accepted pools [] = []
accepted pools (tx ∷ txs) =
    let candidates = accepted pools txs in
    elim (filter pools tx) [ none ↦ candidates | some candidate ↦ candidate ∷ candidates ]

unfoldable pub filter_snapshot : List Pool → PendingSnapshot → CandidateSnapshot
unfolding accepted
filter_snapshot pools snapshot = record {
  block_number = snapshot.block_number;
  snapshot_seq = snapshot.snapshot_seq;
  candidates = accepted pools snapshot.transactions;
}

-- decoder::kSelectorLength
abbrev pub selector_length : ℕ
selector_length = 4

-- The calldata behind an expected selector, read as two numbers.
unfoldable decode_behind : External → Bytes → Bytes → Option (ℕ × ℕ)
decode_behind x expected input =
    if same_bytes expected (take selector_length input)
    then x.decode_pair (drop selector_length input)
    else none

unfoldable pub decode_swap : External → Candidate → Option Swap
unfolding decode_behind
decode_swap x c = if leb (length c.tx.input) selector_length then none else elim c.swap_kind [
  | a_for_b ↦ (do
    (amount_in, min_amount_out) ← decode_behind x swap_exact_a_for_b_selector c.tx.input
    some (swap_exact_a_for_b (record { amount_in = amount_in; min_amount_out = min_amount_out })))
  | b_for_a ↦ (do
    (amount_in, min_amount_out) ← decode_behind x swap_exact_b_for_a_selector c.tx.input
    some (swap_exact_b_for_a (record { amount_in = amount_in; min_amount_out = min_amount_out })))
]

-- PoolSnapshot::from_json
unfoldable pub pool_snapshot_from_json : (x : External) → Pool → x.Value → Option PoolSnapshot
pool_snapshot_from_json x pool value = do
  object ← x.as_object value
  raw_result ← json_string x object "result"
  result ← parse_hex_bytes x raw_result
  (reserve_a, reserve_b) ← x.decode_pair result
  some (record { pool = pool; reserve_a = reserve_a; reserve_b = reserve_b })
