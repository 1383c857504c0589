-- ===== src/Candidate/Filter/Accepted.antt =====
-- What the filter accepts, and that the decoder agrees with it about the selector.
use dex_knight.Prelude.{
  ℕ, ◌≡◌, refl, sym, Option-cases, true, Bytes, List, [], ◌∷◌, none, some, arith, length, take,
  drop, leb, same_bytes, same_bytes_refl, same_bytes-eq, if◌then◌else◌, ◌>>=◌, >>=-eq-some,
  Bool-cases, inl, inr, ◌⊎◌,
}
use dex_knight.External.{External}
use dex_knight.Evm.Contracts.{
  Pool, Swap, swap_exact_a_for_b, swap_exact_b_for_a, swap_exact_a_for_b_selector,
  swap_exact_b_for_a_selector,
}
use dex_knight.Candidate.Types.{
  PendingTransaction, PendingSnapshot, SwapKind, a_for_b, b_for_a, Candidate,
}
use dex_knight.Candidate.Filter.{
  equal_from, starts_with_selector, swap_kind_from_input, find_pool, filter, accepted,
  filter_snapshot, decode_behind, decode_swap, selector_length,
}

-- The selector of a kind of swap, and the call that its two arguments make.
abbrev pub selector_of : SwapKind → Bytes
selector_of a_for_b = swap_exact_a_for_b_selector
selector_of b_for_a = swap_exact_b_for_a_selector

abbrev pub call_of : SwapKind → ℕ × ℕ → Swap
call_of a_for_b (i, o) = swap_exact_a_for_b (record { amount_in = i; min_amount_out = o })
call_of b_for_a (i, o) = swap_exact_b_for_a (record { amount_in = i; min_amount_out = o })

-- A pool is an element of a list of pools.
abbrev pub Among : List Pool → Pool → Type 0
Among [] p = ⊥
Among (q ∷ pools) p = (q ≡ p) ⊎ Among pools p

-- What `filter` promises of a candidate that it made from a transaction.
pub record IsAccepted (pools : List Pool) (tx : PendingTransaction) (c : Candidate) : Type 0 where
  pub same_tx : c.tx ≡ tx
  pub to_pool : tx.to ≡ some c.pool.address
  pub configured : Among pools c.pool
  pub selected : take selector_length tx.input ≡ selector_of c.swap_kind

equal_from-take : (s input : Bytes) → equal_from s input ≡ true → take (length s) input ≡ s
unfolding equal_from
equal_from-take [] input e = refl
equal_from-take (b ∷ s) [] e = cc
equal_from-take (b ∷ s) (c ∷ input) e = ground (arith, equal_from-take s input)

starts_with_selector-take :
    (input s : Bytes) → starts_with_selector input s ≡ true → take (length s) input ≡ s
unfolding starts_with_selector
starts_with_selector-take input s e = ground (arith, equal_from-take s input)

swap_kind_from_input-take :
    (input : Bytes) (k : SwapKind)
    → swap_kind_from_input input ≡ some k
    → take selector_length input ≡ selector_of k
unfolding swap_kind_from_input
swap_kind_from_input-take input k e = ground (
  arith,
  starts_with_selector-take input swap_exact_a_for_b_selector,
  starts_with_selector-take input swap_exact_b_for_a_selector,
)

find_pool_lem :
    (pools : List Pool) (address : Bytes) (p : Pool)
    → find_pool pools address ≡ some p
    → (p.address ≡ address) × Among pools p
unfolding find_pool
find_pool_lem [] address p e = cc
find_pool_lem (q ∷ pools) address p e = elim (Bool-cases (same_bytes q.address address)) [
  | inl same ↦ ground (arith, same_bytes-eq q.address address same)
  | inr different ↦ ground (arith, find_pool_lem pools address p)
]

-- A transaction that `filter` makes a candidate of goes to the candidate's pool, which is one of the
-- configured pools, and its input starts with the selector of the candidate's kind of swap.
pub filter-IsAccepted :
    (pools : List Pool) (tx : PendingTransaction) (c : Candidate)
    → filter pools tx ≡ some c
    → IsAccepted pools tx c
unfolding filter
filter-IsAccepted pools tx c e =
    let (to, to_eq, e1) = >>=-eq-some tx.to _ e in
    let (pool, pool_eq, e2) = >>=-eq-some (find_pool pools to) _ e1 in
    let (kind, kind_eq, e3) = >>=-eq-some (swap_kind_from_input tx.input) _ e2 in
    let (address_eq, among) = find_pool_lem pools to pool pool_eq in
    let selected = swap_kind_from_input-take tx.input kind kind_eq in ground arith

decode_behind-selected :
    (x : External) (selector input : Bytes)
    → take selector_length input ≡ selector
    → decode_behind x selector input ≡ x.decode_pair (drop selector_length input)
unfolding decode_behind
decode_behind-selected x selector input e = ground (arith, e, same_bytes_refl selector)

decode_swap-selected :
    (x : External) (c : Candidate) (k : SwapKind)
    → c.swap_kind ≡ k
    → take selector_length c.tx.input ≡ selector_of k
    → decode_swap x c ≡ (
        if leb (length c.tx.input) selector_length then none else (do
          arguments ← x.decode_pair (drop selector_length c.tx.input)
          some (call_of k arguments)))
unfolding decode_swap
decode_swap-selected x c a_for_b k s =
    rw (k, decode_behind-selected x swap_exact_a_for_b_selector c.tx.input s) refl
decode_swap-selected x c b_for_a k s =
    rw (k, decode_behind-selected x swap_exact_b_for_a_selector c.tx.input s) refl

-- The decoder refuses a candidate of the filter only for its length or its arguments, never for its
-- selector: beyond the selector's length, its swap is the call of its kind on the decoded arguments.
pub decode_swap-filter :
    (x : External) (pools : List Pool) (tx : PendingTransaction) (c : Candidate)
    → filter pools tx ≡ some c
    → decode_swap x c ≡ (
        if leb (length tx.input) selector_length then none else (do
          arguments ← x.decode_pair (drop selector_length tx.input)
          some (call_of c.swap_kind arguments)))
decode_swap-filter x pools tx c e =
    let v = filter-IsAccepted pools tx c e in
    let same = v.same_tx in
    rw (sym same) (decode_swap-selected x c c.swap_kind refl (rw same v.selected))

-- The candidates of a filtered snapshot, in the order of its transactions.
pub data Selected (pools : List Pool) : List PendingTransaction → List Candidate → Type 0 where
  selected_none : Selected pools [] []
  refused :
      {tx : PendingTransaction} {txs : List PendingTransaction} {cs : List Candidate}
      → filter pools tx ≡ none
      → Selected pools txs cs
      → Selected pools (tx ∷ txs) cs
  chosen :
      {tx : PendingTransaction} {txs : List PendingTransaction} {c : Candidate}
      {cs : List Candidate}
      → filter pools tx ≡ some c
      → Selected pools txs cs
      → Selected pools (tx ∷ txs) (c ∷ cs)

accepted-Selected :
    (pools : List Pool) (txs : List PendingTransaction) → Selected pools txs (accepted pools txs)
unfolding accepted
accepted-Selected pools [] = selected_none
accepted-Selected pools (tx ∷ txs) =
    let rest = accepted-Selected pools txs in
    elim (Option-cases (filter pools tx)) [
      | inl none_eq ↦ rw (none_eq, accepted) (refused none_eq rest)
      | inr (c, some_eq) ↦ rw (some_eq, accepted) (chosen some_eq rest)
    ]

-- A filtered snapshot keeps the block number and the sequence number of the builder's snapshot, and
-- its candidates are those of the transactions that `filter` accepts, in their order.
pub filter_snapshot-Selected :
    (pools : List Pool) (s : PendingSnapshot)
    → ((filter_snapshot pools s).block_number ≡ s.block_number)
      × ((filter_snapshot pools s).snapshot_seq ≡ s.snapshot_seq)
      × Selected pools s.transactions (filter_snapshot pools s).candidates
unfolding filter_snapshot
filter_snapshot-Selected pools s = (refl, refl, accepted-Selected pools s.transactions)
