-- ===== src/Candidate/Types.antt =====
-- The data of knight/src/candidate and of knight/src/builder/pending_transaction.h.
use dex_knight.Prelude.{ℕ, Bool, Bytes, List, Option}
use dex_knight.Prelude.Chars.{codes}
use dex_knight.Evm.Contracts.{Pool}
use dex_knight.Evm.Transaction.{Transaction}

-- builder::PendingTransaction, which extends evm::Transaction.
pub record PendingTransaction : Type 0 where
  pub transaction : Transaction
  pub open transaction use *
  pub mempool_tx_id : Bytes
  pub seq_num : ℕ
  pub status : Bytes
  pub submitted_at : Bytes

-- builder::PendingSnapshot
pub record PendingSnapshot : Type 0 where
  pub block_number : ℕ
  pub snapshot_seq : ℕ
  pub transactions : List PendingTransaction

-- candidate::SwapKind
pub data SwapKind : Type 0 where
  a_for_b b_for_a : SwapKind

unfoldable pub swap_kind_to_string : SwapKind → Bytes
swap_kind_to_string a_for_b = codes "A_FOR_B"
swap_kind_to_string b_for_a = codes "B_FOR_A"

-- candidate::Candidate
pub record Candidate : Type 0 where
  pub tx : PendingTransaction
  pub pool : Pool
  pub swap_kind : SwapKind

-- candidate::CandidateSnapshot
pub record CandidateSnapshot : Type 0 where
  pub block_number : ℕ
  pub snapshot_seq : ℕ
  pub candidates : List Candidate

-- candidate::PoolSnapshot
pub record PoolSnapshot : Type 0 where
  pub pool : Pool
  pub reserve_a : ℕ
  pub reserve_b : ℕ

-- candidate::StateSnapshot
pub record StateSnapshot : Type 0 where
  pub valid : Bool
  pub block_number : Option ℕ
  pub pools : List PoolSnapshot
  pub candidate : Option Candidate
