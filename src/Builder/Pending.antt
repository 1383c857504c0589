-- ===== src/Builder/Pending.antt =====
-- knight/src/builder/pending_transaction.cpp and pending_snapshot.cpp.
use dex_knight.Prelude.{ℕ, List, [], ◌∷◌, Option, none, some, ◌>>=◌}
use dex_knight.External.{External}
use dex_knight.Utils.Fields.{json_uint64, json_string, json_array}
use dex_knight.Evm.Transaction.{transaction_from_json, value_or}
use dex_knight.Candidate.Types.{PendingTransaction, PendingSnapshot}

module _ (x : External) where
  open x use {Value, Object, as_object, if_contains}

  pub pending_transaction_from_json : Value → Option PendingTransaction
  pending_transaction_from_json value = do
    entry ← as_object value
    seq_num ← json_uint64 x entry "seqNum"
    transaction_json ← if_contains entry "transaction"
    transaction ← transaction_from_json x transaction_json
    some (record {
      transaction = transaction;
      mempool_tx_id = value_or (json_string x entry "mempoolTxId") [];
      seq_num = seq_num;
      status = value_or (json_string x entry "status") [];
      submitted_at = value_or (json_string x entry "submittedAt") [];
    })

  -- The loop over the transactions: one that cannot be read is left out.
  readable_transactions : List Value → List PendingTransaction
  readable_transactions [] = []
  readable_transactions (value ∷ rest) =
      let transactions = readable_transactions rest in
      elim (pending_transaction_from_json value) [
        | none ↦ transactions
        | some transaction ↦ transaction ∷ transactions
      ]

  unfoldable pub pending_snapshot_from_json : Object → ℕ → Option PendingSnapshot
  unfolding readable_transactions
  pending_snapshot_from_json json block_number = do
    snapshot_seq ← json_uint64 x json "snapshotSeq"
    transactions ← json_array x json "transactions"
    some (record {
      block_number = block_number;
      snapshot_seq = snapshot_seq;
      transactions = readable_transactions transactions;
    })
