-- ===== src/Builder/Bundle.antt =====
-- knight/src/builder/bundle.h and bundle.cpp.
use dex_knight.Prelude.{ℕ, Bytes, List, map, Option, none, some}
use dex_knight.External.{External}
use dex_knight.Utils.Hex.{hex_quantity}
use dex_knight.Evm.Transaction.{Transaction, transaction_to_json, set_text}

-- builder::BundleItem, the variant of MempoolTxRef and evm::Transaction.
pub data BundleItem : Type 0 where
  mempool_tx_ref : Bytes → BundleItem
  own_transaction : Transaction → BundleItem

-- builder::Bundle
pub record Bundle : Type 0 where
  pub block_number : Option ℕ
  pub transactions : List BundleItem

module _ (x : External) where
  open x use {Object, of_array, of_object, no_fields, set_field}

  pub bundle_item_to_json : BundleItem → Object
  bundle_item_to_json (mempool_tx_ref mempool_tx_id) =
      set_text x "mempoolTxId" mempool_tx_id no_fields
  bundle_item_to_json (own_transaction transaction) = transaction_to_json x transaction

  with_block : Option ℕ → Object
  with_block none = no_fields
  with_block (some block_number) = set_text x "blockNumber" (hex_quantity block_number) no_fields

  pub bundle_to_json : Bundle → Object
  unfolding with_block
  bundle_to_json bundle =
      set_field (with_block bundle.block_number) "transactions"
        (of_array (map (λ item. of_object (bundle_item_to_json item)) bundle.transactions))
