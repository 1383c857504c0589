-- ===== src/Backrun/TxComposer.antt =====
-- knight/src/backrun/tx_composer.cpp: the bot's transaction and its nonce.
use dex_knight.Prelude.{ℕ, suc, Bytes, Option, none, some, Expected, ok, unexpected}
use dex_knight.Prelude.Word.{wrap}
use dex_knight.Prelude.Chars.{codes}
use dex_knight.External.{External}
use dex_knight.Common.Config.{BackrunConfig}
use dex_knight.Evm.Contracts.{ExecuteBackrun}
use dex_knight.Evm.Transaction.{Transaction}
use dex_knight.Arbitrage.Calculator.{Opportunity}
use dex_knight.Builder.RestClient
use dex_knight.Builder.RestClient.{Server, Traffic, request_nonce}
use dex_knight.Backrun.Encoder.{encode_execute_backrun}

-- backrun::Error
pub data Error : Type 0 where
  nonce_request_failed not_initialized call_encoding_failed : Error

unfoldable pub error_to_string : Error → Bytes
error_to_string nonce_request_failed = codes "NONCE_REQUEST_FAILED"
error_to_string not_initialized = codes "NOT_INITIALIZED"
error_to_string call_encoding_failed = codes "CALL_ENCODING_FAILED"

pub record TxComposer : Type 0 where
  pub backrun_config : BackrunConfig
  pub next_nonce : Option ℕ

-- A new composer has no nonce.
abbrev pub new_composer : BackrunConfig → TxComposer
new_composer backrun_config = record { backrun_config = backrun_config; next_nonce = none }

unfoldable pub take_nonce :
    TxComposer → Expected ℕ RestClient.Error → Expected (Unit {0}) Error × TxComposer
take_nonce composer (unexpected error) = (unexpected nonce_request_failed, composer)
take_nonce composer (ok nonce) = (ok tt, record composer { next_nonce = some nonce })

unfoldable pub refresh_nonce :
    External → Server → TxComposer × Traffic → Expected (Unit {0}) Error × (TxComposer × Traffic)
unfolding take_nonce
refresh_nonce x server (composer, t) =
    let (nonce, t') = request_nonce server x composer.backrun_config.bot_address t in
    let (result, composer') = take_nonce composer nonce in (result, (composer', t'))

unfoldable pub initialize :
    External → Server → TxComposer × Traffic → Expected (Unit {0}) Error × (TxComposer × Traffic)
unfolding refresh_nonce
initialize x server s = refresh_nonce x server s

unfoldable pub execute_call : Opportunity → ExecuteBackrun
execute_call opportunity = record {
  buy_pool = opportunity.buy_pool.address;
  sell_pool = opportunity.sell_pool.address;
  amount_in_b = opportunity.amount_in_b;
  min_amount_out_a = opportunity.min_amount_out_a;
  min_amount_out_b = opportunity.min_amount_out_b;
  min_profit_b = opportunity.min_profit_b;
}

unfoldable pub transaction_of : BackrunConfig → ℕ → Bytes → Transaction
transaction_of config nonce calldata = record {
  hash = none;
  input = calldata;
  from = config.bot_address;
  chain_id = some config.chain_id;
  value = 0;
  gas_price = none;
  gas = config.gas;
  max_fee_per_gas = some config.max_fee_per_gas;
  max_priority_fee_per_gas = some config.max_priority_fee_per_gas;
  nonce = nonce;
  tx_type = 2;
  to = some config.contract_address;
}

unfoldable pub compose : External → TxComposer → Opportunity → Expected Transaction Error
unfolding execute_call transaction_of
compose x composer opportunity = elim composer.next_nonce [
  | none ↦ unexpected not_initialized
  | some nonce ↦ elim (encode_execute_backrun x (execute_call opportunity)) [
    | none ↦ unexpected call_encoding_failed
    | some calldata ↦ ok (transaction_of composer.backrun_config nonce calldata)
  ]
]

-- `++(*m_next_nonce)` of a uint64_t.
unfoldable pub mark_nonce_used : TxComposer → TxComposer
mark_nonce_used composer = elim composer.next_nonce [
  | none ↦ composer
  | some nonce ↦ record composer { next_nonce = some (wrap 64 (suc nonce)) }
]
