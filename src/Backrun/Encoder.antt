-- ===== src/Backrun/Encoder.antt =====
-- knight/src/encoder/encoder.cpp. `append_address_word` returns none where the source returns false, in
-- which case its caller drops the buffer.
pub mod Layout
use dex_knight.Prelude.{
  ℕ, ◌-◌, Bytes, List, [], ◌∷◌, ◌++◌, Option, none, some, length, replicate, ◌==◌, if◌then◌else◌,
  ◌>>=◌,
}
use dex_knight.External.{External}
use dex_knight.Evm.Contracts.{ExecuteBackrun, execute_backrun_selector}
use dex_knight.Evm.Log.{word_size}
use dex_knight.Evm.Transaction.{address_length}

unfoldable pub append_uint256_word : External → Bytes → ℕ → Bytes
append_uint256_word x out value = out ++ x.uint256_store value

unfoldable pub append_address_word : Bytes → Bytes → Option Bytes
append_address_word out address =
    if length address == address_length
    then some (out ++ (replicate (word_size - address_length) 0 ++ address))
    else none

unfoldable pub encode_execute_backrun : External → ExecuteBackrun → Option Bytes
unfolding append_uint256_word append_address_word
encode_execute_backrun x call = do
  with_buy_pool ← append_address_word execute_backrun_selector call.buy_pool
  calldata ← append_address_word with_buy_pool call.sell_pool
  some (
      append_uint256_word x
        (append_uint256_word x
          (append_uint256_word x (append_uint256_word x calldata call.amount_in_b)
            call.min_amount_out_a)
          call.min_amount_out_b)
        call.min_profit_b)
