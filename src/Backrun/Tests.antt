-- ===== src/Backrun/Tests.antt =====
-- A call of the backrun contract, encoded.
use dex_knight.Prelude.{◌≡◌, refl, [], some, length, replicate}
use dex_knight.External.Sample.{sample}
use dex_knight.Evm.Contracts.{ExecuteBackrun}
use dex_knight.Backrun.Encoder.{encode_execute_backrun}
use dex_knight.Backrun.Encoder.Layout.{
  abi_encoding, encode_execute_backrun-abi_encoding, length-encode_execute_backrun,
}

abbrev call : ExecuteBackrun
call = record {
  buy_pool = replicate 20 1;
  sell_pool = replicate 20 2;
  amount_in_b = 3;
  min_amount_out_a = 4;
  min_amount_out_b = 5;
  min_profit_b = 6;
}

encode_execute_backrun-abi_encoding_example :
    encode_execute_backrun (sample []) call ≡ some (abi_encoding (sample []) call)
encode_execute_backrun-abi_encoding_example =
    encode_execute_backrun-abi_encoding (sample []) call refl refl

length-encode_execute_backrun_example : length (abi_encoding (sample []) call) ≡ 196
length-encode_execute_backrun_example =
    length-encode_execute_backrun (sample []) call (abi_encoding (sample []) call) (λ n. refl)
      encode_execute_backrun-abi_encoding_example
