-- ===== src/Runtime/Main/Tests.antt =====
-- A process with a configuration file and a builder that answers.
use dex_knight.Prelude.{
  ℕ, ◌≡◌, refl, Bool, false, true, Bytes, same_bytes, List, [], ◌∷◌, Option, some,
}
use dex_knight.Prelude.Chars.{codes, from_chars}
use dex_knight.Network
use dex_knight.Backrun.TxComposer
use dex_knight.Builder.RestClient.{request_nonce, get_with_retry}
use dex_knight.Runtime.Lifecycle
use dex_knight.Utils.Hex.{hex_data}
use dex_knight.Utils.Fields.{
  json_bool, parse_to_json_object, json_string, c_str, json_array, json_hex_bytes_of_size,
  json_hex_bytes, parse_hex_bytes, has_hex_prefix, json_object, json_uint64, json_int64,
  json_optional_uint64, json_optional_hex_uint256, json_hex_uint256, parse_hex_uint256,
  json_hex_uint64, parse_hex_quantity,
}
use dex_knight.Common.Config.{from_string}
use dex_knight.Network.{Request, Exchange}
use dex_knight.Common.Config.Tests.{library}
use dex_knight.Runtime.SignalListener.{SystemCalls}
use dex_knight.Runtime.Main.{MainResult, exits, runs, main}
use dex_knight.Runtime.Main.Ready.{IsLaunched, main-MainOf}

abbrev all_succeed : SystemCalls
all_succeed = record { emptied = true; sigint_added = true; sigterm_added = true; blocked = true }

abbrev answers : ℕ → Request → Exchange
answers n request = record {
  host_name_set = true;
  verified_host_set = true;
  resolved = true;
  connected = true;
  handshaken = true;
  written = true;
  read = some (record { status = 200; body = [] });
}

abbrev reads_file : Bytes → Option Bytes
reads_file path = some (codes "{}")

abbrev arguments : List Bytes
arguments = codes "knight" ∷ codes "config.json" ∷ []

main-MainOf_example :
    IsLaunched library all_succeed answers
      (codes "{}")
      (main library all_succeed answers reads_file arguments)
main-MainOf_example = main-MainOf library all_succeed answers reads_file arguments

abbrev calls_run : MainResult → Bool
calls_run (exits status) = false
calls_run (runs bot p t) = true

reaches_run : calls_run (main library all_succeed answers reads_file arguments) ≡ true
unfolding main from_string same_bytes from_chars TxComposer.initialize request_nonce get_with_retry
    Network.get hex_data Lifecycle.launch json_bool parse_to_json_object json_string c_str
    json_array json_hex_bytes_of_size json_hex_bytes parse_hex_bytes has_hex_prefix json_object
    json_uint64 json_int64 json_optional_uint64 json_optional_hex_uint256 json_hex_uint256
    parse_hex_uint256 json_hex_uint64 parse_hex_quantity
reaches_run = refl
