-- ===== src/Common/Config.antt =====
-- The configuration of the bot: knight/src/common/config.h.
pub mod Url
pub mod Loaded
pub mod Tests
use dex_knight.Prelude.{ℕ, Bool, true, false, Bytes, List, [], ◌∷◌, Option, none, some, ◌>>=◌}
use dex_knight.External.{External}
use dex_knight.Utils.Fields.{
  json_string, json_bool, json_array, json_object, json_uint64, json_optional_uint64,
  json_optional_hex_uint256, json_hex_bytes_of_size, parse_to_json_object,
}
use dex_knight.Evm.Transaction.{address_length, value_or}
use dex_knight.Common.Config.Url.{Endpoint, parse_ws_endpoint, parse_rest_endpoint}

pub record PoolConfig : Type 0 where
  pub address : Bytes
  pub token_a : Bytes
  pub token_b : Bytes

pub record BackrunConfig : Type 0 where
  pub bot_address : Bytes
  pub contract_address : Bytes
  pub chain_id : ℕ
  pub gas : ℕ
  pub max_fee_per_gas : ℕ
  pub max_priority_fee_per_gas : ℕ

pub record Config : Type 0 where
  pub builder_rest_url : Bytes
  pub builder_rest_endpoint : Endpoint
  pub builder_ws_url : Bytes
  pub builder_ws_endpoint : Endpoint
  pub tls_verify_peer : Bool
  pub pools : List PoolConfig
  pub backrun : BackrunConfig

-- A new endpoint and a new configuration, with the initial values of their fields.
abbrev pub new_endpoint : Endpoint
new_endpoint = record { scheme = []; host = []; port = []; target = []; use_tls = false }

abbrev pub new_config : Config
new_config = record {
  builder_rest_url = [];
  builder_rest_endpoint = new_endpoint;
  builder_ws_url = [];
  builder_ws_endpoint = new_endpoint;
  tls_verify_peer = true;
  pools = [];
  backrun = record {
    bot_address = [];
    contract_address = [];
    chain_id = 0;
    gas = 700000;
    max_fee_per_gas = 2000000000;
    max_priority_fee_per_gas = 1;
  };
}

module _ (x : External) where
  open x use {Value, Object, as_object}

  unfoldable pub parse_pool : Object → Option PoolConfig
  parse_pool json = do
    address ← json_hex_bytes_of_size x json "address" address_length
    token_a ← json_hex_bytes_of_size x json "tokenA" address_length
    token_b ← json_hex_bytes_of_size x json "tokenB" address_length
    some (record { address = address; token_a = token_a; token_b = token_b })

  unfoldable pub parse_each_pool : List Value → Option (List PoolConfig)
  unfolding parse_pool
  parse_each_pool [] = some []
  parse_each_pool (value ∷ values) = do
    object ← as_object value
    pool ← parse_pool object
    pools ← parse_each_pool values
    some (pool ∷ pools)

  -- Without a list, no pool.
  unfoldable pub parse_pools : Object → Option (List PoolConfig)
  unfolding parse_each_pool
  parse_pools json = elim (json_array x json "pools") [
    | none ↦ some []
    | some values ↦ parse_each_pool values
  ]

  unfoldable pub parse_backrun : Object → Option BackrunConfig
  parse_backrun json = do
    backrun_json ← json_object x json "backrun"
    bot_address ← json_hex_bytes_of_size x backrun_json "botAddress" address_length
    contract_address ← json_hex_bytes_of_size x backrun_json "contractAddress" address_length
    chain_id ← json_uint64 x backrun_json "chainId"
    gas ← json_optional_uint64 x backrun_json "gas"
    max_fee_per_gas ← json_optional_hex_uint256 x backrun_json "maxFeePerGas"
    max_priority_fee_per_gas ← json_optional_hex_uint256 x backrun_json "maxPriorityFeePerGas"
    some (record {
      bot_address = bot_address;
      contract_address = contract_address;
      chain_id = chain_id;
      gas = value_or gas 700000;
      max_fee_per_gas = value_or max_fee_per_gas 2000000000;
      max_priority_fee_per_gas = value_or max_priority_fee_per_gas 1;
    })

  -- What a whole configuration holds, where the object has one.
  unfoldable pub read_config : Object → Option Config
  unfolding parse_rest_endpoint parse_ws_endpoint parse_pools parse_backrun
  read_config json = do
    builder_rest_url ← json_string x json "builderRestUrl"
    builder_ws_url ← json_string x json "builderWsUrl"
    rest_endpoint ← parse_rest_endpoint x builder_rest_url
    ws_endpoint ← parse_ws_endpoint x builder_ws_url
    pools ← parse_pools json
    backrun ← parse_backrun json
    some (record {
      builder_rest_url = builder_rest_url;
      builder_rest_endpoint = rest_endpoint;
      builder_ws_url = builder_ws_url;
      builder_ws_endpoint = ws_endpoint;
      tls_verify_peer = value_or (json_bool x json "tlsVerifyPeer") true;
      pools = pools;
      backrun = backrun;
    })

  -- The configuration after the call, and its result.
  unfoldable pub from_json : Object → Config → Config × Bool
  unfolding read_config
  from_json json config = elim (read_config json) [
    | none ↦ (config, false)
    | some parsed ↦ (parsed, true)
  ]

  unfoldable pub from_string : Bytes → Config → Config × Bool
  unfolding from_json
  from_string s config = elim (parse_to_json_object x s) [
    | none ↦ (config, false)
    | some json ↦ from_json json config
  ]
