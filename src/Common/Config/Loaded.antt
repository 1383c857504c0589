-- ===== src/Common/Config/Loaded.antt =====
-- What a loaded configuration satisfies.
use dex_knight.Prelude.{
  ℕ, ◌≡◌, ◌⊎◌, inl, inr, refl, sym, Bool, true, false, arith, Bytes, List, [], ◌∷◌, Option, none,
  some, length, >>=-eq-some, Option-cases, All, subst,
}
use Prim.Native.String.{String}
use dex_knight.External.{External}
use dex_knight.Utils.Fields.{
  json_string, json_bool, json_array, json_object, json_uint64, json_optional_uint64,
  json_optional_hex_uint256, json_hex_bytes, json_hex_bytes_of_size,
}
use dex_knight.Evm.Transaction.{address_length}
use dex_knight.Common.Config.{
  PoolConfig, BackrunConfig, Config, value_or, parse_pool, parse_each_pool, parse_pools,
  parse_backrun, read_config, from_json,
}
use dex_knight.Common.Config.Url.{parse_rest_endpoint, parse_ws_endpoint}
use dex_knight.Common.Config.Url.Valid.{IsEndpoint}
use dex_knight.Common.Config.Url.Parsed.{
  IsWsScheme, IsRestScheme, Describes, parse_ws_endpoint-Describes, parse_rest_endpoint-Describes,
}

-- The addresses of a pool have the length of an address.
pub record IsPool (pool : PoolConfig) : Type 0 where
  pub address_size : length pool.address ≡ 20
  pub token_a_size : length pool.token_a ≡ 20
  pub token_b_size : length pool.token_b ≡ 20

-- The endpoints are valid and described by the URLs that are kept beside them.
pub record IsLoaded (x : External) (config : Config) : Type 0 where
  pub rest_valid : IsEndpoint config.builder_rest_endpoint
  pub rest_scheme : IsRestScheme config.builder_rest_endpoint
  pub rest_described : Describes x config.builder_rest_url config.builder_rest_endpoint
  pub ws_valid : IsEndpoint config.builder_ws_endpoint
  pub ws_scheme : IsWsScheme config.builder_ws_endpoint
  pub ws_described : Describes x config.builder_ws_url config.builder_ws_endpoint
  pub pools_sized : All IsPool config.pools
  pub bot_size : length config.backrun.bot_address ≡ 20
  pub contract_size : length config.backrun.contract_address ≡ 20

module _ (x : External) where
  open x use {Object, Value, as_object}

  hex_size :
      (object : Object) (field : String) (size : ℕ) (b : Bytes)
      → json_hex_bytes_of_size x object field size ≡ some b
      → length b ≡ size
  unfolding json_hex_bytes_of_size
  hex_size object field size b h =
      let (parsed, k, l) = >>=-eq-some (json_hex_bytes x object field) _ h in ground arith

  parse_pool-IsPool :
      (json : Object) (pool : PoolConfig) → parse_pool x json ≡ some pool → IsPool pool
  unfolding parse_pool
  parse_pool-IsPool json pool h =
      let (address, a, h1) =
        >>=-eq-some (json_hex_bytes_of_size x json "address" address_length) _ h in
      let (token_a, b, h2) =
        >>=-eq-some (json_hex_bytes_of_size x json "tokenA" address_length) _ h1 in
      let (token_b, c, h3) =
        >>=-eq-some (json_hex_bytes_of_size x json "tokenB" address_length) _ h2 in
      let same : record { address = address; token_a = token_a; token_b = token_b } ≡ pool =
        cc h3 in
      subst IsPool same (record {
        address_size = hex_size json "address" 20 address a;
        token_a_size = hex_size json "tokenA" 20 token_a b;
        token_b_size = hex_size json "tokenB" 20 token_b c;
      })

  parse_each_pool-IsPool :
      (values : List Value) (pools : List PoolConfig)
      → parse_each_pool x values ≡ some pools
      → All IsPool pools
  unfolding parse_each_pool
  parse_each_pool-IsPool [] pools h = let same : [] ≡ pools = cc h in subst (All IsPool) same tt
  parse_each_pool-IsPool (value ∷ values) pools h =
      let (object, a, h1) = >>=-eq-some (as_object value) _ h in
      let (pool, b, h2) = >>=-eq-some (parse_pool x object) _ h1 in
      let (rest, c, h3) = >>=-eq-some (parse_each_pool x values) _ h2 in
      let same : pool ∷ rest ≡ pools = cc h3 in
      subst (All IsPool) same
        (parse_pool-IsPool object pool b, parse_each_pool-IsPool values rest c)

  parse_pools-IsPool :
      (json : Object) (pools : List PoolConfig) → parse_pools x json ≡ some pools → All IsPool pools
  unfolding parse_pools
  parse_pools-IsPool json pools h = elim (Option-cases (json_array x json "pools")) [
    | inl e ↦ let same : [] ≡ pools = ground arith in subst (All IsPool) same tt
    | inr (values, e) ↦ parse_each_pool-IsPool values pools (ground arith)
  ]

  parse_backrun-sizes :
      (json : Object) (backrun : BackrunConfig)
      → parse_backrun x json ≡ some backrun
      → (length backrun.bot_address ≡ 20) × (length backrun.contract_address ≡ 20)
  unfolding parse_backrun
  parse_backrun-sizes json backrun h =
      let (object, a, h1) = >>=-eq-some (json_object x json "backrun") _ h in
      let (bot, b, h2) =
        >>=-eq-some (json_hex_bytes_of_size x object "botAddress" address_length) _ h1 in
      let (contract, c, h3) =
        >>=-eq-some (json_hex_bytes_of_size x object "contractAddress" address_length) _ h2 in
      let (chain_id, d, h4) = >>=-eq-some (json_uint64 x object "chainId") _ h3 in
      let (gas, e, h5) = >>=-eq-some (json_optional_uint64 x object "gas") _ h4 in
      let (fee, f, h6) = >>=-eq-some (json_optional_hex_uint256 x object "maxFeePerGas") _ h5 in
      let (tip, g, h7) =
        >>=-eq-some (json_optional_hex_uint256 x object "maxPriorityFeePerGas") _ h6 in
      let bot_same : bot ≡ backrun.bot_address = cc h7 in
      let contract_same : contract ≡ backrun.contract_address = cc h7 in
      (
        rw (sym bot_same) (hex_size object "botAddress" 20 bot b),
        rw (sym contract_same) (hex_size object "contractAddress" 20 contract c),
      )

  read_config-IsLoaded :
      (json : Object) (config : Config) → read_config x json ≡ some config → IsLoaded x config
  unfolding read_config
  read_config-IsLoaded json config h =
      let (rest_url, a, h1) = >>=-eq-some (json_string x json "builderRestUrl") _ h in
      let (ws_url, b, h2) = >>=-eq-some (json_string x json "builderWsUrl") _ h1 in
      let (rest_endpoint, c, h3) = >>=-eq-some (parse_rest_endpoint x rest_url) _ h2 in
      let (ws_endpoint, d, h4) = >>=-eq-some (parse_ws_endpoint x ws_url) _ h3 in
      let (pools, e, h5) = >>=-eq-some (parse_pools x json) _ h4 in
      let (backrun, f, h6) = >>=-eq-some (parse_backrun x json) _ h5 in
      let loaded : Config = record {
        builder_rest_url = rest_url;
        builder_rest_endpoint = rest_endpoint;
        builder_ws_url = ws_url;
        builder_ws_endpoint = ws_endpoint;
        tls_verify_peer = value_or (json_bool x json "tlsVerifyPeer") true;
        pools = pools;
        backrun = backrun;
      } in
      let same : loaded ≡ config = cc h6 in
      let (bot, contract) = parse_backrun-sizes json backrun f in
      let (rest_valid, rest_scheme, rest_described) =
        parse_rest_endpoint-Describes x rest_url rest_endpoint c in
      let (ws_valid, ws_scheme, ws_described) =
        parse_ws_endpoint-Describes x ws_url ws_endpoint d in
      subst (IsLoaded x) same (record {
        rest_valid = rest_valid;
        rest_scheme = rest_scheme;
        rest_described = rest_described;
        ws_valid = ws_valid;
        ws_scheme = ws_scheme;
        ws_described = ws_described;
        pools_sized = parse_pools-IsPool json pools e;
        bot_size = bot;
        contract_size = contract;
      })

  IsLoaded-cases :
      (json : Object) (config : Config) (read : Option Config)
      → read_config x json ≡ read
      → let (config', loaded) = (elim read as (λ r. Config × Bool) [
        | none ↦ (config, false)
        | some parsed ↦ (parsed, true)
      ]) in
        ((loaded ≡ true) × IsLoaded x config') ⊎ ((loaded ≡ false) × (config' ≡ config))
  IsLoaded-cases json config none h = inr (refl, refl)
  IsLoaded-cases json config (some parsed) h = inl (refl, read_config-IsLoaded json parsed h)

  -- A configuration is left as it was, with false, or replaced as a whole, with true. Then each of its
  -- two endpoints has a host without a colon, a slash or an at sign, a port from 1 to 65535 and a target
  -- that starts with a slash, with TLS exactly for https and wss, and the URL beside it reads as it: the
  -- scheme in any case, "://", the host, a colon and the port or nothing for the default port of the
  -- scheme, and the target or nothing for "/"; and every address has 20 bytes.
  pub from_json-IsLoaded :
      (json : Object) (config : Config)
      → let (config', loaded) = from_json x json config in
        ((loaded ≡ true) × IsLoaded x config') ⊎ ((loaded ≡ false) × (config' ≡ config))
  unfolding from_json
  from_json-IsLoaded json config = IsLoaded-cases json config (read_config x json) refl
