-- ===== src/Common/Config/Tests.antt =====
-- A configuration with two URLs, one pool and the addresses of the bot and of its contract.
use dex_knight.Prelude.{◌≡◌, refl, ◌⊎◌, inr, true, false, [], some, same_bytes, if◌then◌else◌}
use dex_knight.Prelude.Chars.{codes, from_chars}
use dex_knight.External.{External}
use dex_knight.External.Sample.{sample, fields}
use dex_knight.Common.Config.{Config, from_json}
use dex_knight.Common.Config.Loaded.{IsLoaded, from_json-IsLoaded}
use dex_knight.Common.Config.Url.{Endpoint, find_char, is_valid_port, parse_ws_endpoint}
use dex_knight.Common.Config.Url.Port.{is_valid_port-IsPort}
use dex_knight.Common.Config.Url.Valid.{IsEndpoint}
use dex_knight.Common.Config.Url.RoundTrip.{url_of, parse_ws_endpoint-url_of}

abbrev ws_endpoint : Endpoint
ws_endpoint = record {
  scheme = codes "wss";
  host = codes "builder";
  port = codes "443";
  target = codes "/ws";
  use_tls = true;
}

abbrev rest_endpoint : Endpoint
rest_endpoint = record {
  scheme = codes "http";
  host = codes "builder";
  port = codes "8080";
  target = codes "/";
  use_tls = false;
}

ws_endpoint-IsEndpoint : IsEndpoint ws_endpoint
unfolding is_valid_port find_char from_chars
ws_endpoint-IsEndpoint = record {
  host_given = λ e. cc e;
  no_colon = refl;
  no_slash = refl;
  no_at = refl;
  port_valid = (is_valid_port-IsPort (codes "443")).0 refl;
  target_valid = (codes "ws", refl);
}

rest_endpoint-IsEndpoint : IsEndpoint rest_endpoint
unfolding is_valid_port find_char from_chars
rest_endpoint-IsEndpoint = record {
  host_given = λ e. cc e;
  no_colon = refl;
  no_slash = refl;
  no_at = refl;
  port_valid = (is_valid_port-IsPort (codes "8080")).0 refl;
  target_valid = ([], refl);
}

parse_ws_endpoint-url_of_example :
    parse_ws_endpoint (sample []) (url_of ws_endpoint) ≡ some ws_endpoint
parse_ws_endpoint-url_of_example =
    parse_ws_endpoint-url_of (sample []) ws_endpoint ws_endpoint-IsEndpoint (inr (refl, refl)) refl

abbrev pub library : External
library = fields (λ f.
    if same_bytes f (codes "builderRestUrl")
    then codes "http://builder:8080"
    else if same_bytes f (codes "builderWsUrl")
    then codes "wss://builder/ws"
    else codes "0x01")

abbrev unloaded : Config
unloaded = record {
  builder_rest_url = [];
  builder_rest_endpoint = rest_endpoint;
  builder_ws_url = [];
  builder_ws_endpoint = ws_endpoint;
  tls_verify_peer = true;
  pools = [];
  backrun = record {
    bot_address = [];
    contract_address = [];
    chain_id = 0;
    gas = 700000;
    max_fee_per_gas = 2000000000;
    max_priority_fee_per_gas = 1;
  };
}

from_json-IsLoaded_example :
    let (config', loaded) = from_json library tt unloaded in
    ((loaded ≡ true) × IsLoaded library config') ⊎ ((loaded ≡ false) × (config' ≡ unloaded))
from_json-IsLoaded_example = from_json-IsLoaded library tt unloaded
