-- ===== src/Runtime/Main.antt =====
-- `main` of knight/src/main.cpp: the command line, the configuration file, the components of
-- knight/src/runtime/runtime_factory.cpp, the constructor of `Runtime` in runtime.cpp beside it, and
-- the listener. What the system returns for a file is an argument.
mod Tests
pub mod Ready
use dex_knight.Prelude.{
  ℕ, Bytes, List, [], ◌∷◌, ◌++◌, Option, none, some, Expected, ok, unexpected, if◌then◌else◌,
}
use dex_knight.Prelude.Chars.{codes}
use dex_knight.External.{External}
use dex_knight.Network
use dex_knight.Network.{Request, Exchange}
use dex_knight.Common.Config.{Config, new_config, from_string}
use dex_knight.Builder.RestClient.{Server, Traffic, client_of}
use dex_knight.Candidate.Startup
use dex_knight.Candidate.Startup.{Inputs}
use dex_knight.Backrun.TxComposer
use dex_knight.Backrun.TxComposer.{TxComposer, new_composer, initialize}
use dex_knight.Runtime.SignalListener
use dex_knight.Runtime.SignalListener.{SystemCalls}
use dex_knight.Runtime.Lifecycle.{Process, launch}

-- The exceptions of the constructor, with what they say.
pub data Exception : Type 0 where
  invalid_argument runtime_error : Bytes → Exception

-- runtime::RuntimeComponents. A null pointer is none, and the simulator is its client of the builder.
pub record RuntimeComponents : Type 0 where
  pub candidate_source : Option Inputs
  pub simulator : Option Network.RestClient
  pub backrun_tx_composer : Option TxComposer

-- RuntimeFactory::create
unfoldable pub create : Config → RuntimeComponents
create config = record {
  candidate_source = some (Startup.constructed config);
  simulator = some (client_of config);
  backrun_tx_composer = some (new_composer config.backrun);
}

-- A Runtime that was constructed.
pub record Bot : Type 0 where
  pub candidate_source : Inputs
  pub simulator : Network.RestClient
  pub backrun_tx_composer : TxComposer

unfoldable pub initialized :
    Inputs
    → Network.RestClient
    → Expected (Unit {0}) TxComposer.Error × (TxComposer × Traffic)
    → Expected Bot Exception × Traffic
unfolding TxComposer.error_to_string
initialized inputs simulator (unexpected error, (composer, t)) = (
  unexpected (
      runtime_error
        (codes "failed to initialize backrun tx composer: " ++ TxComposer.error_to_string error)),
  t,
)
initialized inputs simulator (ok done, (composer, t)) = (
  ok (record { candidate_source = inputs; simulator = simulator; backrun_tx_composer = composer }),
  t,
)

abbrev incomplete : Exception
incomplete = invalid_argument (codes "runtime factory returned incomplete components")

-- How the process goes on: it exits with a status, or it calls `run` of the runtime.
pub data MainResult : Type 0 where
  exits : ℕ → MainResult
  runs : Bot → Process → Traffic → MainResult

-- `signal_listener.stop()` behind the run, and the status.
unfoldable pub finish : Process → ℕ × Process
unfolding SignalListener.stop
finish p = (0, record p { listener = SignalListener.stop p.listener })

abbrev pub no_traffic : Traffic
no_traffic = record { sent = 0; slept = [] }

-- The builder, for the clients of all components.
abbrev pub server_of : (ℕ → Request → Exchange) → Config → Server
server_of exchange config = record { client = client_of config; exchange = exchange }

module _ (x : External) where
  -- The constructor of Runtime, on the components that the factory created.
  unfoldable pub construct : Server → RuntimeComponents → Traffic → Expected Bot Exception × Traffic
  unfolding initialized
  construct server components t = elim components.candidate_source [
    | none ↦ (unexpected incomplete, t)
    | some inputs ↦ elim components.simulator [
      | none ↦ (unexpected incomplete, t)
      | some simulator ↦ elim components.backrun_tx_composer [
        | none ↦ (unexpected incomplete, t)
        | some composer ↦ initialized inputs simulator (initialize x server (composer, t))
      ]
    ]
  ]

  module _ (calls : SystemCalls) (exchange : ℕ → Request → Exchange) where
    -- From the construction on: an exception is caught.
    unfoldable pub with_bot : Expected Bot Exception × Traffic → MainResult
    with_bot (unexpected exception, t) = exits 1
    with_bot (ok bot, t) =
        let (listening, process) = launch calls in if listening then runs bot process t else exits 1

    unfoldable pub with_config : Config → MainResult
    unfolding with_bot construct create
    with_config config = with_bot (construct (server_of exchange config) (create config) no_traffic)

    -- From the content of the file on.
    unfoldable pub with_payload : Option Bytes → MainResult
    unfolding with_config
    with_payload none = exits 1
    with_payload (some payload) =
        let (config, parsed) = from_string x payload new_config in
        if parsed then with_config config else exits 1

    -- `main` on its arguments, up to the call of `run`.
    unfoldable pub main : (Bytes → Option Bytes) → List Bytes → MainResult
    unfolding with_payload
    main read_file [] = exits 1
    main read_file (program ∷ []) = exits 1
    main read_file (program ∷ config_path ∷ arguments) = with_payload (read_file config_path)
