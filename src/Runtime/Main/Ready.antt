-- ===== src/Runtime/Main/Ready.antt =====
-- What `main` has done when it calls `run`.
use dex_knight.Prelude.{
  ℕ, ◌≡◌, ◌≢◌, refl, ap, arith, true, Bytes, List, [], ◌∷◌, Option, none, some, All, inl, inr,
  Option-cases, Bool-cases, subst, Expected, ok, unexpected,
}
use dex_knight.External.{External}
use dex_knight.Network.{Request, Exchange}
use dex_knight.Common.Config.{Config, new_config, from_string, from_json}
use dex_knight.Common.Config.Loaded.{IsLoaded, from_json-IsLoaded}
use dex_knight.Utils.Fields.{parse_to_json_object}
use dex_knight.Builder.RestClient
use dex_knight.Builder.RestClient.{Server, Traffic, request_nonce, client_of}
use dex_knight.Candidate.Types.{StateSnapshot}
use dex_knight.Candidate.Startup
use dex_knight.Backrun.TxComposer.{
  not_initialized, take_nonce, refresh_nonce, compose, mark_nonce_used, initialize,
}
use dex_knight.Runtime.SignalListener
use dex_knight.Runtime.SignalListener.{waiting, SystemCalls}
use dex_knight.Runtime.Lifecycle.{Process, launch}
use dex_knight.Runtime.Loop.{
  Outcome, not_composed, Runtime, core_round, consider, execute, after_simulation, after_submission,
  run_core_loop,
}
use dex_knight.Runtime.Main.{
  Exception, Bot, MainResult, exits, runs, create, initialized, construct, no_traffic, server_of,
  with_bot, with_config, with_payload, main,
}

-- No round fails for want of a nonce.
abbrev pub IsComposable : Outcome → Type 0
IsComposable outcome = outcome ≢ not_composed not_initialized

module _ (x : External) (server : Server) where
  core_round-IsComposable :
      (state : StateSnapshot) (r : Runtime)
      → r.composer.next_nonce ≢ none
      → IsComposable (core_round x server state r).0
        × ((core_round x server state r).1.composer.next_nonce ≢ none)
  unfolding core_round consider execute after_simulation after_submission compose mark_nonce_used
  core_round-IsComposable state r h = ground arith

  run_core_loop-IsComposable :
      (states : List StateSnapshot) (r : Runtime)
      → r.composer.next_nonce ≢ none
      → All IsComposable (run_core_loop x server states r).0
  unfolding run_core_loop
  run_core_loop-IsComposable [] r h = tt
  run_core_loop-IsComposable (state ∷ states) r h =
      let (composable, kept) = core_round-IsComposable state r h in
      (composable, run_core_loop-IsComposable states (core_round x server state r).1 kept)

-- The bot has the components of a configuration that was loaded, the nonce that the builder answered
-- for the bot's address, and a listener that waits for a signal.
pub record IsReady (x : External) (exchange : ℕ → Request → Exchange) (payload : Bytes) (bot : Bot)
    (p : Process) : Type 0 where
  pub config : Config
  pub nonce : ℕ
  pub parsed : from_string x payload new_config ≡ (config, true)
  pub loaded : IsLoaded x config
  pub source : bot.candidate_source ≡ Startup.constructed config
  pub composer :
      bot.backrun_tx_composer ≡ record { backrun_config = config.backrun; next_nonce = some nonce }
  pub answered :
      (request_nonce (server_of exchange config) x config.backrun.bot_address no_traffic).0
      ≡ ok nonce
  pub listens : p.listener.thread ≡ waiting
  -- the rounds of the loop, over any states and any server
  pub composes :
      (server : Server) (states : List StateSnapshot) (t : Traffic)
      → All IsComposable
          (run_core_loop x server states
            (record { composer = bot.backrun_tx_composer; traffic = t })).0

module _ (x : External) (calls : SystemCalls) (exchange : ℕ → Request → Exchange) where
  -- The process exits with status 1, or it is ready to run.
  abbrev pub IsLaunched : Bytes → MainResult → Type 0
  IsLaunched payload (exits status) = status ≡ 1
  IsLaunched payload (runs bot p t) = IsReady x exchange payload bot p

  from_json_inv :
      (json : x.Object) (config : Config)
      → from_json x json new_config ≡ (config, true)
      → IsLoaded x config
  from_json_inv json config e = elim (from_json-IsLoaded x json new_config) [
    | inl (read, loaded) ↦ subst (λ r. IsLoaded x r.0) e loaded
    | inr (unread, kept) ↦ cc
  ]

  from_string-IsLoaded :
      (payload : Bytes) (config : Config)
      → from_string x payload new_config ≡ (config, true)
      → IsLoaded x config
  unfolding from_string
  from_string-IsLoaded payload config e = elim (Option-cases (parse_to_json_object x payload)) [
    | inl no_json ↦ absurd (ground arith)
    | inr (json, parsed) ↦ from_json_inv json config (ground arith)
  ]

  launch-listens : (launch calls).0 ≡ true → (launch calls).1.listener.thread ≡ waiting
  unfolding launch SignalListener.start SignalListener.initialize_signal_set
      SignalListener.block_signals
  launch-listens e = ground arith

  with_bot-IsLaunched :
      (payload : Bytes) (r : Expected Bot Exception × Traffic)
      → ((bot : Bot) (p : Process)
          → r.0 ≡ ok bot
          → p.listener.thread ≡ waiting
          → IsReady x exchange payload bot p)
      → IsLaunched payload (with_bot x calls exchange r)
  unfolding with_bot
  with_bot-IsLaunched payload (unexpected exception, t) h = refl
  with_bot-IsLaunched payload (ok bot, t) h = elim (Bool-cases (launch calls).0) [
    | inl listening ↦ rw listening (h bot (launch calls).1 refl (launch-listens listening))
    | inr failed ↦ rw failed refl
  ]

  -- The bot that the constructor leaves on the components of a configuration.
  construct-HasNonce :
      (config : Config) (server : Server) (t : Traffic) (bot : Bot)
      (w : Expected ℕ RestClient.Error)
      → (request_nonce server x config.backrun.bot_address t).0 ≡ w
      → (construct x server (create config) t).0 ≡ ok bot
      → (nonce : ℕ) × (w ≡ ok nonce)
        × (bot ≡ record {
          candidate_source = Startup.constructed config;
          simulator = client_of config;
          backrun_tx_composer = record { backrun_config = config.backrun; next_nonce = some nonce };
        })
  unfolding construct create initialize refresh_nonce take_nonce initialized
  construct-HasNonce config server t bot (unexpected error) answered e = absurd (ground arith)
  construct-HasNonce config server t bot (ok nonce) answered e = (nonce, refl, ground arith)

  with_config-IsLaunched :
      (payload : Bytes) (config : Config)
      → from_string x payload new_config ≡ (config, true)
      → IsLaunched payload (with_config x calls exchange config)
  unfolding with_config
  with_config-IsLaunched payload config parsed =
      with_bot-IsLaunched payload
        (construct x (server_of exchange config) (create config) no_traffic)
        (λ bot p built listens.
          let (nonce, answered, same) =
            construct-HasNonce config (server_of exchange config) no_traffic bot _ refl built in
          let composer = ap (λ (b : Bot). b.backrun_tx_composer) same in
          record {
            config = config;
            nonce = nonce;
            parsed = parsed;
            loaded = from_string-IsLoaded payload config parsed;
            source = ap (λ (b : Bot). b.candidate_source) same;
            composer = composer;
            answered = answered;
            listens = listens;
            composes = λ server states t.
                run_core_loop-IsComposable x server states
                  (record { composer = bot.backrun_tx_composer; traffic = t })
                  (λ absent. cc (absent, composer));
          })

  with_payload-IsLaunched :
      (payload : Bytes) → IsLaunched payload (with_payload x calls exchange (some payload))
  unfolding with_payload
  with_payload-IsLaunched payload = elim (Bool-cases (from_string x payload new_config).1) [
    | inl parsed ↦ rw parsed (
        with_config-IsLaunched payload (from_string x payload new_config).0
          (ap (λ b. ((from_string x payload new_config).0, b)) parsed))
    | inr refused ↦ rw refused refl
  ]

  -- What `main` does on its arguments: without a path, or with one of a file that cannot be opened, it
  -- exits with status 1.
  abbrev pub MainOf : Option Bytes → MainResult → Type 0
  MainOf none result = result ≡ exits 1
  MainOf (some payload) result = IsLaunched payload result

  -- The bytes of the file that the first argument behind the program's name gives.
  abbrev pub payload_of : (Bytes → Option Bytes) → List Bytes → Option Bytes
  payload_of read_file [] = none
  payload_of read_file (program ∷ []) = none
  payload_of read_file (program ∷ config_path ∷ arguments) = read_file config_path

  file_read : (file : Option Bytes) → MainOf file (with_payload x calls exchange file)
  unfolding with_payload
  file_read none = refl
  file_read (some payload) = with_payload-IsLaunched payload

  -- `main` exits with status 1 without a configuration file that it can open. With one it exits with
  -- status 1 or runs the bot, and then the whole configuration was loaded from the file, the composer has
  -- the nonce that the builder answered for the bot's address, the listener waits for a signal, and no
  -- round over any states fails for want of a nonce.
  pub main-MainOf :
      (read_file : Bytes → Option Bytes) (arguments : List Bytes)
      → MainOf (payload_of read_file arguments) (main x calls exchange read_file arguments)
  unfolding main
  main-MainOf read_file [] = refl
  main-MainOf read_file (program ∷ []) = refl
  main-MainOf read_file (program ∷ config_path ∷ arguments) = file_read (read_file config_path)
