-- ===== src/Startup/Begin.antt =====
-- main up to the HTTP server.
use bundle_broadcaster.Common.{String, Option, none, some, ◌==◌, not, if◌then◌else◌, Bool}
use bundle_broadcaster.Config.{Config, load_config, addr}
use bundle_broadcaster.Signer.{Crypto, Signer, new_signer}
use bundle_broadcaster.Relays.Registry.{RelayBuilders}
use bundle_broadcaster.Manager.Build.{RelayManager, new_relay_manager}
use bundle_broadcaster.Auth.Guard.{AuthGuard, new_auth_guard}
use bundle_broadcaster.Startup.Messages.{Level, parse_level, LogWriter, choose_writer}
use bundle_broadcaster.Server.State.{WsServer, start_server}

-- os.Getenv, os.ReadFile, encoding/json, strings.ToLower, term.IsTerminal of the output, and
-- go-ethereum.
pub record Environment : Type 1 where
  pub getenv : String → String
  pub read_file : String → Option String
  pub unmarshal : String → Option Config
  pub to_lower : String → String
  pub is_terminal : Bool
  pub crypto : Crypto

module _ (e : Environment) where
  unfoldable pub config_path : String
  config_path = if e.getenv "CONFIG_PATH" == "" then "config.json" else e.getenv "CONFIG_PATH"

  unfoldable pub choose_key : Config → String
  choose_key cfg =
      if cfg.private_key == "" then e.getenv "BROADCASTER_PRIVATE_KEY" else cfg.private_key

  unfoldable pub choose_guard : Config → Option AuthGuard
  choose_guard cfg =
      if not (cfg.auth.password_hash == "")
      then some
          (new_auth_guard cfg.auth.password_hash cfg.auth.max_attempts cfg.auth.lockout_minutes)
      else none

  -- What runs once the server listens.
  pub record Running : Type 1 where
    pub level : Level
    pub writer : LogWriter
    pub signer : Signer e.crypto
    pub manager : RelayManager
    pub server : WsServer
    pub address : String
    pub guard : Option AuthGuard

  -- A fatal error ends the process.
  pub data Start : Type 1 where
    no_config no_key bad_key : Start
    running : Running → Start

  -- The warmup of the manager sends requests and changes no state, see Manager/Life.
  unfoldable pub begin_with : RelayBuilders → Config → Signer e.crypto → Running
  unfolding choose_guard parse_level choose_writer
  begin_with builders cfg signer = record {
    level = parse_level (e.to_lower cfg.log_level);
    writer = choose_writer (e.getenv "LOG_FORMAT") e.is_terminal;
    signer = signer;
    manager = new_relay_manager builders cfg;
    server = start_server;
    address = addr cfg.server;
    guard = choose_guard cfg;
  }

  unfoldable pub begin_signed : RelayBuilders → Config → Start
  unfolding choose_key begin_with
  begin_signed builders cfg =
      if choose_key cfg == "" then no_key else elim (new_signer e.crypto (choose_key cfg)) [
        | none ↦ bad_key
        | some signer ↦ running (begin_with builders cfg signer)
      ]

  unfoldable pub begin : RelayBuilders → Start
  unfolding config_path begin_signed
  begin builders = elim (load_config e.read_file e.unmarshal config_path) [
    | none ↦ no_config
    | some cfg ↦ begin_signed builders cfg
  ]
