-- ===== src/Config.antt =====
-- config.go: the settings read from config.json. An absent `*int` is `none`.
pub mod Urls
mod Tests
use Prim.Native.String
use text.Mathlib.Text.{starts_with}
use bundle_broadcaster.Common.{
  String, Bool, true, false, not, ◌&&◌, Option, none, some, List, [], ◌∷◌, ℤ, decimal,
  if◌then◌else◌, ◌==◌, is_zero,
}

pub record RelayConfig : Type 0 where
  pub name : String
  pub url : String
  pub warmup_connections : ℤ
  pub rate_limit_cooldown_ms : ℤ

-- Both methods named ResolvedURL share this one's name; that of SimulateConfig is
-- `resolved_simulate_url`.
unfoldable pub resolved_url : RelayConfig → String
resolved_url r =
    if r.url == ""
    then ""
    else if not (starts_with r.url "http://") && not (starts_with r.url "https://")
    then String.◌++◌ "https://" r.url
    else r.url

pub record RefundConfig : Type 0 where
  pub percent : Option ℤ
  pub recipient : String
  pub tx_hashes : List String
  pub delayed_refund : Bool
  pub refund_identity : String

pub record TrackingConfig : Type 0 where
  pub enabled : Bool
  pub dir : String
  pub builders : List String

unfoldable pub resolved_dir : TrackingConfig → String
resolved_dir t = if not (t.dir == "") then t.dir else "tracking"

-- The loop of IsTracked.
unfoldable pub is_listed : String → List String → Bool
is_listed builder [] = false
is_listed builder (b ∷ rest) = if b == builder then true else is_listed builder rest

unfoldable pub is_tracked : TrackingConfig → String → Bool
unfolding is_listed
is_tracked t builder = is_listed builder t.builders

pub record SimulateConfig : Type 0 where
  pub enabled : Bool
  pub url : String

unfoldable pub resolved_simulate_url : SimulateConfig → String
resolved_simulate_url s = if not (s.url == "") then s.url else "https://relay.flashbots.net"

pub record AuthConfig : Type 0 where
  pub password_hash : String
  pub max_attempts : ℤ
  pub lockout_minutes : ℤ

pub record ServerConfig : Type 0 where
  pub address : String
  pub port : ℤ

pub record Config : Type 0 where
  pub server : ServerConfig
  pub auth : AuthConfig
  pub private_key : String
  pub log_level : String
  pub relays : List RelayConfig
  pub refund : RefundConfig
  pub simulate : SimulateConfig
  pub tracking : TrackingConfig

unfoldable pub addr : ServerConfig → String
addr s =
    let address = if s.address == "" then "0.0.0.0" else s.address in
    let port = if is_zero s.port then ℤ.pos 1111 else s.port in
    String.◌++◌ address (String.◌++◌ ":" (decimal port))

-- An error of reading the file or of its JSON is `none`.
unfoldable pub load_config :
    (String → Option String) → (String → Option Config) → String → Option Config
load_config read_file unmarshal path = elim (read_file path) [
  | none ↦ none
  | some content ↦ unmarshal content
]
