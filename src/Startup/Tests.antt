-- ===== src/Startup/Tests.antt =====
-- A start with a configuration that has no password.
use bundle_broadcaster.Common.{
  none, some, [], ◌∷◌, pos, false, ◌≡◌, ◌↔◌, refl, decode_hex, trim_prefix, true, eq_iff, String,
  replicate, ◌≢◌,
}
use bundle_broadcaster.Samples.{refund, relay, crypto, signer}
use bundle_broadcaster.Config.{Config, load_config}
use bundle_broadcaster.Relays.Registry.{relay_builders}
use bundle_broadcaster.Auth.Guard.{Request, new_auth_guard}
use bundle_broadcaster.Auth.Handler.{Moment, metrics}
use bundle_broadcaster.Startup.Begin.{
  Environment, Running, running, begin, begin_with, begin_signed, choose_key, config_path,
}
use bundle_broadcaster.Signer.{new_signer}
use bundle_broadcaster.Startup.Messages.{format_msg_fixed}
use bundle_broadcaster.Startup.Routes.{serve, serve_all, page, counters}
use bundle_broadcaster.Startup.Site.{site_needs_password}

abbrev config : Config
config = record {
  server = record { address = ""; port = pos 0 };
  auth = record { password_hash = ""; max_attempts = pos 0; lockout_minutes = pos 0 };
  private_key = "0x01";
  log_level = "";
  relays = relay ∷ [];
  refund = refund;
  simulate = record { enabled = false; url = "" };
  tracking = record { enabled = false; dir = ""; builders = [] };
}

abbrev environment : Environment
environment = record {
  getenv = λ name. "";
  read_file = λ path. some "{}";
  unmarshal = λ content. some config;
  to_lower = λ s. s;
  is_terminal = true;
  crypto = crypto;
}

abbrev started : Running environment
started = begin_with environment relay_builders config signer

has_started : begin environment relay_builders ≡ running started
unfolding begin begin_signed load_config choose_key config_path new_signer decode_hex trim_prefix
has_started = refl

has_loaded :
    load_config environment.read_file environment.unmarshal (config_path environment) ≡ some config
unfolding load_config
has_loaded = refl

abbrev moment : Moment
moment = record {
  session_check = 1;
  lock_check = 1;
  reset_at = 1;
  lock_at = 1;
  lock_recheck = 1;
  set_at = 1;
  shown_at = 1;
  random = none;
}

abbrev visit : Request
visit = record {
  method = "GET";
  path = "/metrics/view";
  forwarded_for = "";
  remote_addr = "10.0.0.1:4000";
  cookie = none;
  password = "";
}

long_message : format_msg_fixed (some (replicate 40 b'x')) ≡ replicate 35 b'x'
unfolding format_msg_fixed
long_message = refl

-- A guess on one path, and then a visit to another.
abbrev guess : Request
guess = record visit { method = "POST"; password = "guess" }

guess_wrong : ◌≢◌ {A = String} "guess" "secret"
guess_wrong e = let h : false ≡ true = (eq_iff "guess" "secret").1 e in cc h

abbrev scrape : Request
scrape = record visit { path = "/metrics" }

site_needs_password_example :
    let guard =
      serve_all
        (λ p. p)
        (λ s. s)
        (λ n. "")
        (some (new_auth_guard "secret" (pos 5) (pos 15)))
        ((moment, guess) ∷ []) in
    ((serve (λ p. p) (λ s. s) (λ n. "") moment scrape guard).1 ≢ page metrics)
    × (((serve (λ p. p) (λ s. s) (λ n. "") moment scrape guard).1 ≡ counters)
        ↔ ((scrape.path ≡ scrape.path) × (scrape.path ≡ "/metrics")))
site_needs_password_example =
    site_needs_password (λ p. p) (λ s. s) (λ n. "") "secret" (pos 5) (pos 15) ((moment, guess) ∷ [])
      moment scrape (guess_wrong, tt)
