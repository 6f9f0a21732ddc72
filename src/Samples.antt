-- ===== src/Samples.antt =====
-- Values that the tests of several modules use: a bundle, a relay, and a world that answers.
use bundle_broadcaster.Common.{ℕ, [], ◌∷◌, none, some, true, false, pos, zero, suc}
use bundle_broadcaster.Bundle.{IncomingBundle}
use bundle_broadcaster.Config.{RelayConfig, RefundConfig}
use bundle_broadcaster.Transaction.{Ethereum}
use bundle_broadcaster.Signer.{Crypto, Signer}
use bundle_broadcaster.Relay.Transport.{GoError, Answer, response, failure}
use bundle_broadcaster.Relay.Response.{json_text}
use bundle_broadcaster.Relay.Client.{RelayClient, Services, Call}
use bundle_broadcaster.Relays.Builders.{quasar}

abbrev pub bundle : IncomingBundle
bundle = record {
  bundle_id = "b1";
  strategy_type = "backrun";
  target_block = 19000000;
  target_tx_hash = "0xaa";
  raw_txs = "0x02f8" ∷ [];
  min_timestamp = 0;
  max_timestamp = 1700000000;
  reverting_tx_hashes = [];
  target_pools = [];
  refund_percent = some (pos 90);
  refund_recipient = "";
  refund_tx_hashes = [];
  delayed_refund = false;
  refund_identity = "";
}

abbrev pub refund : RefundConfig
refund = record {
  percent = some (pos 50);
  recipient = "0xpay";
  tx_hashes = [];
  delayed_refund = false;
  refund_identity = "";
}

abbrev pub relay : RelayConfig
relay = record {
  name = "quasar";
  url = "rpc.quasar.win";
  warmup_connections = pos 2;
  rate_limit_cooldown_ms = pos 0;
}

abbrev pub client : RelayClient
client = record { relay = relay; strategy = quasar; tracked = true; rate_limited_until = 0 }

abbrev pub crypto : Crypto
crypto = record {
  PrivateKey = Unit;
  to_ecdsa = λ bytes. some tt;
  address_hex = λ key. "0xsigner";
  keccak256 = λ message. 1 ∷ [];
  sign = λ hash key. some (2 ∷ []);
}

abbrev pub signer : Signer crypto
signer = record { private_key = tt; address = "0xsigner" }

abbrev pub ethereum : Ethereum
ethereum = record { unmarshal_binary = λ bytes. none; format_eth = λ wei. "0.010000000" }

abbrev pub services : Services
services = record {
  encode = λ method params. some "{}";
  to_lower = λ s. s;
  is_url = λ url. true;
  unmarshal = λ body. some (json_text "0xbeef");
  crypto = crypto;
  signer = signer;
  eth = ethereum;
}

-- The end of a file, which is worth a retry.
abbrev pub eof : GoError
eof = record {
  is_canceled = false;
  is_deadline_exceeded = false;
  is_op_error = false;
  is_unexpected_eof = false;
  is_eof = true;
  message = "EOF";
}

-- An error first, and then a 429.
abbrev pub limiting : ℕ → Answer
limiting zero = failure eof
limiting (suc n) = response 429 ""

abbrev pub call : Call
call = record {
  now = 1000;
  start = 2000;
  finish = 9000000;
  limited_at = 10000000;
  do_request = limiting;
}
