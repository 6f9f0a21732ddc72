-- ===== src/Simulator/Tests.antt =====
-- The simulator on a sample answer.
use Prim.Native.String
use bundle_broadcaster.Simulator.Printing.{wei_hex_to_eth-hex}
use bundle_broadcaster.Common.{hex, arith, [], none, some, true, ◌≡◌, refl, parse_hex, trim_prefix}
use bundle_broadcaster.Samples.{bundle, crypto, signer, ethereum}
use bundle_broadcaster.Manager.Build.{Simulator}
use bundle_broadcaster.Simulator.Amounts.{wei_hex_to_eth, set_string, format_amount}
use bundle_broadcaster.Simulator.Run.{CallBundleResult, SimServices, simulate_async}
use bundle_broadcaster.Simulator.Forwarding.{Forwards, simulate_async-Forwards}

abbrev result : CallBundleResult
result = record {
  bundle_hash = "0xbeef";
  bundle_gas_price = "1";
  coinbase_diff = "0x2386f26fc10000";
  eth_sent_to_coinbase = "0x2386f26fc10000";
  gas_fees = "0x0";
  total_gas_used = 21000;
  state_block_number = 0;
  results = [];
}

abbrev sim_services : SimServices
sim_services = record {
  encode = λ method payload. some "{}";
  is_url = λ url. true;
  do_request = λ request. some "{}";
  unmarshal = λ body. some (record { result = some result; error = none });
  encode_url = λ params. "";
  crypto = crypto;
  signer = signer;
  eth = ethereum;
}

abbrev simulator : Simulator
simulator = record { cfg = record { enabled = true; url = "" }; tracked = true }

wei_hex_to_eth_test : wei_hex_to_eth ethereum "0x2386f26fc10000" ≡ "0.010000000"
unfolding wei_hex_to_eth set_string format_amount parse_hex trim_prefix
wei_hex_to_eth_test = refl

simulate_async-Forwards_example :
    Forwards sim_services simulator bundle (simulate_async sim_services simulator bundle)
simulate_async-Forwards_example = simulate_async-Forwards sim_services simulator bundle

wei_hex_to_eth-hex_example :
    wei_hex_to_eth ethereum (String.◌++◌ "0x" (hex 10000000000000000))
    ≡ ethereum.format_eth 10000000000000000
wei_hex_to_eth-hex_example =
    wei_hex_to_eth-hex ethereum 10000000000000000 (omega arith) (omega arith)
