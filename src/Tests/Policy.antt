-- ===== src/Tests/Policy.antt =====
-- `parsePayPolicy` at a policy file.
use pathos_dacs_ref.Prelude.{String, Option, some, codes, [], ◌∷◌, ◌≡◌, refl, ok}
use pathos_dacs_ref.Tests.Concrete.{plain, two_dem_a_day}
use pathos_dacs_ref.Payment.Amount.{dem_to_os}
use pathos_dacs_ref.Payment.Policy.Parse.{
  Url, PolicyJson, object, parse_pay_policy, Sound, parse-Sound,
}

abbrev plain_url : String → Option Url
plain_url s = some (record { hostname = s; host = s; pathname = "/"; username = ""; password = "" })

abbrev file : PolicyJson
file = object (record {
  keys = "network" ∷ "rpcHosts" ∷ "perTransactionCapDem" ∷ "dailyCapDem" ∷ "killSwitchFile" ∷ [];
  network = some "testnet";
  rpc_hosts = some (some "node" ∷ []);
  per_transaction_cap_dem = some (codes "1");
  daily_cap_dem = some (codes "2");
  kill_switch_file = some "stop";
})

parsed : parse_pay_policy plain plain_url file ≡ ok two_dem_a_day
unfolding parse_pay_policy dem_to_os
parsed = refl

parse-Sound_example : Sound plain plain_url two_dem_a_day
parse-Sound_example = parse-Sound plain plain_url file two_dem_a_day parsed
