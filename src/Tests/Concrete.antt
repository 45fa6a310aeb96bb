-- ===== src/Tests/Concrete.antt =====
-- A platform whose every time is of one day, and a policy.
use pathos_dacs_ref.Prelude.{some, codes, [], ◌∷◌}
use pathos_dacs_ref.Platform.{Platform}
use pathos_dacs_ref.Payment.Policy.{PayPolicy}

abbrev pub plain : Platform
plain = record {
  utc_day = λ _. some "2026-01-01";
  url_host = λ u. some u;
  trim = λ s. s;
  nfc = λ s. s;
  to_lower = λ s. s;
}

abbrev pub two_dem_a_day : PayPolicy
two_dem_a_day = record {
  rpc_hosts = "node" ∷ [];
  per_transaction_cap_dem = codes "1";
  daily_cap_dem = codes "2";
  kill_switch_file = "stop";
}
