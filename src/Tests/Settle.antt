-- ===== src/Tests/Settle.antt =====
-- `settlePayDemCore` at a payment that is included.
use pathos_dacs_ref.Prelude.{true, none, some, ◌≡◌, refl, ◌⊎◌, codes, codes_eq, arith}
use pathos_dacs_ref.Tests.Concrete.{plain}
use pathos_dacs_ref.Payment.Amount.{dem_to_os, os_to_dem}
use pathos_dacs_ref.Payment.Policy.{utc_date_or_throw}
use pathos_dacs_ref.Payment.Settle.{
  CoreParams, Client, World, Transfer, resolved, works, absent, proceed, Settled,
  settle_pay_dem_core, require_captured_inputs, witness_hash,
}
use pathos_dacs_ref.Payment.Settle.Laws.{sent, Sends, transfer_preceded}
use pathos_dacs_ref.Payment.Settle.Outcome.{Reports, hash_reported, Backed, settled-Backed}

abbrev params : CoreParams
params = record {
  recipient = "payee";
  amount_dem_canonical = codes "5";
  currency = "DEM";
  job_id = "job";
  phase_index = some 0;
  network = none;
  amount_os = none;
  rpc_url = none;
}

abbrev client : Client
client = record { address = "payer"; rpc_url = some "node" }

abbrev reply : Transfer
reply = record { ok = true; hash = some "0xab"; state = some "included"; block_number = some 9 }

abbrev world : World
world = record {
  authorize = some (proceed "2026-01-01T12:00:00Z");
  journal = works;
  transfer = resolved reply;
  meter = absent;
  observed_at = 1;
}

abbrev paid : Settled
paid = record {
  tx_hash = "0xab";
  block_number = 9;
  recovery = record {
    job_id = "job";
    phase_index = 0;
    network = "demos";
    payer = "payer";
    payee = "payee";
    amount_os = 5000000000;
  };
  payment_amount = codes "5";
  finality_observed_at = 1;
  metered = absent;
}

transfer_preceded_example :
    let calls = (settle_pay_dem_core plain params client world).1 in
    (sent calls ≡ 0) ⊎ Sends plain params client world calls
transfer_preceded_example = transfer_preceded plain params client world

one_sent : sent (settle_pay_dem_core plain params client world).1 ≡ 1
unfolding settle_pay_dem_core require_captured_inputs witness_hash utc_date_or_throw dem_to_os
    os_to_dem codes_eq
one_sent = refl

hash_reported_example : Reports "0xab" (settle_pay_dem_core plain params client world).0
unfolding witness_hash
hash_reported_example =
    hash_reported plain params client world reply "0xab" refl refl
      (λ e. absurd (omega (arith, one_sent, e)))

settled-Backed_example : Backed plain params client world paid
unfolding settle_pay_dem_core require_captured_inputs witness_hash utc_date_or_throw dem_to_os
    os_to_dem codes_eq
settled-Backed_example = settled-Backed plain params client world paid refl
