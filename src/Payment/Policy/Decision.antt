-- ===== src/Payment/Policy/Decision.antt =====
-- What the decision of `authorizeTransfer` means.
use pathos_dacs_ref.Prelude.{
  ℕ, ◌+◌, ◌≤◌, String, true, false, some, List, ◌≡◌, refl, ◌≢◌, ◌↔◌, inl, inr, Memᴰ, ok, arith, All,
  any, str_eq, eq_iff, Result-cases, Option-cases, >>=-eq-ok, any-str_eq-Mem, any-str_eq_of_Mem,
  ◌∷◌, [],
}
use pathos_dacs_ref.Platform.{Platform}
use pathos_dacs_ref.Payment.Amount.{dem_to_os}
use pathos_dacs_ref.Payment.Policy.{
  PayPolicy, TransferInput, proceed, utc_date_or_throw, host_allowed, authorize_transfer,
}

abbrev pub NamesHosts : PayPolicy → Type 0
NamesHosts policy = All (λ h. h ≢ "") policy.rpc_hosts

any_empty : (hosts : List String) → All (λ h. h ≢ "") hosts → any (λ h. str_eq h "") hosts ≡ false
any_empty [] h = refl
any_empty (x ∷ xs) (h, hs) = ground (arith, any_empty xs hs, eq_iff x "")

module _ (platform : Platform) (policy : PayPolicy) (input : TransferInput) where
  -- Every arm of the policy holds.
  pub record Allowed : Type 0 where
    pub dated : (day : String) × (utc_date_or_throw platform input.now_iso ≡ ok day)
    pub switch_absent : input.kill_switch_present ≡ false
    pub host : (h : String) × (platform.url_host input.rpc_url ≡ some h) × Memᴰ h policy.rpc_hosts
    pub within_cap :
        (cap : ℕ) × (dem_to_os policy.per_transaction_cap_dem ≡ ok cap) × (input.amount_os ≤ cap)
    pub within_day :
        (cap : ℕ) × (dem_to_os policy.daily_cap_dem ≡ ok cap)
        × (input.spent_today_os + input.amount_os ≤ cap)

  authorize_of_Allowed :
      Allowed → authorize_transfer platform policy input ≡ ok (proceed input.now_iso)
  unfolding authorize_transfer
  authorize_of_Allowed a =
      let (day, today) = a.dated in
      let (h, parsed, listed) = a.host in
      let (c, cap, fits) = a.within_cap in
      let (d, daily, room) = a.within_day in
      ground (arith, any-str_eq_of_Mem h policy.rpc_hosts listed)

  host_of_allowed :
      NamesHosts policy
      → host_allowed platform policy (platform.url_host input.rpc_url) ≡ true
      → (h : String) × (platform.url_host input.rpc_url ≡ some h) × Memᴰ h policy.rpc_hosts
  host_of_allowed named e = elim (Option-cases (platform.url_host input.rpc_url)) [
    | inl invalid ↦ ground (arith, any_empty policy.rpc_hosts named)
    | inr (h, parsed) ↦ (h, parsed, any-str_eq-Mem h policy.rpc_hosts (ground arith))
  ]

  Allowed_of_authorize :
      {now : String}
      → NamesHosts policy
      → authorize_transfer platform policy input ≡ ok (proceed now)
      → Allowed
  unfolding authorize_transfer
  Allowed_of_authorize named e =
      let (day, today, e₁) = >>=-eq-ok (utc_date_or_throw platform input.now_iso) _ e in
      elim (Result-cases (dem_to_os policy.per_transaction_cap_dem)) [
        | inl (c, cap) ↦ elim (Result-cases (dem_to_os policy.daily_cap_dem)) [
          | inl (d, daily) ↦ record {
            dated = (day, today);
            switch_absent = ground arith;
            host = host_of_allowed named (ground arith);
            within_cap = (c, cap, ground arith);
            within_day = (d, daily, ground arith);
          }
          | inr (_, bad) ↦ absurd (ground arith)
        ]
        | inr (_, bad) ↦ absurd (ground arith)
      ]

  -- For a policy with no empty host name, a transfer is allowed to proceed exactly when the kill
  -- switch is absent, the RPC host is one of the policy's, the amount is within the
  -- per-transaction cap, and the spend of the day with this amount is within the daily cap (and
  -- the time and both caps are well-formed).
  pub authorize_iff :
      NamesHosts policy
      → (authorize_transfer platform policy input ≡ ok (proceed input.now_iso)) ↔ Allowed
  authorize_iff named = (Allowed_of_authorize named, authorize_of_Allowed)
