-- ===== src/Payment/Policy/Parse.antt =====
-- `parsePayPolicy` of src/live/pay-policy.ts, on a parsed JSON value.
use pathos_dacs_ref.Prelude.{
  ℕ, String, Codes, Bool, true, false, not, ◌&&◌, Option, none, some, List, [], ◌∷◌, ◌≡◌, ◌≢◌, refl,
  ap, sym, ◌∙◌, all, any, All, str_eq, eq_iff, arith, if◌then◌else◌, Result, ok, throw, ◌>>=◌, ◌>>◌,
  require, >>=-eq-ok,
}
use pathos_dacs_ref.Platform.{Platform}
use pathos_dacs_ref.Payment.Amount.{AmountError, dem_to_os}
use pathos_dacs_ref.Payment.Policy.{PayPolicy}
use pathos_dacs_ref.Payment.Policy.Decision.{NamesHosts}

-- what is read of a `URL`
pub record Url : Type 0 where
  pub hostname : String
  pub host : String
  pub pathname : String
  pub username : String
  pub password : String

-- The fields of a JSON object, `none` where one is missing or of another type; the keys of a
-- parsed object are distinct.
pub record PolicyObject : Type 0 where
  pub keys : List String
  pub network : Option String
  pub rpc_hosts : Option (List (Option String))
  pub per_transaction_cap_dem : Option Codes
  pub daily_cap_dem : Option Codes
  pub kill_switch_file : Option String

pub data PolicyJson : Type 0 where
  not_an_object : PolicyJson
  object : PolicyObject → PolicyJson

pub data ParseError : Type 0 where
  not_object unknown_field missing_field bad_network no_hosts bad_host duplicate_hosts bad_cap
        bad_kill_switch :
      ParseError

abbrev policy_keys : List String
policy_keys =
    "network" ∷ "rpcHosts" ∷ "perTransactionCapDem" ∷ "dailyCapDem" ∷ "killSwitchFile" ∷ []

abbrev includes : List String → String → Bool
includes keys key = any (λ k. str_eq k key) keys

abbrev is_text : String → Option String → Bool
is_text s none = false
is_text s (some t) = str_eq t s

cap_text : Codes → Result AmountError ℕ → Result ParseError Codes
cap_text dem (ok os) = ok dem
cap_text dem (throw e) = throw bad_cap

-- `requireCanonicalCap`
require_cap : Option Codes → Result ParseError Codes
unfolding cap_text
require_cap none = throw bad_cap
require_cap (some dem) = cap_text dem (dem_to_os dem)

-- `new Set(hosts).size === hosts.length`
pub distinct : List String → Bool
distinct [] = true
distinct (h ∷ hs) = let rest = distinct hs in not (includes hs h) && rest

ok_injective : {A : Type 0} {x y : A} → ◌≡◌ {A = Result ParseError A} (ok x) (ok y) → x ≡ y
ok_injective h = cc

-- `parse_https s` is `new URL` of the text s behind "https://", `none` if it throws.
module _ (platform : Platform) (parse_https : String → Option Url) where
  -- `value.trim() === value`, and not empty
  abbrev exact : String → Bool
  exact s = not (str_eq s "") && str_eq (platform.trim s) s

  abbrev is_plain : String → Option Url → Bool
  is_plain s none = false
  is_plain s (some url) =
      str_eq url.hostname s
      && (str_eq url.host s
          && (str_eq url.pathname "/" && (str_eq url.username "" && str_eq url.password "")))

  -- `requireRpcHost`
  require_rpc_host : Option String → Result ParseError String
  require_rpc_host none = throw bad_host
  require_rpc_host (some s) = if exact s && is_plain s (parse_https s) then ok s else throw bad_host

  require_hosts : List (Option String) → Result ParseError (List String)
  unfolding require_rpc_host
  require_hosts [] = ok []
  require_hosts (v ∷ vs) = do h ← require_rpc_host v; hs ← require_hosts vs; ok (h ∷ hs)

  host_list : Option (List (Option String)) → Result ParseError (List String)
  unfolding require_hosts
  host_list none = throw no_hosts
  host_list (some []) = throw no_hosts
  host_list (some (v ∷ vs)) = require_hosts (v ∷ vs)

  require_switch : Option String → Result ParseError String
  require_switch none = throw bad_kill_switch
  require_switch (some s) = if exact s then ok s else throw bad_kill_switch

  -- the parts of the policy, in the order in which they are read
  combine :
      Result ParseError (List String)
      → Result ParseError Codes
      → Result ParseError Codes
      → Result ParseError String
      → Result ParseError PayPolicy
  unfolding distinct
  combine (throw e) _ _ _ = throw e
  combine (ok hosts) per_transaction daily switch = do
    require (distinct hosts) duplicate_hosts
    p ← per_transaction
    d ← daily
    s ← switch
    ok (record {
      rpc_hosts = hosts;
      per_transaction_cap_dem = p;
      daily_cap_dem = d;
      kill_switch_file = s;
    })

  parse_object : PolicyObject → Result ParseError PayPolicy
  unfolding combine host_list require_cap require_switch
  parse_object o = do
    require (all (includes policy_keys) o.keys) unknown_field
    require (all (includes o.keys) policy_keys) missing_field
    require (is_text "testnet" o.network) bad_network
    combine (host_list o.rpc_hosts) (require_cap o.per_transaction_cap_dem)
        (require_cap o.daily_cap_dem) (require_switch o.kill_switch_file)

  -- `parsePayPolicy`
  unfoldable pub parse_pay_policy : PolicyJson → Result ParseError PayPolicy
  unfolding parse_object
  parse_pay_policy not_an_object = throw not_object
  parse_pay_policy (object o) = parse_object o

  -- A cap that `demToOs` accepts.
  abbrev pub IsCap : Codes → Type 0
  IsCap dem = (os : ℕ) × (dem_to_os dem ≡ ok os)

  cap_text-IsCap :
      (d dem : Codes) (r : Result AmountError ℕ)
      → dem_to_os d ≡ r
      → cap_text d r ≡ ok dem
      → IsCap dem
  unfolding cap_text
  cap_text-IsCap d dem (throw e) f h = absurd cc
  cap_text-IsCap d dem (ok os) f h = let same : d ≡ dem = cc in (os, ap dem_to_os (sym same) ∙ f)

  require_cap-IsCap : (o : Option Codes) (dem : Codes) → require_cap o ≡ ok dem → IsCap dem
  unfolding require_cap
  require_cap-IsCap none dem h = absurd cc
  require_cap-IsCap (some d) dem h = cap_text-IsCap d dem (dem_to_os d) refl h

  host_named : (v : Option String) (s : String) → require_rpc_host v ≡ ok s → s ≢ ""
  unfolding require_rpc_host
  host_named none s h = absurd cc
  host_named (some t) s h = λ e. ground (arith, e, eq_iff t "")

  hosts_named :
      (vs : List (Option String)) (hosts : List String)
      → require_hosts vs ≡ ok hosts
      → All (λ h. h ≢ "") hosts
  unfolding require_hosts
  hosts_named [] hosts h = let p : [] ≡ hosts = cc in rw (← p) tt
  hosts_named (v ∷ vs) hosts h =
      let a = >>=-eq-ok (require_rpc_host v) (λ x. require_hosts vs >>= λ xs. ok (x ∷ xs)) h in
      let b = >>=-eq-ok (require_hosts vs) (λ xs. ok (a.0 ∷ xs)) a.2 in
      let p : a.0 ∷ b.0 ≡ hosts = ok_injective b.2 in
      rw (← p) (host_named v a.0 a.1, hosts_named vs b.0 b.1)

  list_named :
      (o : Option (List (Option String))) (hosts : List String)
      → host_list o ≡ ok hosts
      → All (λ h. h ≢ "") hosts
  unfolding host_list
  list_named none hosts h = absurd cc
  list_named (some []) hosts h = absurd cc
  list_named (some (v ∷ vs)) hosts h = hosts_named (v ∷ vs) hosts h

  -- What every parsed policy satisfies.
  pub record Sound (policy : PayPolicy) : Type 0 where
    pub named : NamesHosts policy
    pub no_duplicate : distinct policy.rpc_hosts ≡ true
    pub per_transaction : IsCap policy.per_transaction_cap_dem
    pub daily : IsCap policy.daily_cap_dem

  combine-Sound :
      (hosts : Option (List (Option String))) (per_transaction daily : Option Codes)
      (policy : PayPolicy) (h : Result ParseError (List String)) (p d : Result ParseError Codes)
      (s : Result ParseError String)
      → host_list hosts ≡ h
      → require_cap per_transaction ≡ p
      → require_cap daily ≡ d
      → combine h p d s ≡ ok policy
      → Sound policy
  unfolding combine
  combine-Sound hosts pt dt policy (throw e) p d s eh ep ed x = absurd cc
  combine-Sound hosts pt dt policy (ok hs) (throw e) d s eh ep ed x = absurd (ground arith)
  combine-Sound hosts pt dt policy (ok hs) (ok p) (throw e) s eh ep ed x = absurd (ground arith)
  combine-Sound hosts pt dt policy (ok hs) (ok p) (ok d) (throw e) eh ep ed x =
      absurd (ground arith)
  combine-Sound hosts pt dt policy (ok hs) (ok p) (ok d) (ok s) eh ep ed x =
      let made : PayPolicy = record {
        rpc_hosts = hs;
        per_transaction_cap_dem = p;
        daily_cap_dem = d;
        kill_switch_file = s;
      } in
      let same : made ≡ policy = ground arith in
      rw (← same) (record {
        named = list_named hosts hs eh;
        no_duplicate = ground arith;
        per_transaction = require_cap-IsCap pt p ep;
        daily = require_cap-IsCap dt d ed;
      })

  object_combined :
      (o : PolicyObject) (policy : PayPolicy)
      → parse_object o ≡ ok policy
      → combine
          (host_list o.rpc_hosts)
          (require_cap o.per_transaction_cap_dem)
          (require_cap o.daily_cap_dem)
          (require_switch o.kill_switch_file)
        ≡ ok policy
  unfolding parse_object
  object_combined o policy h = ground arith

  -- A policy that was parsed names only non-empty hosts, none twice, and `demToOs` accepts both of
  -- its caps.
  pub parse-Sound :
      (json : PolicyJson) (policy : PayPolicy) → parse_pay_policy json ≡ ok policy → Sound policy
  unfolding parse_pay_policy
  parse-Sound not_an_object policy h = absurd cc
  parse-Sound (object o) policy h =
      combine-Sound o.rpc_hosts o.per_transaction_cap_dem o.daily_cap_dem policy
        (host_list o.rpc_hosts) (require_cap o.per_transaction_cap_dem)
        (require_cap o.daily_cap_dem) (require_switch o.kill_switch_file) refl refl refl
        (object_combined o policy h)
