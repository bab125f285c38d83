-- ===== src/Oracle/State.antt =====
-- The storage of OracleAdapter and what a call of it reads of the chain. `nonReentrant` has no part
-- here: no function of the contract calls back into it. Its events are left out.
use apy_core_public.Base.{ℕ, Bool}
use apy_core_public.Base.Int.{ℤ}
use apy_core_public.Contract.Call.{View, Mapping}
use apy_core_public.Registry.Calls.{Registry}
use apy_core_public.Registry.Names.{Names}

pub record Value : Type 0 where
  pub value : ℕ
  pub period_end : ℕ

abbrev pub no_value : Value
no_value = record { value = 0; period_end = 0 }

pub record Oracle : Type 0 where
  pub address_registry : ℕ
  pub default_lock_period : ℕ
  pub lock_end : ℕ
  pub chainlink_stale_period : ℕ
  pub tvl_source : ℕ
  pub asset_sources : Mapping ℕ
  pub submitted_asset_values : Mapping Value
  pub submitted_tvl_value : Value

-- The storage before the constructor runs.
abbrev pub blank : Oracle
blank = record {
  address_registry = 0;
  default_lock_period = 0;
  lock_end = 0;
  chainlink_stale_period = 0;
  tvl_source = 0;
  asset_sources = λ _. 0;
  submitted_asset_values = λ _. no_value;
  submitted_tvl_value = no_value;
}

pub data Role : Type 0 where
  default_admin_role : Role
  emergency_role : Role
  admin_role : Role
  contract_role : Role
  lp_role : Role

-- What other contracts and the block give to a call.
pub record Env : Type 0 where
  pub block_number : ℕ
  pub timestamp : ℕ
  -- `Address.isContract`
  pub is_contract : ℕ → Bool
  -- the price and the time of `latestRoundData` of an aggregator
  pub latest_round_data : ℕ → View (ℤ × ℕ)
  -- the registry at an address, and the ids of the platform
  pub registry_at : ℕ → Registry
  pub names : Names
  -- `totalSupply` of the token at an address
  pub total_supply : ℕ → View ℕ
  -- the modifiers of AccessControl, by the role and the sender
  pub only_role : Role → ℕ → View (Unit {0})
