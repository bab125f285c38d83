-- ===== src/LpAccount/State.antt =====
-- The storage of LpAccountV2 and what its calls read and change elsewhere. The code of a zap or a
-- swap runs by a delegate call: it has no storage of its own and leaves that of the account alone,
-- and what it does to tokens and to other protocols is a function of their state, the type `W`.
-- `nonReentrant` keeps that code from calling back, and events are left out.
use apy_core_public.Base.{ℕ, String, List}
use apy_core_public.Base.Int.{ℤ}
use apy_core_public.Contract.Call.{View, Mapping}
use apy_core_public.Contract.Enumerable.{EnumerableSet}
use apy_core_public.Oracle.State.{Oracle}
use apy_core_public.Named.Calls.{Set}
use apy_core_public.Named.Calls as Named
use apy_core_public.Tvl.State.{Chain, Manager}
use apy_core_public.Tvl.Tokens.{Tokens}

pub record Account (S W : Type 0) : Type 0 where
  pub address_registry : ℕ
  pub lock_period : ℕ
  pub zaps : Set S
  pub swaps : Set S
  pub reward_tokens : S
  pub reward_fee : Mapping ℕ
  -- the storage of the oracle at an address, and everything else
  pub oracles : Mapping Oracle
  pub world : W

-- Before the proxy is initialized.
abbrev pub blank : {S W : Type 0} → EnumerableSet S → Mapping Oracle → W → Account S W
blank sets oracles world = record {
  address_registry = 0;
  lock_period = 0;
  zaps = Named.empty sets;
  swaps = Named.empty sets;
  reward_tokens = sets.empty;
  reward_fee = λ _. 0;
  oracles = oracles;
  world = world;
}

-- A zap or a swap at an address, by its functions.
pub record Zap (W : Type 0) : Type 0 where
  pub asset_allocations : View (List String)
  pub erc20_allocations : View (List ℕ)
  pub deploy_liquidity : List ℕ → W → View W
  pub unwind_liquidity : ℕ → ℕ → W → View W
  pub zap_claim : W → View W
  pub swap_tokens : ℕ → ℕ → W → View W
  pub lp_token_balance : W → View ℕ

pub record Outside (S W : Type 0) : Type 0 where
  pub chain : Chain
  pub zap_at : ℕ → Zap W
  -- the TvlManager and the Erc20Allocation at an address
  pub manager_at : ℕ → Manager S
  pub tokens_at : ℕ → Tokens S
  -- the id of "treasurySafe" in the registry
  pub treasury_safe : ℕ
  -- the tokens: the balance of the account, and `safeTransfer` and `safeApprove` by it
  pub balance : ℕ → W → View ℕ
  pub transfer : ℕ → ℕ → ℕ → W → View W
  pub approve : ℕ → ℕ → ℕ → W → View W
  -- `underlyer` of a pool
  pub underlyer : ℕ → View ℕ
  -- the 3pool of Curve
  pub pool_3 : ℕ
  pub coins : ℕ → View ℕ
  pub exchange : ℤ → ℤ → ℕ → ℕ → W → View W
