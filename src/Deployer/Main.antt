-- ===== src/Deployer/Main.antt =====
-- `deploy` of scripts/deploy/deployer.js.
use apy_core_public.Base.{String, [], ◌∷◌, map}
use apy_core_public.Script.Core.{Value, Script, done, ◌>>=◌, ◌>>◌, invoke, as_string}
use apy_core_public.Script.Interleave.{all}
use apy_core_public.Deployer.Steps.{
  Safes, Pools, setup, deploy_address_registry, register_safes, deploy_meta_pool_token,
  deploy_pools, deploy_tvl_manager, deploy_lp_account, deploy_oracle_adapter,
  register_erc20_allocation, deploy_transfer_ownership,
}
use apy_core_public.Deployer.Allocations.{
  Schedules, deploy_allocations, register_erc20_allocations, deploy_zaps, deploy_swaps,
}

pub record Deployment : Type 0 where
  pub safes : Safes
  pub address_registry : Value
  pub meta_pool_token : Value
  pub underlyer_pools : Pools
  pub tvl_manager : Value
  pub lp_account : Value
  pub oracle_adapter : Value

abbrev pub underlyer_of : Value → Script String
underlyer_of pool = invoke pool "underlyer" [] >>= as_string

unfoldable pub deploy : Schedules → Script Deployment
deploy schedules = do
  s ← setup (schedules 8)
  let admin_safe = s.1.admin_safe
  address_registry ← deploy_address_registry s.0
  register_safes s.0
  meta_pool_token ← deploy_meta_pool_token s.0
  pools ← deploy_pools s.0
  tvl_manager ← deploy_tvl_manager s.0
  lp_account ← deploy_lp_account s.0
  oracle_adapter ← deploy_oracle_adapter s.0
  erc20_allocation ← register_erc20_allocation s.0 tvl_manager admin_safe
  erc20s ←
      all (schedules 9) (map underlyer_of (pools.dai_pool ∷ pools.usdc_pool ∷ pools.usdt_pool ∷ []))
  register_erc20_allocations (schedules 10) erc20_allocation admin_safe erc20s
  deploy_transfer_ownership s.0
  deploy_allocations schedules tvl_manager admin_safe
  deploy_zaps schedules lp_account erc20_allocation admin_safe
  deploy_swaps schedules lp_account erc20_allocation admin_safe
  done (record {
    safes = s.1;
    address_registry = address_registry;
    meta_pool_token = meta_pool_token;
    underlyer_pools = pools;
    tvl_manager = tvl_manager;
    lp_account = lp_account;
    oracle_adapter = oracle_adapter;
  })
