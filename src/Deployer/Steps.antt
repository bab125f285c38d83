-- ===== src/Deployer/Steps.antt =====
-- The steps of scripts/deploy/deployer.js that the contract NewDeployment takes.
use apy_core_public.Base.{ℕ, String, List, [], ◌∷◌}
use apy_core_public.Script.Core.{
  Value, Script, done, ◌>>=◌, ◌>>◌, invoke, invoke_as, address_of, as_string, ignore,
}
use apy_core_public.Script.Common.{factory_of, contract_at}
use apy_core_public.Safe.Signers.{ethers}
use apy_core_public.Deployer.Factories.{deploy_factories}

pub record Safes : Type 0 where
  pub lp_safe : Value
  pub admin_safe : Value
  pub emergency_safe : Value

-- `deployNewDeployment`
unfoldable pub deploy_new_deployment :
    List String × List String → List String × List String → Script Value
deploy_new_deployment factories safes = do
  new_deployment ← factory_of "NewDeployment"
  invoke new_deployment "deploy" (
      Value.strs factories.0
      ∷ Value.strs factories.1
      ∷ Value.strs safes.0
      ∷ Value.strs safes.1
      ∷ [])

-- `setup`
unfoldable pub setup : List ℕ → Script (Value × Safes)
setup schedule = do
  lp_safe ← invoke ethers "getSigner" (Value.num 7 ∷ [])
  admin_safe ← invoke ethers "getSigner" (Value.num 8 ∷ [])
  emergency_safe ← invoke ethers "getSigner" (Value.num 9 ∷ [])
  a ← address_of lp_safe
  b ← address_of admin_safe
  c ← address_of emergency_safe
  factories ← deploy_factories schedule
  deployer ←
      deploy_new_deployment factories
        ("lpSafe" ∷ "adminSafe" ∷ "emergencySafe" ∷ [], a ∷ b ∷ c ∷ [])
  done (
    deployer,
    record { lp_safe = lp_safe; admin_safe = admin_safe; emergency_safe = emergency_safe },
  )

-- A step of the deployer, the address that it gives, and the contract there.
unfoldable pub deployed_contract : Value → String → String → String → Script Value
deployed_contract deployer method getter name = do
  invoke deployer method []
  answer ← invoke deployer getter []
  address ← as_string answer
  contract_at name address

unfoldable pub deploy_address_registry : Value → Script Value
deploy_address_registry deployer =
    deployed_contract deployer "deploy0AddressRegistryV2" "addressRegistryV2" "AddressRegistryV2"

unfoldable pub register_safes : Value → Script (Unit {0})
register_safes deployer = ignore (invoke deployer "deploy1RegisterSafes" [])

unfoldable pub deploy_meta_pool_token : Value → Script Value
deploy_meta_pool_token deployer =
    deployed_contract deployer "deploy2MetaPoolToken" "mApt" "MetaPoolToken"

pub record Pools : Type 0 where
  pub dai_pool : Value
  pub usdc_pool : Value
  pub usdt_pool : Value

unfoldable pub deploy_pools : Value → Script Pools
deploy_pools deployer = do
  dai_pool ← deployed_contract deployer "deploy3DaiPoolTokenV2" "daiPool" "PoolTokenV2"
  usdc_pool ← deployed_contract deployer "deploy4UsdcPoolTokenV2" "usdcPool" "PoolTokenV2"
  usdt_pool ← deployed_contract deployer "deploy5UsdtPoolTokenV2" "usdtPool" "PoolTokenV2"
  done (record { dai_pool = dai_pool; usdc_pool = usdc_pool; usdt_pool = usdt_pool })

unfoldable pub deploy_tvl_manager : Value → Script Value
deploy_tvl_manager deployer =
    deployed_contract deployer "deploy6TvlManager" "tvlManager" "TvlManager"

unfoldable pub deploy_lp_account : Value → Script Value
deploy_lp_account deployer = deployed_contract deployer "deploy7LpAccount" "lpAccount" "LpAccount"

unfoldable pub deploy_oracle_adapter : Value → Script Value
deploy_oracle_adapter deployer =
    deployed_contract deployer "deploy8OracleAdapter" "oracleAdapter" "OracleAdapter"

-- `registerErc20Allocation`
unfoldable pub register_erc20_allocation : Value → Value → Value → Script Value
register_erc20_allocation deployer tvl_manager admin_safe = do
  answer ← invoke deployer "erc20Allocation" []
  address ← as_string answer
  invoke_as admin_safe tvl_manager "registerAssetAllocation" (Value.str address ∷ [])
  contract_at "Erc20Allocation" address

unfoldable pub deploy_transfer_ownership : Value → Script (Unit {0})
deploy_transfer_ownership deployer = ignore (invoke deployer "deploy9TransferOwnership" [])
