-- ===== src/Deploys/Rinkeby.antt =====
-- scripts/rinkeby/*_deploy.js but the voting escrow: one contract that the admin Safe deploys, with
-- the arguments of its constructor, which are verified afterwards. The scripts differ in the name and
-- the arguments only.
use apy_core_public.Base.{ℕ, ◌*◌, ◌^◌, String, Bool, none, List, [], ◌∷◌}
use apy_core_public.Base.Texts.{to_upper}
use apy_core_public.Script.Core.{
  Value, Script, Env, ◌>>=◌, ◌>>◌, invoke_as, transaction_of, required_variable, when, ignore,
}
use apy_core_public.Script.Common.{factory_of, compile_one, verify, service_of, created_address}
use apy_core_public.Safe.Signers.{get_admin_safe_signer}
use apy_core_public.Safe.Receipts.{wait_for_safe_tx_receipt}

module _ (create_lib_address : String) (fuel : ℕ) where
  -- The body that they share.
  unfoldable pub deploy_main : Env → Bool → String → List Value → Script (Unit {0})
  deploy_main env compile contract_name args = do
    required_variable env "SAFE_OWNER_KEY" "Must set SAFE_OWNER_KEY env var."
    safe_signer ← get_admin_safe_signer env (to_upper env.network_name) none
    when compile (ignore (compile_one contract_name))
    factory ← factory_of contract_name
    instance_ ← invoke_as safe_signer factory "deploy" args
    tx ← transaction_of instance_
    service ← service_of safe_signer
    receipt ← wait_for_safe_tx_receipt create_lib_address fuel tx service none none none
    address ← created_address receipt "Contract address is missing."
    ignore (verify address args)

  -- `main` of scripts/rinkeby/apy_logic_deploy.js
  unfoldable pub apy_logic_main : Env → Bool → Script (Unit {0})
  apy_logic_main env compile = deploy_main env compile "GovernanceTokenV2" ([])

  -- `main` of scripts/rinkeby/pool_logic_deploy.js
  unfoldable pub pool_logic_main : Env → Bool → Script (Unit {0})
  pool_logic_main env compile = deploy_main env compile "PoolToken" ([])

  -- `main` of scripts/rinkeby/proxy_admin_deploy.js
  unfoldable pub proxy_admin_main : Env → Bool → Script (Unit {0})
  proxy_admin_main env compile = deploy_main env compile "ProxyAdmin" ([])

  -- `main` of scripts/rinkeby/reward_distributor_deploy.js
  unfoldable pub reward_distributor_main : Env → Bool → Script (Unit {0})
  reward_distributor_main env compile = deploy_main env compile "RewardDistributor" (
      Value.str "0xA41d3d461B8a9f1E9F92d2B040495cE21CfED548"
      ∷ Value.str "0x90F8bf6A479f320ead074411a4B0e7944Ea8c9C1"
      ∷ [])

  -- `main` of scripts/rinkeby/pool_proxy_deploy.js
  unfoldable pub pool_proxy_main : Env → Bool → Script (Unit {0})
  pool_proxy_main env compile = deploy_main env compile "PoolTokenProxy" (
      Value.str "0x26d346C5c5c6862A12Ce3aa8aC7F13Fa000A405b"
      ∷ Value.str "0x3221dB7344A6DBc07414F342F6A65d6Af70045aE"
      ∷ Value.str "0xc3dbf84Abb494ce5199D5d4D815b10EC29529ff8"
      ∷ Value.str "0x74825DbC8BF76CC4e9494d0ecB210f676Efa001D"
      ∷ [])

  -- `main` of scripts/rinkeby/apy_proxy_deploy.js
  unfoldable pub apy_proxy_main : Env → Bool → Script (Unit {0})
  apy_proxy_main env compile = deploy_main env compile "GovernanceTokenProxy" (
      Value.str "0xAC1231Ee773B5596078C8eD316185766aA1bfa15"
      ∷ Value.str "0x3221dB7344A6DBc07414F342F6A65d6Af70045aE"
      ∷ Value.num (100000000 * 10 ^ 18)
      ∷ [])
