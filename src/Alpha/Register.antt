-- ===== src/Alpha/Register.antt =====
-- The scripts that deploy one contract through the admin Safe and register it.
use mathlib.Core.Bool.{not}
use text.Mathlib.Text.{◌==◌ as str_eq}
use apy_core_public.Base.{ℕ, String, Bool, true, false, none, List, [], ◌∷◌}
use apy_core_public.Base.Texts.{to_upper}
use apy_core_public.Script.Core.{
  Value, Script, Env, ◌>>=◌, ◌>>◌, invoke, invoke_as, address_of, transaction_of, as_string,
  required_variable, require_that, when, ignore,
}
use apy_core_public.Script.Common.{
  first_signer, wallet, show_balance, factory_of, contract_at, compile_one, contract_name, verify,
  service_of, created_address, get_registered_contract, zero_address,
}
use apy_core_public.Safe.Signers.{get_admin_safe_signer}
use apy_core_public.Safe.Receipts.{wait_for_safe_tx_receipt}

-- The arguments of the command line.
pub record Arguments : Type 0 where
  pub name : String
  pub compile : Bool
  pub metapool : Bool

module _ (create_lib_address : String) (fuel : ℕ) where
  -- `main` of scripts/alpha/zap_deploy.js
  unfoldable pub zap_main : Env → Arguments → Script (Unit {0})
  zap_main env argv = do
    deployer ← first_signer
    address_of deployer
    key ← required_variable env "SAFE_OWNER_KEY" "Must set SAFE_OWNER_KEY env var."
    owner ← wallet (Value.str key)
    show_balance deployer
    show_balance owner
    safe_signer ← get_admin_safe_signer env (to_upper env.network_name) none
    when argv.compile (ignore (compile_one (contract_name argv.name "Zap")))
    factory ← factory_of (contract_name argv.name "Zap")
    instance_ ← invoke_as safe_signer factory "deploy" []
    tx ← transaction_of instance_
    service ← service_of safe_signer
    receipt ← wait_for_safe_tx_receipt create_lib_address fuel tx service none none none
    address ← created_address receipt "Zap address is missing."
    created ← contract_at (contract_name argv.name "Zap") address
    invoke created "NAME" []
    lp_account ← get_registered_contract "lpAccount" Value.undefined
    proposed ← invoke_as safe_signer lp_account "registerZap" (Value.str address ∷ [])
    proposed_tx ← transaction_of proposed
    service' ← service_of safe_signer
    wait_for_safe_tx_receipt create_lib_address fuel proposed_tx service' none none none
    ignore (verify address [])

  -- `main` of scripts/alpha/swap_deploy.js
  unfoldable pub swap_main : Env → Arguments → Script (Unit {0})
  swap_main env argv = do
    deployer ← first_signer
    address_of deployer
    key ← required_variable env "SAFE_OWNER_KEY" "Must set SAFE_OWNER_KEY env var."
    owner ← wallet (Value.str key)
    show_balance deployer
    show_balance owner
    safe_signer ← get_admin_safe_signer env (to_upper env.network_name) none
    compile_one (contract_name argv.name "Swap")
    factory ← factory_of (contract_name argv.name "Swap")
    instance_ ← invoke_as safe_signer factory "deploy" []
    tx ← transaction_of instance_
    service ← service_of safe_signer
    receipt ← wait_for_safe_tx_receipt create_lib_address fuel tx service none none none
    address ← created_address receipt "Swap address is missing."
    created ← contract_at (contract_name argv.name "Swap") address
    invoke created "NAME" []
    lp_account ← get_registered_contract "lpAccount" Value.undefined
    proposed ← invoke_as safe_signer lp_account "registerSwap" (Value.str address ∷ [])
    proposed_tx ← transaction_of proposed
    service' ← service_of safe_signer
    wait_for_safe_tx_receipt create_lib_address fuel proposed_tx service' none none none
    ignore (verify address [])

  -- The arguments of the constructor: the allocation of the 3pool for a metapool.
  unfoldable pub allocation_args : Bool → Value → List Value
  allocation_args true curve_3pool = curve_3pool ∷ []
  allocation_args false curve_3pool = []

  -- `main` of scripts/alpha/allocation_deploy.js
  unfoldable pub allocation_main : Env → Arguments → Script (Unit {0})
  allocation_main env argv = do
    deployer ← first_signer
    address_of deployer
    key ← required_variable env "SAFE_OWNER_KEY" "Must set SAFE_OWNER_KEY env var."
    owner ← wallet (Value.str key)
    show_balance deployer
    show_balance owner
    safe_signer ← get_admin_safe_signer env (to_upper env.network_name) none
    when argv.compile (ignore (compile_one (contract_name argv.name "Allocation")))
    tvl_manager ← get_registered_contract "tvlManager" Value.undefined
    factory ← factory_of (contract_name argv.name "Allocation")
    curve_3pool ← invoke tvl_manager "getAssetAllocation" (Value.str "curve-3pool" ∷ [])
    curve_3pool_address ← as_string curve_3pool
    require_that (not (str_eq curve_3pool_address zero_address))
        "3poolAllocation address is missing."
    instance_ ← invoke_as safe_signer factory "deploy" (allocation_args argv.metapool curve_3pool)
    tx ← transaction_of instance_
    service ← service_of safe_signer
    receipt ← wait_for_safe_tx_receipt create_lib_address fuel tx service none none none
    address ← created_address receipt "Allocation address is missing."
    created ← contract_at (contract_name argv.name "Allocation") address
    invoke created "NAME" []
    proposed ← invoke_as safe_signer tvl_manager "registerAssetAllocation" (Value.str address ∷ [])
    proposed_tx ← transaction_of proposed
    service' ← service_of safe_signer
    wait_for_safe_tx_receipt create_lib_address fuel proposed_tx service' none none none
    ignore (verify address (allocation_args argv.metapool curve_3pool))
