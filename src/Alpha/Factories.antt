-- ===== src/Alpha/Factories.antt =====
-- The scripts of scripts/alpha that deploy the factories, the contract of the deployment and the
-- upgrader.
use apy_core_public.Base.{ℕ, String, ◌||◌, Option, none, some, List, [], ◌∷◌, ◌++◌, map}
use text.Mathlib.Text.{◌==◌ as str_eq}
use apy_core_public.Base.Texts.{to_upper}
use apy_core_public.Base.Dict.{Dict, lookup}
use apy_core_public.Address.Registry.{Modules}
use apy_core_public.Script.Core.{
  Value, Script, Env, done, ◌>>=◌, ◌>>◌, invoke, invoke_as, address_of, as_strings, as_string,
  transaction_of, when, ignore,
}
use apy_core_public.Script.Common.{run_task, compile_one, verify, service_of, get_max_fee, bytes32}
use apy_core_public.Safe.Signers.{ethers, provider, or_undefined}
use apy_core_public.Alpha.Setup.{deployed_address, update_jsons, signers, wait_for_safe_tx_details}

abbrev pub fs : Value
fs = Value.str "fs"

abbrev pub addresses_filename : String
addresses_filename = "scripts/alpha/deployment-factory-addresses.json"

abbrev pub factory_names : List String
factory_names =
    "ProxyFactory" ∷ "AddressRegistryV2Factory" ∷ "MetaPoolTokenFactory" ∷ "PoolTokenV1Factory"
    ∷ "PoolTokenV2Factory" ∷ "TvlManagerFactory" ∷ "Erc20AllocationFactory" ∷ "OracleAdapterFactory"
    ∷ "LpAccountFactory" ∷ []

abbrev pub already_deployed : Dict String
already_deployed =
    ("ProxyFactory", "0x2FA1A3E783A97218DAb9a1ab4C4eeBb727C928b5")
    ∷ ("PoolTokenV1Factory", "0x803434B221EDa8Dea447b83465869a7Df8fA1b6A")
    ∷ []

-- `2e9`
abbrev pub priority_fee : Value
priority_fee = Value.num 2000000000

-- The deployment of one factory.
unfoldable pub deploy_factory : Option ℕ → Value → Value → String → Script String
deploy_factory gas_price deployer safe_signer name = do
  contract_factory ← invoke ethers "getContractFactory" (Value.str name ∷ deployer ∷ [])
  run_task "compile:one" (Value.str name ∷ [])
  max_fee ← get_max_fee gas_price
  contract ← invoke_as safe_signer contract_factory "deploy" (Value.num max_fee ∷ priority_fee ∷ [])
  tx ← transaction_of contract
  service ← service_of safe_signer
  wait_for_safe_tx_details (Value.transaction tx ∷ service ∷ Value.num 5 ∷ [])
  address_of contract

unfoldable pub factory_address : Option ℕ → Value → Value → String → Script String
factory_address gas_price deployer safe_signer name = elim (lookup name already_deployed) [
  | some address ↦ done address
  | none ↦ deploy_factory gas_price deployer safe_signer name
]

-- The loop: the file is written again for each factory.
unfoldable pub deploy_factories :
    Option ℕ → Value → Value → List String → List String → Script (Unit {0})
deploy_factories gas_price deployer safe_signer [] addresses = done tt
deploy_factories gas_price deployer safe_signer (name ∷ names) addresses = do
  address ← factory_address gas_price deployer safe_signer name
  invoke fs "writeFileSync"
      (Value.str addresses_filename ∷ Value.strs (addresses ++ (address ∷ [])) ∷ [])
  deploy_factories gas_price deployer safe_signer names (addresses ++ (address ∷ []))

module _ (dirname : String) (modules : Modules) (env : Env) where
  -- `main` of scripts/alpha/0_factories.js. The fee is read from an argument `gasPrice`.
  unfoldable pub factories_main : Option ℕ → Script (Unit {0})
  factories_main gas_price = do
    run_task "compile" []
    s ← signers dirname modules env
    run_task "clean" []
    run_task "compile" []
    deploy_factories gas_price s.0 s.1 factory_names []

  -- The addresses of the Safes that the second script prints.
  unfoldable pub show_safe : Value → String → Script Value
  show_safe registry id = do key ← bytes32 id; invoke registry "getAddress" (key ∷ [])

  -- `main` of scripts/alpha/1_deployment_contract.js
  unfoldable pub deployment_main : Option ℕ → Script (Unit {0})
  deployment_main max_fee_per_gas = do
    run_task "compile" []
    s ← signers dirname modules env
    alpha_deployment_factory ←
        invoke ethers "getContractFactory" (Value.str "AlphaDeployment" ∷ s.0 ∷ [])
    max_fee ← get_max_fee max_fee_per_gas
    content ← invoke fs "readFileSync" (Value.str addresses_filename ∷ [])
    factory_addresses ← as_strings content
    found ← deployed_address dirname modules "AddressRegistryProxy" (to_upper env.network_name)
    registry ←
        invoke ethers "getContractAt" (Value.str "AddressRegistryV2" ∷ or_undefined found ∷ [])
    show_safe registry "lpSafe"
    show_safe registry "adminSafe"
    show_safe registry "emergencySafe"
    compile_one "AlphaDeployment"
    alpha_deployment ←
        invoke_as s.1 alpha_deployment_factory "deploy"
          (map Value.str factory_addresses ++ (Value.num max_fee ∷ priority_fee ∷ []))
    tx ← transaction_of alpha_deployment
    service ← service_of s.1
    receipt ← wait_for_safe_tx_details (Value.transaction tx ∷ service ∷ Value.num 5 ∷ [])
    created ← invoke receipt "contractAddress" []
    address ← as_string created
    update_jsons dirname modules (to_upper env.network_name) (("AlphaDeployment", address) ∷ [])
    when
        (str_eq (to_upper env.network_name) "KOVAN" || str_eq (to_upper env.network_name) "MAINNET")
        (do
          invoke provider "waitForTransaction" (Value.str tx.hash ∷ Value.num 5 ∷ [])
          ignore (verify address (Value.strs factory_addresses ∷ [])))

  -- `main` of scripts/alpha/2_upgrader_contract.js
  unfoldable pub upgrader_main : Script (Unit {0})
  upgrader_main = do
    s ← signers dirname modules env
    upgrader_factory ←
        invoke ethers "getContractFactory" (Value.str "PoolTokenV2Upgrader" ∷ s.0 ∷ [])
    compile_one "PoolTokenV2Upgrader"
    upgrader ←
        invoke_as s.1 upgrader_factory "deploy"
          (Value.str "0xBb460e8269908BfD399141723b67838fE91D9324" ∷ [])
    tx ← transaction_of upgrader
    service ← service_of s.1
    ignore (wait_for_safe_tx_details (Value.transaction tx ∷ service ∷ Value.num 5 ∷ []))
