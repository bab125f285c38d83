-- ===== src/Local/Utils.antt =====
-- scripts/frontend/utils.js: the Safes of the main network, impersonated on a local node.
use apy_core_public.Base.{String, Option, none, List, [], ◌∷◌}
use apy_core_public.Base.Dict.{Dict, lookup}
use apy_core_public.Base.Exec.{Result, ok, err}
use apy_core_public.Base.Int.{ℤ}
use apy_core_public.Address.Registry.{get_stablecoin_address}
use apy_core_public.Script.Core.{Value, Script, done, fail, thrown, ◌>>=◌, invoke, ignore}
use apy_core_public.Script.Common.{contract_at}
use apy_core_public.Safe.Signers.{ethers, or_undefined}
use apy_core_public.TokenUnit.Convert.{Text, Amount}
use apy_core_public.Local.Account.{impersonate_account}

abbrev emergency_safe : Value
emergency_safe = Value.str "0xEf17933d32e07a5b789405Bd197F02D6BB393147"

abbrev admin_safe : Value
admin_safe = Value.str "0x1f7f8DA3eac80DBc0b4A49BC447A88585D8766C8"

abbrev lp_safe : Value
lp_safe = Value.str "0x5b79121EA6dC2395B8046eCDCE14D66c2bF221B0"

abbrev pub bytes32 : String → Script Value
bytes32 id = invoke ethers "formatBytes32String" (Value.str id ∷ [])

abbrev pub pool_ids : List String → Script (List Value)
pool_ids [] = done []
pool_ids (id ∷ ids) = do v ← bytes32 id; vs ← pool_ids ids; done (v ∷ vs)

-- `getDemoPoolIds` and `getPoolIds`
abbrev pub get_demo_pool_ids : Script (List Value)
get_demo_pool_ids = pool_ids ("daiDemoPool" ∷ "usdcDemoPool" ∷ "usdtDemoPool" ∷ [])

abbrev pub get_pool_ids : Script (List Value)
get_pool_ids = pool_ids ("daiPool" ∷ "usdcPool" ∷ "usdtPool" ∷ [])

abbrev id_to_contract_name : Dict String
id_to_contract_name =
    ("daiDemoPool", "PoolTokenV2")
    ∷ ("usdcDemoPool", "PoolTokenV2")
    ∷ ("usdtDemoPool", "PoolTokenV2")
    ∷ ("lpAccount", "LpAccount")
    ∷ ("mApt", "MetaPoolToken")
    ∷ ("oracleAdapter", "OracleAdapter")
    ∷ ("tvlManager", "TvlManager")
    ∷ []

module _ (from : Text → Option ℤ) (to_hex : ℤ → String) where
  -- `impersonateEmergencySafe`, `impersonateLpSafe` and `impersonateAdminSafe`
  unfoldable pub impersonate_emergency_safe : Option Amount → Script Value
  impersonate_emergency_safe balance = impersonate_account from to_hex emergency_safe balance

  unfoldable pub impersonate_lp_safe : Option Amount → Script Value
  impersonate_lp_safe balance = impersonate_account from to_hex lp_safe balance

  unfoldable pub impersonate_admin_safe : Option Amount → Script Value
  impersonate_admin_safe balance = impersonate_account from to_hex admin_safe balance

  -- `getAddressRegistry`
  unfoldable pub get_address_registry : Script Value
  get_address_registry = do
    safe ← impersonate_account from to_hex emergency_safe none
    invoke ethers "getContractAt" (
        Value.str "AddressRegistryV2"
        ∷ Value.str "0x7EC81B7035e91f8435BdEb2787DCBd51116Ad303"
        ∷ safe
        ∷ [])

  -- `getRegisteredContract`
  unfoldable pub get_registered_contract : String → Value → Script Value
  get_registered_contract id account = do
    registry ← get_address_registry
    key ← bytes32 id
    address ← invoke registry "getAddress" (key ∷ [])
    invoke ethers "getContractAt"
        (or_undefined (lookup id id_to_contract_name) ∷ address ∷ account ∷ [])

  -- `unlockOracleAdapter`
  unfoldable pub unlock_oracle_adapter : Script (Unit {0})
  unlock_oracle_adapter = do
    safe ← impersonate_emergency_safe none
    oracle_adapter ← get_registered_contract "oracleAdapter" safe
    ignore (invoke oracle_adapter "emergencyUnlock" [])

-- `getStablecoin`
abbrev of_result : {E : Type 0} → Result E String → Script String
of_result (ok a) = done a
of_result (err e) = fail (thrown "getStablecoinAddress")

unfoldable pub get_stablecoin : String → Script Value
get_stablecoin symbol = do
  address ← of_result (get_stablecoin_address symbol "MAINNET")
  contract_at "IDetailedERC20" address
