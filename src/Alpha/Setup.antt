-- ===== src/Alpha/Setup.antt =====
-- What the scripts 0_factories.js, 1_deployment_contract.js and 2_upgrader_contract.js of scripts/alpha
-- begin with, and the name that they take from utils/helpers/index.js, which has no such name.
use apy_core_public.Base.{String, Option, some, List}
use apy_core_public.Base.Texts.{to_upper}
use apy_core_public.Base.Dict.{Dict}
use apy_core_public.Base.Exec.{Result, ok, err}
use apy_core_public.Address.Registry.{
  Error, unrecognized_network, unrecognized_contract, no_address, cannot_find_module, Modules,
  get_deployed_address, update_deploy_jsons,
}
use apy_core_public.Script.Core.{
  Value, Script, Env, Failure, thrown, type_error, done, fail, ◌>>=◌, ◌>>◌, address_of, required,
  required_variable,
}
use apy_core_public.Script.Common.{first_signer, wallet}
use apy_core_public.Safe.Signers.{get_safe_signer}

abbrev pub failure_of : Error → Failure
failure_of (unrecognized_network name) = thrown name
failure_of (unrecognized_contract name) = thrown name
failure_of (no_address name) = thrown name
failure_of cannot_find_module = thrown "MODULE_NOT_FOUND"
failure_of Error.type_error = type_error

-- A result of the functions on the address files, in a script.
unfoldable pub from_result : {A : Type 0} → Result Error A → Script A
from_result (ok a) = done a
from_result (err e) = fail (failure_of e)

-- The name is not exported, so what is called is `undefined`, after its arguments are evaluated.
abbrev pub wait_for_safe_tx_details : List Value → Script Value
wait_for_safe_tx_details args = fail type_error

-- The address files of the repository, and the directory of utils/constants.js.
module _ (dirname : String) (modules : Modules) where
  unfoldable pub deployed_address : String → String → Script (Option String)
  deployed_address name network = from_result (get_deployed_address dirname name network modules).0

  unfoldable pub update_jsons : String → Dict String → Script (Unit {0})
  update_jsons network entries = from_result (update_deploy_jsons dirname network entries modules).0

  -- The first steps: the deployer, and a signer for the admin Safe. The three arguments of
  -- `getSafeSigner` are passed as address, owner and network name, and it takes them as network name,
  -- address and owner.
  unfoldable pub signers : Env → Script (Value × Value)
  signers env = do
    deployer ← first_signer
    address_of deployer
    key ← required_variable env "SAFE_OWNER_KEY" "Must set SAFE_OWNER_KEY env var."
    owner ← wallet (Value.str key)
    address_of owner
    found ← deployed_address "AdminSafe" (to_upper env.network_name)
    admin_safe_address ← required found type_error
    safe_signer ←
        get_safe_signer env admin_safe_address owner (some (Value.str (to_upper env.network_name)))
    done (deployer, safe_signer)
