-- ===== src/Safe/Signers.antt =====
-- The signers of utils/helpers/safe.js. The library that makes a signer for a Safe is called, and what
-- it answers is not modelled. The key is a secret of the environment.
use apy_core_public.Base.{String, Option, none, some, [], ◌∷◌}
use apy_core_public.Base.Texts.{to_upper}
use apy_core_public.Base.Dict.{Dict, lookup}
use apy_core_public.Address.Constants.{admin_safe, emergency_safe, lp_safe}
use apy_core_public.Script.Core.{
  Value, Script, done, Env, ◌>>=◌, ◌>>◌, invoke, address_of, truthy, required_variable,
}

abbrev pub ethers : Value
ethers = Value.str "ethers"

abbrev pub provider : Value
provider = Value.str "ethers.provider"

-- `SERVICE_URLS`
abbrev pub service_urls : Dict String
service_urls =
    ("MAINNET", "https://safe-transaction.gnosis.io/")
    ∷ ("RINKEBY", "https://safe-transaction.rinkeby.gnosis.io/")
    ∷ []

abbrev pub admin_safes : Dict String
admin_safes =
    ("MAINNET", admin_safe) ∷ ("RINKEBY", "0xacC66a1bD538cfCBB801FC047f41A3FC0AECf87a") ∷ []

abbrev pub emergency_safes : Dict String
emergency_safes = ("MAINNET", emergency_safe) ∷ []

abbrev pub lp_safes : Dict String
lp_safes = ("MAINNET", lp_safe) ∷ []

-- A property of an object, or `undefined`.
abbrev pub or_undefined : Option String → Value
or_undefined none = Value.undefined
or_undefined (some s) = Value.str s

-- `getSafeOwner`: a key that is given comes before the one of the environment.
unfoldable pub get_safe_owner : Env → Option String → Script Value
get_safe_owner env key = do
  owner_key ← elim (truthy key) [
    | none ↦
        required_variable env "SAFE_OWNER_KEY"
          "Must set SAFE_OWNER_KEY env var or pass it in as arg."
    | some k ↦ done k
  ]
  owner ← invoke ethers "Wallet" (Value.str owner_key ∷ provider ∷ [])
  address ← address_of owner
  invoke provider "getBalance" (Value.str address ∷ [])
  done owner

-- The owner, looked up where none is given.
abbrev pub or_owner : Env → Option Value → Script Value
or_owner env none = get_safe_owner env none
or_owner env (some owner) = done owner

-- `getSafeSigner`
unfoldable pub get_safe_signer : Env → String → Value → Option Value → Script Value
get_safe_signer env network_name safe_address owner = do
  invoke (Value.str "axios") "axiosRetry" (Value.num 3 ∷ [])
  owner' ← or_owner env owner
  let url = or_undefined (lookup (to_upper network_name) service_urls)
  service ← invoke (Value.str "SafeService") "new" (url ∷ [])
  invoke (Value.str "SafeEthersSigner") "create" (safe_address ∷ owner' ∷ service ∷ [])

-- `_getSafeSignerForSafeType`
unfoldable pub get_safe_signer_for_safe_type :
    Env → String → Option Value → Dict String → Script Value
get_safe_signer_for_safe_type env network_name owner safes = do
  owner' ← or_owner env owner
  get_safe_signer env network_name (or_undefined (lookup (to_upper network_name) safes))
      (some owner')

unfoldable pub get_admin_safe_signer : Env → String → Option Value → Script Value
get_admin_safe_signer env network_name owner =
    get_safe_signer_for_safe_type env network_name owner admin_safes

unfoldable pub get_emergency_safe_signer : Env → String → Option Value → Script Value
get_emergency_safe_signer env network_name owner =
    get_safe_signer_for_safe_type env network_name owner emergency_safes

unfoldable pub get_lp_safe_signer : Env → String → Option Value → Script Value
get_lp_safe_signer env network_name owner =
    get_safe_signer_for_safe_type env network_name owner lp_safes
