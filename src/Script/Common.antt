-- ===== src/Script/Common.antt =====
-- What the scripts share: the signers, utils/helpers/registry.js and the fees of utils/helpers/gas.js.
-- A property that is read of an object of a library is a call without arguments.
use apy_core_public.Base.{ℕ, ◌*◌, zero, suc, String, ◌<>◌, Option, none, some, List, [], ◌∷◌, map}
use apy_core_public.Base.Texts.{to_upper, split, join, first_char, drop_chars}
use apy_core_public.Base.Dict.{Dict, lookup}
use apy_core_public.Address.Constants.{address_registry}
use apy_core_public.Script.Core.{
  Value, Receipt, Script, done, fail, thrown, type_error, ◌>>=◌, ◌>>◌, invoke, address_of,
  transaction_of, truthy, required,
}
use apy_core_public.Safe.Signers.{ethers, provider, or_undefined}

abbrev pub hre : Value
hre = Value.str "hre"

-- `ethers.constants.AddressZero`
abbrev pub zero_address : String
zero_address = "0x0000000000000000000000000000000000000000"

-- `[deployer] = await ethers.getSigners()`: the answer is the first signer.
abbrev pub first_signer : Script Value
first_signer = invoke ethers "getSigners" []

-- `new ethers.Wallet(key, ethers.provider)`
abbrev pub wallet : Value → Script Value
wallet key = invoke ethers "Wallet" (key ∷ provider ∷ [])

-- `ethers.Wallet.fromMnemonic(mnemonic).connect(ethers.provider)`
unfoldable pub mnemonic_wallet : Value → Script Value
mnemonic_wallet mnemonic = do
  w ← invoke (Value.str "ethers.Wallet") "fromMnemonic" (mnemonic ∷ [])
  invoke w "connect" (provider ∷ [])

-- The balance that a script prints.
unfoldable pub show_balance : Value → Script Value
show_balance account = do a ← address_of account; invoke provider "getBalance" (Value.str a ∷ [])

abbrev pub factory_of : String → Script Value
factory_of name = invoke ethers "getContractFactory" (Value.str name ∷ [])

abbrev pub contract_at : String → String → Script Value
contract_at name address = invoke ethers "getContractAt" (Value.str name ∷ Value.str address ∷ [])

abbrev pub run_task : String → List Value → Script Value
run_task task args = invoke hre "run" (Value.str task ∷ args)

-- A contract is verified by its address and the arguments of its constructor.
abbrev pub verify : String → List Value → Script Value
verify address args = run_task "verify:verify" (Value.str address ∷ args)

-- `clean`, `compile` and `compile:one`
unfoldable pub compile_one : String → Script Value
compile_one name = do
  run_task "clean" []
  run_task "compile" []
  run_task "compile:one" (Value.str name ∷ [])

-- `contract.deployTransaction.wait(n)` and `tx.wait(n)`
unfoldable pub wait_for : Value → List Value → Script Value
wait_for v confirmations = do
  t ← transaction_of v
  invoke (Value.transaction t) "wait" confirmations

-- `safeSigner.service`
abbrev pub service_of : Value → Script Value
service_of safe_signer = invoke safe_signer "service" []

-- `receipt.contractAddress`, where an answer that declines leaves `undefined` in place of a receipt,
-- and an address that is missing or empty is an error.
abbrev created : Receipt → Option String
created r = truthy r.contract_address

unfoldable pub created_address : Option Receipt → String → Script String
created_address r message = do
  receipt ← required r type_error
  required (created receipt) (thrown message)

-- The contract of a name in kebab case: each word with its first letter in upper case, then a suffix.
abbrev pub capitalise : String → String
capitalise word = to_upper (first_char word) <> drop_chars 1 word

unfoldable pub contract_name : String → String → String
contract_name name suffix = join (map capitalise (split b'-' name)) <> suffix

abbrev pub id_to_contract_name : Dict String
id_to_contract_name =
    ("daiDemoPool", "PoolTokenV2")
    ∷ ("usdcDemoPool", "PoolTokenV2")
    ∷ ("usdtDemoPool", "PoolTokenV2")
    ∷ ("daiPool", "PoolTokenV2")
    ∷ ("usdcPool", "PoolTokenV2")
    ∷ ("usdtPool", "PoolTokenV2")
    ∷ ("lpAccount", "LpAccount")
    ∷ ("mApt", "MetaPoolToken")
    ∷ ("oracleAdapter", "OracleAdapter")
    ∷ ("tvlManager", "TvlManager")
    ∷ []

-- `getAddressRegistry`
abbrev pub get_address_registry : Script Value
get_address_registry = contract_at "AddressRegistryV2" address_registry

abbrev pub bytes32 : String → Script Value
bytes32 id = invoke ethers "formatBytes32String" (Value.str id ∷ [])

-- `getRegisteredContract`
unfoldable pub get_registered_contract : String → Value → Script Value
get_registered_contract id account = do
  registry ← get_address_registry
  key ← bytes32 id
  address ← invoke registry "getAddress" (key ∷ [])
  invoke ethers "getContractAt"
      (or_undefined (lookup id id_to_contract_name) ∷ address ∷ account ∷ [])

-- `getMaxFee` and `getMaxPriorityFee`: fees that are given are in gwei, 10 ^ 9 wei.
unfoldable pub max_fee_of : Value → Script ℕ
max_fee_of (Value.fees max_fee max_priority_fee) = done max_fee
max_fee_of _ = fail type_error

unfoldable pub max_priority_fee_of : Value → Script ℕ
max_priority_fee_of (Value.fees max_fee max_priority_fee) = done max_priority_fee
max_priority_fee_of _ = fail type_error

abbrev fee_data : Script Value
fee_data = invoke provider "getFeeData" []

unfoldable pub get_max_fee : Option ℕ → Script ℕ
get_max_fee none = fee_data >>= max_fee_of
get_max_fee (some zero) = fee_data >>= max_fee_of
get_max_fee (some (suc n)) = done (suc n * 1000000000)

unfoldable pub get_max_priority_fee : Option ℕ → Script ℕ
get_max_priority_fee none = fee_data >>= max_priority_fee_of
get_max_priority_fee (some zero) = fee_data >>= max_priority_fee_of
get_max_priority_fee (some (suc n)) = done (suc n * 1000000000)
