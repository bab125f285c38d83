-- ===== src/Address/Registry.antt =====
-- The functions of utils/helpers/address.js. `require` keeps the object that it read from a file, and
-- gives the same object to later calls; `updateDeployJsons` changes that object.
use text.Mathlib.Text.{◌==◌ as str_eq}
use apy_core_public.Base.{String, ◌<>◌, Bool, Option, none, some, List, [], ◌∷◌, if◌then◌else◌}
use apy_core_public.Base.Texts.{to_upper}
use apy_core_public.Base.Dict.{Dict, lookup, insert, includes}
use apy_core_public.Base.Exec.{Result, ok, err, Exec, pure, lift, guard, ◌>>=◌, ◌>>◌}
use apy_core_public.Address.Constants.{contract_names, chain_ids, agg_map, token_agg_map, AggItem}

-- What the functions throw, and the errors of the language for a missing file and for a read from
-- `undefined`.
pub data Error : Type 0 where
  unrecognized_network unrecognized_contract no_address : String → Error
  cannot_find_module type_error : Error

-- The content of an address file: addresses by chain id.
abbrev pub Json : Type 0
Json = Dict String

-- The files by their paths, and the objects that `require` has kept.
pub record Modules : Type 0 where
  pub files : Dict Json
  pub cache : Dict Json

abbrev pub Action : Type 0 → Type 0
Action = Exec Modules Error

-- `getChainId`
unfoldable pub get_chain_id : String → Result Error String
get_chain_id network = elim (lookup (to_upper network) chain_ids) [
  | none ↦ err (unrecognized_network (to_upper network))
  | some id ↦ ok id
]

-- `isApyContractName`
unfoldable pub is_apy_contract_name : String → Bool
is_apy_contract_name name = includes name contract_names

-- `require(filepath)` of a JSON file.
unfoldable pub require : String → Action Json
require path m = elim (lookup path m.cache) [
  | some json ↦ (ok json, m)
  | none ↦ elim (lookup path m.files) [
    | none ↦ (err cannot_find_module, m)
    | some json ↦ (ok json, record m { cache = insert path json m.cache })
  ]
]

-- `fs.existsSync(filepath) ? require(filepath) : {}`
unfoldable pub require_or_empty : String → Action Json
unfolding require
require_or_empty path m = elim (lookup path m.files) [
  | none ↦ (ok [], m)
  | some json ↦ require path m
]

-- `addressJson[chainId] = …` and `fs.writeFileSync`. The object is the one that `require` keeps if the
-- file was there; otherwise it is new, and nothing else holds it.
unfoldable pub save : String → Json → Action (Unit {0})
save path json m = elim (lookup path m.files) [
  | none ↦ (ok tt, record m { files = insert path json m.files })
  | some old ↦
      (ok tt, record { files = insert path json m.files; cache = insert path json m.cache })
]

-- The directory of utils/constants.js.
module _ (dirname : String) where
  -- `DEPLOYS_JSON[contractName]`
  unfoldable pub deploys_json : String → String
  deploys_json name = dirname <> ("/../deployed_addresses/" <> (name <> ".json"))

  -- The body of the loop of `updateDeployJsons`.
  unfoldable pub update_one : String → String → String → Action (Unit {0})
  unfolding require_or_empty save
  update_one network name address = do
    guard (is_apy_contract_name name) (unrecognized_contract name)
    json ← require_or_empty (deploys_json name)
    id ← lift (get_chain_id network)
    save (deploys_json name) (insert id address json)

  -- `updateDeployJsons`
  unfoldable pub update_deploy_jsons : String → Dict String → Action (Unit {0})
  update_deploy_jsons network [] = pure tt
  update_deploy_jsons network ((name, address) ∷ rest) =
      update_one network name address >> update_deploy_jsons network rest

  -- `getDeployedAddress`
  unfoldable pub get_deployed_address : String → String → Action (Option String)
  unfolding require
  get_deployed_address name network = do
    guard (is_apy_contract_name name) (unrecognized_contract name)
    json ← require (deploys_json name)
    id ← lift (get_chain_id network)
    pure (lookup id json)

-- The loop of `getStablecoinAddress`.
unfoldable pub find_token : String → List AggItem → Result Error String
find_token symbol [] = err (no_address symbol)
find_token symbol (item ∷ rest) =
    let more = find_token symbol rest in
    if str_eq (to_upper symbol) item.symbol then ok item.token else more

-- `getStablecoinAddress`; a loop over `undefined` is a type error.
unfoldable pub get_stablecoin_address : String → String → Result Error String
unfolding find_token
get_stablecoin_address symbol network = elim (lookup (to_upper network) token_agg_map) [
  | none ↦ err type_error
  | some items ↦ find_token symbol items
]

-- `getAggregatorAddress`
unfoldable pub get_aggregator_address : String → String → Result Error (Option String)
get_aggregator_address name network = elim (lookup (to_upper network) agg_map) [
  | none ↦ err type_error
  | some aggs ↦ ok (lookup (to_upper name) aggs)
]
