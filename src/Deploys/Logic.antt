-- ===== src/Deploys/Logic.antt =====
-- scripts/mainnet/{pool,mapt,lpaccount}_logic_deploy.js and {mainnet,kovan}/apy_upgrade.js: logic
-- contracts that a key of the environment deploys and initialises.
use apy_core_public.Base.{ℕ, ◌*◌, ◌^◌, String, Bool, Option, List, [], ◌∷◌, ◌++◌}
use apy_core_public.Script.Core.{
  Value, Script, Env, ◌>>=◌, ◌>>◌, invoke_as, address_of, required_variable, when, ignore,
}
use apy_core_public.Script.Common.{
  wallet, mnemonic_wallet, show_balance, factory_of, contract_at, compile_one, verify, wait_for,
  get_max_fee, get_max_priority_fee,
}

-- The arguments of the command line.
pub record Arguments : Type 0 where
  pub compile : Bool
  pub max_fee_per_gas : Option ℕ
  pub max_priority_fee_per_gas : Option ℕ

-- The body that the three scripts of scripts/mainnet share.
unfoldable pub logic_main : Env → Arguments → String → List Value → Script (Unit {0})
logic_main env argv contract_name args = do
  key ← required_variable env "SAFE_OWNER_KEY" "Must set SAFE_OWNER_KEY env var."
  owner ← wallet (Value.str key)
  show_balance owner
  when argv.compile (ignore (compile_one contract_name))
  max_fee ← get_max_fee argv.max_fee_per_gas
  max_priority_fee ← get_max_priority_fee argv.max_priority_fee_per_gas
  factory ← factory_of contract_name
  logic ← invoke_as owner factory "deploy" (Value.fees max_fee max_priority_fee ∷ [])
  wait_for logic (Value.num 5 ∷ [])
  invoke_as owner logic "initialize" (args ++ Value.fees max_fee max_priority_fee ∷ [])
  address ← address_of logic
  ignore (verify address [])

-- `main` of scripts/mainnet/pool_logic_deploy.js
unfoldable pub pool_logic_main : Env → Arguments → Script (Unit {0})
pool_logic_main env argv = logic_main env argv "PoolTokenV3" (
    Value.str "0x7965283631253DfCb71Db63a60C656DEDF76234f"
    ∷ Value.str "0x6B175474E89094C44Da98b954EedeAC495271d0F"
    ∷ Value.str "0xCAfEcAfeCAfECaFeCaFecaFecaFECafECafeCaFe"
    ∷ [])

-- `main` of scripts/mainnet/mapt_logic_deploy.js
unfoldable pub mapt_logic_main : Env → Arguments → Script (Unit {0})
mapt_logic_main env argv =
    logic_main env argv "MetaPoolTokenV2"
      (Value.str "0x7ec81b7035e91f8435bdeb2787dcbd51116ad303" ∷ [])

-- `main` of scripts/mainnet/lpaccount_logic_deploy.js
unfoldable pub lp_account_logic_main : Env → Arguments → Script (Unit {0})
lp_account_logic_main env argv =
    logic_main env argv "LpAccountV2" (Value.str "0x7ec81b7035e91f8435bdeb2787dcbd51116ad303" ∷ [])

-- The body of `main` of scripts/mainnet/apy_upgrade.js and scripts/kovan/apy_upgrade.js.
unfoldable pub upgrade_main : Env → Bool → String → String → String → Script (Unit {0})
upgrade_main env compile variable gov_token_address proxy_admin_address = do
  mnemonic ← required_variable env variable "Must set TOKEN_MNEMONIC env var."
  token_deployer ← mnemonic_wallet (Value.str mnemonic)
  show_balance token_deployer
  when compile (ignore (compile_one "GovernanceTokenV2"))
  factory ← factory_of "GovernanceTokenV2"
  logic ← invoke_as token_deployer factory "deploy" []
  wait_for logic (Value.num 5 ∷ [])
  address ← address_of logic
  verify address []
  initialized ←
      invoke_as token_deployer logic "initialize"
        (Value.str proxy_admin_address ∷ Value.num (100000000 * 10 ^ 18) ∷ [])
  wait_for initialized (Value.num 2 ∷ [])
  proxy_admin ← contract_at "ProxyAdmin" proxy_admin_address
  upgraded ←
      invoke_as token_deployer proxy_admin "upgrade"
        (Value.str gov_token_address ∷ Value.str address ∷ [])
  ignore (wait_for upgraded [])

unfoldable pub mainnet_upgrade_main : Env → Bool → Script (Unit {0})
mainnet_upgrade_main env compile =
    upgrade_main env compile "TOKEN_MNEMONIC" "0x95a4492F028aa1fd432Ea71146b433E7B4446611"
      "0x3DEA1f053ab24b0c5B0C663B1c07B6b702e973D9"

unfoldable pub kovan_upgrade_main : Env → Bool → Script (Unit {0})
kovan_upgrade_main env compile =
    upgrade_main env compile "KOVAN_TOKEN_MNEMONIC" "0x63FD300bDF6EB55ee7Bf7e38F54Df8Adf16Dc8f5"
      "0x42e945b72679569e7d825ed1a0dd3ae9e48ca561"
