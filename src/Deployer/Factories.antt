-- ===== src/Deployer/Factories.antt =====
-- scripts/deploy/factories.js. An object goes into a call as the list of its keys and the list of its
-- values. The schedules say how the scripts that run at once take turns.
use apy_core_public.Base.{ℕ, String, List, [], ◌∷◌, map}
use apy_core_public.Base.Dict.{Dict}
use apy_core_public.Script.Core.{Value, Script, done, ◌>>=◌, invoke, address_of}
use apy_core_public.Script.Common.{factory_of}
use apy_core_public.Script.Interleave.{all}

abbrev pub factory_config : Dict String
factory_config =
    ("ProxyAdminFactory", "proxyAdminFactory")
    ∷ ("ProxyFactoryV2", "proxyFactory")
    ∷ ("AddressRegistryV2FactoryV2", "addressRegistryV2Factory")
    ∷ ("MetaPoolTokenFactory", "mAptFactory")
    ∷ ("PoolTokenV1Factory", "poolTokenV1Factory")
    ∷ ("PoolTokenV2Factory", "poolTokenV2Factory")
    ∷ ("TvlManagerFactory", "tvlManagerFactory")
    ∷ ("Erc20AllocationFactory", "erc20AllocationFactory")
    ∷ ("OracleAdapterFactory", "oracleAdapterFactory")
    ∷ ("LpAccountFactory", "lpAccountFactory")
    ∷ []

-- A contract that is deployed from the factory of its name, with its address.
unfoldable pub deploy_named : List Value → String → Script Value
deploy_named args name = do factory ← factory_of name; invoke factory "deploy" args

unfoldable pub deploy_address : String → Script String
deploy_address name = do
  factory ← factory_of name
  contract ← invoke factory "deploy" []
  address_of contract

-- The keys and the values of `factoryStruct`
unfoldable pub deploy_factories : List ℕ → Script (List String × List String)
deploy_factories schedule = do
  factories ← all schedule (map (λ c. deploy_address c.0) factory_config)
  done (map (λ c. c.1) factory_config, factories)
