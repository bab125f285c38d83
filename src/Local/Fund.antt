-- ===== src/Local/Fund.antt =====
-- scripts/frontend/{unlock_pools,fund_link,fund_stablecoins,fund_staking_pool_tokens,deploy_agg}.js.
-- The index of the account is 0 and the amounts are those of the scripts, where no argument is given.
use text.Mathlib.Text.{◌==◌ as str_eq}
use apy_core_public.Base.{ℕ, ◌*◌, ◌^◌, ◌==◌, String, ◌||◌, Option, none, some, List, [], ◌∷◌}
use apy_core_public.Base.Int.{ℤ}
use apy_core_public.Base.Texts.{to_upper}
use apy_core_public.Base.Dict.{Dict, lookup}
use apy_core_public.Base.Exec.{Result, ok, err}
use apy_core_public.Address.Constants.{whale_pools}
use apy_core_public.Address.Registry.{get_stablecoin_address}
use apy_core_public.Script.Core.{
  Value, Script, Env, done, fail, thrown, ◌>>=◌, ◌>>◌, invoke, invoke_as, as_number, address_of,
  require_that, ignore,
}
use apy_core_public.Script.Common.{
  first_signer, factory_of, contract_at, run_task, wait_for, zero_address,
}
use apy_core_public.Safe.Signers.{ethers, provider, or_undefined}
use apy_core_public.TokenUnit.Convert.{Text, Amount, token_amount_to_big_number}
use apy_core_public.Local.Account.{impersonate_account}
use apy_core_public.Local.Token.{acquire_token, forcibly_send_eth, to_big_number}

-- The signer of an index, and its address.
abbrev tester : ℕ → Script Value
tester index = do
  signer' ← invoke ethers "getSigners" (Value.num index ∷ [])
  invoke signer' "getAddress" []

abbrev or_first : Option ℕ → ℕ
or_first none = 0
or_first (some n) = n

abbrev or_amount : Option Text → Text → Amount
or_amount none d = Amount.text d
or_amount (some []) d = Amount.text d
or_amount (some (c ∷ s)) d = Amount.text (c ∷ s)

-- "100000" and "50"
abbrev pub hundred_thousand : Text
hundred_thousand = b'1' ∷ b'0' ∷ b'0' ∷ b'0' ∷ b'0' ∷ b'0' ∷ []

abbrev fifty : Text
fifty = b'5' ∷ b'0' ∷ []

abbrev of_result : {E : Type 0} → Result E String → Script String
of_result (ok a) = done a
of_result (err e) = fail (thrown "getStablecoinAddress")

-- The address of the Aave lending pool, and of LINK.
abbrev pub whale_address : Value
whale_address = Value.str "0x3dfd23A6c5E8BbcFc9581d2E864a68feb6a076d3"

abbrev pub link_address : String
link_address = "0x514910771AF9Ca656af840dff83E8264EcF986CA"

unfoldable pub stablecoins_of : String → List String → Script (Dict Value)
stablecoins_of network [] = done []
stablecoins_of network (symbol ∷ symbols) = do
  address ← of_result (get_stablecoin_address symbol network)
  token ← contract_at "IDetailedERC20" address
  tokens ← stablecoins_of network symbols
  done ((symbol, token) ∷ tokens)

module _ (from : Text → Option ℤ) (to_hex : ℤ → String) where
  -- `main` of scripts/frontend/fund_link.js
  unfoldable pub fund_link_main : Option ℕ → Option Text → Script (Unit {0})
  fund_link_main account_index amount = do
    run_task "compile" []
    token ← contract_at "IDetailedERC20" link_address
    address ← tester (or_first account_index)
    acquire_token from to_hex whale_address address token (or_amount amount hundred_thousand)
        address

  unfoldable pub fund_each : Dict Value → Value → Script (Unit {0})
  fund_each [] address = done tt
  fund_each ((symbol, token) ∷ tokens) address = do
    acquire_token from to_hex (or_undefined (lookup symbol whale_pools)) address token
        (Amount.text hundred_thousand) address
    fund_each tokens address

  -- `main` of scripts/frontend/fund_stablecoins.js
  unfoldable pub fund_stablecoins_main : Env → Option ℕ → Script (Unit {0})
  fund_stablecoins_main env account_index = do
    run_task "compile" []
    tokens ← stablecoins_of env.network_name ("DAI" ∷ "USDC" ∷ "USDT" ∷ [])
    address ← tester (or_first account_index)
    fund_each tokens address

  -- `main` of scripts/frontend/fund_staking_pool_tokens.js
  unfoldable pub fund_staking_main : Option ℕ → Option Text → Script (Unit {0})
  fund_staking_main account_index amount = do
    let sender = Value.str "0xC98A0A4d9D9F789b86f03AbfdcEaEE7e3538e3dF"
    run_task "compile" []
    bpt ← contract_at "IDetailedERC20" "0xbc8b1f78ff5a0baf9945e145832ad79c494d4cf6"
    uni_v2 ← contract_at "IDetailedERC20" "0xf043c39a106db6b58c76995f30ba35fd211c3b76"
    address ← tester (or_first account_index)
    acquire_token from to_hex sender address bpt (or_amount amount fifty) address
    acquire_token from to_hex sender address uni_v2 (or_amount amount fifty) address

  -- `main` of scripts/frontend/unlock_pools.js
  unfoldable pub unlock_pools_main : Script (Unit {0})
  unlock_pools_main = do
    run_task "compile" []
    deployer ← first_signer
    deployer_address ← address_of deployer
    dai ← contract_at "PoolTokenV2" "0x687ef0ce82A681c13807Ae7A7518A70A147C22D8"
    usdc ← contract_at "PoolTokenV2" "0x34A9860a7F80E37105e6cf4D1E1e596Fe6Ff9B70"
    tether ← contract_at "PoolTokenV2" "0x26b8E441d7c0d0cc8b43Ad89e57e37613163e0CE"
    emergency ←
        impersonate_account from to_hex (Value.str "0xEf17933d32e07a5b789405Bd197F02D6BB393147")
          none
    emergency_address ← address_of emergency
    forcibly_send_eth from to_hex (Value.str emergency_address) (1 * 10 ^ 18)
        (Value.str deployer_address)
    invoke_as emergency dai "emergencyUnlockAddLiquidity" []
    invoke_as emergency usdc "emergencyUnlockAddLiquidity" []
    ignore (invoke_as emergency tether "emergencyUnlockAddLiquidity" [])

  -- `main` of scripts/frontend/deploy_agg.js
  unfoldable pub deploy_agg_main : Env → Option Text → Option Text → Script (Unit {0})
  deploy_agg_main env link_amount eth_amount = do
    run_task "compile" []
    let network = to_upper env.network_name
    require_that (str_eq network "LOCALHOST" || str_eq network "TESTNET")
        "This script is for forked mainnet testing only."
    deployer ← first_signer
    deployer_address ← address_of deployer
    count ← invoke provider "getTransactionCount" (Value.str deployer_address ∷ [])
    nonce ← as_number count
    require_that (nonce == 0) "Nonce must be zero as we rely on deterministic contract addresses."
    factory ← factory_of "FluxAggregator"
    aggregator ← invoke factory "deploy" (
        Value.str link_address
        ∷ Value.num (1 * 10 ^ 18)
        ∷ Value.num 100000
        ∷ Value.str zero_address
        ∷ Value.num 0
        ∷ Value.num (1 * 10 ^ 20)
        ∷ Value.num 8
        ∷ Value.str "TVL aggregator"
        ∷ [])
    invoke aggregator "deployed" []
    token ← contract_at "IDetailedERC20" link_address
    aggregator_address ← address_of aggregator
    acquire_token from to_hex whale_address (Value.str aggregator_address) token
        (or_amount link_amount hundred_thousand) (Value.str deployer_address)
    funds ← invoke aggregator "updateAvailableFunds" []
    wait_for funds []
    oracles ← invoke aggregator "changeOracles" (
        Value.strs []
        ∷ Value.strs ("0xAD702b65733aC8BcBA2be6d9Da94d5b7CE25C0bb" ∷ [])
        ∷ Value.strs (deployer_address ∷ [])
        ∷ Value.num 1
        ∷ Value.num 1
        ∷ Value.num 0
        ∷ [])
    wait_for oracles []
    wei ←
        to_big_number from to_hex
          (token_amount_to_big_number from (or_amount eth_amount fifty) none)
    sent ←
        invoke_as deployer deployer "sendTransaction"
          (Value.str "0xAD702b65733aC8BcBA2be6d9Da94d5b7CE25C0bb" ∷ Value.num wei ∷ [])
    ignore (wait_for sent [])
