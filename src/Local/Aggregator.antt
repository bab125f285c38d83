-- ===== src/Local/Aggregator.antt =====
-- utils/helpers/aggregator.js: an aggregator of prices that is deployed, funded and given its oracle.
use apy_core_public.Base.{ℕ, String, [], ◌∷◌}
use apy_core_public.Base.Int.{ℤ}
use apy_core_public.Base.{Option}
use apy_core_public.Script.Core.{Value, Script, done, ◌>>=◌, ◌>>◌, invoke, address_of}
use apy_core_public.Script.Common.{factory_of, contract_at, wait_for, zero_address}
use apy_core_public.TokenUnit.Convert.{Text, Amount}
use apy_core_public.Local.Token.{acquire_token}
use apy_core_public.Local.Fund.{link_address, whale_address, hundred_thousand}

-- `aggConfig`
pub record AggConfig : Type 0 where
  pub payment_amount : ℕ
  pub min_submission_value : ℕ
  pub max_submission_value : ℕ
  pub decimals : ℕ
  pub description : String

module _ (from : Text → Option ℤ) (to_hex : ℤ → String) where
  -- `deployAggregator`
  unfoldable pub deploy_aggregator : AggConfig → String → String → Value → Script Value
  deploy_aggregator config oracle oracle_owner eth_funder = do
    factory ← factory_of "FluxAggregator"
    agg ← invoke factory "deploy" (
        Value.str link_address
        ∷ Value.num config.payment_amount
        ∷ Value.num 100000
        ∷ Value.str zero_address
        ∷ Value.num config.min_submission_value
        ∷ Value.num config.max_submission_value
        ∷ Value.num config.decimals
        ∷ Value.str config.description
        ∷ [])
    invoke agg "deployed" []
    link ← contract_at "IDetailedERC20" link_address
    address ← address_of agg
    acquire_token from to_hex whale_address (Value.str address) link (Amount.text hundred_thousand)
        eth_funder
    funds ← invoke agg "updateAvailableFunds" []
    wait_for funds []
    oracles ← invoke agg "changeOracles" (
        Value.strs []
        ∷ Value.strs (oracle ∷ [])
        ∷ Value.strs (oracle_owner ∷ [])
        ∷ Value.num 1
        ∷ Value.num 1
        ∷ Value.num 0
        ∷ [])
    wait_for oracles []
    done agg
