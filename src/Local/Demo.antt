-- ===== src/Local/Demo.antt =====
-- scripts/demo: deposits that are deployed to the strategies, time that passes, and rewards.
use apy_core_public.Base.{
  ℕ, zero, suc, ◌+◌, ◌*◌, ◌/◌, ◌-◌, ◌^◌, ◌≤◌, ◌<◌, String, Bool, true, false, Option, none, some,
  List, [], ◌∷◌, arith, sum_by,
}
use apy_core_public.Base.Int.{ℤ}
use apy_core_public.Script.Core.{
  Value, Script, done, fail, rejected, ◌>>=◌, ◌>>◌, invoke, attempt, as_flag, as_number, address_of,
  when,
}
use apy_core_public.TokenUnit.Convert.{Text}
use apy_core_public.Local.Account.{network_provider}
use apy_core_public.Local.Utils.{
  impersonate_lp_safe, impersonate_admin_safe, get_registered_contract, unlock_oracle_adapter,
  get_demo_pool_ids, get_pool_ids, get_stablecoin,
}

-- `strategyNames`
abbrev pub strategy_names : List String
strategy_names =
    "curve-aave" ∷ "curve-saave" ∷ "curve-susdv2" ∷ "curve-usdt" ∷ "curve-compound" ∷ "curve-frax"
    ∷ []

-- `strategyAmounts`, whatever the three amounts and 0 are.
unfoldable pub strategy_amounts : {A : Type 0} → A → A → A → A → List (List A)
strategy_amounts dai usdc usdt nothing =
    (dai ∷ usdc ∷ usdt ∷ [])
    ∷ (dai ∷ nothing ∷ [])
    ∷ (dai ∷ usdc ∷ usdt ∷ nothing ∷ [])
    ∷ (dai ∷ usdc ∷ usdt ∷ [])
    ∷ (dai ∷ usdc ∷ [])
    ∷ (nothing ∷ dai ∷ usdc ∷ usdt ∷ [])
    ∷ []

-- The share of a balance that a strategy receives.
abbrev pub dai_amount : ℕ → ℕ
dai_amount balance = balance / 6

abbrev pub usdc_amount : ℕ → ℕ
usdc_amount balance = balance / (6 - 1)

abbrev pub usdt_amount : ℕ → ℕ
usdt_amount balance = balance / (6 - 2)

-- `_.zip`
abbrev pub zip : List String → List (List ℕ) → List (String × List ℕ)
zip (n ∷ ns) (a ∷ rest) = (n, a) ∷ zip ns rest
zip _ _ = []

-- One call after the other has been answered.
unfoldable pub deploy_in_turn : Value → List (String × List ℕ) → Script (Unit {0})
deploy_in_turn lp_account [] = done tt
deploy_in_turn lp_account ((name, amounts) ∷ strategies) = do
  invoke lp_account "deployStrategy" (Value.str name ∷ Value.nums amounts ∷ [])
  deploy_in_turn lp_account strategies

abbrev both : Option Value → Bool → Bool
both none ok = false
both (some v) ok = ok

-- `Promise.all`: each call is made, and the script is rejected where one of them is.
abbrev settle : Bool → Script (Unit {0})
settle true = done tt
settle false = fail rejected

unfoldable pub all_calls : Value → String → List (List Value) → Bool → Script (Unit {0})
all_calls target method [] ok = settle ok
all_calls target method (args ∷ calls) ok = do
  answer ← attempt target method args
  all_calls target method calls (both answer ok)

abbrev strategy_calls : List (String × List ℕ) → List (List Value)
strategy_calls [] = []
strategy_calls ((name, amounts) ∷ strategies) =
    (Value.str name ∷ Value.nums amounts ∷ []) ∷ strategy_calls strategies

abbrev claim_calls : List String → List (List Value)
claim_calls [] = []
claim_calls (name ∷ names) = (Value.str name ∷ []) ∷ claim_calls names

unfoldable pub deploy_all : Bool → Value → List (String × List ℕ) → Script (Unit {0})
deploy_all true lp_account strategies = deploy_in_turn lp_account strategies
deploy_all false lp_account strategies =
    all_calls lp_account "deployStrategy" (strategy_calls strategies) true

unfoldable pub pool_ids_for : Bool → Script (List Value)
pool_ids_for true = get_pool_ids
pool_ids_for false = get_demo_pool_ids

unfoldable pub balance_of : String → String → Script ℕ
balance_of symbol holder = do
  token ← get_stablecoin symbol
  balance ← invoke token "balanceOf" (Value.str holder ∷ [])
  as_number balance

module _ (from : Text → Option ℤ) (to_hex : ℤ → String) where
  -- `main` of scripts/demo/deploy-deposits.js
  unfoldable pub deposits_main : Bool → Script (Unit {0})
  deposits_main production = do
    oracle_adapter ← get_registered_contract from to_hex "oracleAdapter" Value.undefined
    locked ← invoke oracle_adapter "isLocked" []
    is_locked ← as_flag locked
    when is_locked (unlock_oracle_adapter from to_hex)
    safe ← impersonate_lp_safe from to_hex none
    m_apt ← get_registered_contract from to_hex "mApt" safe
    ids ← pool_ids_for production
    invoke m_apt "fundLpAccount" ids
    unlock_oracle_adapter from to_hex
    lp_account ← get_registered_contract from to_hex "lpAccount" safe
    holder ← address_of lp_account
    dai ← balance_of "DAI" holder
    usdc ← balance_of "USDC" holder
    usdt ← balance_of "USDT" holder
    deploy_all production lp_account (
        zip strategy_names
          (strategy_amounts (dai_amount dai) (usdc_amount usdc) (usdt_amount usdt) 0))
    unlock_oracle_adapter from to_hex

  -- `main` of scripts/demo/harvest-strategies.js
  unfoldable pub harvest_main : Script (Unit {0})
  harvest_main = do
    admin ← impersonate_admin_safe from to_hex none
    oracle_adapter ← get_registered_contract from to_hex "oracleAdapter" admin
    locked ← invoke oracle_adapter "isLocked" []
    is_locked ← as_flag locked
    when is_locked (unlock_oracle_adapter from to_hex)
    invoke oracle_adapter "setChainlinkStalePeriod" (Value.num (2 ^ 256 - 1) ∷ [])
    safe ← impersonate_lp_safe from to_hex none
    lp_account ← get_registered_contract from to_hex "lpAccount" safe
    all_calls lp_account "claim" (claim_calls strategy_names) true
    unlock_oracle_adapter from to_hex

-- `main` of scripts/demo/farm-strategies.js
abbrev mine_calls : ℕ → List (List Value)
mine_calls zero = []
mine_calls (suc n) = [] ∷ mine_calls n

unfoldable pub farm_main : ℕ → Script (Unit {0})
farm_main months = do
  invoke network_provider "evm_increaseTime" (Value.num (60 * 60 * 24 * 30 * months) ∷ [])
  all_calls network_provider "evm_mine" (mine_calls 10) true

abbrev pub deployed : List (List ℕ) → ℕ
deployed amounts = sum_by (sum_by (λ x. x)) amounts

-- Of each coin, what all strategies receive together is at most the balance, and leaves less than one
-- unit for each strategy that takes the coin: six take DAI, five USDC and four USDT.
pub demo_amounts-affordable :
    (b : ℕ)
    → (deployed (strategy_amounts (dai_amount b) 0 0 0) ≤ b)
      × (b < deployed (strategy_amounts (dai_amount b) 0 0 0) + 6)
      × (deployed (strategy_amounts 0 (usdc_amount b) 0 0) ≤ b)
      × (b < deployed (strategy_amounts 0 (usdc_amount b) 0 0) + 5)
      × (deployed (strategy_amounts 0 0 (usdt_amount b) 0) ≤ b)
      × (b < deployed (strategy_amounts 0 0 (usdt_amount b) 0) + 4)
unfolding strategy_amounts
demo_amounts-affordable b = omega arith
