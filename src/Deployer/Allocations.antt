-- ===== src/Deployer/Allocations.antt =====
-- The allocations, zaps and swaps of scripts/deploy/deployer.js.
use apy_core_public.Base.{ℕ, String, List, [], ◌∷◌, ◌++◌, map}
use apy_core_public.Script.Core.{
  Value, Script, done, step, ◌>>=◌, ◌>>◌, invoke, invoke_as, address_of, as_strings, ignore,
}
use apy_core_public.Script.Interleave.{all}
use apy_core_public.Deployer.Factories.{deploy_named}

abbrev pub regular_contracts : List String
regular_contracts =
    "AaveStableCoinAllocation" ∷ "CurveAaveAllocation" ∷ "CurveCompoundAllocation"
    ∷ "CurveIronbankAllocation" ∷ "CurveSaaveAllocation" ∷ "CurveSusdv2Allocation"
    ∷ "CurveUsdtAllocation" ∷ []

abbrev pub meta_pool_contracts : List String
meta_pool_contracts =
    "CurveAlusdAllocation" ∷ "CurveBusdv2Allocation" ∷ "CurveFraxAllocation" ∷ "CurveLusdAllocation"
    ∷ "CurveMusdAllocation" ∷ "CurveOusdAllocation" ∷ "CurveUsdnAllocation" ∷ "CurveUsdpAllocation"
    ∷ "CurveUstAllocation" ∷ "CurveMimAllocation" ∷ []

abbrev pub zap_contracts : List String
zap_contracts =
    "StakedAaveZap" ∷ "Curve3poolZap" ∷ "CurveAaveZap" ∷ "CurveAlusdZap" ∷ "CurveBusdv2Zap"
    ∷ "CurveCompoundZap" ∷ "CurveFraxZap" ∷ "CurveIronbankZap" ∷ "CurveLusdZap" ∷ "CurveMusdZap"
    ∷ "CurveOusdZap" ∷ "CurveSaaveZap" ∷ "CurveSusdv2Zap" ∷ "CurveUsdnZap" ∷ "CurveUsdpZap"
    ∷ "CurveUsdtZap" ∷ "CurveUstZap" ∷ "CurveMimZap" ∷ []

abbrev pub swap_contracts : List String
swap_contracts =
    "AaveToDaiSwap" ∷ "AaveToUsdcSwap" ∷ "AaveToUsdtSwap" ∷ "CrvToDaiSwap" ∷ "CrvToUsdcSwap"
    ∷ "CrvToUsdtSwap" ∷ []

-- The loop of `forEach` over an asynchronous function: the calls are made in turn, and nothing waits
-- for their answers or sees that one is rejected.
unfoldable pub send_each : Value → Value → List Value → Script (Unit {0})
send_each admin_safe tvl_manager [] = done tt
send_each admin_safe tvl_manager (allocation ∷ allocations) = do
  address ← address_of allocation
  step
      (record {
        target = tvl_manager;
        caller = admin_safe;
        method = "registerAssetAllocation";
        args = Value.str address ∷ [];
      })
      (λ answer. done tt)
  send_each admin_safe tvl_manager allocations

-- How the scripts that run at once take turns, at each place where there are such.
abbrev pub Schedules : Type 0
Schedules = ℕ → List ℕ

-- `deployAllocations`
unfoldable pub deploy_allocations : Schedules → Value → Value → Script (List Value)
deploy_allocations schedules tvl_manager admin_safe = do
  regular ← all (schedules 0) (map (deploy_named []) regular_contracts)
  curve_3pool ← deploy_named [] "Curve3poolAllocation"
  curve_3pool_address ← address_of curve_3pool
  meta_pools ←
      all (schedules 1)
        (map (deploy_named (Value.str curve_3pool_address ∷ [])) meta_pool_contracts)
  let all_allocations = regular ++ (curve_3pool ∷ meta_pools)
  send_each admin_safe tvl_manager all_allocations
  done all_allocations

-- `registerErc20Allocations`
unfoldable pub register_erc20_allocations : List ℕ → Value → Value → List String → Script (Unit {0})
register_erc20_allocations schedule erc20_allocation admin_safe erc20s = ignore (
    all schedule (
      map
        (λ erc20.
          invoke_as admin_safe erc20_allocation "registerErc20Token(address)"
            (Value.str erc20 ∷ []))
        erc20s))

-- The registration of one zap or swap, and of its tokens.
unfoldable pub register_with_tokens :
    String → List ℕ → Value → Value → Value → Value → Script (Unit {0})
register_with_tokens method schedule lp_account erc20_allocation admin_safe created = do
  address ← address_of created
  invoke_as admin_safe lp_account method (Value.str address ∷ [])
  answer ← invoke created "erc20Allocations" []
  erc20s ← as_strings answer
  register_erc20_allocations schedule erc20_allocation admin_safe erc20s

-- `deployZaps`
unfoldable pub deploy_zaps : Schedules → Value → Value → Value → Script (List Value)
deploy_zaps schedules lp_account erc20_allocation admin_safe = do
  zaps ← all (schedules 2) (map (deploy_named []) zap_contracts)
  all (schedules 3) (
      map (register_with_tokens "registerZap" (schedules 4) lp_account erc20_allocation admin_safe)
        zaps)
  done zaps

-- `deploySwaps`
unfoldable pub deploy_swaps : Schedules → Value → Value → Value → Script (List Value)
deploy_swaps schedules lp_account erc20_allocation admin_safe = do
  swaps ← all (schedules 5) (map (deploy_named []) swap_contracts)
  all (schedules 6) (
      map (register_with_tokens "registerSwap" (schedules 7) lp_account erc20_allocation admin_safe)
        swaps)
  done swaps
