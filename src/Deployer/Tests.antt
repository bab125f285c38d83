-- ===== src/Deployer/Tests.antt =====
-- A whole deployment in a world that answers every call.
use apy_core_public.Base.{Option, none, some, [], ◌∷◌}
use apy_core_public.Base.Dict.{Dict, lookup}
use apy_core_public.Script.Core.{Value, World, run}
use apy_core_public.Script.Monitor.{RunObeys}
use apy_core_public.Script.Sample.{sample_tx}
use apy_core_public.Deployer.Allocations.{Schedules}
use apy_core_public.Deployer.Main.{deploy}
use apy_core_public.Deployer.Places.{in_order, AllDone}
use apy_core_public.Deployer.Order.{deploy-run-in_order}

-- The methods that do not answer with a contract.
abbrev answers : Dict Value
answers =
    ("addressRegistryV2", Value.str "0x1")
    ∷ ("mApt", Value.str "0x2")
    ∷ ("daiPool", Value.str "0x3")
    ∷ ("usdcPool", Value.str "0x4")
    ∷ ("usdtPool", Value.str "0x5")
    ∷ ("tvlManager", Value.str "0x6")
    ∷ ("lpAccount", Value.str "0x7")
    ∷ ("oracleAdapter", Value.str "0x8")
    ∷ ("erc20Allocation", Value.str "0x9")
    ∷ ("underlyer", Value.str "0xa")
    ∷ ("erc20Allocations", Value.strs ("0xb" ∷ "0xc" ∷ []))
    ∷ []

abbrev or_contract : Option Value → Value
or_contract none = Value.deployed "0xca" sample_tx
or_contract (some v) = v

unfoldable world : World
world [] = none
world (c ∷ h) = some (or_contract (lookup c.method answers))

-- Scripts that run at once take turns in different ways.
abbrev turns : Schedules
turns site = 1 ∷ 0 ∷ 2 ∷ site ∷ 1 ∷ []

deploy-run-in_order_example : RunObeys in_order world 0 [] AllDone (run world (deploy turns) [])
deploy-run-in_order_example = deploy-run-in_order world turns
