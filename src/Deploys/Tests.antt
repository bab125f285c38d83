-- ===== src/Deploys/Tests.antt =====
-- The theorems at concrete data.
use apy_core_public.Base.{true, false, none, some, []}
use apy_core_public.Script.Core.{run}
use apy_core_public.Script.Monitor.{RunObeys}
use apy_core_public.Script.Sample.{sample_world, sample_env}
use apy_core_public.Deploys.Owner.{escrow_main}
use apy_core_public.Deploys.Handover.{Handover, handover, IsSettled, escrow_run-IsSettled}
use apy_core_public.Deploys.Logic.{Arguments, upgrade_main}
use apy_core_public.Deploys.Order.{Stage, AtStage, deploy_order}
use apy_core_public.Deploys.Runs.{upgrade_run-ordered}

abbrev no_fees : Arguments
no_fees = record { compile = true; max_fee_per_gas = none; max_priority_fee_per_gas = some 2 }

upgrade_run-ordered_example :
    RunObeys deploy_order sample_world Stage.idle []
      (AtStage Stage.live)
      (run sample_world (upgrade_main sample_env false "TOKEN_MNEMONIC" "0x9" "0x3") [])
upgrade_run-ordered_example =
    upgrade_run-ordered sample_env false "TOKEN_MNEMONIC" "0x9" "0x3" sample_world

escrow_run-IsSettled_example :
    RunObeys
      (handover "0xef")
      sample_world
      Handover.idle
      []
      (IsSettled "0xef")
      (run sample_world (escrow_main sample_env "0x95" "0xef") [])
escrow_run-IsSettled_example = escrow_run-IsSettled "0xef" sample_env "0x95" sample_world
