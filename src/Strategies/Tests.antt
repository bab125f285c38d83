-- ===== src/Strategies/Tests.antt =====
-- Runs of the allocation, and its theorems at concrete balances.
use apy_core_public.Base.{◌≡◌, refl, ◌^◌, ◌*◌, ◌≤◌, sum_by}
use apy_core_public.Base.Int.{pos, ◌+ℤ◌, ◌-ℤ◌, ◌*ℤ◌, ◌/ℤ◌}
use apy_core_public.Strategies.Amounts.{Underlyer, Balances, strategy_amounts, total_check}
use apy_core_public.Strategies.Budget.{spent}
use apy_core_public.Strategies.Totals.{strategy_amounts-affordable}
use apy_core_public.Base.{ℕ}

abbrev holdings : Balances ℕ
holdings = record { dai = 600 * 10 ^ 18; usdc = 500 * 10 ^ 6; usdt = 400 * 10 ^ 6 }

total_check_test : total_check (strategy_amounts holdings) ≡ pos 1391666664000000000000
unfolding total_check strategy_amounts ◌+ℤ◌ ◌-ℤ◌ ◌/ℤ◌ ◌*ℤ◌
total_check_test = refl

strategy_amounts-affordable_example :
    sum_by (λ s. spent Underlyer.usdc s.1) (strategy_amounts holdings) ≤ 500 * 10 ^ 6
strategy_amounts-affordable_example = strategy_amounts-affordable holdings Underlyer.usdc
