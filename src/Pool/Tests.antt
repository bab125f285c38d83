-- ===== src/Pool/Tests.antt =====
-- Pools at concrete amounts: prices have 8 decimals, and the underlyer has 6.
use apy_core_public.Base.{ℕ, ◌≡◌, refl, List, [], ◌∷◌, arith}
use apy_core_public.Base.Exec.{ok}
use apy_core_public.Base.Int.{ℤ, pos, negsuc, ◌+ℤ◌, ◌-ℤ◌, ◌/ℤ◌}
use apy_core_public.Contract.Math.{safe_math, check}
use apy_core_public.Contract.Signed.{signed_math, check_int, div_int}
use apy_core_public.Pool.Amounts.{
  Reading, value_from_underlyer_amount, pool_underlyer_value, pool_total_value, mint_amount,
  calculate_mint_amount, underlyer_amount, Fees, is_early_redeem, with_fee,
  underlyer_amount_with_fee, deployed_value, delta, fund_amounts, withdraw_amounts,
}
use apy_core_public.Pool.TopUp.{
  reserve_top_up_value, IsRebalanced, reserve_top_up_value-IsRebalanced,
}
use apy_core_public.Pool.Rounding.{deposited}
use apy_core_public.Pool.Moves.{IsSplit, withdraw_amounts-IsSplit, deployed_values}

-- A token costs 1.00000003 dollars, the pool has 1000 of them and has 500 dollars deployed.
abbrev pool : Reading
pool = record {
  price = ok 100000003;
  decimals = 6;
  balance = 1000000000;
  deployed = ok 50000000000;
  supply = 700000007;
}

abbrev fees : Fees
fees = record {
  withdraw_fee = 1000;
  arbitrage_fee = 5;
  arbitrage_fee_period = 86400;
  timestamp = 100000;
  last_deposit_time = 99999;
}

minted : calculate_mint_amount safe_math pool 12345678 ≡ ok 5761316
unfolding calculate_mint_amount value_from_underlyer_amount pool_total_value pool_underlyer_value
    mint_amount safe_math check
minted = refl

-- Without the fees 12345676 of the 12345678 bits come back.
redeemed_without_fee :
    underlyer_amount safe_math (deposited pool 12345678 5761316) 5761316 ≡ ok 12345676
unfolding underlyer_amount value_from_underlyer_amount pool_total_value pool_underlyer_value
    safe_math check
redeemed_without_fee = refl

redeemed :
    underlyer_amount_with_fee safe_math (deposited pool 12345678 5761316) fees 5761316 ≡ ok 11716048
unfolding underlyer_amount_with_fee underlyer_amount value_from_underlyer_amount pool_total_value
    pool_underlyer_value with_fee is_early_redeem safe_math check
redeemed = refl

underlyer_value : pool_underlyer_value safe_math pool ≡ ok 100000003000
unfolding pool_underlyer_value value_from_underlyer_amount safe_math check
underlyer_value = refl

-- A reserve of 5 percent of what is deployed: the pool has an excess.
top_up : reserve_top_up_value safe_math signed_math pool 5 ≡ ok (negsuc 92857145713)
unfolding reserve_top_up_value pool_underlyer_value value_from_underlyer_amount safe_math
    signed_math check check_int div_int ◌+ℤ◌ ◌-ℤ◌ ◌/ℤ◌
top_up = refl

reserve_top_up_value-IsRebalanced_example :
    (t : ℤ) × (reserve_top_up_value safe_math signed_math pool 5 ≡ ok t)
    × IsRebalanced 5 50000000000 100000003000 t
reserve_top_up_value-IsRebalanced_example =
    reserve_top_up_value-IsRebalanced safe_math signed_math pool 5 50000000000 100000003000 refl
      underlyer_value (omega arith) (omega arith) (omega arith)

withdraw_amounts-IsSplit_example :
    (ws : List ℕ) × (withdraw_amounts (pos 9 ∷ negsuc 4 ∷ []) (7 ∷ 8 ∷ []) ≡ ok ws)
    × IsSplit (pos 9 ∷ negsuc 4 ∷ []) (7 ∷ 8 ∷ []) ws (fund_amounts (pos 9 ∷ negsuc 4 ∷ []))
withdraw_amounts-IsSplit_example =
    withdraw_amounts-IsSplit (pos 9 ∷ negsuc 4 ∷ []) (7 ∷ 8 ∷ []) (omega arith)

values : deployed_values safe_math (ok 1000) 7 (3 ∷ 4 ∷ []) ≡ ok (428 ∷ 571 ∷ [])
unfolding deployed_values deployed_value safe_math check
values = refl

share : delta safe_math (ok 1000) 7 3000000 200 6 ≡ ok 4
unfolding delta safe_math check
share = refl

share_value : deployed_value safe_math (ok 1600) 4 11 ≡ ok 581
unfolding deployed_value safe_math check
share_value = refl
