-- ===== src/Pool/Amounts.antt =====
-- The amounts that PoolTokenV3 and MetaPoolTokenV2 compute.
use apy_core_public.Base.{ℕ, suc, ◌%◌, ◌^◌, ◌==◌, Bool, ◌||◌, ltb, List, [], ◌∷◌, if◌then◌else◌}
use apy_core_public.Base.Exec.{ok, err}
use apy_core_public.Base.Int.{ℤ, pos, negsuc}
use apy_core_public.Contract.Call.{View, ◌>>=◌, ◌>>◌, require}
use apy_core_public.Contract.Math.{SafeMath, word_mod}

-- What the functions of a pool read of other contracts, and of its own supply of APT: the price of
-- the underlyer, its decimals, the pool's balance of it, the value deployed and the supply.
pub record Reading : Type 0 where
  pub price : View ℕ
  pub decimals : ℕ
  pub balance : ℕ
  pub deployed : View ℕ
  pub supply : ℕ

-- `10**decimals`, which wraps.
abbrev pub ten_to : ℕ → ℕ
ten_to decimals = 10 ^ decimals % word_mod

module _ (math : SafeMath) where
  unfoldable pub value_from_underlyer_amount : Reading → ℕ → View ℕ
  value_from_underlyer_amount r amount =
      if amount == 0
      then ok 0
      else (r.price >>= λ price.
          math.mul price amount >>= λ product. math.div product (ten_to r.decimals))

  unfoldable pub pool_underlyer_value : Reading → View ℕ
  pool_underlyer_value r = value_from_underlyer_amount r r.balance

  unfoldable pub pool_total_value : Reading → View ℕ
  pool_total_value r =
      pool_underlyer_value r >>= λ underlyer. r.deployed >>= λ deployed. math.add underlyer deployed

  -- `_calculateMintAmount`
  unfoldable pub mint_amount : Reading → ℕ → ℕ → View ℕ
  mint_amount r deposit_value total_value =
      if (total_value == 0) || (r.supply == 0)
      then math.mul deposit_value 1000
      else (math.mul deposit_value r.supply >>= λ product. math.div product total_value)

  unfoldable pub calculate_mint_amount : Reading → ℕ → View ℕ
  calculate_mint_amount r amount = value_from_underlyer_amount r amount >>= λ value.
      pool_total_value r >>= λ total. mint_amount r value total

  unfoldable pub apt_value : Reading → ℕ → View ℕ
  apt_value r apt_amount =
      require (ltb 0 r.supply) "INSUFFICIENT_TOTAL_SUPPLY" >> pool_total_value r >>= λ total.
      math.mul apt_amount total >>= λ product. math.div product r.supply

  unfoldable pub underlyer_amount : Reading → ℕ → View ℕ
  underlyer_amount r apt_amount =
      if apt_amount == 0
      then ok 0
      else (require (ltb 0 r.supply) "INSUFFICIENT_TOTAL_SUPPLY" >> r.price >>= λ price.
          pool_total_value r >>= λ total.
          math.mul apt_amount total
          >>= (λ product. math.mul product (ten_to r.decimals))
          >>= (λ product. math.div product r.supply)
          >>= (λ amount. math.div amount price))

  -- `getDeployedValue` of mAPT, from its TVL, the pool's balance and the supply of mAPT.
  unfoldable pub deployed_value : View ℕ → ℕ → ℕ → View ℕ
  deployed_value tvl balance supply =
      if (supply == 0) || (balance == 0)
      then ok 0
      else (tvl >>= λ total. math.mul total balance >>= λ product. math.div product supply)

  -- `_calculateDelta` of mAPT
  unfoldable pub delta : View ℕ → ℕ → ℕ → ℕ → ℕ → View ℕ
  delta tvl supply amount price decimals =
      math.mul amount price >>= (λ product. math.div product (ten_to decimals)) >>= λ value.
      tvl >>= λ total.
      if (total == 0) || (supply == 0)
      then math.mul value 1000
      else (math.mul value supply >>= λ product. math.div product total)

-- What a withdrawal costs: the fees, and the time of the caller's last deposit.
pub record Fees : Type 0 where
  pub withdraw_fee : ℕ
  pub arbitrage_fee : ℕ
  pub arbitrage_fee_period : ℕ
  pub timestamp : ℕ
  pub last_deposit_time : ℕ

module _ (math : SafeMath) where
  unfoldable pub is_early_redeem : Fees → View Bool
  is_early_redeem f =
      math.sub f.timestamp f.last_deposit_time >>= λ age. ok (ltb age f.arbitrage_fee_period)

  -- The fees of `getUnderlyerAmountWithFee`
  unfoldable pub with_fee : Fees → ℕ → View ℕ
  with_fee f amount = math.mul amount f.withdraw_fee >>= λ product.
      math.div product 1000000 >>= λ fee. math.sub amount fee >>= λ rest.
      is_early_redeem f >>= λ early.
      if early
      then (math.mul amount f.arbitrage_fee >>= (λ product'. math.div product' 100) >>= λ arb_fee.
          math.sub rest arb_fee)
      else ok rest

  unfoldable pub underlyer_amount_with_fee : Reading → Fees → ℕ → View ℕ
  underlyer_amount_with_fee r f apt_amount = underlyer_amount math r apt_amount >>= with_fee f

-- `_getFundAmounts`: an excess of the reserve is what the LP Account is funded with. `-amount` of the
-- least `int256` is itself, which the cast reads as its absolute value.
abbrev pub fund_amount : ℤ → ℕ
fund_amount (pos n) = 0
fund_amount (negsuc n) = suc n

unfoldable pub fund_amounts : List ℤ → List ℕ
fund_amounts [] = []
fund_amounts (amount ∷ amounts) = fund_amount amount ∷ fund_amounts amounts

-- `_calculateAmountsToWithdraw`: a deficit is topped up as far as the balance goes.
abbrev pub withdraw_amount : ℤ → ℕ → ℕ
withdraw_amount (pos n) balance = if ltb balance n then balance else n
withdraw_amount (negsuc n) balance = if ltb balance 0 then balance else 0

unfoldable pub withdraw_amounts : List ℤ → List ℕ → View (List ℕ)
withdraw_amounts [] balances = ok []
withdraw_amounts (amount ∷ amounts) [] = err "invalid opcode"
withdraw_amounts (amount ∷ amounts) (balance ∷ balances) =
    withdraw_amounts amounts balances >>= λ rest. ok (withdraw_amount amount balance ∷ rest)
