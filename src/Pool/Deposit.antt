-- ===== src/Pool/Deposit.antt =====
-- Deposits and redemptions of PoolTokenV3 on the tokens. Events are left out, and what is computed for
-- them can revert, so it is not.
use apy_core_public.Base.{ℕ, Bool, not, ltb, leb}
use apy_core_public.Base.Exec.{ok}
use apy_core_public.Contract.Call.{View, Call, ◌>>=◌, ◌>>◌, require, Mapping, update}
use apy_core_public.Contract.Math.{SafeMath}
use apy_core_public.Contract.Token.{Erc20, Coin}
use apy_core_public.Pool.Amounts.{
  Reading, value_from_underlyer_amount, pool_total_value, mint_amount, Fees,
  underlyer_amount_with_fee,
}

pub record Pool (T U : Type 0) : Type 0 where
  pub paused : Bool
  pub add_liquidity_lock : Bool
  pub redeem_lock : Bool
  pub last_deposit_time : Mapping ℕ
  pub withdraw_fee : ℕ
  pub arbitrage_fee : ℕ
  pub arbitrage_fee_period : ℕ
  -- APT, and the underlyer
  pub token : T
  pub underlyer : U

-- The caller and the time, and what other contracts give.
pub record Caller : Type 0 where
  pub sender : ℕ
  pub timestamp : ℕ
  pub price : View ℕ
  pub decimals : ℕ
  pub deployed : View ℕ

module _ (math : SafeMath) {T U : Type 0} (erc20 : Erc20 T) (coin : Coin U) (this : ℕ)
    (e : Caller) where
  abbrev pub reading : Pool T U → Reading
  reading s = record {
    price = e.price;
    decimals = e.decimals;
    balance = coin.balance s.underlyer this;
    deployed = e.deployed;
    supply = erc20.total_supply s.token;
  }

  abbrev pub fees : Pool T U → Fees
  fees s = record {
    withdraw_fee = s.withdraw_fee;
    arbitrage_fee = s.arbitrage_fee;
    arbitrage_fee_period = s.arbitrage_fee_period;
    timestamp = e.timestamp;
    last_deposit_time = s.last_deposit_time e.sender;
  }

  -- The tokens of a deposit, after the checks.
  unfoldable pub deposit : ℕ → ℕ → Pool T U → View (Pool T U)
  deposit amount minted s = erc20.mint e.sender minted s.token >>= λ t.
      coin.transfer_from this e.sender this amount s.underlyer >>= λ u. ok (record s {
        last_deposit_time = update e.sender e.timestamp s.last_deposit_time;
        token = t;
        underlyer = u;
      })

  unfoldable pub add_liquidity : ℕ → Call (Pool T U) (Unit {0})
  add_liquidity amount s =
      require (not s.paused) "Pausable: paused"
      >> require (not s.add_liquidity_lock) "LOCKED"
      >> require (ltb 0 amount) "AMOUNT_INSUFFICIENT"
      >> require (leb amount (coin.allowance s.underlyer e.sender this)) "ALLOWANCE_INSUFFICIENT"
      >> value_from_underlyer_amount math (reading s) amount
      >>= λ deposit_value. pool_total_value math (reading s) >>= λ total_value.
          mint_amount math (reading s) deposit_value total_value >>= λ minted.
          deposit amount minted s >>= λ s'.
          pool_total_value math (reading s') >>= λ total'. ok (tt, s')

  -- The tokens of a redemption, after the checks.
  unfoldable pub withdraw : ℕ → ℕ → Pool T U → View (Pool T U)
  withdraw apt_amount amount s = erc20.burn e.sender apt_amount s.token >>= λ t.
      coin.transfer this e.sender amount s.underlyer >>= λ u.
      ok (record s { token = t; underlyer = u })

  unfoldable pub redeem : ℕ → Call (Pool T U) (Unit {0})
  redeem apt_amount s =
      require (not s.paused) "Pausable: paused"
      >> require (not s.redeem_lock) "LOCKED"
      >> require (ltb 0 apt_amount) "AMOUNT_INSUFFICIENT"
      >> require (leb apt_amount (erc20.balance_of s.token e.sender)) "BALANCE_INSUFFICIENT"
      >> underlyer_amount_with_fee math (reading s) (fees s) apt_amount
      >>= λ amount.
          require (leb amount (coin.balance s.underlyer this)) "RESERVE_INSUFFICIENT"
          >> withdraw apt_amount amount s
          >>= λ s'. value_from_underlyer_amount math (reading s') amount >>= λ value.
              pool_total_value math (reading s') >>= λ total'. ok (tt, s')
