-- ===== src/Pool/DepositTests.antt =====
-- A deposit and a redemption at concrete amounts: the pool is the account 99, and the caller 7.
use apy_core_public.Base.{ℕ, ◌+◌, ◌-◌, ◌*◌, ◌==◌, ◌≡◌, refl, ◌≤◌, true, false, arith, if◌then◌else◌}
use apy_core_public.Base.Exec.{ok, err}
use apy_core_public.Contract.Call.{Mapping, update}
use apy_core_public.Contract.Math.{safe_math, check}
use apy_core_public.Contract.Token.{
  Ledger, ledger, mint_ledger, burn_ledger, coins, transfer_coins, move_coins,
}
use apy_core_public.Pool.Amounts.{
  ten_to, value_from_underlyer_amount, pool_total_value, pool_underlyer_value, mint_amount,
  underlyer_amount, underlyer_amount_with_fee, with_fee, is_early_redeem,
}
use apy_core_public.Pool.Deposit.{Pool, Caller, deposit, add_liquidity, withdraw, redeem}
use apy_core_public.Pool.RoundTrip.{add_liquidity-redeem}

abbrev caller : Caller
caller = record {
  sender = 7;
  timestamp = 100000;
  price = ok 100000003;
  decimals = 6;
  deployed = ok 50000000000;
}

abbrev at_first : Pool Ledger (Mapping ℕ)
at_first = record {
  paused = false;
  add_liquidity_lock = false;
  redeem_lock = false;
  last_deposit_time = λ _. 0;
  withdraw_fee = 1000;
  arbitrage_fee = 5;
  arbitrage_fee_period = 86400;
  token = record { supply = 700000007; balances = λ _. 0 };
  underlyer = λ a. if a == 99 then 1000000000 else (if a == 7 then 20000000 else 0);
}

abbrev with_apt : Pool Ledger (Mapping ℕ)
with_apt = record at_first {
  last_deposit_time = update 7 100000 (λ _. 0);
  token = record { supply = 705761323; balances = λ a. if a == 7 then 5761316 else 0 };
  underlyer = move_coins 7 99 12345678 at_first.underlyer;
}

abbrev at_last : Pool Ledger (Mapping ℕ)
at_last = record with_apt {
  token = record {
    supply = 700000007;
    balances =
        λ a. if a == 7 then with_apt.token.balances a - 5761316 else with_apt.token.balances a;
  };
  underlyer = move_coins 99 7 11716048 with_apt.underlyer;
}

deposited : add_liquidity safe_math ledger coins 99 caller 12345678 at_first ≡ ok (tt, with_apt)
unfolding add_liquidity deposit value_from_underlyer_amount pool_total_value pool_underlyer_value
    mint_amount safe_math check ledger mint_ledger coins transfer_coins update
deposited = refl

redeemed : redeem safe_math ledger coins 99 caller 5761316 with_apt ≡ ok (tt, at_last)
unfolding redeem withdraw value_from_underlyer_amount pool_total_value pool_underlyer_value
    underlyer_amount underlyer_amount_with_fee with_fee is_early_redeem safe_math check ledger
    burn_ledger coins transfer_coins update
redeemed = refl

paused_pool :
    add_liquidity safe_math ledger coins 99 caller 12345678 (record at_first { paused = true })
    ≡ err "Pausable: paused"
unfolding add_liquidity
paused_pool = refl

add_liquidity-redeem_example : 100000003 * 19370370 ≤ 100000003 * 20000000 + ten_to 6
unfolding coins ledger update
add_liquidity-redeem_example =
    add_liquidity-redeem safe_math ledger coins 99 caller 100000003 50000000000 12345678 5761316
      at_first with_apt at_last refl refl refl (omega arith) deposited refl redeemed
