-- ===== src/Pool/WithdrawnTests.antt =====
-- A withdrawal from the LP Account at concrete amounts.
use apy_core_public.Base.{ℕ, ◌-◌, ◌==◌, ◌≡◌, refl, List, [], ◌∷◌, if◌then◌else◌}
use apy_core_public.Base.Int.{pos}
use apy_core_public.Base.Exec.{ok}
use apy_core_public.Contract.Call.{update}
use apy_core_public.Contract.Math.{safe_math, check}
use apy_core_public.Contract.Token.{Ledger, ledger, burn_ledger}
use apy_core_public.Contract.Enumerable.{listed}
use apy_core_public.Registry.Ids.{has_id}
use apy_core_public.Registry.Calls.{registered, get_address}
use apy_core_public.Oracle.State.{blank}
use apy_core_public.Tvl.State.{lock_oracle_adapter}
use apy_core_public.Tvl.Tokens.{Tokens, no_data, register_erc20_token, register_token}
use apy_core_public.Tvl.Platform.{platform, chain, oracles, one_allocation}
use apy_core_public.Pool.Amounts.{delta, withdraw_amounts}
use apy_core_public.Pool.Meta.{
  to_pool, Others, each_delta, calculate_deltas, burn_and_transfer, burn_each,
  multiple_burn_and_transfer,
}
use apy_core_public.Pool.Rebalance.{
  Around, Balance, get_rebalance_amounts, balances_of_account, get_lp_account_balances,
  register_each_underlyer, register_pool_underlyers, burn_and_register, withdraw_from_lp_account,
}
use apy_core_public.Pool.Withdrawn.{Withdrawn, withdraw_from_lp_account-Withdrawn}

abbrev others : Others
others = record {
  underlyer_price = λ pool. ok 200;
  decimals = λ pool. 6;
  tvl = ok 1000;
  transfer = λ move. ok tt;
  lock = ok tt;
}

-- The pool 101 lacks 5 of its underlyer 40, and the account has 3. The token is not registered yet.
abbrev around : Around (List ℕ)
around = record {
  chain = record chain { self = 104 };
  allocation_chain = record chain { has_role = λ role sender. sender == 104 };
  registry = registered 1 101 platform;
  top_up_value = λ pool. ok (pos 5000000);
  underlyer_of = λ pool. ok 40;
  tokens_at = record {
    symbol_of_token = λ token. ok "DAI";
    decimals_of_token = λ token. ok 6;
    balance_of_token = λ token account. ok 3000000;
  };
  manager_at = λ a. one_allocation;
}

abbrev no_tokens : Tokens (List ℕ)
no_tokens = record {
  address_registry = 100;
  token_addresses = [];
  token_to_data = λ _. no_data;
  oracles = oracles;
}

abbrev before : Balance (List ℕ) Ledger
before = record {
  meta = record {
    token = record { supply = 7; balances = λ pool. if pool == 101 then 4 else 3 };
    moves = [];
  };
  allocations = λ a. no_tokens;
}

abbrev after : Balance (List ℕ) Ledger
after = record {
  meta = record {
    token = record {
      supply = 3;
      balances =
          λ b. if b == 101 then (if b == 101 then 4 else 3) - 4 else (if b == 101 then 4 else 3);
    };
    moves = to_pool 101 3000000 ∷ [];
  };
  allocations =
      update 20
        (record {
          address_registry = 100;
          token_addresses = 40 ∷ [];
          token_to_data =
              λ j. if j == 40 then record { token = 40; symbol = "DAI"; decimals = 6 } else no_data;
          oracles = update 109 (record blank { default_lock_period = 10; lock_end = 110 }) oracles;
        })
        (λ a. no_tokens);
}

withdrawal :
    withdraw_from_lp_account listed around safe_math ledger others 107 (1 ∷ []) before
    ≡ ok (tt, after)
unfolding withdraw_from_lp_account get_rebalance_amounts get_lp_account_balances balances_of_account
    burn_and_register register_pool_underlyers register_each_underlyer register_erc20_token
    register_token lock_oracle_adapter multiple_burn_and_transfer calculate_deltas each_delta
    burn_each burn_and_transfer delta withdraw_amounts burn_ledger ledger listed has_id get_address
    registered update safe_math check
withdrawal = refl

withdraw_from_lp_account-Withdrawn_example :
    (account : ℕ) × (pools : List ℕ) × Withdrawn listed around safe_math ledger others 107
      (1 ∷ [])
      before
      after
      account
      pools
withdraw_from_lp_account-Withdrawn_example =
    withdraw_from_lp_account-Withdrawn listed around safe_math ledger others 107 (1 ∷ []) before
      after withdrawal
