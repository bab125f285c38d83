-- ===== src/LpAccount/Tests.antt =====
-- The account at concrete calls.
use text.Mathlib.Text.{◌==◌ as str_eq}
use mathlib.Core.Path.{subst}
use apy_core_public.Base.{
  ℕ, ◌+◌, ◌-◌, ◌<◌, ◌==◌, ◌≡◌, ◌↔◌, refl, String, Bool, true, false, List, [], ◌∷◌, arith, leb, ltb,
}
use apy_core_public.Base.Exec.{ok, err}
use apy_core_public.Contract.Call.{Mapping, update, require, View, ◌>>◌}
use apy_core_public.Contract.Math.{safe_math, word_mod, check}
use apy_core_public.Contract.Enumerable.{listed, distinct}
use apy_core_public.Registry.Ids.{has_id}
use apy_core_public.Registry.Calls.{registered, get_address}
use apy_core_public.Registry.Names.{oracle_adapter_address, tvl_manager_address}
use apy_core_public.Oracle.State.{Oracle, blank, contract_role, admin_role, lp_role}
use apy_core_public.Named.Calls.{write}
use apy_core_public.Tvl.State.{Chain}
use apy_core_public.Tvl.Tokens.{are_registered}
use apy_core_public.Tvl.Calls.{is_asset_allocation_registered}
use apy_core_public.Tvl.Platform.{platform, block_100, chain, oracles, one_allocation}
use apy_core_public.Tvl.Tests.{one_token}
use apy_core_public.LpAccount.State.{Account, Zap, Outside}
use apy_core_public.LpAccount.Checks.{
  lock_oracle_adapter, silenced, lock_for_at, check_allocations, check_tokens,
}
use apy_core_public.LpAccount.Fees.{
  balances_of, calculate_rewards_fees, fees_of, fee_of, send_each, send_fees, set_reward_fee,
  set_each_fee,
}
use apy_core_public.LpAccount.Calls.{deploy_strategy, claim, claim_each, settle, locked}
use apy_core_public.LpAccount.Locks.{OwnReasons, FreezesAt, lock_oracle_adapter-succeeds}
use apy_core_public.LpAccount.Guards.{claims, move, move-FreezesAt}
use apy_core_public.LpAccount.Sending.{AreErc20, NotLower}
use apy_core_public.LpAccount.Claim.{LowFees, SafeElsewhere, claim-NotLower}
use apy_core_public.LpAccount.Registered.{HasWhatItAsks, deploy_strategy-registered}
use apy_core_public.LpAccount.Rewards.{registers_all, fee_change, HasFees, fee_change-HasFees}

-- The account is at 105, with a treasury safe at 112, and has a role in the oracle.
abbrev account_chain : Chain
account_chain = record chain {
  self = 105;
  env = record block_100 { registry_at = λ a. registered 12 112 platform };
  oracle_has_role = λ a role sender. sender == 105;
}

-- The world is the account's balances by token. A transfer lowers one.
abbrev pay : ℕ → ℕ → ℕ → Mapping ℕ → View (Mapping ℕ)
pay token to n w =
    require (leb n (w token)) "ERC20: transfer amount exceeds balance"
    >> ok (update token (w token - n) w)

-- The zap at 30 deploys by spending the token 40, and claims 1000 of it.
abbrev zap_30 : Zap (Mapping ℕ)
zap_30 = record {
  asset_allocations = ok ("erc20Allocation" ∷ []);
  erc20_allocations = ok (40 ∷ []);
  deploy_liquidity = λ amounts w. ok (update 40 0 w);
  unwind_liquidity = λ amount index w. ok (update 40 amount w);
  zap_claim = λ w. ok (update 40 (w 40 + 1000) w);
  swap_tokens = λ amount min w. ok w;
  lp_token_balance = λ w. ok 1;
}

abbrev outside : Outside (List ℕ) (Mapping ℕ)
outside = record {
  chain = account_chain;
  zap_at = λ a. zap_30;
  manager_at = λ a. one_allocation;
  tokens_at = λ a. one_token;
  treasury_safe = 12;
  balance = λ token w. ok (w token);
  transfer = pay;
  approve = λ token spender n w. ok w;
  underlyer = λ pool. ok 40;
  pool_3 = 50;
  coins = λ i. ok 40;
  exchange = λ i j dx dy w. ok w;
}

abbrev account : Account (List ℕ) (Mapping ℕ)
account = record {
  address_registry = 100;
  lock_period = 135;
  zaps = record { named_addresses = 30 ∷ []; name_lookup = write "curve" 30 (λ _. 0) };
  swaps = record { named_addresses = []; name_lookup = λ _. 0 };
  reward_tokens = 40 ∷ [];
  reward_fee = update 40 1500 (λ _. 0);
  oracles = oracles;
  world = λ token. 500;
}

-- The fee on the 1000 is 15 %, and the oracle is locked for 135 blocks.
abbrev claimed : Account (List ℕ) (Mapping ℕ)
claimed = record account {
  oracles = update 109 (record blank { default_lock_period = 10; lock_end = 235 }) oracles;
  world = update 40 1350 (update 40 1500 (λ _. 500));
}

claim_lem : claim listed outside 107 safe_math ("curve" ∷ []) account ≡ ok (tt, claimed)
unfolding claim claim_each settle locked calculate_rewards_fees fees_of fee_of send_fees send_each
    balances_of check_tokens are_registered listed has_id distinct lock_oracle_adapter silenced
    lock_for_at get_address registered update safe_math check
claim_lem = refl

claim_by_other : claim listed outside 108 safe_math ("curve" ∷ []) account ≡ err "NOT_LP_ROLE"
unfolding claim
claim_by_other = refl

claim_unknown : claim listed outside 107 safe_math ("aave" ∷ []) account ≡ err "INVALID_NAME"
unfolding claim claim_each balances_of listed has_id distinct
claim_unknown = refl

-- A lock that is longer already is left as it is.
longer_lock : lock_oracle_adapter account_chain safe_math 100 5 claimed.oracles ≡ ok claimed.oracles
unfolding lock_oracle_adapter silenced lock_for_at get_address registered update safe_math check
longer_lock = refl

check-reason :
    (b : Bool) (value : ℕ) (r reason : String) → check b value r ≡ err reason → r ≡ reason
unfolding check
check-reason true value r reason h = ground arith
check-reason false value r reason h = ground arith

own_reasons : OwnReasons safe_math
unfolding safe_math
own_reasons a b reason h =
    subst (λ r. str_eq r "CANNOT_SHORTEN_LOCK" ≡ false)
      (check-reason (ltb (a + b) word_mod) (a + b) "SafeMath: addition overflow" reason h) refl

oracle_adapter_lem :
    oracle_adapter_address account_chain.env.names (registered 12 112 platform) ≡ ok 109
unfolding get_address registered update
oracle_adapter_lem = refl

lock_oracle_adapter-succeeds_example :
    ((after : Mapping Oracle) × (lock_oracle_adapter account_chain safe_math 100 135 oracles
        ≡ ok after))
    ↔ ((account_chain.oracle_has_role 109 contract_role 105 ≡ true) × (100 + 135 < word_mod))
lock_oracle_adapter-succeeds_example =
    lock_oracle_adapter-succeeds account_chain safe_math 100 135 109 oracles own_reasons
      oracle_adapter_lem

move_lem : move listed outside safe_math 107 (claims ("curve" ∷ [])) account ≡ ok (tt, claimed)
unfolding move
move_lem = claim_lem

move-FreezesAt_example :
    (account_chain.has_role lp_role 107 ≡ true)
    × ((a : ℕ) × FreezesAt account_chain safe_math 100 135 claimed.oracles a)
move-FreezesAt_example =
    move-FreezesAt listed outside safe_math 107 (claims ("curve" ∷ [])) account claimed own_reasons
      move_lem

pay-AreErc20 : AreErc20 listed outside
unfolding update
pay-AreErc20 token to n w w' other h =
    (λ b e. (w token - n, ground arith, ground arith), λ j k. ground arith)

low_fees : LowFees listed outside account
unfolding update
low_fees x = ground arith

elsewhere : SafeElsewhere listed outside account
unfolding get_address registered update
elsewhere safe h = ground arith

has_fee : listed.contains 40 (40 ∷ []) ≡ true
unfolding listed has_id
has_fee = refl

claim-NotLower_example : NotLower listed outside (λ token. 500) claimed.world 40
claim-NotLower_example =
    claim-NotLower listed outside safe_math 107 ("curve" ∷ []) account claimed pay-AreErc20
      elsewhere low_fees claim_lem 40 has_fee

-- Two tokens get a fee.
abbrev with_fees : Account (List ℕ) (Mapping ℕ)
with_fees = record account {
  reward_tokens = 42 ∷ 41 ∷ 40 ∷ [];
  reward_fee = update 42 20 (update 41 10 (update 40 1500 (λ _. 0)));
}

fees_lem :
    fee_change listed outside 107 (registers_all (41 ∷ 42 ∷ []) (10 ∷ 20 ∷ [])) account
    ≡ ok (tt, with_fees)
unfolding fee_change set_each_fee set_reward_fee listed
fees_lem = refl

fee_change-HasFees_example :
    (account_chain.has_role admin_role 107 ≡ true)
    × (HasFees listed outside account → HasFees listed outside with_fees)
fee_change-HasFees_example =
    fee_change-HasFees listed outside 107 (registers_all (41 ∷ 42 ∷ []) (10 ∷ 20 ∷ [])) account
      with_fees fees_lem

-- The tokens are spent, and the oracle is locked.
abbrev spent : Account (List ℕ) (Mapping ℕ)
spent = record claimed { world = update 40 0 (λ _. 500) }

deploy_lem :
    deploy_strategy listed outside 107 safe_math "curve" (500 ∷ []) account ≡ ok (tt, spent)
unfolding deploy_strategy locked check_allocations check_tokens is_asset_allocation_registered
    are_registered listed has_id lock_oracle_adapter silenced lock_for_at get_address registered
    update safe_math check
deploy_lem = refl

deploy_strategy-registered_example :
    ((30 == 0) ≡ false)
    × ((m : ℕ) × (tvl_manager_address account_chain.env.names (registered 12 112 platform) ≡ ok m)
        × HasWhatItAsks listed outside 30 m)
deploy_strategy-registered_example =
    deploy_strategy-registered listed outside safe_math 107 "curve" (500 ∷ []) account spent
      deploy_lem
