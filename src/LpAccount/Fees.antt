-- ===== src/LpAccount/Fees.antt =====
-- The fees on rewards: the tokens that have one, and what is due after a claim.
use apy_core_public.Base.{ℕ, ◌==◌, not, List, [], ◌∷◌, length, ltb, if◌then◌else◌}
use apy_core_public.Base.Exec.{ok, err}
use apy_core_public.Contract.Call.{View, Call, ◌>>=◌, ◌>>◌, require, Mapping, update}
use apy_core_public.Contract.Access.{only}
use apy_core_public.Contract.Math.{SafeMath}
use apy_core_public.Contract.Enumerable.{EnumerableSet, size}
use apy_core_public.Registry.Calls.{get_address}
use apy_core_public.Oracle.State.{admin_role}
use apy_core_public.LpAccount.State.{Account, Outside}
use apy_core_public.LpAccount.Checks.{registry}

module _ {S W : Type 0} (sets : EnumerableSet S) (o : Outside S W) where
  -- `_registerRewardFee` and `_removeRewardFee`
  unfoldable pub set_reward_fee : ℕ → ℕ → Call (Account S W) (Unit {0})
  set_reward_fee token fee s =
      require (o.chain.env.is_contract token) "INVALID_ADDRESS"
      >> require (not (fee == 0)) "INVALID_REWARD_FEE"
      >> ok (
        tt,
        record s {
          reward_tokens = sets.add token s.reward_tokens;
          reward_fee = update token fee s.reward_fee;
        },
      )

  unfoldable pub unset_reward_fee : ℕ → Account S W → Account S W
  unset_reward_fee token s = record s {
    reward_tokens = sets.remove token s.reward_tokens;
    reward_fee = update token 0 s.reward_fee;
  }

  -- The loops over the tokens. The lengths of the two lists are compared before.
  unfoldable pub set_each_fee : List ℕ → List ℕ → Call (Account S W) (Unit {0})
  set_each_fee [] fees s = ok (tt, s)
  set_each_fee (token ∷ tokens) [] s = err "invalid opcode"
  set_each_fee (token ∷ tokens) (fee ∷ fees) s =
      set_reward_fee token fee s >>= λ r. set_each_fee tokens fees r.1

  unfoldable pub unset_each_fee : List ℕ → Account S W → Account S W
  unset_each_fee [] s = s
  unset_each_fee (token ∷ tokens) s = unset_each_fee tokens (unset_reward_fee token s)

  module _ (sender : ℕ) where
    abbrev pub register_reward_fee : ℕ → ℕ → Call (Account S W) (Unit {0})
    register_reward_fee token fee s =
        only o.chain.has_role admin_role sender >> set_reward_fee token fee s

    abbrev pub register_multiple_reward_fees : List ℕ → List ℕ → Call (Account S W) (Unit {0})
    register_multiple_reward_fees tokens fees s =
        only o.chain.has_role admin_role sender
        >> require (length tokens == length fees) "INPUT_ARRAYS_MISMATCH"
        >> set_each_fee tokens fees s

    abbrev pub remove_reward_fee : ℕ → Call (Account S W) (Unit {0})
    remove_reward_fee token s =
        only o.chain.has_role admin_role sender >> ok (tt, unset_reward_fee token s)

    abbrev pub remove_multiple_reward_fees : List ℕ → Call (Account S W) (Unit {0})
    remove_multiple_reward_fees tokens s =
        only o.chain.has_role admin_role sender >> ok (tt, unset_each_fee tokens s)

  -- The loop of `_getRewardsBalances`.
  unfoldable pub balances_of : List ℕ → W → View (List ℕ)
  balances_of [] w = ok []
  balances_of (token ∷ tokens) w =
      o.balance token w >>= λ balance. balances_of tokens w >>= λ rest. ok (balance ∷ rest)

  abbrev pub get_rewards_balances : Account S W → View (List ℕ)
  get_rewards_balances s = balances_of (sets.values s.reward_tokens) s.world

  module _ (math : SafeMath) where
    -- The fee on what a token has gained, in basis points. The rate is read of a gain only.
    unfoldable pub fee_of : ℕ → ℕ → ℕ → View ℕ
    fee_of rate before after = math.sub after before >>= λ balance_delta.
        if ltb 0 balance_delta
        then (math.mul balance_delta rate >>= λ product. math.div product 10000)
        else ok 0

    -- The loop over the tokens and their balances.
    unfoldable pub fees_of : Mapping ℕ → List ℕ → List ℕ → List ℕ → View (List ℕ)
    fees_of rates [] before after = ok []
    fees_of rates (token ∷ tokens) (b ∷ before) (a ∷ after) = fee_of (rates token) b a >>= λ fee.
        fees_of rates tokens before after >>= λ rest. ok (fee ∷ rest)
    fees_of rates (token ∷ tokens) before after = err "invalid opcode"

    unfoldable pub calculate_rewards_fees : List ℕ → List ℕ → Account S W → View (List ℕ)
    calculate_rewards_fees before after s =
        require (length before == length after) "INPUT_ARRAYS_MISMATCH"
        >> require (size sets s.reward_tokens == length before) "BALANCE_LENGTH_MISMATCH"
        >> fees_of s.reward_fee (sets.values s.reward_tokens) before after

  -- The loop of `_sendFeesToTreasurySafe`.
  unfoldable pub send_each : ℕ → List ℕ → List ℕ → W → View W
  send_each safe [] fees w = ok w
  send_each safe (token ∷ tokens) [] w = err "invalid opcode"
  send_each safe (token ∷ tokens) (fee ∷ fees) w =
      (if ltb 0 fee then o.transfer token safe fee w else ok w) >>= send_each safe tokens fees

  unfoldable pub send_fees : List ℕ → Account S W → View W
  send_fees fees s =
      require (size sets s.reward_tokens == length fees) "FEE_LENGTH_MISMATCH"
      >> get_address o.treasury_safe (registry sets o s)
      >>= λ safe. send_each safe (sets.values s.reward_tokens) fees s.world
