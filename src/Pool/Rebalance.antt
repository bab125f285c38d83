-- ===== src/Pool/Rebalance.antt =====
-- The functions of MetaPoolTokenV2 that balance the pools' reserves against the LP Account. Where the
-- address of the LP Account is read again and tested again, the first reading stands for both.
use apy_core_public.Base.{ℕ, ◌==◌, Bool, true, not, List, [], ◌∷◌, if◌then◌else◌}
use apy_core_public.Base.Int.{ℤ}
use apy_core_public.Base.Exec.{ok}
use apy_core_public.Contract.Call.{View, Call, ◌>>=◌, ◌>>◌, require, Mapping, update}
use apy_core_public.Contract.Access.{only}
use apy_core_public.Contract.Math.{SafeMath}
use apy_core_public.Contract.Token.{Erc20}
use apy_core_public.Contract.Enumerable.{EnumerableSet}
use apy_core_public.Registry.Calls.{Registry, get_address}
use apy_core_public.Registry.Names.{lp_account_address, tvl_manager_address}
use apy_core_public.Oracle.State.{lp_role}
use apy_core_public.Tvl.State.{Chain, Manager}
use apy_core_public.Tvl.Calls.{get_asset_allocation, erc20_allocation_name}
use apy_core_public.Tvl.Tokens.{Tokens, Metadata, register_erc20_token, is_erc20_token_registered}
use apy_core_public.Pool.Amounts.{fund_amounts, withdraw_amounts}
use apy_core_public.Pool.Meta.{Meta, Others, multiple_mint_and_transfer, multiple_burn_and_transfer}

-- What a rebalancing reads: the chain of the contract itself and that of an allocation of tokens,
-- `getReserveTopUpValue` and `underlyer` of a pool, the tokens, and the TvlManager at an address.
pub record Around (S : Type 0) : Type 0 where
  pub chain : Chain
  pub allocation_chain : Chain
  pub registry : Registry
  pub top_up_value : ℕ → View ℤ
  pub underlyer_of : ℕ → View ℕ
  pub tokens_at : Metadata
  pub manager_at : ℕ → Manager S

-- The state of mAPT, and that of the allocation of tokens at an address.
pub record Balance (S T : Type 0) : Type 0 where
  pub meta : Meta T
  pub allocations : Mapping (Tokens S)

module _ {S : Type 0} (sets : EnumerableSet S) (o : Around S) where
  -- `getRebalanceAmounts`: the pools and their amounts.
  unfoldable pub get_rebalance_amounts : List ℕ → View (List ℕ × List ℤ)
  get_rebalance_amounts [] = ok ([], [])
  get_rebalance_amounts (id ∷ ids) = get_address id o.registry >>= λ pool.
      o.top_up_value pool >>= λ amount.
      get_rebalance_amounts ids >>= λ (pools, amounts). ok (pool ∷ pools, amount ∷ amounts)

  -- The loop of `getLpAccountBalances`.
  unfoldable pub balances_of_account : ℕ → List ℕ → View (List ℕ)
  balances_of_account account [] = ok []
  balances_of_account account (id ∷ ids) = get_address id o.registry >>= λ pool.
      o.underlyer_of pool >>= λ token. o.tokens_at.balance_of_token token account >>= λ balance.
      balances_of_account account ids >>= λ balances. ok (balance ∷ balances)

  -- The address of the LP Account with its defensive check.
  abbrev pub lp_account : View ℕ
  lp_account = lp_account_address o.chain.env.names o.registry >>= λ a.
      require (not (a == 0)) "INVALID_LP_ACCOUNT" >> ok a

  unfoldable pub get_lp_account_balances : List ℕ → View (List ℕ)
  get_lp_account_balances ids = lp_account >>= λ a. balances_of_account a ids

  module _ (math : SafeMath) where
    -- The loop of `_registerPoolUnderlyers`.
    unfoldable pub register_each_underlyer : List ℕ → Call (Tokens S) (Unit {0})
    register_each_underlyer [] s = ok (tt, s)
    register_each_underlyer (pool ∷ pools) s = o.underlyer_of pool >>= λ token.
        (if not (is_erc20_token_registered sets token s)
          then register_erc20_token sets o.allocation_chain o.tokens_at math o.chain.self token s
          else ok (tt, s))
        >>= λ r. register_each_underlyer pools r.1

    -- The calls of the loop revert at an address without code.
    abbrev pub calls_contract : ℕ → List ℕ → Bool
    calls_contract a [] = true
    calls_contract a (pool ∷ pools) = o.chain.env.is_contract a

    -- `_registerPoolUnderlyers`
    unfoldable pub register_pool_underlyers :
        List ℕ → Mapping (Tokens S) → View (Mapping (Tokens S))
    register_pool_underlyers pools allocations =
        tvl_manager_address o.chain.env.names o.registry >>= λ m.
        let a = get_asset_allocation sets o.chain erc20_allocation_name (o.manager_at m) in
        require (calls_contract a pools) "call of no contract"
        >> register_each_underlyer pools (allocations a)
        >>= λ r. ok (update a r.1 allocations)

    module _ {T : Type 0} (erc20 : Erc20 T) (others : Others) (sender : ℕ) where
      -- `_fundLpAccount`
      unfoldable pub mint_and_register : List ℕ → List ℕ → Call (Balance S T) (Unit {0})
      mint_and_register pools amounts s =
          lp_account
          >> multiple_mint_and_transfer math erc20 others pools amounts s.meta
          >>= λ meta. register_pool_underlyers pools s.allocations >>= λ allocations.
              ok (tt, record { meta = meta; allocations = allocations })

      -- `_withdrawFromLpAccount`
      unfoldable pub burn_and_register : List ℕ → List ℕ → Call (Balance S T) (Unit {0})
      burn_and_register pools amounts s =
          lp_account
          >> multiple_burn_and_transfer math erc20 others pools amounts s.meta
          >>= λ meta. register_pool_underlyers pools s.allocations >>= λ allocations.
              ok (tt, record { meta = meta; allocations = allocations })

      unfoldable pub fund_lp_account : List ℕ → Call (Balance S T) (Unit {0})
      fund_lp_account ids s =
          only o.chain.has_role lp_role sender >> get_rebalance_amounts ids >>= λ (pools, amounts).
          mint_and_register pools (fund_amounts amounts) s

      unfoldable pub withdraw_from_lp_account : List ℕ → Call (Balance S T) (Unit {0})
      withdraw_from_lp_account ids s =
          only o.chain.has_role lp_role sender >> get_rebalance_amounts ids >>= λ (pools, amounts).
          get_lp_account_balances ids >>= λ balances.
          withdraw_amounts amounts balances >>= λ withdrawn. burn_and_register pools withdrawn s
