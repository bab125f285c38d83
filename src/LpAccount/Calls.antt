-- ===== src/LpAccount/Calls.antt =====
-- The functions of LpAccountV2 that change its storage or move funds.
use apy_core_public.Base.{ℕ, ◌+◌, ◌-◌, String, List, [], ◌∷◌}
use apy_core_public.Base.Int.{ℤ, pos, negsuc}
use apy_core_public.Base.Exec.{ok}
use apy_core_public.Contract.Call.{View, Call, ◌>>=◌, ◌>>◌, require}
use apy_core_public.Contract.Access.{only}
use apy_core_public.Contract.Math.{SafeMath, word_mod}
use apy_core_public.Contract.Enumerable.{EnumerableSet}
use apy_core_public.Registry.Names.{
  emergency_safe_address, admin_safe_address, lp_safe_address, m_apt_address,
}
use apy_core_public.Oracle.State.{
  Role, default_admin_role, emergency_role, admin_role, contract_role, lp_role,
}
use apy_core_public.Named.Calls.{add, remove, names}
use apy_core_public.Tvl.State.{named}
use apy_core_public.LpAccount.State.{Account, Outside}
use apy_core_public.LpAccount.Checks.{
  registry, lock_oracle_adapter, check_allocations, check_tokens, found,
}
use apy_core_public.LpAccount.Fees.{get_rewards_balances, calculate_rewards_fees, send_fees}

-- `uint256(index)` of an `int128`
abbrev pub unsigned : ℤ → ℕ
unsigned (pos n) = n
unsigned (negsuc n) = word_mod - (1 + n)

module _ {S W : Type 0} (sets : EnumerableSet S) (o : Outside S W) where
  abbrev pub set_address_registry : ℕ → Call (Account S W) (Unit {0})
  set_address_registry a s =
      require (o.chain.env.is_contract a) "INVALID_ADDRESS"
      >> ok (tt, record s { address_registry = a })

  -- `initialize`, in a call that the modifier `initializer` admits: the roles that it grants come
  -- with the state.
  unfoldable pub initialize : ℕ → Call (Account S W) (List (Role × ℕ))
  initialize a s = set_address_registry a s >>= λ r.
      let registry_ = registry sets o r.1 in
      let names_ = o.chain.env.names in
      emergency_safe_address names_ registry_ >>= λ emergency_safe.
      admin_safe_address names_ registry_ >>= λ admin_safe.
      lp_safe_address names_ registry_ >>= λ lp_safe. m_apt_address names_ registry_ >>= λ m_apt.
      ok (
        ((default_admin_role, emergency_safe)
            ∷ (emergency_role, emergency_safe)
            ∷ (admin_role, admin_safe)
            ∷ (lp_role, lp_safe)
            ∷ (contract_role, m_apt)
            ∷ []),
        record r.1 { lock_period = 135 },
      )

  abbrev pub zap_names : Account S W → View (List String)
  zap_names s = names sets (named o.chain) s.zaps

  abbrev pub swap_names : Account S W → View (List String)
  swap_names s = names sets (named o.chain) s.swaps

  abbrev pub get_lp_token_balance : String → Account S W → View ℕ
  get_lp_token_balance name s =
      found sets o s.zaps name >>= λ zap. (o.zap_at zap).lp_token_balance s.world

  -- The requirement on the tokens of a zap or a swap.
  abbrev pub require_tokens : ℕ → Account S W → View (Unit {0})
  require_tokens zap s = (o.zap_at zap).erc20_allocations >>= λ tokens.
      check_tokens sets o tokens s >>= λ registered. require registered "MISSING_ERC20_ALLOCATIONS"

  -- The loop of `claim`.
  unfoldable pub claim_each : List String → Call (Account S W) (Unit {0})
  claim_each [] s = ok (tt, s)
  claim_each (name ∷ names_) s = found sets o s.zaps name >>= λ zap.
      require_tokens zap s >> (o.zap_at zap).zap_claim s.world >>= λ w.
      claim_each names_ (record s { world = w })

  module _ (sender : ℕ) where
    unfoldable pub emergency_set_address_registry : ℕ → Call (Account S W) (Unit {0})
    emergency_set_address_registry a s =
        only o.chain.has_role emergency_role sender >> set_address_registry a s

    unfoldable pub set_lock_period : ℕ → Call (Account S W) (Unit {0})
    set_lock_period period s =
        only o.chain.has_role admin_role sender >> ok (tt, record s { lock_period = period })

    unfoldable pub register_zap : ℕ → Call (Account S W) (Unit {0})
    register_zap zap s =
        only o.chain.has_role admin_role sender >> add sets (named o.chain) zap s.zaps >>= λ r.
        ok (tt, record s { zaps = r.1 })

    unfoldable pub remove_zap : String → Call (Account S W) (Unit {0})
    remove_zap name s = only o.chain.has_role admin_role sender >> remove sets name s.zaps >>= λ r.
        ok (tt, record s { zaps = r.1 })

    unfoldable pub register_swap : ℕ → Call (Account S W) (Unit {0})
    register_swap swap s =
        only o.chain.has_role admin_role sender >> add sets (named o.chain) swap s.swaps >>= λ r.
        ok (tt, record s { swaps = r.1 })

    unfoldable pub remove_swap : String → Call (Account S W) (Unit {0})
    remove_swap name s =
        only o.chain.has_role admin_role sender >> remove sets name s.swaps >>= λ r.
        ok (tt, record s { swaps = r.1 })

    unfoldable pub transfer_to_pool : ℕ → ℕ → Call (Account S W) (Unit {0})
    transfer_to_pool pool amount s =
        only o.chain.has_role contract_role sender >> o.underlyer pool >>= λ token.
        o.transfer token pool amount s.world >>= λ w. ok (tt, record s { world = w })

    unfoldable pub emergency_exit : ℕ → Call (Account S W) (Unit {0})
    emergency_exit token s =
        only o.chain.has_role emergency_role sender
        >> emergency_safe_address o.chain.env.names (registry sets o s)
        >>= λ emergency_safe. o.balance token s.world >>= λ balance.
            o.transfer token emergency_safe balance s.world >>= λ w. ok (tt, record s { world = w })

    module _ (math : SafeMath) where
      -- The end of a function that has moved funds: the lock for the configured period.
      unfoldable pub locked : W → Call (Account S W) (Unit {0})
      locked w s =
          lock_oracle_adapter o.chain math s.address_registry s.lock_period s.oracles >>= λ oracles.
          ok (tt, record s { world = w; oracles = oracles })

      unfoldable pub deploy_strategy : String → List ℕ → Call (Account S W) (Unit {0})
      deploy_strategy name amounts s =
          only o.chain.has_role lp_role sender >> found sets o s.zaps name >>= λ zap.
          (o.zap_at zap).asset_allocations >>= λ allocations.
          check_allocations sets o allocations s >>= λ registered.
          require registered "MISSING_ASSET_ALLOCATIONS"
          >> require_tokens zap s
          >> (o.zap_at zap).deploy_liquidity amounts s.world
          >>= λ w. locked w s

      unfoldable pub unwind_strategy : String → ℕ → ℕ → Call (Account S W) (Unit {0})
      unwind_strategy name amount index s =
          only o.chain.has_role lp_role sender >> found sets o s.zaps name >>= λ zap.
          (o.zap_at zap).unwind_liquidity amount index s.world >>= λ w. locked w s

      unfoldable pub swap : String → ℕ → ℕ → Call (Account S W) (Unit {0})
      swap name amount min_amount s =
          only o.chain.has_role lp_role sender >> found sets o s.swaps name >>= λ swap_.
          require_tokens swap_ s >> (o.zap_at swap_).swap_tokens amount min_amount s.world >>= λ w.
          locked w s

      unfoldable pub swap_with_3pool : ℤ → ℤ → ℕ → ℕ → Call (Account S W) (Unit {0})
      swap_with_3pool in_index out_index amount min_amount s =
          only o.chain.has_role lp_role sender >> o.coins (unsigned in_index) >>= λ in_token.
          o.approve in_token o.pool_3 0 s.world >>= λ a.
          o.approve in_token o.pool_3 amount a >>= λ b.
          o.exchange in_index out_index amount min_amount b >>= λ w. locked w s

      -- The part of `claim` after its loop.
      unfoldable pub settle : List ℕ → Call (Account S W) (Unit {0})
      settle before s = get_rewards_balances sets o s >>= λ after.
          calculate_rewards_fees sets o math before after s >>= λ fees.
          send_fees sets o fees s >>= λ w. locked w s

      unfoldable pub claim : List String → Call (Account S W) (Unit {0})
      claim names_ s =
          only o.chain.has_role lp_role sender >> get_rewards_balances sets o s >>= λ before.
          claim_each names_ s >>= λ r. settle before r.1
