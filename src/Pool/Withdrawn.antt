-- ===== src/Pool/Withdrawn.antt =====
-- A withdrawal from the LP Account as a whole.
use apy_core_public.Base.{ℕ, ◌≡◌, true, List, arith, All}
use apy_core_public.Base.Int.{ℤ}
use apy_core_public.Base.Exec.{ok}
use apy_core_public.Contract.Call.{require, of_ok, Mapping, update}
use apy_core_public.Contract.Math.{SafeMath}
use apy_core_public.Contract.Token.{Erc20}
use apy_core_public.Contract.Enumerable.{EnumerableSet}
use apy_core_public.Registry.Names.{tvl_manager_address}
use apy_core_public.Oracle.State.{lp_role}
use apy_core_public.Tvl.Calls.{get_asset_allocation, erc20_allocation_name}
use apy_core_public.Tvl.Tokens.{Tokens}
use apy_core_public.Pool.Amounts.{withdraw_amounts}
use apy_core_public.Pool.Meta.{
  Move, to_pool, Meta, Others, burn_each, multiple_burn_and_transfer, calculate_deltas,
}
use apy_core_public.Pool.Rebalance.{
  Around, Balance, get_rebalance_amounts, balances_of_account, lp_account, get_lp_account_balances,
  calls_contract, register_each_underlyer, register_pool_underlyers, burn_and_register,
  withdraw_from_lp_account,
}
use apy_core_public.Pool.Covered.{
  AllPairs, Payable, IsRegistered, withdrawn-Holds, burn_each-All,
  register_each_underlyer-IsRegistered,
}

module _ {S : Type 0} (sets : EnumerableSet S) (o : Around S) (math : SafeMath) where
  burns_each :
      {T : Type 0} (erc20 : Erc20 T) (others : Others) (pools amounts : List ℕ) (s t : Meta T)
      → multiple_burn_and_transfer math erc20 others pools amounts s ≡ ok t
      → (ds : List ℕ) × (burn_each math erc20 others pools ds amounts s ≡ ok t)
  unfolding multiple_burn_and_transfer
  burns_each erc20 others pools amounts s t h =
      let (ds, e1) =
        of_ok (calculate_deltas math erc20 others s.token pools amounts)
          (λ e q. ground (arith, q)) in
      let (u, e2) =
        of_ok (burn_each math erc20 others pools ds amounts s) (λ e q. ground (arith, e1, q)) in
      let (k, e3) = of_ok others.lock (λ e q. ground (arith, e1, e2, q)) in
      (ds, ground (arith, e1, e2, e3))

  -- Every pool's underlyer is registered in the allocation of tokens of the registry's manager.
  abbrev pub AllRegistered : Mapping (Tokens S) → List ℕ → Type 0
  AllRegistered allocations pools =
      (m : ℕ) × (tvl_manager_address o.chain.env.names o.registry ≡ ok m)
      × All
          (IsRegistered sets o (
            allocations (get_asset_allocation sets o.chain erc20_allocation_name (o.manager_at m))))
          pools

  register_pool_underlyers-AllRegistered :
      (pools : List ℕ) (s t : Mapping (Tokens S))
      → register_pool_underlyers sets o math pools s ≡ ok t
      → AllRegistered t pools
  unfolding register_pool_underlyers update
  register_pool_underlyers-AllRegistered pools s t h =
      let (m, e1) =
        of_ok (tvl_manager_address o.chain.env.names o.registry) (λ e q. ground (arith, q)) in
      let a = get_asset_allocation sets o.chain erc20_allocation_name (o.manager_at m) in
      let b = calls_contract sets o math a pools in
      let (k, e0) = of_ok (require b "call of no contract") (λ e q. ground (arith, e1, q)) in
      let ((k, u), e2) =
        of_ok (register_each_underlyer sets o math pools (s a))
          (λ e q. ground (arith, e0, e1, q)) in
      let e3 : t a ≡ u = ground (arith, e0, e1, e2) in
      (m, e1, rw e3 (register_each_underlyer-IsRegistered sets o math pools (s a) u e2).1)

  module _ {T : Type 0} (erc20 : Erc20 T) (others : Others) (sender : ℕ) where
    burned-All :
        (pools ws : List ℕ) (s t : Balance S T) (P : Move → Type 0)
        → burn_and_register sets o math erc20 others sender pools ws s ≡ ok (tt, t)
        → AllPairs (λ pool n. P (to_pool pool n)) pools ws
        → (All P s.meta.moves → All P t.meta.moves) × AllRegistered t.allocations pools
    unfolding burn_and_register
    burned-All pools ws s t P h pairs =
        let (account, e1) = of_ok (lp_account sets o) (λ e q. ground (arith, q)) in
        let (meta, e2) =
          of_ok (multiple_burn_and_transfer math erc20 others pools ws s.meta)
            (λ e q. ground (arith, e1, q)) in
        let (allocations, e3) =
          of_ok (register_pool_underlyers sets o math pools s.allocations)
            (λ e q. ground (arith, e1, e2, q)) in
        let (ds, run) = burns_each erc20 others pools ws s.meta meta e2 in
        let e4 : t ≡ record { meta = meta; allocations = allocations } =
          ground (arith, e1, e2, e3) in
        rw e4 (
          burn_each-All math erc20 others P pools ds ws s.meta meta run pairs,
          register_pool_underlyers-AllRegistered pools s.allocations allocations e3,
        )

    -- The pools of the ids, the account, and what holds of the state after a withdrawal.
    abbrev pub Withdrawn : List ℕ → Balance S T → Balance S T → ℕ → List ℕ → Type 0
    Withdrawn ids s t account pools =
        (o.chain.has_role lp_role sender ≡ true)
        × (lp_account sets o ≡ ok account)
        × ((amounts : List ℤ) × (get_rebalance_amounts sets o ids ≡ ok (pools, amounts)))
        × (All (Payable sets o account) s.meta.moves → All (Payable sets o account) t.meta.moves)
        × AllRegistered t.allocations pools

    -- A withdrawal from the LP Account that succeeds is by a holder of the LP role, every transfer
    -- to a pool that it adds is of at most what the account holds of the pool's underlyer, and after
    -- it the underlyers of all pools of the ids are registered in the allocation of tokens.
    pub withdraw_from_lp_account-Withdrawn :
        (ids : List ℕ) (s t : Balance S T)
        → withdraw_from_lp_account sets o math erc20 others sender ids s ≡ ok (tt, t)
        → (account : ℕ) × (pools : List ℕ) × Withdrawn ids s t account pools
    unfolding withdraw_from_lp_account get_lp_account_balances
    withdraw_from_lp_account-Withdrawn ids s t h =
        let ((pools, amounts), e1) =
          of_ok (get_rebalance_amounts sets o ids) (λ e q. ground (arith, q)) in
        let (account, e2) = of_ok (lp_account sets o) (λ e q. ground (arith, e1, q)) in
        let (balances, e3) =
          of_ok (balances_of_account sets o account ids) (λ e q. ground (arith, e1, e2, q)) in
        let (ws, e4) =
          of_ok (withdraw_amounts amounts balances) (λ e q. ground (arith, e1, e2, e3, q)) in
        let run : burn_and_register sets o math erc20 others sender pools ws s ≡ ok (tt, t) =
          ground (arith, e1, e2, e3, e4) in
        let held = withdrawn-Holds sets o account ids pools balances ws amounts e1 e3 e4 in
        let (paid, all) = burned-All pools ws s t (Payable sets o account) run held in
        (account, pools, (ground arith, e2, (amounts, e1), paid, all))
