-- ===== src/LpAccount/Checks.antt =====
-- What the functions of LpAccountV2 check before they run a zap, and the lock after it.
use text.Mathlib.Text.{◌==◌ as str_eq}
use apy_core_public.Base.{ℕ, ◌==◌, String, Bool, not, List}
use apy_core_public.Base.Exec.{ok, err}
use apy_core_public.Contract.Call.{View, ◌>>=◌, ◌>>◌, require, Mapping, update}
use apy_core_public.Contract.Math.{SafeMath}
use apy_core_public.Contract.Enumerable.{EnumerableSet}
use apy_core_public.Registry.Calls.{Registry}
use apy_core_public.Registry.Names.{oracle_adapter_address, tvl_manager_address}
use apy_core_public.Oracle.State.{Oracle}
use apy_core_public.Oracle.Calls.{lock_for}
use apy_core_public.Named.Calls.{Set, get}
use apy_core_public.Tvl.State.{Chain, oracle_env}
use apy_core_public.Tvl.Calls.{
  get_asset_allocation, is_asset_allocation_registered, erc20_allocation_name,
}
use apy_core_public.Tvl.Tokens.{are_registered}
use apy_core_public.LpAccount.State.{Account, Outside}

-- The `catch` of `_lockOracleAdapter`: only the refusal to shorten a lock is silenced. A revert of
-- the oracle always has a reason.
unfoldable pub silenced : View (Mapping Oracle) → Mapping Oracle → View (Mapping Oracle)
silenced (ok oracles) before = ok oracles
silenced (err reason) before = require (str_eq reason "CANNOT_SHORTEN_LOCK") reason >> ok before

-- `oracleAdapter.lockFor`, for the oracle at an address.
unfoldable pub lock_for_at : Chain → SafeMath → ℕ → ℕ → Mapping Oracle → View (Mapping Oracle)
lock_for_at c math a period oracles =
    lock_for (oracle_env c a) c.self math period (oracles a) >>= λ r. ok (update a r.1 oracles)

unfoldable pub lock_oracle_adapter :
    Chain → SafeMath → ℕ → ℕ → Mapping Oracle → View (Mapping Oracle)
lock_oracle_adapter c math registry period oracles =
    oracle_adapter_address c.env.names (c.env.registry_at registry) >>= λ a.
    silenced (lock_for_at c math a period oracles) oracles

module _ {S W : Type 0} (sets : EnumerableSet S) (o : Outside S W) where
  abbrev pub registry : Account S W → Registry
  registry s = o.chain.env.registry_at s.address_registry

  -- `_checkAllocationRegistrations`
  unfoldable pub check_allocations : List String → Account S W → View Bool
  check_allocations names s = tvl_manager_address o.chain.env.names (registry s) >>= λ m.
      ok (is_asset_allocation_registered sets o.chain names (o.manager_at m))

  -- `_checkErc20Registrations`
  unfoldable pub check_tokens : List ℕ → Account S W → View Bool
  check_tokens tokens s = tvl_manager_address o.chain.env.names (registry s) >>= λ m.
      let allocation = get_asset_allocation sets o.chain erc20_allocation_name (o.manager_at m) in
      require (o.chain.env.is_contract allocation) "call of no contract"
      >> ok (are_registered sets tokens (o.tokens_at allocation))

  -- The lookup of a zap or a swap by its name.
  abbrev pub found : Set S → String → View ℕ
  found set name = let a = get sets name set in require (not (a == 0)) "INVALID_NAME" >> ok a
