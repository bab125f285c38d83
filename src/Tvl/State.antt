-- ===== src/Tvl/State.antt =====
-- The storage of TvlManager and of the oracles that it locks, and what a call reads of the chain.
-- The contracts of the registry's addresses are taken to be there, and `nonReentrant` has no part:
-- nothing that is called here calls back.
use apy_core_public.Base.{ℕ, String}
use apy_core_public.Base.Exec.{ok}
use apy_core_public.Contract.Call.{View, ◌>>=◌, Mapping, update}
use apy_core_public.Contract.Access.{HasRole, only}
use apy_core_public.Contract.Math.{SafeMath}
use apy_core_public.Registry.Names.{oracle_adapter_address}
use apy_core_public.Oracle.State.{Oracle, Env}
use apy_core_public.Oracle.Calls.{lock}
use apy_core_public.Named.Calls.{Set, Named}

-- An allocation, as its interface gives it to the manager.
pub record Allocation : Type 0 where
  pub number_of_tokens : View ℕ
  -- of an account, by the index of a token
  pub balance_of : ℕ → ℕ → View ℕ
  pub symbol_of : ℕ → View String
  pub decimals_of : ℕ → View ℕ

pub record Chain : Type 0 where
  pub env : Env
  -- the address of the contract that is called
  pub self : ℕ
  -- `hasRole` of this contract, and of the oracle at an address
  pub has_role : HasRole
  pub oracle_has_role : ℕ → HasRole
  -- `NAME()` and the allocation at an address
  pub name_of : ℕ → View String
  pub allocation_at : ℕ → Allocation

abbrev pub named : Chain → Named
named e = record { is_contract = e.env.is_contract; name_of = e.name_of }

-- What the oracle at an address reads.
abbrev pub oracle_env : Chain → ℕ → Env
oracle_env e a = record e.env { only_role = only (e.oracle_has_role a) }

pub record Manager (S : Type 0) : Type 0 where
  pub address_registry : ℕ
  pub asset_allocations : Set S
  -- the storage of the oracle at an address
  pub oracles : Mapping Oracle

-- `_lockOracleAdapter`, for the registry at an address.
unfoldable pub lock_oracle_adapter : Chain → SafeMath → ℕ → Mapping Oracle → View (Mapping Oracle)
lock_oracle_adapter e math registry oracles =
    oracle_adapter_address e.env.names (e.env.registry_at registry) >>= λ a.
    lock (oracle_env e a) e.self math (oracles a) >>= λ r. ok (update a r.1 oracles)
