-- ===== src/Oracle/Requests.antt =====
-- The transactions of OracleAdapter as data, and the states that they reach.
use apy_core_public.Base.{ℕ, ◌≤◌, ◌≡◌, true, List}
use apy_core_public.Base.Exec.{ok}
use apy_core_public.Contract.Call.{Call}
use apy_core_public.Contract.Math.{SafeMath}
use apy_core_public.Oracle.State.{Oracle, Role, Env}
use apy_core_public.Oracle.Calls.{
  set_default_lock_period, emergency_set_address_registry, emergency_set_tvl_source,
  emergency_set_asset_sources, emergency_set_asset_source, set_chainlink_stale_period,
  emergency_unset_asset_value, emergency_unset_tvl, lock, emergency_unlock, lock_for,
  emergency_set_asset_value, emergency_set_tvl, construct,
}

pub data Request : Type 0 where
  lock_period : ℕ → Request
  default_lock : Request
  unlock : Request
  lock_blocks : ℕ → Request
  registry : ℕ → Request
  asset_value : ℕ → ℕ → ℕ → Request
  no_asset_value : ℕ → Request
  tvl : ℕ → ℕ → Request
  no_tvl : Request
  tvl_source : ℕ → Request
  asset_sources : List ℕ → List ℕ → Request
  asset_source : ℕ → ℕ → Request
  stale_period : ℕ → Request

-- A later block: its number and its time are not smaller, and a contract keeps its code.
pub record Later (e e' : Env) : Type 0 where
  pub block_le : e.block_number ≤ e'.block_number
  pub time_le : e.timestamp ≤ e'.timestamp
  pub code_kept : (a : ℕ) → e.is_contract a ≡ true → e'.is_contract a ≡ true

module _ (math : SafeMath) where
  -- The function that a request calls.
  unfoldable pub call : Env → ℕ → Request → Call Oracle (Unit {0})
  call e sender (lock_period n) = set_default_lock_period e sender n
  call e sender default_lock = lock e sender math
  call e sender unlock = emergency_unlock e sender math
  call e sender (lock_blocks n) = lock_for e sender math n
  call e sender (registry a) = emergency_set_address_registry e sender a
  call e sender (asset_value a v n) = emergency_set_asset_value e sender math a v n
  call e sender (no_asset_value a) = emergency_unset_asset_value e sender a
  call e sender (tvl v n) = emergency_set_tvl e sender math v n
  call e sender no_tvl = emergency_unset_tvl e sender
  call e sender (tvl_source a) = emergency_set_tvl_source e sender a
  call e sender (asset_sources assets sources) = emergency_set_asset_sources e sender assets sources
  call e sender (asset_source a b) = emergency_set_asset_source e sender a b
  call e sender (stale_period n) = set_chainlink_stale_period e sender n

  -- The constructor, the transactions of anyone that succeed, and the blocks that pass.
  pub data Reachable : Env → Oracle → Type 0 where
    constructed :
        {e : Env} {s : Oracle} {roles : List (Role × ℕ)} (registry_ tvl_source_ : ℕ)
        (assets sources : List ℕ) (stale default_lock_ : ℕ)
        → construct e registry_ tvl_source_ assets sources stale default_lock_ ≡ ok (roles, s)
        → Reachable e s
    called :
        {e : Env} {s t : Oracle} (sender : ℕ) (r : Request)
        → Reachable e s
        → call e sender r s ≡ ok (tt, t)
        → Reachable e t
    passed : {e e' : Env} {s : Oracle} → Reachable e s → Later e e' → Reachable e' s
