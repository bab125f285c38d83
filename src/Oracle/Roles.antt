-- ===== src/Oracle/Roles.antt =====
-- Who may change the values that the oracle gives.
use apy_core_public.Base.{ℕ, ◌≡◌, ◌⊎◌, arith}
use apy_core_public.Base.Exec.{ok}
use apy_core_public.Contract.Math.{SafeMath}
use apy_core_public.Oracle.State.{Oracle, Role, emergency_role, admin_role, contract_role, Env}
use apy_core_public.Oracle.Requests.{
  Request, lock_period, default_lock, unlock, lock_blocks, registry, asset_value, no_asset_value,
  tvl, no_tvl, tvl_source, asset_sources, asset_source, stale_period, call,
}

-- The sender passes the modifier of the role.
unfoldable pub Passes : Env → ℕ → Role → Type 0
Passes e sender role = e.only_role role sender ≡ ok tt

module _ (math : SafeMath) (e : Env) (sender : ℕ) where
  -- A transaction that succeeds is sent by one who passes for the emergency role, or else it leaves
  -- the registry, the sources and the submitted values as they were, and its sender passes for the
  -- admin role or for that of a contract.
  pub call-emergency :
      (r : Request) (s t : Oracle)
      → call math e sender r s ≡ ok (tt, t)
      → Passes e sender emergency_role
        ⊎ ((Passes e sender admin_role ⊎ Passes e sender contract_role)
            × (t ≡ record s {
              lock_end = t.lock_end;
              default_lock_period = t.default_lock_period;
              chainlink_stale_period = t.chainlink_stale_period;
            }))
  unfolding call Passes
  call-emergency (lock_period n) s t h = ground arith
  call-emergency default_lock s t h =
      ground (arith, math.add_lem e.block_number s.default_lock_period)
  call-emergency unlock s t h = ground arith
  call-emergency (lock_blocks n) s t h = ground (arith, math.add_lem e.block_number n)
  call-emergency (registry a) s t h = ground arith
  call-emergency (asset_value a v n) s t h = ground arith
  call-emergency (no_asset_value a) s t h = ground arith
  call-emergency (tvl v n) s t h = ground arith
  call-emergency no_tvl s t h = ground arith
  call-emergency (tvl_source a) s t h = ground arith
  call-emergency (asset_sources assets sources) s t h = ground arith
  call-emergency (asset_source a b) s t h = ground arith
  call-emergency (stale_period n) s t h = ground arith
