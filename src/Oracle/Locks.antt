-- ===== src/Oracle/Locks.antt =====
-- The lock: how its end moves.
use apy_core_public.Base.{ℕ, ◌+◌, ◌≡◌, ◌<◌, arith}
use apy_core_public.Base.Exec.{ok}
use apy_core_public.Contract.Math.{SafeMath}
use apy_core_public.Oracle.State.{Oracle, Env}
use apy_core_public.Oracle.Sources.{set_each_source-assigned}
use apy_core_public.Oracle.Requests.{
  Request, lock_period, default_lock, unlock, lock_blocks, registry, asset_value, no_asset_value,
  tvl, no_tvl, tvl_source, asset_sources, asset_source, stale_period, call,
}

-- What a request may do to the end of the lock.
unfoldable pub MovesLock : Env → Request → Oracle → Oracle → Type 0
MovesLock e default_lock s t = t.lock_end ≡ e.block_number + s.default_lock_period
MovesLock e unlock s t = t.lock_end ≡ e.block_number
MovesLock e (lock_blocks n) s t = (t.lock_end ≡ e.block_number + n) × (s.lock_end < t.lock_end)
MovesLock e r s t = t.lock_end ≡ s.lock_end

module _ (math : SafeMath) (e : Env) (sender : ℕ) where
  -- A transaction that succeeds moves the end of the lock in three cases only: `lock` to the default
  -- period from its block, even where that is earlier; `emergencyUnlock` to its block; and `lockFor`
  -- to the period from its block, which is later than the end was. The sums are exact.
  pub call-MovesLock :
      (r : Request) (s t : Oracle) → call math e sender r s ≡ ok (tt, t) → MovesLock e r s t
  unfolding call MovesLock
  call-MovesLock (lock_period n) s t h = ground arith
  call-MovesLock default_lock s t h =
      ground (arith, math.add_lem e.block_number s.default_lock_period)
  call-MovesLock unlock s t h = ground (arith, math.add_lem e.block_number 0)
  call-MovesLock (lock_blocks n) s t h = ground (arith, math.add_lem e.block_number n)
  call-MovesLock (registry a) s t h = ground arith
  call-MovesLock (asset_value a v n) s t h = ground (arith, math.add_lem e.block_number n)
  call-MovesLock (no_asset_value a) s t h = ground arith
  call-MovesLock (tvl v n) s t h = ground (arith, math.add_lem e.block_number n)
  call-MovesLock no_tvl s t h = ground arith
  call-MovesLock (tvl_source a) s t h = ground arith
  call-MovesLock (asset_sources assets sources) s t h =
      ground (arith, set_each_source-assigned e assets sources s t)
  call-MovesLock (asset_source a b) s t h = ground arith
  call-MovesLock (stale_period n) s t h = ground arith
