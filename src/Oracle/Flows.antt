-- ===== src/Oracle/Flows.antt =====
-- When the oracle gives a value, and which one: the flows of the contract's head comment, with the
-- stale period that is set in place of its 24 hours.
use apy_core_public.Base.{ℕ, ◌-◌, ◌≡◌, ◌<◌, ◌≤◌, ◌⊎◌, ◌↔◌, true, arith}
use apy_core_public.Base.Exec.{ok, err}
use apy_core_public.Base.Int.{ℤ, pos, negsuc}
use apy_core_public.Contract.Call.{View, ◌>>=◌}
use apy_core_public.Contract.Math.{SafeMath}
use apy_core_public.Registry.Names.{m_apt_address}
use apy_core_public.Oracle.State.{Oracle, Env}
use apy_core_public.Oracle.Values.{
  is_locked, has_tvl_override, has_asset_override, price_of_round, price_from_source, zero_is_valid,
  get_tvl, get_asset_price,
}

-- The source is a contract, its latest round has the price, and the round is not stale: its time is
-- not after the block's, and not before it by more than the period.
unfoldable pub IsFresh : Env → ℕ → Oracle → ℕ → Type 0
IsFresh e source s price =
    (e.is_contract source ≡ true)
    × ((time : ℕ) × (e.latest_round_data source ≡ ok (pos price, time))
        × (time ≤ e.timestamp)
        × (e.timestamp - time ≤ s.chainlink_stale_period))

module _ (math : SafeMath) (e : Env) where
  price_of_round-ok :
      (s : Oracle) (round : View (ℤ × ℕ)) (price : ℕ)
      → (round >>= price_of_round math e s) ≡ ok price
      → (time : ℕ) × (round ≡ ok (pos price, time))
        × (time ≤ e.timestamp)
        × (e.timestamp - time ≤ s.chainlink_stale_period)
  unfolding price_of_round
  price_of_round-ok s (ok (pos n, time)) price h =
      let age = math.sub_lem e.timestamp time in
      (time, ground (arith, age), ground (arith, age), ground (arith, age))
  price_of_round-ok s (ok (negsuc n, time)) price h = ground arith
  price_of_round-ok s (err x) price h = ground arith

  price_from_source-IsFresh :
      (source : ℕ) (s : Oracle) (price : ℕ)
      → (price_from_source math e source s ≡ ok price) ↔ IsFresh e source s price
  unfolding price_from_source IsFresh price_of_round
  price_from_source-IsFresh source s price = (
    (λ h. (ground arith, price_of_round-ok s (e.latest_round_data source) price (ground arith))),
    λ f. ground (arith, f.1.1, math.sub_lem e.timestamp f.1.0),
  )

  -- The TVL of an unlocked oracle: the submitted value until its period ends, or else a price that is
  -- fresh, which is zero only where the supply of mAPT can be read and is zero.
  unfoldable pub GivesTvl : Oracle → ℕ → Type 0
  GivesTvl s v =
      (s.lock_end ≤ e.block_number)
      × (((e.block_number < s.submitted_tvl_value.period_end) × (v ≡ s.submitted_tvl_value.value))
          ⊎ ((s.submitted_tvl_value.period_end ≤ e.block_number)
              × (IsFresh e s.tvl_source s v)
              × ((0 < v)
                  ⊎ ((m_apt_address e.names (e.registry_at s.address_registry) >>= e.total_supply)
                      ≡ ok 0))))

  zero_is_valid-true :
      (price : ℕ) (s : Oracle)
      → (zero_is_valid math e price s ≡ ok true) ↔ (
          (0 < price)
          ⊎ ((m_apt_address e.names (e.registry_at s.address_registry) >>= e.total_supply) ≡ ok 0))
  unfolding zero_is_valid
  zero_is_valid-true price s = ground arith

  -- `getTvl` gives `v` where, and only where, the oracle is not locked at the block and either a value
  -- was submitted whose period has not ended, and `v` is it; or there is none, the source is a
  -- contract whose latest round has the price `v`, not negative, at a time not after the block's and
  -- not longer before it than the stale period that is set, and `v` is positive or the supply of the mAPT of the registry is zero.
  pub get_tvl-GivesTvl : (s : Oracle) (v : ℕ) → (get_tvl math e s ≡ ok v) ↔ GivesTvl s v
  unfolding get_tvl GivesTvl is_locked has_tvl_override
  get_tvl-GivesTvl s v =
      let p = price_from_source-IsFresh s.tvl_source s v in
      let z = zero_is_valid-true v s in
      ((λ h. ground (arith, p.0, z.0)), λ g. ground (arith, p.1, z.1))

  -- `getAssetPrice` gives `v` where, and only where, the oracle is not locked at the block and either a
  -- value was submitted for the asset whose period has not ended, and `v` is it; or there is none and
  -- `v` is the fresh price of the source of the asset, and positive.
  pub get_asset_price-ok :
      (asset : ℕ) (s : Oracle) (v : ℕ)
      → (get_asset_price math e asset s ≡ ok v) ↔ (
          (s.lock_end ≤ e.block_number)
          × (((e.block_number < (s.submitted_asset_values asset).period_end)
                × (v ≡ (s.submitted_asset_values asset).value))
              ⊎ (((s.submitted_asset_values asset).period_end ≤ e.block_number)
                  × (IsFresh e (s.asset_sources asset) s v)
                  × (0 < v))))
  unfolding get_asset_price is_locked has_asset_override
  get_asset_price-ok asset s v =
      let p = price_from_source-IsFresh (s.asset_sources asset) s v in
      ((λ h. ground (arith, p.0)), λ g. ground (arith, p.1))
