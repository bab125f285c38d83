-- ===== src/Oracle/Values.antt =====
-- The functions of OracleAdapter that give the lock, the TVL and the prices.
use apy_core_public.Base.{ℕ, ◌==◌, Bool, true, not, ltb, leb, if◌then◌else◌}
use apy_core_public.Base.Exec.{ok, err}
use apy_core_public.Base.Int.{ℤ, pos, negsuc}
use apy_core_public.Contract.Call.{View, ◌>>=◌, ◌>>◌, require}
use apy_core_public.Contract.Math.{SafeMath}
use apy_core_public.Registry.Names.{m_apt_address}
use apy_core_public.Oracle.State.{Oracle, Env}

unfoldable pub is_locked : Env → Oracle → Bool
is_locked e s = ltb e.block_number s.lock_end

unfoldable pub has_tvl_override : Env → Oracle → Bool
has_tvl_override e s = ltb e.block_number s.submitted_tvl_value.period_end

unfoldable pub has_asset_override : Env → ℕ → Oracle → Bool
has_asset_override e asset s = ltb e.block_number (s.submitted_asset_values asset).period_end

-- `require(price >= 0, "NEGATIVE_VALUE")` and the cast `uint256(price)`
abbrev pub natural : ℤ → View ℕ
natural (pos n) = ok n
natural (negsuc n) = err "NEGATIVE_VALUE"

module _ (math : SafeMath) (e : Env) where
  -- The checks of the price and the time of a round.
  unfoldable pub price_of_round : Oracle → ℤ × ℕ → View ℕ
  price_of_round s (price, updated_at) = natural price >>= λ value.
      math.sub e.timestamp updated_at >>= λ age.
      require (leb age s.chainlink_stale_period) "CHAINLINK_STALE_DATA" >> ok value

  unfoldable pub price_from_source : ℕ → Oracle → View ℕ
  price_from_source source s =
      require (e.is_contract source) "INVALID_SOURCE"
      >> e.latest_round_data source
      >>= price_of_round s

  -- `price > 0 || totalSupply() == 0`: the supply is read only where the price is zero.
  unfoldable pub zero_is_valid : ℕ → Oracle → View Bool
  zero_is_valid price s =
      if ltb 0 price
      then ok true
      else (m_apt_address e.names (e.registry_at s.address_registry) >>= λ token.
          e.total_supply token >>= λ supply. ok (supply == 0))

  unfoldable pub get_tvl : Oracle → View ℕ
  get_tvl s =
      require (not (is_locked e s)) "ORACLE_LOCKED"
      >> (if has_tvl_override e s
          then ok s.submitted_tvl_value.value
          else (price_from_source s.tvl_source s >>= λ price.
              zero_is_valid price s >>= λ valid. require valid "INVALID_ZERO_TVL" >> ok price))

  unfoldable pub get_asset_price : ℕ → Oracle → View ℕ
  get_asset_price asset s =
      require (not (is_locked e s)) "ORACLE_LOCKED"
      >> (if has_asset_override e asset s
          then ok (s.submitted_asset_values asset).value
          else (price_from_source (s.asset_sources asset) s >>= λ price.
              require (ltb 0 price) "MISSING_ASSET_VALUE" >> ok price))
