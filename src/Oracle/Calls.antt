-- ===== src/Oracle/Calls.antt =====
-- The functions of OracleAdapter that change its storage.
use apy_core_public.Base.{ℕ, length, ◌==◌, not, ltb, List, [], ◌∷◌, if◌then◌else◌}
use apy_core_public.Base.Exec.{ok, err}
use apy_core_public.Contract.Call.{View, Call, ◌>>=◌, ◌>>◌, require, update}
use apy_core_public.Contract.Math.{SafeMath}
use apy_core_public.Registry.Names.{
  emergency_safe_address, admin_safe_address, m_apt_address, tvl_manager_address,
  lp_account_address, erc20_allocation_address,
}
use apy_core_public.Oracle.State.{
  Oracle, blank, Role, default_admin_role, emergency_role, admin_role, contract_role, Env,
}

abbrev pub done : Oracle → View (Unit {0} × Oracle)
done s = ok (tt, s)

abbrev pub set_default_lock_period_to : ℕ → Oracle → View (Unit {0} × Oracle)
set_default_lock_period_to new_period s = done (record s { default_lock_period = new_period })

module _ (e : Env) where
  abbrev pub set_address_registry : ℕ → Call Oracle (Unit {0})
  set_address_registry registry s =
      require (e.is_contract registry) "INVALID_ADDRESS"
      >> done (record s { address_registry = registry })

  abbrev pub set_stale_period : ℕ → Call Oracle (Unit {0})
  set_stale_period period s =
      require (ltb 0 period) "INVALID_STALE_PERIOD"
      >> done (record s { chainlink_stale_period = period })

  abbrev pub set_tvl_source : ℕ → Call Oracle (Unit {0})
  set_tvl_source source s =
      require (e.is_contract source) "INVALID_SOURCE" >> done (record s { tvl_source = source })

  abbrev pub set_asset_source : ℕ → ℕ → Call Oracle (Unit {0})
  set_asset_source asset source s =
      require (e.is_contract source) "INVALID_SOURCE"
      >> done (record s { asset_sources = update asset source s.asset_sources })

  -- The loop over the assets. Reading `sources` out of its bounds reverts.
  unfoldable pub set_each_source : List ℕ → List ℕ → Call Oracle (Unit {0})
  set_each_source [] sources s = done s
  set_each_source (asset ∷ assets) [] s = err "invalid opcode"
  set_each_source (asset ∷ assets) (source ∷ sources) s =
      set_asset_source asset source s >>= λ r. set_each_source assets sources r.1

  abbrev pub set_asset_sources : List ℕ → List ℕ → Call Oracle (Unit {0})
  set_asset_sources assets sources s =
      require (length assets == length sources) "INCONSISTENT_PARAMS_LENGTH"
      >> set_each_source assets sources s

  -- The calls for the sender of a transaction.
  module _ (sender : ℕ) where
    abbrev pub set_default_lock_period : ℕ → Call Oracle (Unit {0})
    set_default_lock_period new_period s =
        e.only_role admin_role sender >> set_default_lock_period_to new_period s

    abbrev pub emergency_set_address_registry : ℕ → Call Oracle (Unit {0})
    emergency_set_address_registry registry s =
        e.only_role emergency_role sender >> set_address_registry registry s

    abbrev pub emergency_set_tvl_source : ℕ → Call Oracle (Unit {0})
    emergency_set_tvl_source source s = e.only_role emergency_role sender >> set_tvl_source source s

    abbrev pub emergency_set_asset_sources : List ℕ → List ℕ → Call Oracle (Unit {0})
    emergency_set_asset_sources assets sources s =
        e.only_role emergency_role sender >> set_asset_sources assets sources s

    abbrev pub emergency_set_asset_source : ℕ → ℕ → Call Oracle (Unit {0})
    emergency_set_asset_source asset source s =
        e.only_role emergency_role sender >> set_asset_source asset source s

    abbrev pub set_chainlink_stale_period : ℕ → Call Oracle (Unit {0})
    set_chainlink_stale_period period s = e.only_role admin_role sender >> set_stale_period period s

    abbrev pub emergency_unset_asset_value : ℕ → Call Oracle (Unit {0})
    emergency_unset_asset_value asset s =
        let old = s.submitted_asset_values asset in
        e.only_role emergency_role sender
        >> require (not (old.period_end == 0)) "NO_ASSET_VALUE_SET"
        >> done (record s {
          submitted_asset_values = λ j.
              if j == asset
              then record { value = old.value; period_end = e.block_number }
              else s.submitted_asset_values j;
        })

    abbrev pub emergency_unset_tvl : Call Oracle (Unit {0})
    emergency_unset_tvl s =
        e.only_role emergency_role sender
        >> require (not (s.submitted_tvl_value.period_end == 0)) "NO_TVL_SET"
        >> done (record s {
          submitted_tvl_value = record {
            value = s.submitted_tvl_value.value;
            period_end = e.block_number;
          };
        })

    module _ (math : SafeMath) where
      abbrev pub lock_until : ℕ → Call Oracle (Unit {0})
      lock_until active_period s =
          math.add e.block_number active_period >>= λ end. done (record s { lock_end = end })

      abbrev pub lock : Call Oracle (Unit {0})
      lock s = e.only_role contract_role sender >> lock_until s.default_lock_period s

      abbrev pub emergency_unlock : Call Oracle (Unit {0})
      emergency_unlock s = e.only_role emergency_role sender >> lock_until 0 s

      abbrev pub lock_for : ℕ → Call Oracle (Unit {0})
      lock_for active_period s =
          e.only_role contract_role sender >> lock_until active_period s >>= λ r.
          require (ltb s.lock_end r.1.lock_end) "CANNOT_SHORTEN_LOCK" >> ok r

      abbrev pub emergency_set_asset_value : ℕ → ℕ → ℕ → Call Oracle (Unit {0})
      emergency_set_asset_value asset new_value period s =
          e.only_role emergency_role sender >> math.add e.block_number period >>= λ end.
          done (record s {
            submitted_asset_values = λ j.
                if j == asset
                then record { value = new_value; period_end = end }
                else s.submitted_asset_values j;
          })

      abbrev pub emergency_set_tvl : ℕ → ℕ → Call Oracle (Unit {0})
      emergency_set_tvl new_value period s =
          e.only_role emergency_role sender >> math.add e.block_number period >>= λ end.
          done (record s { submitted_tvl_value = record { value = new_value; period_end = end } })

-- The state after the first steps of the constructor.
unfoldable pub configure : Env → ℕ → ℕ → List ℕ → List ℕ → ℕ → ℕ → View (Unit {0} × Oracle)
configure e registry tvl_source assets sources stale_period lock_period =
    set_address_registry e registry blank >>= λ a. set_tvl_source e tvl_source a.1 >>= λ b.
    set_asset_sources e assets sources b.1 >>= λ c.
    set_stale_period e stale_period c.1 >>= λ d. set_default_lock_period_to lock_period d.1

-- The constructor: the roles that it grants come with the state.
unfoldable pub construct : Env → ℕ → ℕ → List ℕ → List ℕ → ℕ → ℕ → View (List (Role × ℕ) × Oracle)
construct e registry tvl_source assets sources stale_period lock_period =
    configure e registry tvl_source assets sources stale_period lock_period >>= λ r.
    let names = e.names in
    let registry = e.registry_at r.1.address_registry in
    emergency_safe_address names registry >>= λ emergency_safe.
    admin_safe_address names registry >>= λ admin_safe. m_apt_address names registry >>= λ m_apt.
    tvl_manager_address names registry >>= λ tvl_manager.
    lp_account_address names registry >>= λ lp_account.
    erc20_allocation_address names registry >>= λ erc20_allocation. ok (
      ((default_admin_role, emergency_safe)
          ∷ (emergency_role, emergency_safe)
          ∷ (admin_role, admin_safe)
          ∷ (contract_role, m_apt)
          ∷ (contract_role, tvl_manager)
          ∷ (contract_role, lp_account)
          ∷ (contract_role, erc20_allocation)
          ∷ []),
      r.1,
    )
