-- ===== src/Registry/Names.antt =====
-- The getters of AddressRegistryV2 for the parts of the platform. The 32-byte ids stand for the
-- texts "daiPool", "usdcPool" and so on.
use apy_core_public.Base.{ℕ}
use apy_core_public.Contract.Call.{View}
use apy_core_public.Registry.Calls.{Registry, get_address}

pub record Names : Type 0 where
  pub dai_pool : ℕ
  pub usdc_pool : ℕ
  pub usdt_pool : ℕ
  pub m_apt : ℕ
  pub lp_account : ℕ
  pub lp_safe : ℕ
  pub admin_safe : ℕ
  pub emergency_safe : ℕ
  pub oracle_adapter : ℕ
  pub erc20_allocation : ℕ
  pub tvl_manager : ℕ

module _ (names : Names) (s : Registry) where
  abbrev pub dai_pool_address : View ℕ
  dai_pool_address = get_address names.dai_pool s

  abbrev pub usdc_pool_address : View ℕ
  usdc_pool_address = get_address names.usdc_pool s

  abbrev pub usdt_pool_address : View ℕ
  usdt_pool_address = get_address names.usdt_pool s

  abbrev pub m_apt_address : View ℕ
  m_apt_address = get_address names.m_apt s

  abbrev pub lp_account_address : View ℕ
  lp_account_address = get_address names.lp_account s

  abbrev pub lp_safe_address : View ℕ
  lp_safe_address = get_address names.lp_safe s

  abbrev pub admin_safe_address : View ℕ
  admin_safe_address = get_address names.admin_safe s

  abbrev pub emergency_safe_address : View ℕ
  emergency_safe_address = get_address names.emergency_safe s

  abbrev pub oracle_adapter_address : View ℕ
  oracle_adapter_address = get_address names.oracle_adapter s

  abbrev pub erc20_allocation_address : View ℕ
  erc20_allocation_address = get_address names.erc20_allocation s

  abbrev pub tvl_manager_address : View ℕ
  tvl_manager_address = get_address names.tvl_manager s

  abbrev pub chainlink_registry_address : View ℕ
  chainlink_registry_address = tvl_manager_address
