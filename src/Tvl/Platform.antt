-- ===== src/Tvl/Platform.antt =====
-- A platform for tests: its addresses, its oracle and its first allocation.
use apy_core_public.Base.{ℕ, ◌+◌, ◌==◌, false, List, [], ◌∷◌, if◌then◌else◌, ltb}
use apy_core_public.Base.Int.{pos}
use apy_core_public.Base.Exec.{ok}
use apy_core_public.Contract.Call.{Mapping, update}
use apy_core_public.Contract.Enumerable.{listed}
use apy_core_public.Registry.Calls.{Registry, new, registered}
use apy_core_public.Registry.Names.{Names}
use apy_core_public.Oracle.State.{Oracle, blank, Env}
use apy_core_public.Named.Calls.{write}
use apy_core_public.Tvl.State.{Chain, Manager}
use apy_core_public.Tvl.Invariant.{deployed}

-- The addresses of the platform: the ids are their own names.
abbrev pub platform_names : Names
platform_names = record {
  dai_pool = 1;
  usdc_pool = 2;
  usdt_pool = 3;
  m_apt = 4;
  lp_account = 5;
  lp_safe = 6;
  admin_safe = 7;
  emergency_safe = 8;
  oracle_adapter = 9;
  erc20_allocation = 10;
  tvl_manager = 11;
}

-- The oracle at 109, the account at 105, and the safes.
abbrev pub platform : Registry
platform = registered 9 109 (
    registered 5 105
      (registered 7 107 (registered 8 108 (registered 4 104 (registered 11 111 new)))))

abbrev pub block_100 : Env
block_100 = record {
  block_number = 100;
  timestamp = 1000;
  is_contract = λ a. if a == 0 then false else ltb a 200;
  latest_round_data = λ a. ok (pos 5, 1000);
  registry_at = λ a. platform;
  names = platform_names;
  total_supply = λ a. ok 1;
  only_role = λ role sender. ok tt;
}

-- The account 107 has every role, and so has the contract 111 for the oracle.
abbrev pub chain : Chain
chain = record {
  env = block_100;
  self = 111;
  has_role = λ role sender. sender == 107;
  oracle_has_role = λ a role sender. sender == 111;
  name_of = λ a. ok (if a == 20 then "erc20Allocation" else "curve");
  allocation_at = λ a. record {
    number_of_tokens = ok (if a == 20 then 2 else 1);
    balance_of = λ account index. ok (account + index);
    symbol_of = λ index. ok (if index == 0 then "DAI" else "USDC");
    decimals_of = λ index. ok 18;
  };
}

-- Every oracle has a default period of 10 blocks.
abbrev pub oracles : Mapping Oracle
oracles = λ a. record blank { default_lock_period = 10 }

abbrev pub locked_oracles : Mapping Oracle
locked_oracles = update 109 (record blank { default_lock_period = 10; lock_end = 110 }) oracles

abbrev pub new_manager : Manager (List ℕ)
new_manager = deployed listed 100 oracles

abbrev pub one_allocation : Manager (List ℕ)
one_allocation = record new_manager {
  asset_allocations = record {
    named_addresses = 20 ∷ [];
    name_lookup = write "erc20Allocation" 20 (λ _. 0);
  };
  oracles = locked_oracles;
}
