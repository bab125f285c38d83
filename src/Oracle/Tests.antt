-- ===== src/Oracle/Tests.antt =====
-- The oracle at concrete blocks.
use apy_core_public.Base.{
  ℕ, ◌+◌, ◌==◌, ◌≡◌, refl, ◌<◌, ◌↔◌, ◌⊎◌, ltb, List, [], ◌∷◌, arith, if◌then◌else◌,
}
use apy_core_public.Base.Exec.{ok, err}
use apy_core_public.Base.Int.{pos}
use apy_core_public.Contract.Call.{View, require, update}
use apy_core_public.Contract.Math.{safe_math, check}
use apy_core_public.Registry.Calls.{Registry, get_address}
use apy_core_public.Registry.Names.{Names}
use apy_core_public.Oracle.State.{
  Oracle, Role, default_admin_role, emergency_role, admin_role, contract_role, Env,
}
use apy_core_public.Oracle.Calls.{set_each_source, configure, construct}
use apy_core_public.Oracle.Values.{
  is_locked, has_tvl_override, price_of_round, price_from_source, zero_is_valid, get_tvl,
  has_asset_override, get_asset_price,
}
use apy_core_public.Oracle.Flows.{GivesTvl, get_tvl-GivesTvl}
use apy_core_public.Oracle.Requests.{
  default_lock, unlock, lock_blocks, tvl, call, Later, Reachable, constructed, called, passed,
}
use apy_core_public.Oracle.Locks.{MovesLock, call-MovesLock}
use apy_core_public.Oracle.Sources.{IsSound, reachable-IsSound}
use apy_core_public.Oracle.Roles.{Passes, call-emergency}
use apy_core_public.Oracle.Recovery.{recovery}

abbrev names : Names
names = record {
  dai_pool = 1;
  usdc_pool = 2;
  usdt_pool = 3;
  m_apt = 4;
  lp_account = 5;
  lp_safe = 6;
  admin_safe = 7;
  emergency_safe = 8;
  oracle_adapter = 9;
  erc20_allocation = 10;
  tvl_manager = 11;
}

-- The id `n` has the address 100 + n.
abbrev platform : Registry
platform = record {
  id_list = 4 ∷ 5 ∷ 7 ∷ 8 ∷ 10 ∷ 11 ∷ [];
  id_to_address = λ id. 100 + id;
  events = [];
}

abbrev only_role : Role → ℕ → View (Unit {0})
only_role admin_role sender = require (sender == 107) "NOT_ADMIN_ROLE"
only_role contract_role sender = require (sender == 104) "NOT_CONTRACT_ROLE"
only_role role sender = require (sender == 108) "NOT_EMERGENCY_ROLE"

-- The emergency safe is 108, the admin safe 107, and the other contracts come after 200: the TVL is 0
-- at 201, and the price of the asset 301 is 7 at 202.
abbrev env : ℕ → Env
env block = record {
  block_number = block;
  timestamp = 1000 + block;
  is_contract = λ a. ltb 100 a;
  latest_round_data = λ source. if source == 201 then ok (pos 0, 1000) else ok (pos 7, 1000);
  registry_at = λ _. platform;
  names = names;
  total_supply = λ _. ok 0;
  only_role = only_role;
}

abbrev start : Oracle
start = record {
  address_registry = 200;
  default_lock_period = 10;
  lock_end = 0;
  chainlink_stale_period = 60;
  tvl_source = 201;
  asset_sources = update 301 202 (λ _. 0);
  submitted_asset_values = λ _. record { value = 0; period_end = 0 };
  submitted_tvl_value = record { value = 0; period_end = 0 };
}

abbrev roles : List (Role × ℕ)
roles =
    (default_admin_role, 108)
    ∷ (emergency_role, 108)
    ∷ (admin_role, 107)
    ∷ (contract_role, 104)
    ∷ (contract_role, 111)
    ∷ (contract_role, 105)
    ∷ (contract_role, 110)
    ∷ []

start_lem : construct (env 0) 200 201 (301 ∷ []) (202 ∷ []) 60 10 ≡ ok (roles, start)
unfolding construct configure set_each_source get_address update
start_lem = refl

zero_tvl : get_tvl safe_math (env 5) start ≡ ok 0
unfolding get_tvl is_locked has_tvl_override price_from_source price_of_round zero_is_valid check
    safe_math get_address
zero_tvl = refl

stale_tvl : get_tvl safe_math (env 61) start ≡ err "CHAINLINK_STALE_DATA"
unfolding get_tvl is_locked has_tvl_override price_from_source price_of_round zero_is_valid check
    safe_math get_address
stale_tvl = refl

asset_price : get_asset_price safe_math (env 5) 301 start ≡ ok 7
unfolding get_asset_price is_locked has_asset_override price_from_source price_of_round check
    safe_math update
asset_price = refl

get_tvl-GivesTvl_example :
    (get_tvl safe_math (env 5) start ≡ ok 0) ↔ GivesTvl safe_math (env 5) start 0
get_tvl-GivesTvl_example = get_tvl-GivesTvl safe_math (env 5) start 0

abbrev seven : ℕ
seven = 7

-- A lock for 50 blocks, and the default lock after it, which ends earlier.
abbrev locked : ℕ → Oracle
locked end = record start { lock_end = end }

lock_50 : call safe_math (env 5) 104 (lock_blocks 50) start ≡ ok (tt, locked 55)
unfolding call check safe_math
lock_50 = refl

lock_shorter : call safe_math (env 6) 104 default_lock (locked 55) ≡ ok (tt, locked 16)
unfolding call check safe_math
lock_shorter = refl

lock_not_shorter :
    call safe_math (env 6) 104 (lock_blocks 40) (locked 55) ≡ err "CANNOT_SHORTEN_LOCK"
unfolding call check safe_math
lock_not_shorter = refl

call-MovesLock_example : MovesLock (env 5) (lock_blocks 50) start (locked 55)
call-MovesLock_example =
    call-MovesLock safe_math (env 5) 104 (lock_blocks 50) start (locked 55) lock_50

Later-env : Later (env 0) (env 5)
Later-env = record { block_le = omega arith; time_le = omega arith; code_kept = λ a h. h }

reachable_5 : Reachable safe_math (env 5) (locked 55)
reachable_5 =
    called 104 (lock_blocks 50)
      (passed (constructed {roles = roles} 200 201 (301 ∷ []) (202 ∷ []) 60 10 start_lem) Later-env)
      lock_50

reachable-IsSound_example : IsSound (env 5) (locked 55)
reachable-IsSound_example = reachable-IsSound safe_math reachable_5

call-emergency_example :
    Passes (env 5) 104 emergency_role
    ⊎ ((Passes (env 5) 104 admin_role ⊎ Passes (env 5) 104 contract_role)
        × (locked 55 ≡ record start {
          lock_end = 55;
          default_lock_period = 10;
          chainlink_stale_period = 60;
        }))
call-emergency_example =
    call-emergency safe_math (env 5) 104 (lock_blocks 50) start (locked 55) lock_50

recovery_example :
    (t : Oracle) × (u : Oracle) × (call safe_math (env 5) 108 unlock (locked 55) ≡ ok (tt, t))
    × (call safe_math (env 5) 108 (tvl 9 20) t ≡ ok (tt, u))
    × ((e' : Env) → Later (env 5) e' → e'.block_number < 25 → get_tvl safe_math e' u ≡ ok 9)
recovery_example = recovery safe_math (env 5) 108 9 20 (locked 55) refl (omega arith)

abbrev submitted : ℕ → Oracle
submitted end = record start { submitted_tvl_value = record { value = 9; period_end = end } }
