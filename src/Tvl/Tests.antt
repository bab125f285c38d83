-- ===== src/Tvl/Tests.antt =====
-- The manager and the allocation of tokens at concrete calls.
use apy_core_public.Base.{
  ◌+◌, ℕ, ◌^◌, ◌<◌, ◌==◌, ◌≡◌, ◌↔◌, refl, true, List, [], ◌∷◌, if◌then◌else◌, arith, length,
}
use apy_core_public.Base.Exec.{ok, err}
use apy_core_public.Contract.Call.{update}
use apy_core_public.Contract.Math.{safe_math, word_mod, check}
use apy_core_public.Contract.Enumerable.{listed, distinct}
use apy_core_public.Registry.Ids.{count, has_id}
use apy_core_public.Registry.Calls.{registered, get_address}
use apy_core_public.Oracle.State.{blank, admin_role, default_admin_role, emergency_role}
use apy_core_public.Named.Calls.{add, write}
use apy_core_public.Tvl.Ids.{encode, decode, address_mod, index_ids, decode-encode}
use apy_core_public.Tvl.State.{Manager, lock_oracle_adapter}
use apy_core_public.Tvl.Calls.{
  register_asset_allocation, remove_asset_allocation, get_asset_allocation_ids, id_count, write_ids,
  allocation_of_id, symbol_of, construct, erc20_allocation_name, get_asset_allocation,
}
use apy_core_public.Tvl.Locks.{registers, removes, change, change-Freezes, Freezes}
use apy_core_public.Tvl.Tokens.{Tokens, Metadata, register_token, register_with_symbol}
use apy_core_public.Tvl.Tokens as Tokens
use apy_core_public.Tvl.Data.{TokenEffect, token_change, token_change-Effect}
use apy_core_public.Tvl.Data as Data
use apy_core_public.Tvl.Listing.{Denotes}
use apy_core_public.Tvl.Totals.{HasFewTokens, get_asset_allocation_ids-succeeds}
use apy_core_public.Tvl.Invariant.{Runs, deploys, changes, Runs-ids, change-erc20}
use apy_core_public.Tvl.Platform.{
  block_100, chain, oracles, locked_oracles, new_manager, one_allocation,
}

register_first :
    change listed chain safe_math 107 (registers 20) new_manager ≡ ok (tt, one_allocation)
unfolding change register_asset_allocation add listed has_id lock_oracle_adapter get_address
    registered update safe_math check
register_first = refl

not_admin : change listed chain safe_math 105 (registers 20) new_manager ≡ err "NOT_ADMIN_ROLE"
unfolding change register_asset_allocation
not_admin = refl

no_removal :
    change listed chain safe_math 107 (removes "erc20Allocation") one_allocation
    ≡ err "CANNOT_REMOVE_ALLOCATION"
unfolding change remove_asset_allocation
no_removal = refl

ids_lem : get_asset_allocation_ids listed chain one_allocation ≡ ok (encode 20 0 ∷ encode 20 1 ∷ [])
unfolding get_asset_allocation_ids listed distinct has_id id_count write_ids index_ids
ids_lem = refl

second_symbol : symbol_of listed chain (encode 20 1) one_allocation ≡ ok "USDC"
unfolding allocation_of_id listed has_id
second_symbol = refl

no_third : symbol_of listed chain (encode 20 2) one_allocation ≡ err "INVALID_TOKEN_INDEX"
unfolding allocation_of_id listed has_id
no_third = refl

roles_lem :
    construct listed chain 100 new_manager
    ≡ ok ((default_admin_role, 108) ∷ (emergency_role, 108) ∷ (admin_role, 107) ∷ [], new_manager)
unfolding construct get_address registered update
roles_lem = refl

decode-encode_example : (encode 20 1 < word_mod) × (decode (encode 20 1) ≡ (20, 1))
decode-encode_example = decode-encode 20 1 (omega arith) (omega arith)

one-Runs : Runs listed safe_math chain one_allocation
one-Runs = changes 107 (registers 20) (deploys 100 oracles) register_first

short_addresses : (a : ℕ) → block_100.is_contract a ≡ true → a < address_mod
short_addresses a h = ground arith

-- An id whose lowest bits are set is taken for the pair, and it is not listed.
low_bits :
    (allocation_of_id listed chain (encode 20 1 + 1) one_allocation ≡ ok (20, 1))
    × (count (encode 20 1 + 1) (encode 20 0 ∷ encode 20 1 ∷ []) ≡ 0)
unfolding allocation_of_id listed has_id count
low_bits = (refl, refl)

Runs-ids_example :
    (count (encode 20 1) (encode 20 0 ∷ encode 20 1 ∷ []) < 2)
    × ((0 < count (encode 20 1) (encode 20 0 ∷ encode 20 1 ∷ []))
        ↔ ((pair : ℕ × ℕ) × Denotes listed chain one_allocation (encode 20 1) pair))
    × ((pair : ℕ × ℕ)
        → allocation_of_id listed chain (encode 20 1) one_allocation ≡ ok pair
        → 0 < count (encode pair.0 pair.1) (encode 20 0 ∷ encode 20 1 ∷ []))
Runs-ids_example =
    Runs-ids listed safe_math one-Runs refl short_addresses (encode 20 0 ∷ encode 20 1 ∷ []) ids_lem
      (encode 20 1)

one_element : length (distinct (20 ∷ [])) < 2 ^ 200
unfolding distinct has_id
one_element = omega arith

get_asset_allocation_ids-succeeds_example :
    ((ids : List ℕ) × (get_asset_allocation_ids listed chain one_allocation ≡ ok ids))
    ↔ ((a : ℕ) → has_id a (20 ∷ []) ≡ true → HasFewTokens listed chain a)
unfolding listed
get_asset_allocation_ids-succeeds_example =
    get_asset_allocation_ids-succeeds listed chain one_allocation one_element

change-Freezes_example : Freezes chain safe_math 100 oracles locked_oracles
change-Freezes_example =
    change-Freezes listed chain safe_math 107 (registers 20) new_manager one_allocation
      register_first

-- A second allocation, at 21.
abbrev two_allocations : Manager (List ℕ)
two_allocations = record one_allocation {
  asset_allocations = record {
    named_addresses = 21 ∷ 20 ∷ [];
    name_lookup = write "curve" 21 (write "erc20Allocation" 20 (λ _. 0));
  };
  oracles = update 109 (record blank { default_lock_period = 10; lock_end = 110 }) locked_oracles;
}

register_second :
    change listed chain safe_math 107 (registers 21) one_allocation ≡ ok (tt, two_allocations)
unfolding change register_asset_allocation add listed has_id lock_oracle_adapter get_address
    registered update safe_math check
register_second = refl

change-erc20_example : get_asset_allocation listed chain erc20_allocation_name two_allocations ≡ 20
change-erc20_example =
    change-erc20 listed safe_math chain 107 (registers 21) one_allocation two_allocations
      register_second refl

abbrev pub token_views : Metadata
token_views = record {
  symbol_of_token = λ a. ok "DAI";
  decimals_of_token = λ a. ok 18;
  balance_of_token = λ token account. ok 7;
}

abbrev no_tokens : Tokens (List ℕ)
no_tokens = Data.deployed listed chain 100 oracles

abbrev pub one_token : Tokens (List ℕ)
one_token = record {
  address_registry = 100;
  token_addresses = 40 ∷ [];
  token_to_data =
      λ j. if j == 40 then record { token = 40; symbol = "DAI"; decimals = 18 } else Tokens.no_data;
  oracles = locked_oracles;
}

register_dai :
    token_change listed chain token_views safe_math 107 (Data.registers_as 40 "DAI") no_tokens
    ≡ ok (tt, one_token)
unfolding token_change register_with_symbol register_token listed has_id lock_oracle_adapter
    get_address registered update safe_math check
register_dai = refl

token_change-Effect_example : TokenEffect listed chain token_views safe_math no_tokens one_token
token_change-Effect_example =
    token_change-Effect listed chain token_views safe_math 107 (Data.registers_as 40 "DAI")
      no_tokens one_token register_dai
