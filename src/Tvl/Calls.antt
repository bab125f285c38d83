-- ===== src/Tvl/Calls.antt =====
-- The functions of TvlManager. Its events are left out.
use text.Mathlib.Text.{◌==◌ as str_eq}
use apy_core_public.Base.{
  ℕ, ◌+◌, ◌-◌, ◌%◌, ◌==◌, String, Bool, true, false, not, List, [], ◌∷◌, ◌++◌, if◌then◌else◌, leb,
  ltb, replicate,
}
use apy_core_public.Base.Exec.{ok}
use apy_core_public.Contract.Call.{View, Call, ◌>>=◌, ◌>>◌, require}
use apy_core_public.Contract.Access.{only}
use apy_core_public.Contract.Math.{SafeMath, word_mod}
use apy_core_public.Contract.Enumerable.{EnumerableSet}
use apy_core_public.Registry.Names.{emergency_safe_address, admin_safe_address, lp_account_address}
use apy_core_public.Oracle.State.{Role, default_admin_role, emergency_role, admin_role}
use apy_core_public.Named.Calls.{add, remove, contains, get}
use apy_core_public.Tvl.Ids.{decode, index_ids}
use apy_core_public.Tvl.State.{Chain, Manager, named, lock_oracle_adapter}

-- `Erc20AllocationConstants.NAME`
abbrev pub erc20_allocation_name : String
erc20_allocation_name = "erc20Allocation"

module _ {S : Type 0} (sets : EnumerableSet S) (e : Chain) where
  abbrev pub set_address_registry : ℕ → Call (Manager S) (Unit {0})
  set_address_registry registry s =
      require (e.env.is_contract registry) "INVALID_ADDRESS"
      >> ok (tt, record s { address_registry = registry })

  -- The constructor: the roles that it grants come with the state.
  unfoldable pub construct : ℕ → Call (Manager S) (List (Role × ℕ))
  construct registry s = set_address_registry registry s >>= λ r.
      let registry = e.env.registry_at r.1.address_registry in
      emergency_safe_address e.env.names registry >>= λ emergency_safe.
      admin_safe_address e.env.names registry >>= λ admin_safe. ok (
        ((default_admin_role, emergency_safe)
            ∷ (emergency_role, emergency_safe)
            ∷ (admin_role, admin_safe)
            ∷ []),
        r.1,
      )

  module _ (sender : ℕ) where
    unfoldable pub emergency_set_address_registry : ℕ → Call (Manager S) (Unit {0})
    emergency_set_address_registry registry s =
        only e.has_role emergency_role sender >> set_address_registry registry s

    module _ (math : SafeMath) where
      unfoldable pub register_asset_allocation : ℕ → Call (Manager S) (Unit {0})
      register_asset_allocation asset_allocation s =
          only e.has_role admin_role sender
          >> add sets (named e) asset_allocation s.asset_allocations
          >>= λ r. lock_oracle_adapter e math s.address_registry s.oracles >>= λ oracles.
              ok (tt, record s { asset_allocations = r.1; oracles = oracles })

      unfoldable pub remove_asset_allocation : String → Call (Manager S) (Unit {0})
      remove_asset_allocation name s =
          only e.has_role admin_role sender
          >> require (not (str_eq name erc20_allocation_name)) "CANNOT_REMOVE_ALLOCATION"
          >> remove sets name s.asset_allocations
          >>= λ r. lock_oracle_adapter e math s.address_registry s.oracles >>= λ oracles.
              ok (tt, record s { asset_allocations = r.1; oracles = oracles })

  abbrev pub get_asset_allocation : String → Manager S → ℕ
  get_asset_allocation name s = get sets name s.asset_allocations

  -- The loop over the names.
  unfoldable pub is_asset_allocation_registered : List String → Manager S → Bool
  is_asset_allocation_registered [] s = true
  is_asset_allocation_registered (name ∷ names) s =
      let rest = is_asset_allocation_registered names s in
      if get sets name s.asset_allocations == 0 then false else rest

  -- The loop of `_getAssetAllocationIdCount`, whose sum is not checked.
  unfoldable pub id_count : ℕ → List ℕ → View ℕ
  id_count ids_length [] = ok ids_length
  id_count ids_length (a ∷ allocations) = (e.allocation_at a).number_of_tokens >>= λ n.
      id_count ((ids_length + n) % word_mod) allocations

  -- The loops of `_getAssetAllocationsIds`, which fill an array from an index on. The room is what
  -- is left of the array: a write behind its end reverts, and a slot that is not written stays 0.
  unfoldable pub write_ids : List ℕ → ℕ → View (List ℕ)
  write_ids [] room = ok (replicate room 0)
  write_ids (a ∷ allocations) room = (e.allocation_at a).number_of_tokens >>= λ n.
      require (ltb n 255) "TOO_MANY_TOKENS"
      >> require (leb n room) "invalid opcode"
      >> write_ids allocations (room - n)
      >>= λ ids. ok (index_ids a 0 n ++ ids)

  unfoldable pub get_asset_allocation_ids : Manager S → View (List ℕ)
  get_asset_allocation_ids s =
      let allocations = sets.values s.asset_allocations.named_addresses in
      id_count 0 allocations >>= λ ids_length. write_ids allocations ids_length

  -- `_getAssetAllocation`
  unfoldable pub allocation_of_id : ℕ → Manager S → View (ℕ × ℕ)
  allocation_of_id id s =
      let (asset_allocation, token_index) = decode id in
      require (contains sets asset_allocation s.asset_allocations) "INVALID_ASSET_ALLOCATION"
      >> (e.allocation_at asset_allocation).number_of_tokens
      >>= λ n.
          require (ltb token_index n) "INVALID_TOKEN_INDEX" >> ok (asset_allocation, token_index)

  abbrev pub balance_of : ℕ → Manager S → View ℕ
  balance_of id s = allocation_of_id id s >>= λ r.
      lp_account_address e.env.names (e.env.registry_at s.address_registry) >>= λ account.
      (e.allocation_at r.0).balance_of account r.1

  abbrev pub symbol_of : ℕ → Manager S → View String
  symbol_of id s = allocation_of_id id s >>= λ r. (e.allocation_at r.0).symbol_of r.1

  abbrev pub decimals_of : ℕ → Manager S → View ℕ
  decimals_of id s = allocation_of_id id s >>= λ r. (e.allocation_at r.0).decimals_of r.1
