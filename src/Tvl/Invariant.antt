-- ===== src/Tvl/Invariant.antt =====
-- What holds of TvlManager in every state that its transactions reach.
use text.Mathlib.TextEquality.{eq_iff}
use mathlib.Core.Path.{subst}
use apy_core_public.Base.{ℕ, ◌<◌, ◌==◌, ◌≡◌, sym, false, true, arith, List, ◌↔◌}
use apy_core_public.Base.Exec.{ok}
use apy_core_public.Contract.Call.{Mapping}
use apy_core_public.Contract.Math.{SafeMath}
use apy_core_public.Contract.Enumerable.{EnumerableSet}
use apy_core_public.Registry.Ids.{count}
use apy_core_public.Oracle.State.{Oracle}
use apy_core_public.Named.Calls.{empty}
use apy_core_public.Named.Invariant.{
  IsConsistent, Reachable, start, next, adds, removes, add-Adds, remove-Removes, Step,
  reachable-IsConsistent,
}
use apy_core_public.Tvl.Ids.{encode, address_mod}
use apy_core_public.Tvl.State.{Chain, Manager, named}
use apy_core_public.Tvl.Calls.{
  get_asset_allocation, erc20_allocation_name, get_asset_allocation_ids, allocation_of_id,
  emergency_set_address_registry,
}
use apy_core_public.Tvl.Locks as Locks
use apy_core_public.Tvl.Locks.{Change, registers, change, change-Parts}
use apy_core_public.Tvl.Listing.{Denotes, ids-allocation_of_id}

module _ {S : Type 0} (sets : EnumerableSet S) where
  -- The allocations that the set of a manager has, as it is deployed.
  abbrev pub deployed : ℕ → Mapping Oracle → Manager S
  deployed registry oracles = record {
    address_registry = registry;
    asset_allocations = empty sets;
    oracles = oracles;
  }

  -- The transactions of anyone that succeed, those of other contracts with the oracles, and the
  -- blocks that pass, in which contracts keep their code.
  pub data Runs (math : SafeMath) : Chain → Manager S → Type 0 where
    deploys :
        {e : Chain} (registry : ℕ) (oracles : Mapping Oracle)
        → Runs math e (deployed registry oracles)
    changes :
        {e : Chain} {s t : Manager S} (sender : ℕ) (c : Change sets e math sender)
        → Runs math e s
        → change sets e math sender c s ≡ ok (tt, t)
        → Runs math e t
    sets_registry :
        {e : Chain} {s t : Manager S} (sender registry : ℕ)
        → Runs math e s
        → emergency_set_address_registry sets e sender registry s ≡ ok (tt, t)
        → Runs math e t
    oracles_move :
        {e : Chain} {s : Manager S} (oracles : Mapping Oracle)
        → Runs math e s
        → Runs math e (record s { oracles = oracles })
    blocks_pass :
        {e e' : Chain} {s : Manager S} → Runs math e s → named e ≡ named e' → Runs math e' s

  module _ (math : SafeMath) where
    registry-same :
        (e : Chain) (sender registry : ℕ) (s t : Manager S)
        → emergency_set_address_registry sets e sender registry s ≡ ok (tt, t)
        → t.asset_allocations ≡ s.asset_allocations
    unfolding emergency_set_address_registry
    registry-same e sender registry s t h = ground arith

    change-Step :
        (e : Chain) (sender : ℕ) (c : Change sets e math sender) (s t : Manager S)
        → change sets e math sender c s ≡ ok (tt, t)
        → Step sets (named e) s.asset_allocations t.asset_allocations
    change-Step e sender (registers a) s t h =
        adds a (change-Parts sets e math sender (registers a) s t h).1
    change-Step e sender (Locks.removes n) s t h =
        removes n (change-Parts sets e math sender (Locks.removes n) s t h).1.1

    pub Runs-Reachable :
        {e : Chain} {s : Manager S} → Runs math e s → Reachable sets (named e) s.asset_allocations
    Runs-Reachable (deploys registry oracles) = start
    Runs-Reachable (changes {e} {s} {t} sender c r h) =
        next (Runs-Reachable r) (change-Step e sender c s t h)
    Runs-Reachable (sets_registry {e} {s} {t} sender registry r h) =
        subst (Reachable sets (named e)) (sym (registry-same e sender registry s t h))
          (Runs-Reachable r)
    Runs-Reachable (oracles_move oracles r) = Runs-Reachable r
    Runs-Reachable (blocks_pass {e} {e'} {s} r h) =
        subst (λ n. Reachable sets n s.asset_allocations) h (Runs-Reachable r)

    -- Where the zero address has no code, the addresses of contracts have 20 bytes, and contracts keep
    -- their code and their names: in every state that the transactions of TvlManager reach, when
    -- `getAssetAllocationIds` gives a list, no id stands in it twice, and an id stands in it exactly
    -- where it encodes an allocation and an index that `_getAssetAllocation` gives for it. Where
    -- `_getAssetAllocation` gives an allocation and an index for any id, the lowest bits of which may
    -- be set, the id that encodes them stands in the list.
    pub Runs-ids :
        {e : Chain} {s : Manager S}
        → Runs math e s
        → e.env.is_contract 0 ≡ false
        → ((a : ℕ) → e.env.is_contract a ≡ true → a < address_mod)
        → (ids : List ℕ) → get_asset_allocation_ids sets e s ≡ ok ids
        → (id : ℕ)
        → (count id ids < 2)
          × ((0 < count id ids) ↔ ((pair : ℕ × ℕ) × Denotes sets e s id pair))
          × ((pair : ℕ × ℕ)
              → allocation_of_id sets e id s ≡ ok pair
              → 0 < count (encode pair.0 pair.1) ids)
    unfolding IsConsistent
    Runs-ids {e} {s} r zero short ids h =
        let valid = reachable-IsConsistent sets (named e) zero (Runs-Reachable r) in
        ids-allocation_of_id sets e s ids (λ a k. short a (valid.1 a k).1.2) h

    -- No transaction of TvlManager that succeeds takes the name "erc20Allocation" from an allocation
    -- that has it.
    pub change-erc20 :
        (e : Chain) (sender : ℕ) (c : Change sets e math sender) (s t : Manager S)
        → change sets e math sender c s ≡ ok (tt, t)
        → (get_asset_allocation sets e erc20_allocation_name s == 0) ≡ false
        → get_asset_allocation sets e erc20_allocation_name t
          ≡ get_asset_allocation sets e erc20_allocation_name s
    change-erc20 e sender (registers a) s t h k =
        let parts = change-Parts sets e math sender (registers a) s t h in
        let (n, added) =
          add-Adds sets (named e) a s.asset_allocations t.asset_allocations parts.1 in
        ground (arith, added.5, added.4, (eq_iff erc20_allocation_name n).0)
    change-erc20 e sender (Locks.removes n) s t h k =
        let parts = change-Parts sets e math sender (Locks.removes n) s t h in
        let removed =
          remove-Removes sets (named e) n s.asset_allocations t.asset_allocations parts.1.1 in
        ground (
          arith,
          removed.1,
          parts.1.0,
          (eq_iff erc20_allocation_name n).0,
          (eq_iff n erc20_allocation_name).1,
        )
