-- ===== src/Tvl/Locks.antt =====
-- The lock of the oracle after a change of the allocations or of the tokens.
use text.Mathlib.Text.{◌==◌ as str_eq}
use apy_core_public.Base.{ℕ, ◌+◌, ◌<◌, ◌==◌, ◌≡◌, false, String, arith, inl, inr}
use apy_core_public.Base.Exec.{ok, err}
use apy_core_public.Contract.Call.{Call, View-cases, Mapping, update}
use apy_core_public.Contract.Access.{only}
use apy_core_public.Contract.Math.{SafeMath}
use apy_core_public.Contract.Enumerable.{EnumerableSet}
use apy_core_public.Registry.Names.{oracle_adapter_address}
use apy_core_public.Oracle.State.{Oracle, Env, admin_role}
use apy_core_public.Oracle.Values.{is_locked, get_tvl, get_asset_price}
use apy_core_public.Named.Calls.{Set, add, remove}
use apy_core_public.Tvl.State.{Chain, Manager, named, lock_oracle_adapter}
use apy_core_public.Tvl.Calls.{
  register_asset_allocation, remove_asset_allocation, erc20_allocation_name,
}

module _ (e : Chain) (math : SafeMath) where
  -- The oracle of the registry is locked for its default period from this block, and no other oracle
  -- changes.
  abbrev pub LocksAt : ℕ → Mapping Oracle → Mapping Oracle → ℕ → Type 0
  LocksAt registry before after a =
      (oracle_adapter_address e.env.names (e.env.registry_at registry) ≡ ok a)
      × (after a
          ≡ record (before a) { lock_end = e.env.block_number + (before a).default_lock_period })
      × ((b : ℕ) → (b == a) ≡ false → after b ≡ before b)

  abbrev pub Locks : ℕ → Mapping Oracle → Mapping Oracle → Type 0
  Locks registry before after = (a : ℕ) × LocksAt registry before after a

  pub lock_oracle_adapter-Locks :
      (registry : ℕ) (before after : Mapping Oracle)
      → lock_oracle_adapter e math registry before ≡ ok after
      → Locks registry before after
  unfolding lock_oracle_adapter update
  lock_oracle_adapter-Locks registry before after h =
      elim (View-cases (oracle_adapter_address e.env.names (e.env.registry_at registry))) [
        | inl v ↦
            let period = (before v.0).default_lock_period in
            (
              v.0,
              (
                v.1,
                ground (arith, v.1, math.add_lem e.env.block_number period),
                λ b k. ground (arith, v.1, math.add_lem e.env.block_number period),
              ),
            )
        | inr q ↦ absurd (ground (arith, q.1))
      ]

  -- Until the default period is over, the oracle of the registry gives no value.
  abbrev pub FreezesAt : ℕ → Mapping Oracle → Mapping Oracle → ℕ → Type 0
  FreezesAt registry before after a =
      (oracle_adapter_address e.env.names (e.env.registry_at registry) ≡ ok a)
      × ((e' : Env) (asset : ℕ)
          → e'.block_number < e.env.block_number + (before a).default_lock_period
          → (get_tvl math e' (after a) ≡ err "ORACLE_LOCKED")
            × (get_asset_price math e' asset (after a) ≡ err "ORACLE_LOCKED"))

  abbrev pub Freezes : ℕ → Mapping Oracle → Mapping Oracle → Type 0
  Freezes registry before after = (a : ℕ) × FreezesAt registry before after a

  pub lock_oracle_adapter-Freezes :
      (registry : ℕ) (before after : Mapping Oracle)
      → lock_oracle_adapter e math registry before ≡ ok after
      → Freezes registry before after
  unfolding get_tvl get_asset_price is_locked
  lock_oracle_adapter-Freezes registry before after h =
      let (a, locks) = lock_oracle_adapter-Locks registry before after h in
      (a, (locks.0, λ e' asset k. (ground (arith, locks.1), ground (arith, locks.1))))

module _ {S : Type 0} (sets : EnumerableSet S) (e : Chain) (math : SafeMath) (sender : ℕ) where
  -- The transactions of TvlManager that change the allocations.
  pub data Change : Type 0 where
    registers : ℕ → Change
    removes : String → Change

  unfoldable pub change : Change → Call (Manager S) (Unit {0})
  change (registers a) = register_asset_allocation sets e sender math a
  change (removes name) = remove_asset_allocation sets e sender math name

  -- What a change does to the set.
  abbrev pub SetChange : Change → Set S → Set S → Type 0
  SetChange (registers a) u v = add sets (named e) a u ≡ ok (tt, v)
  SetChange (removes name) u v =
      (str_eq name erc20_allocation_name ≡ false) × (remove sets name u ≡ ok (tt, v))

  abbrev pub Parts : Change → Manager S → Manager S → Type 0
  Parts c s t =
      (only e.has_role admin_role sender ≡ ok tt)
      × SetChange c s.asset_allocations t.asset_allocations
      × (lock_oracle_adapter e math s.address_registry s.oracles ≡ ok t.oracles)
      × (t.address_registry ≡ s.address_registry)

  pub change-Parts : (c : Change) (s t : Manager S) → change c s ≡ ok (tt, t) → Parts c s t
  unfolding change register_asset_allocation remove_asset_allocation
  change-Parts (registers a) s t h = elim (View-cases (add sets (named e) a s.asset_allocations)) [
    | inl v ↦ elim (View-cases (lock_oracle_adapter e math s.address_registry s.oracles)) [
      | inl w ↦ (
        ground arith,
        ground (arith, v.1, w.1),
        ground (arith, v.1, w.1),
        ground (arith, v.1, w.1),
      )
      | inr q ↦ absurd (ground (arith, v.1, q.1))
    ]
    | inr q ↦ absurd (ground (arith, q.1))
  ]
  change-Parts (removes name) s t h = elim (View-cases (remove sets name s.asset_allocations)) [
    | inl v ↦ elim (View-cases (lock_oracle_adapter e math s.address_registry s.oracles)) [
      | inl w ↦ (
        ground arith,
        (ground arith, ground (arith, v.1, w.1)),
        ground (arith, v.1, w.1),
        ground (arith, v.1, w.1),
      )
      | inr q ↦ absurd (ground (arith, v.1, q.1))
    ]
    | inr q ↦ absurd (ground (arith, q.1))
  ]

  -- After a registration or a removal of an allocation that succeeds, and until the default lock
  -- period of the oracle of the registry is over, that oracle reverts with ORACLE_LOCKED when it is
  -- asked for the TVL or for a price.
  pub change-Freezes :
      (c : Change) (s t : Manager S)
      → change c s ≡ ok (tt, t)
      → Freezes e math s.address_registry s.oracles t.oracles
  change-Freezes c s t h =
      let (role, set, lock, same) = change-Parts c s t h in
      lock_oracle_adapter-Freezes e math s.address_registry s.oracles t.oracles lock
