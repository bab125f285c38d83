-- ===== src/Tvl/Listing.antt =====
-- The ids that TvlManager lists, and those that it takes.
use apy_core_public.Base.{
  ℕ, ◌+◌, ◌-◌, ◌%◌, ◌<◌, ◌≤◌, ◌==◌, ◌≡◌, true, ◌&&◌, List, [], ◌∷◌, ◌++◌, arith, if◌then◌else◌, ltb,
  ◌↔◌, inl, inr, refl,
}
use apy_core_public.Base.Exec.{ok, err}
use apy_core_public.Contract.Call.{View-cases}
use apy_core_public.Contract.Math.{word_mod}
use apy_core_public.Contract.Enumerable.{EnumerableSet}
use apy_core_public.Registry.Ids.{count, count-append}
use apy_core_public.Named.Calls.{contains}
use apy_core_public.Tvl.Ids.{encode, decode, address_mod, index_ids, count-index_ids, decode-encode}
use apy_core_public.Tvl.State.{Chain, Manager}
use apy_core_public.Tvl.Calls.{id_count, write_ids, get_asset_allocation_ids, allocation_of_id}

module _ {S : Type 0} (sets : EnumerableSet S) (e : Chain) where
  -- The number of tokens of an allocation, which is 0 where it gives none.
  abbrev pub tokens_of : ℕ → ℕ
  tokens_of a = elim ((e.allocation_at a).number_of_tokens) [ ok n ↦ n | err r ↦ 0 ]

  unfoldable pub sum_tokens : List ℕ → ℕ
  sum_tokens [] = 0
  sum_tokens (a ∷ allocations) = tokens_of a + sum_tokens allocations

  -- How often an id is to be listed: as often as its allocation, where it has the token.
  abbrev times : ℕ → List ℕ → ℕ
  times id allocations =
      let (b, k) = decode id in
      if id == encode b k && ltb k (tokens_of b) then count b allocations else 0

  id_count-le :
      (n m : ℕ) (allocations : List ℕ)
      → id_count sets e n allocations ≡ ok m
      → m ≤ n + sum_tokens allocations
  unfolding id_count sum_tokens
  id_count-le n m [] h = ground arith
  id_count-le n m (a ∷ allocations) h = elim (View-cases ((e.allocation_at a).number_of_tokens)) [
    | inl v ↦ ground (arith, v.1, id_count-le ((n + v.0) % word_mod) m allocations)
    | inr w ↦ ground (arith, w.1)
  ]

  -- The array is long enough, and where it is not too long, its ids are the right ones.
  abbrev Fills : List ℕ → ℕ → List ℕ → Type 0
  Fills allocations room ids =
      (sum_tokens allocations ≤ room)
      × (room ≤ sum_tokens allocations → (id : ℕ) → count id ids ≡ times id allocations)

  write_more :
      (a n room : ℕ) (allocations ids ids' : List ℕ)
      → a < address_mod
      → (e.allocation_at a).number_of_tokens ≡ ok n
      → n < 255
      → n ≤ room
      → ids' ≡ index_ids a 0 n ++ ids
      → Fills allocations (room - n) ids
      → Fills (a ∷ allocations) room ids'
  unfolding sum_tokens count
  write_more a n room allocations ids ids' h number few le eq (long, right) = (
    ground (arith, number),
    λ short id. ground (
      arith,
      number,
      eq,
      right (ground (arith, number)) id,
      count-append id (index_ids a 0 n) ids,
      count-index_ids id a 0 n,
    ),
  )

  write_ids-Fills :
      (allocations : List ℕ) (room : ℕ) (ids : List ℕ)
      → ((a : ℕ) → 0 < count a allocations → a < address_mod)
      → write_ids sets e allocations room ≡ ok ids
      → Fills allocations room ids
  unfolding write_ids sum_tokens count
  write_ids-Fills [] room ids w h = (ground arith, λ le id. ground arith)
  write_ids-Fills (a ∷ allocations) room ids w h =
      elim (View-cases ((e.allocation_at a).number_of_tokens)) [
        | inl v ↦ elim (View-cases (write_ids sets e allocations (room - v.0))) [
          | inl r ↦
              write_more a v.0 room allocations r.0 ids (ground (arith, w a)) v.1
                (ground (arith, v.1)) (ground (arith, v.1)) (ground (arith, v.1, r.1))
                (write_ids-Fills allocations (room - v.0) r.0 (λ b k. ground (arith, w b)) r.1)
          | inr q ↦ absurd (ground (arith, v.1, q.1))
        ]
        | inr q ↦ absurd (ground (arith, q.1))
      ]

  -- Every address of the set has 20 bytes.
  abbrev pub HasAddresses : Manager S → Type 0
  HasAddresses s = (a : ℕ) → contains sets a s.asset_allocations ≡ true → a < address_mod

  ids-times :
      (s : Manager S) (ids : List ℕ)
      → HasAddresses s
      → get_asset_allocation_ids sets e s ≡ ok ids
      → (id : ℕ) → count id ids ≡ times id (sets.values s.asset_allocations.named_addresses)
  unfolding get_asset_allocation_ids
  ids-times s ids w h =
      let elements = sets.values s.asset_allocations.named_addresses in
      elim (View-cases (id_count sets e 0 elements)) [
        | inl v ↦
            let fills =
              write_ids-Fills elements v.0 ids
                (λ a k.
                  ground (arith, w a, sets.count-values a s.asset_allocations.named_addresses))
                (ground (arith, v.1)) in
            fills.1 (omega (arith, id_count-le 0 v.0 elements v.1))
        | inr q ↦ absurd (ground (arith, q.1))
      ]

  -- The id is an encoded pair, which the manager takes it for.
  abbrev pub Denotes : Manager S → ℕ → ℕ × ℕ → Type 0
  Denotes s id pair = (id ≡ encode pair.0 pair.1) × (allocation_of_id sets e id s ≡ ok pair)

  times-Denotes :
      (s : Manager S) (id : ℕ)
      → let n = times id (sets.values s.asset_allocations.named_addresses) in
        (n < 2) × ((0 < n) ↔ ((pair : ℕ × ℕ) × Denotes s id pair))
  unfolding allocation_of_id
  times-Denotes s id =
      let (b, k) = decode id in
      let law = sets.count-values b s.asset_allocations.named_addresses in
      elim (View-cases ((e.allocation_at b).number_of_tokens)) [
        | inl v ↦ (
          ground (arith, law),
          (
            λ h. ((b, k), (ground (arith, v.1), ground (arith, v.1, law))),
            λ h. ground (arith, v.1, law, h.1.0, h.1.1),
          ),
        )
        | inr q ↦
            (ground (arith, law), (λ h. ground (arith, q.1), λ h. ground (arith, q.1, law, h.1.1)))
      ]

  -- What is taken for a pair is taken for its encoding too, whatever stands behind the pair's bytes.
  encode-Denotes :
      (s : Manager S) (id : ℕ) (pair : ℕ × ℕ)
      → allocation_of_id sets e id s ≡ ok pair
      → Denotes s (encode pair.0 pair.1) pair
  unfolding allocation_of_id
  encode-Denotes s id pair h =
      let (b, k) = decode id in
      let again : decode (encode b k) ≡ (b, k) =
        (decode-encode b k (omega arith) (omega arith)).1 in
      elim (View-cases ((e.allocation_at b).number_of_tokens)) [
        | inl v ↦
            let found : pair ≡ (b, k) = ground (arith, v.1) in
            rw found (refl, rw again (ground (arith, v.1)))
        | inr q ↦ absurd (ground (arith, q.1))
      ]

  -- Where the addresses in the set have 20 bytes: when `getAssetAllocationIds` gives a list, no id
  -- stands in it twice, and an id stands in it exactly where it encodes an allocation and an index
  -- that `_getAssetAllocation` gives for it. Where `_getAssetAllocation` gives an allocation and an
  -- index for any id, the id that encodes them stands in it.
  pub ids-allocation_of_id :
      (s : Manager S) (ids : List ℕ)
      → HasAddresses s
      → get_asset_allocation_ids sets e s ≡ ok ids
      → (id : ℕ)
      → (count id ids < 2)
        × ((0 < count id ids) ↔ ((pair : ℕ × ℕ) × Denotes s id pair))
        × ((pair : ℕ × ℕ)
            → allocation_of_id sets e id s ≡ ok pair
            → 0 < count (encode pair.0 pair.1) ids)
  ids-allocation_of_id s ids w h id =
      let listed : (i : ℕ)
          → (count i ids < 2) × ((0 < count i ids) ↔ ((pair : ℕ × ℕ) × Denotes s i pair)) =
        λ i. rw (ids-times s ids w h i) (times-Denotes s i) in
      (
        (listed id).0,
        (listed id).1,
        λ pair g. (listed (encode pair.0 pair.1)).1.1 (pair, encode-Denotes s id pair g),
      )
