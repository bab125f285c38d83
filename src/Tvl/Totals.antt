-- ===== src/Tvl/Totals.antt =====
-- When TvlManager gives its ids.
use apy_core_public.Base.{
  ℕ, ◌+◌, ◌-◌, ◌*◌, ◌^◌, ◌<◌, ◌==◌, ◌≡◌, refl, true, List, [], ◌∷◌, ◌++◌, arith, ◌↔◌, inl, inr,
  length, Bool-cases,
}
use apy_core_public.Base.Exec.{ok}
use apy_core_public.Contract.Call.{View-cases}
use apy_core_public.Contract.Math.{word_mod}
use apy_core_public.Contract.Enumerable.{EnumerableSet}
use apy_core_public.Registry.Ids.{count}
use apy_core_public.Named.Calls.{contains}
use apy_core_public.Tvl.Ids.{index_ids}
use apy_core_public.Tvl.State.{Chain, Manager}
use apy_core_public.Tvl.Calls.{id_count, write_ids, get_asset_allocation_ids}
use apy_core_public.Tvl.Listing.{sum_tokens}

module _ {S : Type 0} (sets : EnumerableSet S) (e : Chain) where
  -- The allocation says how many tokens it has, and these are fewer than 255.
  abbrev pub HasFewTokens : ℕ → Type 0
  HasFewTokens a = (n : ℕ) × ((e.allocation_at a).number_of_tokens ≡ ok n) × (n < 255)

  -- Every element satisfies it.
  abbrev AllFew : List ℕ → Type 0
  AllFew allocations = (a : ℕ) → 0 < count a allocations → HasFewTokens a

  tail_few : (a : ℕ) (allocations : List ℕ) → AllFew (a ∷ allocations) → AllFew allocations
  unfolding count
  tail_few a allocations few b h = few b (ground arith)

  head_few : (a : ℕ) (allocations : List ℕ) → AllFew (a ∷ allocations) → HasFewTokens a
  unfolding count
  head_few a allocations few = few a (ground arith)

  id_count-sum_tokens :
      (m : ℕ) (allocations : List ℕ)
      → AllFew allocations
      → m + 255 * length allocations < word_mod
      → id_count sets e m allocations ≡ ok (m + sum_tokens sets e allocations)
  unfolding id_count sum_tokens
  id_count-sum_tokens m [] few h = ground arith
  id_count-sum_tokens m (a ∷ allocations) few h =
      let (n, number, le) = head_few a allocations few in
      ground (arith, number, id_count-sum_tokens (m + n) allocations (tail_few a allocations few))

  write_ids-succeeds :
      (allocations : List ℕ)
      → AllFew allocations
      → (ids : List ℕ) × (write_ids sets e allocations (sum_tokens sets e allocations) ≡ ok ids)
  unfolding write_ids sum_tokens
  write_ids-succeeds [] few = ([], refl)
  write_ids-succeeds (a ∷ allocations) few =
      let (n, number, le) = head_few a allocations few in
      let (ids, run) = write_ids-succeeds allocations (tail_few a allocations few) in
      (index_ids a 0 n ++ ids, ground (arith, number, run))

  write_ids-AllFew :
      (allocations : List ℕ) (room : ℕ) (ids : List ℕ)
      → write_ids sets e allocations room ≡ ok ids
      → AllFew allocations
  unfolding write_ids count
  write_ids-AllFew [] room ids h b k = absurd (ground arith)
  write_ids-AllFew (a ∷ allocations) room ids h b k =
      elim (View-cases ((e.allocation_at a).number_of_tokens)) [
        | inl v ↦ elim (View-cases (write_ids sets e allocations (room - v.0))) [
          | inl r ↦ elim (Bool-cases (b == a)) [
            | inl same ↦ (v.0, ground (arith, v.1), ground (arith, v.1))
            | inr other ↦ write_ids-AllFew allocations (room - v.0) r.0 r.1 b (ground arith)
          ]
          | inr q ↦ absurd (ground (arith, v.1, q.1))
        ]
        | inr q ↦ absurd (ground (arith, q.1))
      ]

  -- Where the set has fewer than 2^200 allocations: `getAssetAllocationIds` gives a list exactly
  -- where every allocation in the set gives its number of tokens and has fewer than 255 of them.
  pub get_asset_allocation_ids-succeeds :
      (s : Manager S)
      → length (sets.values s.asset_allocations.named_addresses) < 2 ^ 200
      → ((ids : List ℕ) × (get_asset_allocation_ids sets e s ≡ ok ids))
        ↔ ((a : ℕ) → contains sets a s.asset_allocations ≡ true → HasFewTokens a)
  unfolding get_asset_allocation_ids
  get_asset_allocation_ids-succeeds s h =
      let elements = sets.values s.asset_allocations.named_addresses in
      let law = λ (a : ℕ). sets.count-values a s.asset_allocations.named_addresses in
      (
        λ (ids, run) a k. elim (View-cases (id_count sets e 0 elements)) [
          | inl v ↦
              write_ids-AllFew elements v.0 ids (ground (arith, v.1)) a (ground (arith, law a))
          | inr q ↦ absurd (ground (arith, q.1))
        ],
        λ few.
            let all = λ (a : ℕ) (k : 0 < count a elements). few a (ground (arith, law a)) in
            let (ids, run) = write_ids-succeeds elements all in
            (ids, ground (arith, run, id_count-sum_tokens 0 elements all)),
      )
