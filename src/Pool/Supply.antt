-- ===== src/Pool/Supply.antt =====
-- What a whole batch of moves does to the supply of mAPT, and which transfers it makes.
use apy_core_public.Base.{
  ℕ, length, ◌+◌, ◌==◌, ◌≡◌, ap, ◌∙◌, inl, inr, List, [], ◌∷◌, arith, if◌then◌else◌,
}
use apy_core_public.Base.Exec.{ok}
use apy_core_public.Contract.Call.{View-cases}
use apy_core_public.Contract.Math.{SafeMath}
use apy_core_public.Contract.Token.{Erc20}
use apy_core_public.Pool.Moves.{sum}
use apy_core_public.Pool.Meta.{
  Move, to_lp_account, to_pool, Meta, Others, each_delta, calculate_deltas, mint_and_transfer,
  mint_each, multiple_mint_and_transfer, burn_and_transfer, burn_each, multiple_burn_and_transfer,
}

-- The transfers of a batch: those whose share is not zero, the last first.
unfoldable pub moved : (ℕ → ℕ → Move) → List ℕ → List ℕ → List ℕ → List Move → List Move
moved move (pool ∷ pools) (d ∷ ds) (amount ∷ amounts) moves =
    moved move pools ds amounts (if d == 0 then moves else move pool amount ∷ moves)
moved move _ _ _ moves = moves

module _ (math : SafeMath) {T : Type 0} (erc20 : Erc20 T) (others : Others) where
  each_delta-length :
      (t : T) (pools amounts ds : List ℕ)
      → each_delta math erc20 others t pools amounts ≡ ok ds
      → length ds ≡ length pools
  unfolding each_delta
  each_delta-length t [] amounts ds h = ground arith
  each_delta-length t (pool ∷ pools) [] ds h = ground arith
  each_delta-length t (pool ∷ pools) (amount ∷ amounts) ds h =
      elim (View-cases (each_delta math erc20 others t pools amounts)) [
        | inl r ↦ ground (arith, r.1, each_delta-length t pools amounts r.0 r.1)
        | inr e ↦ ground (arith, e.1)
      ]

  calculate_deltas-length :
      (t : T) (pools amounts ds : List ℕ)
      → calculate_deltas math erc20 others t pools amounts ≡ ok ds
      → length ds ≡ length pools
  unfolding calculate_deltas
  calculate_deltas-length t pools amounts ds h =
      ground (arith, each_delta-length t pools amounts ds)

  mint_and_transfer_lem :
      (pool d amount : ℕ) (s s' : Meta T)
      → mint_and_transfer math erc20 others pool d amount s ≡ ok s'
      → (erc20.total_supply s'.token ≡ erc20.total_supply s.token + d)
        × (s'.moves ≡ (if d == 0 then s.moves else to_lp_account pool amount ∷ s.moves))
  unfolding mint_and_transfer
  mint_and_transfer_lem pool d amount s s' h = elim (View-cases (erc20.mint pool d s.token)) [
    | inl t ↦ ground (arith, t.1, erc20.mint_supply pool d s.token t.0 t.1)
    | inr e ↦ ground (arith, e.1)
  ]

  mint_each_lem :
      (pools ds amounts : List ℕ) (s s' : Meta T)
      → length ds ≡ length pools
      → mint_each math erc20 others pools ds amounts s ≡ ok s'
      → (erc20.total_supply s'.token ≡ erc20.total_supply s.token + sum ds)
        × (s'.moves ≡ moved to_lp_account pools ds amounts s.moves)
  unfolding mint_each sum moved
  mint_each_lem [] [] amounts s s' l h = ground arith
  mint_each_lem [] (d ∷ ds) amounts s s' l h = ground arith
  mint_each_lem (pool ∷ pools) [] amounts s s' l h = ground arith
  mint_each_lem (pool ∷ pools) (d ∷ ds) [] s s' l h = ground arith
  mint_each_lem (pool ∷ pools) (d ∷ ds) (amount ∷ amounts) s s' l h =
      elim (View-cases (mint_and_transfer math erc20 others pool d amount s)) [
        | inl m ↦
            let one = mint_and_transfer_lem pool d amount s m.0 m.1 in
            let rest = mint_each_lem pools ds amounts m.0 s' (omega arith) (ground (arith, m.1)) in
            (omega (arith, one.0, rest.0), rest.1 ∙ ap (moved to_lp_account pools ds amounts) one.1)
        | inr e ↦ ground (arith, e.1)
      ]

  burn_and_transfer_lem :
      (pool d amount : ℕ) (s s' : Meta T)
      → burn_and_transfer math erc20 others pool d amount s ≡ ok s'
      → (erc20.total_supply s'.token + d ≡ erc20.total_supply s.token)
        × (s'.moves ≡ (if d == 0 then s.moves else to_pool pool amount ∷ s.moves))
  unfolding burn_and_transfer
  burn_and_transfer_lem pool d amount s s' h = elim (View-cases (erc20.burn pool d s.token)) [
    | inl t ↦ ground (arith, t.1, erc20.burn_supply pool d s.token t.0 t.1)
    | inr e ↦ ground (arith, e.1)
  ]

  burn_each_lem :
      (pools ds amounts : List ℕ) (s s' : Meta T)
      → length ds ≡ length pools
      → burn_each math erc20 others pools ds amounts s ≡ ok s'
      → (erc20.total_supply s'.token + sum ds ≡ erc20.total_supply s.token)
        × (s'.moves ≡ moved to_pool pools ds amounts s.moves)
  unfolding burn_each sum moved
  burn_each_lem [] [] amounts s s' l h = ground arith
  burn_each_lem [] (d ∷ ds) amounts s s' l h = ground arith
  burn_each_lem (pool ∷ pools) [] amounts s s' l h = ground arith
  burn_each_lem (pool ∷ pools) (d ∷ ds) [] s s' l h = ground arith
  burn_each_lem (pool ∷ pools) (d ∷ ds) (amount ∷ amounts) s s' l h =
      elim (View-cases (burn_and_transfer math erc20 others pool d amount s)) [
        | inl m ↦
            let one = burn_and_transfer_lem pool d amount s m.0 m.1 in
            let rest = burn_each_lem pools ds amounts m.0 s' (omega arith) (ground (arith, m.1)) in
            (omega (arith, one.0, rest.0), rest.1 ∙ ap (moved to_pool pools ds amounts) one.1)
        | inr e ↦ ground (arith, e.1)
      ]

  -- A funding of the LP Account that succeeds mints for every pool the share that is computed from the
  -- supply before the first of them: the supply grows by the sum of the shares, and the transfers are
  -- those of the amounts whose share is not zero, in the order of the pools.
  pub multiple_mint_and_transfer-supply :
      (pools amounts : List ℕ) (s s' : Meta T)
      → multiple_mint_and_transfer math erc20 others pools amounts s ≡ ok s'
      → (ds : List ℕ) × (calculate_deltas math erc20 others s.token pools amounts ≡ ok ds)
        × (erc20.total_supply s'.token ≡ erc20.total_supply s.token + sum ds)
        × (s'.moves ≡ moved to_lp_account pools ds amounts s.moves)
  unfolding multiple_mint_and_transfer
  multiple_mint_and_transfer-supply pools amounts s s' h =
      elim (View-cases (calculate_deltas math erc20 others s.token pools amounts)) [
        | inl c ↦
            let same = calculate_deltas-length s.token pools amounts c.0 c.1 in
            let all = mint_each_lem pools c.0 amounts s s' same (ground (arith, c.1)) in
            (c.0, c.1, all.0, all.1)
        | inr e ↦ ground (arith, e.1)
      ]

  -- A withdrawal from the LP Account that succeeds burns for every pool the share that is computed
  -- from the supply before the first of them: the supply shrinks by the sum of the shares, and the
  -- transfers are those of the amounts whose share is not zero, in the order of the pools.
  pub multiple_burn_and_transfer-supply :
      (pools amounts : List ℕ) (s s' : Meta T)
      → multiple_burn_and_transfer math erc20 others pools amounts s ≡ ok s'
      → (ds : List ℕ) × (calculate_deltas math erc20 others s.token pools amounts ≡ ok ds)
        × (erc20.total_supply s'.token + sum ds ≡ erc20.total_supply s.token)
        × (s'.moves ≡ moved to_pool pools ds amounts s.moves)
  unfolding multiple_burn_and_transfer
  multiple_burn_and_transfer-supply pools amounts s s' h =
      elim (View-cases (calculate_deltas math erc20 others s.token pools amounts)) [
        | inl c ↦
            let same = calculate_deltas-length s.token pools amounts c.0 c.1 in
            let all = burn_each_lem pools c.0 amounts s s' same (ground (arith, c.1)) in
            (c.0, c.1, all.0, all.1)
        | inr e ↦ ground (arith, e.1)
      ]
