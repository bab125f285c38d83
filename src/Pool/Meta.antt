-- ===== src/Pool/Meta.antt =====
-- The mAPT that MetaPoolTokenV2 mints and burns for moves between the pools and the LP Account.
use apy_core_public.Base.{ℕ, length, ◌==◌, List, [], ◌∷◌, if◌then◌else◌}
use apy_core_public.Base.Exec.{ok, err}
use apy_core_public.Contract.Call.{View, ◌>>=◌, ◌>>◌, require}
use apy_core_public.Contract.Math.{SafeMath}
use apy_core_public.Contract.Token.{Erc20}
use apy_core_public.Pool.Amounts.{delta}

-- A transfer of an amount of a pool's underlyer: `transferToLpAccount` and `transferToPool`.
pub data Move : Type 0 where
  to_lp_account : ℕ → ℕ → Move
  to_pool : ℕ → ℕ → Move

-- The token, and the transfers that were made, the last first.
pub record Meta (T : Type 0) : Type 0 where
  pub token : T
  pub moves : List Move

-- What the other contracts do: the price and the decimals of a pool's underlyer, the TVL, the
-- transfers, and the lock of the oracle.
pub record Others : Type 0 where
  pub underlyer_price : ℕ → View ℕ
  pub decimals : ℕ → ℕ
  pub tvl : View ℕ
  pub transfer : Move → View (Unit {0})
  pub lock : View (Unit {0})

module _ (math : SafeMath) {T : Type 0} (erc20 : Erc20 T) (others : Others) where
  -- The loop of `_calculateDeltas`
  unfoldable pub each_delta : T → List ℕ → List ℕ → View (List ℕ)
  each_delta t [] amounts = ok []
  each_delta t (pool ∷ pools) [] = err "invalid opcode"
  each_delta t (pool ∷ pools) (amount ∷ amounts) = others.underlyer_price pool >>= λ price.
      delta math others.tvl (erc20.total_supply t) amount price (others.decimals pool) >>= λ d.
      each_delta t pools amounts >>= λ ds. ok (d ∷ ds)

  unfoldable pub calculate_deltas : T → List ℕ → List ℕ → View (List ℕ)
  calculate_deltas t pools amounts =
      require (length pools == length amounts) "LENGTHS_MUST_MATCH" >> each_delta t pools amounts

  unfoldable pub mint_and_transfer : ℕ → ℕ → ℕ → Meta T → View (Meta T)
  mint_and_transfer pool minted amount s =
      if minted == 0
      then ok s
      else (erc20.mint pool minted s.token >>= λ t.
          others.transfer (to_lp_account pool amount)
          >> ok (record { token = t; moves = to_lp_account pool amount ∷ s.moves }))

  unfoldable pub mint_each : List ℕ → List ℕ → List ℕ → Meta T → View (Meta T)
  mint_each [] ds amounts s = ok s
  mint_each (pool ∷ pools) [] amounts s = err "invalid opcode"
  mint_each (pool ∷ pools) (d ∷ ds) [] s = err "invalid opcode"
  mint_each (pool ∷ pools) (d ∷ ds) (amount ∷ amounts) s =
      mint_and_transfer pool d amount s >>= λ s'. mint_each pools ds amounts s'

  unfoldable pub multiple_mint_and_transfer : List ℕ → List ℕ → Meta T → View (Meta T)
  multiple_mint_and_transfer pools amounts s = calculate_deltas s.token pools amounts >>= λ ds.
      mint_each pools ds amounts s >>= λ s'. others.lock >> ok s'

  unfoldable pub burn_and_transfer : ℕ → ℕ → ℕ → Meta T → View (Meta T)
  burn_and_transfer pool burned amount s =
      if burned == 0
      then ok s
      else (erc20.burn pool burned s.token >>= λ t.
          others.transfer (to_pool pool amount)
          >> ok (record { token = t; moves = to_pool pool amount ∷ s.moves }))

  unfoldable pub burn_each : List ℕ → List ℕ → List ℕ → Meta T → View (Meta T)
  burn_each [] ds amounts s = ok s
  burn_each (pool ∷ pools) [] amounts s = err "invalid opcode"
  burn_each (pool ∷ pools) (d ∷ ds) [] s = err "invalid opcode"
  burn_each (pool ∷ pools) (d ∷ ds) (amount ∷ amounts) s =
      burn_and_transfer pool d amount s >>= λ s'. burn_each pools ds amounts s'

  unfoldable pub multiple_burn_and_transfer : List ℕ → List ℕ → Meta T → View (Meta T)
  multiple_burn_and_transfer pools amounts s = calculate_deltas s.token pools amounts >>= λ ds.
      burn_each pools ds amounts s >>= λ s'. others.lock >> ok s'
