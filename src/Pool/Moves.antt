-- ===== src/Pool/Moves.antt =====
-- The moves between the pools and the LP Account, and the shares of mAPT.
use apy_core_public.Base.{
  ℕ, length, ◌+◌, ◌*◌, ◌/◌, ◌≡◌, refl, ap, sym, ◌<◌, ◌≤◌, ◌⊎◌, inl, inr, List, [], ◌∷◌, arith,
}
use mathlib.Core.Path.{subst}
use native.Mathlib.Nat.{mul-div-le, mul-le-mul_left, le_of_mul-le-mul_left}
use apy_core_public.Base.Exec.{ok}
use apy_core_public.Base.Int.{ℤ, pos, negsuc, pos_part, neg_part}
use apy_core_public.Contract.Call.{View, ◌>>=◌, View-cases}
use apy_core_public.Contract.Math.{SafeMath}
use apy_core_public.Pool.Amounts.{
  ten_to, deployed_value, delta, fund_amount, fund_amounts, withdraw_amount, withdraw_amounts,
}

-- What is moved for each pool: the deficit as far as the balance goes, or the excess.
unfoldable pub IsSplit : List ℤ → List ℕ → List ℕ → List ℕ → Type 0
IsSplit [] balances ws fs = (ws ≡ []) × (fs ≡ [])
IsSplit (a ∷ rest_amounts) (b ∷ bs) (w ∷ ws) (f ∷ fs) =
    (w ≤ b)
    × (w ≤ pos_part a)
    × ((w ≡ b) ⊎ (w ≡ pos_part a))
    × (f ≡ neg_part a)
    × ((w ≡ 0) ⊎ (f ≡ 0))
    × IsSplit rest_amounts bs ws fs
IsSplit _ _ _ _ = ⊥

one-IsSplit :
    (a : ℤ) (b : ℕ)
    → let w = withdraw_amount a b in
      (w ≤ b)
      × (w ≤ pos_part a)
      × ((w ≡ b) ⊎ (w ≡ pos_part a))
      × (fund_amount a ≡ neg_part a)
      × ((w ≡ 0) ⊎ (fund_amount a ≡ 0))
one-IsSplit (pos n) b = ground arith
one-IsSplit (negsuc n) b = ground arith

-- Where there is a balance for every amount, `_calculateAmountsToWithdraw` gives for every pool the
-- least of its deficit and the balance of the LP Account, and zero where there is no deficit;
-- `_getFundAmounts` gives the excess, and zero where there is none: no pool is both topped up and
-- drawn on.
pub withdraw_amounts-IsSplit :
    (amounts : List ℤ) (balances : List ℕ)
    → length amounts ≤ length balances
    → (ws : List ℕ) × (withdraw_amounts amounts balances ≡ ok ws)
      × IsSplit amounts balances ws (fund_amounts amounts)
unfolding withdraw_amounts fund_amounts IsSplit
withdraw_amounts-IsSplit [] balances h = ([], refl, (refl, refl))
withdraw_amounts-IsSplit (a ∷ amounts) [] h = ground arith
withdraw_amounts-IsSplit (a ∷ amounts) (b ∷ balances) h =
    let (ws, e, rest) = withdraw_amounts-IsSplit amounts balances (omega arith) in
    let (x, y, z, u, v) = one-IsSplit a b in
    (withdraw_amount a b ∷ ws, ground (arith, e), (x, y, z, u, v, rest))

unfoldable pub sum : List ℕ → ℕ
sum [] = 0
sum (n ∷ ns) = n + sum ns

add_shares :
    (supply total v vs b bs values : ℕ)
    → values ≡ v + vs
    → supply * v ≤ total * b
    → supply * vs ≤ total * bs
    → supply * values ≤ total * (b + bs)
add_shares supply total v vs b bs values e h k =
    subst (λ x. supply * x ≤ total * (b + bs)) (sym e) (omega arith)

module _ (math : SafeMath) where
  -- The deployed values of the pools with these balances of mAPT.
  unfoldable pub deployed_values : View ℕ → ℕ → List ℕ → View (List ℕ)
  deployed_values tvl supply [] = ok []
  deployed_values tvl supply (balance ∷ balances) =
      deployed_value math tvl balance supply >>= λ value.
      deployed_values tvl supply balances >>= λ rest. ok (value ∷ rest)

  deployed_value-le :
      (total balance supply value : ℕ)
      → deployed_value math (ok total) balance supply ≡ ok value
      → supply * value ≤ total * balance
  unfolding deployed_value
  deployed_value-le total balance supply value h = ground (
    arith,
    math.mul_lem total balance,
    math.div_lem (total * balance) supply,
    mul-div-le (total * balance) supply,
  )

  deployed_values-le :
      (total supply : ℕ) (balances values : List ℕ)
      → deployed_values (ok total) supply balances ≡ ok values
      → supply * sum values ≤ total * sum balances
  unfolding deployed_values sum
  deployed_values-le total supply [] values h = ground arith
  deployed_values-le total supply (balance ∷ balances) values h =
      elim (View-cases (deployed_value math (ok total) balance supply)) [
        | inl v ↦ elim (View-cases (deployed_values (ok total) supply balances)) [
          | inl vs ↦
              let shape : values ≡ v.0 ∷ vs.0 = ground (arith, v.1, vs.1) in
              add_shares supply total v.0 (sum vs.0) balance (sum balances) (sum values)
                (ap sum shape) (deployed_value-le total balance supply v.0 v.1)
                (deployed_values-le total supply balances vs.0 vs.1)
          | inr e ↦ ground (arith, v.1, e.1)
        ]
        | inr e ↦ ground (arith, e.1)
      ]

  -- The deployed values that `getDeployedValue` gives pools whose balances of mAPT are together at most
  -- its supply, which is positive, are together at most the TVL.
  pub deployed_values-sum :
      (total supply : ℕ) (balances values : List ℕ)
      → 0 < supply
      → sum balances ≤ supply
      → deployed_values (ok total) supply balances ≡ ok values
      → sum values ≤ total
  deployed_values-sum total supply balances values hs hb h =
      let shares = deployed_values-le total supply balances values h in
      let held = mul-le-mul_left total hb in
      let scaled : supply * sum values ≤ supply * total = omega (arith, shares, held) in
      le_of_mul-le-mul_left scaled hs

  -- The mAPT minted for an amount that the LP Account gets is, when the TVL has grown by the value of
  -- the amount and the supply by what was minted, worth at most that value, where TVL and supply were
  -- positive: no pool gains a share of what the others deployed.
  pub deployed_value-delta :
      (total supply amount price decimals m value : ℕ)
      → 0 < total
      → 0 < supply
      → delta math (ok total) supply amount price decimals ≡ ok m
      → let v = amount * price / ten_to decimals in
        deployed_value math (ok (total + v)) m (supply + m) ≡ ok value → value ≤ v
  unfolding delta
  deployed_value-delta total supply amount price decimals m value ht hs h k =
      let unit = ten_to decimals in
      let v = amount * price / unit in
      let minted : total * m ≤ v * supply = ground (
        arith,
        math.mul_lem amount price,
        math.div_lem (amount * price) unit,
        math.mul_lem v supply,
        math.div_lem (v * supply) total,
        mul-div-le (v * supply) total,
      ) in
      let worth = deployed_value-le (total + v) m (supply + m) value k in
      let scaled : (supply + m) * value ≤ (supply + m) * v = omega (arith, minted, worth) in
      le_of_mul-le-mul_left scaled (omega arith)
