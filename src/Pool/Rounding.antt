-- ===== src/Pool/Rounding.antt =====
-- A deposit and a withdrawal of what it minted: what the divisions of the two leave.
use apy_core_public.Base.{ℕ, ◌+◌, ◌-◌, ◌*◌, ◌/◌, ◌≡◌, ◌<◌, ◌≤◌, ◌⊎◌, inl, inr, arith}
use native.Mathlib.Nat.{
  div-add-mod, mod-lt, mul-div-le, div-le_of_le-mul, mul-le-mul_left, mul-le-mul_right,
  lt_of_mul-lt-mul_left,
}
use apy_core_public.Base.Exec.{ok}
use apy_core_public.Contract.Call.{View-cases}
use apy_core_public.Contract.Math.{SafeMath}
use apy_core_public.Pool.Amounts.{
  Reading, ten_to, value_from_underlyer_amount, pool_underlyer_value, pool_total_value, mint_amount,
  calculate_mint_amount, underlyer_amount, Fees, is_early_redeem, with_fee,
  underlyer_amount_with_fee,
}

-- The value of an amount: the quotient of its product with the price, rounded down.
unfoldable pub IsValue : ℕ → ℕ → ℕ → ℕ → Type 0
IsValue price unit amount value =
    (unit * value ≤ price * amount)
    × ((price * amount < unit * value + unit) ⊎ ((amount ≡ 0) × (value ≡ 0)))

quotient-IsValue :
    (price unit amount : ℕ) → 0 < unit → IsValue price unit amount (price * amount / unit)
unfolding IsValue
quotient-IsValue price unit amount h =
    ground (arith, div-add-mod (price * amount) unit, mod-lt (price * amount) {m = unit})

-- The value of a sum is at most one more than the sum of the values.
sum-IsValue :
    (price unit a b va vb vc : ℕ)
    → IsValue price unit a va
    → IsValue price unit b vb
    → IsValue price unit (a + b) vc
    → vc ≤ va + vb + 1
unfolding IsValue
sum-IsValue price unit a b va vb vc x y z =
    let less : (unit * vc < unit * (va + vb + 2)) ⊎ (vc ≡ 0) = ground arith in
    ground (arith, less, lt_of_mul-lt-mul_left unit {m = vc} {n = va + vb + 2})

-- The round trip in numbers: `v` is the value of a deposit, `m` the minted amount for the supply `s`
-- and the total `t`, `t'` the total after it, and `b` the amount that `m` is worth then.
round_trip_bound :
    (price unit v s t t' m : ℕ)
    → t * m ≤ v * s
    → t' ≤ t + v + 1
    → price * (m * t' * unit / (s + m) / price) ≤ unit * v + unit
round_trip_bound price unit v s t t' m minted ht =
    let grown : m * t' ≤ m * (t + v + 1) = mul-le-mul_left m ht in
    let shared : m * t' ≤ (s + m) * (v + 1) = omega arith in
    let scaled : m * t' * unit ≤ (s + m) * (v + 1) * unit = mul-le-mul_right unit shared in
    let divided : m * t' * unit / (s + m) ≤ (v + 1) * unit =
      div-le_of_le-mul (s + m) (omega (arith, scaled)) in
    omega (arith, divided, mul-div-le (m * t' * unit / (s + m)) price)

-- What the pool reads after a deposit of an amount that minted `m`.
abbrev pub deposited : Reading → ℕ → ℕ → Reading
deposited r amount m = record r { balance = r.balance + amount; supply = r.supply + m }

module _ (math : SafeMath) where
  worth-IsValue :
      (r : Reading) (price amount value : ℕ)
      → r.price ≡ ok price
      → value_from_underlyer_amount math r amount ≡ ok value
      → IsValue price (ten_to r.decimals) amount value
  unfolding value_from_underlyer_amount IsValue
  worth-IsValue r price amount value h k =
      let unit = ten_to r.decimals in
      ground (
        arith,
        math.mul_lem price amount,
        math.div_lem (price * amount) unit,
        quotient-IsValue price unit amount,
      )

  total_lem :
      (r : Reading) (deployed total : ℕ)
      → r.deployed ≡ ok deployed
      → pool_total_value math r ≡ ok total
      → (underlyer : ℕ) × (pool_underlyer_value math r ≡ ok underlyer)
        × (total ≡ underlyer + deployed)
  unfolding pool_total_value
  total_lem r deployed total h k = elim (View-cases (pool_underlyer_value math r)) [
    | inl u ↦ (u.0, u.1, ground (arith, u.1, math.add_lem u.0 deployed))
    | inr e ↦ ground (arith, e.1)
  ]

  minted_lem :
      (r : Reading) (v t m : ℕ)
      → 0 < r.supply
      → mint_amount math r v t ≡ ok m
      → t * m ≤ v * r.supply
  unfolding mint_amount
  minted_lem r v t m h k = ground (
    arith,
    math.mul_lem v 1000,
    math.mul_lem v r.supply,
    math.div_lem (v * r.supply) t,
    mul-div-le (v * r.supply) t,
  )

  mint_parts :
      (r : Reading) (amount m : ℕ)
      → calculate_mint_amount math r amount ≡ ok m
      → (v : ℕ) × (t : ℕ) × (value_from_underlyer_amount math r amount ≡ ok v)
        × (pool_total_value math r ≡ ok t)
        × (mint_amount math r v t ≡ ok m)
  unfolding calculate_mint_amount
  mint_parts r amount m k = elim (View-cases (value_from_underlyer_amount math r amount)) [
    | inl v ↦ elim (View-cases (pool_total_value math r)) [
      | inl t ↦ (v.0, t.0, v.1, t.1, ground (arith, v.1, t.1))
      | inr e ↦ ground (arith, v.1, e.1)
    ]
    | inr e ↦ ground (arith, e.1)
  ]

  worth_of_total :
      (r : Reading) (price m b t : ℕ)
      → r.price ≡ ok price
      → pool_total_value math r ≡ ok t
      → underlyer_amount math r m ≡ ok b
      → ((m ≡ 0) × (b ≡ 0)) ⊎ (b ≡ m * t * ten_to r.decimals / r.supply / price)
  unfolding underlyer_amount
  worth_of_total r price m b t h k l =
      let unit = ten_to r.decimals in
      ground (
        arith,
        math.mul_lem m t,
        math.mul_lem (m * t) unit,
        math.div_lem (m * t * unit) r.supply,
        math.div_lem (m * t * unit / r.supply) price,
      )

  worth_needs_total :
      (r : Reading) (price m b : ℕ)
      → r.price ≡ ok price
      → underlyer_amount math r m ≡ ok b
      → ((m ≡ 0) × (b ≡ 0)) ⊎ ((t : ℕ) × (pool_total_value math r ≡ ok t))
  unfolding underlyer_amount
  worth_needs_total r price m b h k = elim (View-cases (pool_total_value math r)) [
    | inl t ↦ inr t
    | inr e ↦ inl (ground (arith, e.1), ground (arith, e.1))
  ]

  with_fee-le : (f : Fees) (amount b : ℕ) → with_fee math f amount ≡ ok b → b ≤ amount
  unfolding with_fee is_early_redeem
  with_fee-le f amount b h =
      let fee = amount * f.withdraw_fee / 1000000 in
      let arb = amount * f.arbitrage_fee / 100 in
      ground (
        arith,
        math.mul_lem amount f.withdraw_fee,
        math.div_lem (amount * f.withdraw_fee) 1000000,
        math.sub_lem amount fee,
        math.sub_lem f.timestamp f.last_deposit_time,
        math.mul_lem amount f.arbitrage_fee,
        math.div_lem (amount * f.arbitrage_fee) 100,
        math.sub_lem (amount - fee) arb,
      )

  -- The total value after a deposit that is worth `v`.
  total_grows :
      (r : Reading) (price deployed amount m v t t' : ℕ)
      → r.price ≡ ok price
      → r.deployed ≡ ok deployed
      → value_from_underlyer_amount math r amount ≡ ok v
      → pool_total_value math r ≡ ok t
      → pool_total_value math (deposited r amount m) ≡ ok t'
      → t' ≤ t + v + 1
  unfolding pool_underlyer_value
  total_grows r price deployed amount m v t t' hp hd hv ht ht' =
      let unit = ten_to r.decimals in
      let before = total_lem r deployed t hd ht in
      let after = total_lem (deposited r amount m) deployed t' hd ht' in
      let grown =
        sum-IsValue price unit r.balance amount before.0 v after.0
          (worth-IsValue r price r.balance before.0 hp before.1)
          (worth-IsValue r price amount v hp hv)
          (worth-IsValue (deposited r amount m) price (r.balance + amount) after.0 hp after.1) in
      omega (arith, before.2, after.2, grown)

  worth_bound :
      (r : Reading) (price deployed amount m b : ℕ)
      → r.price ≡ ok price
      → r.deployed ≡ ok deployed
      → 0 < r.supply
      → calculate_mint_amount math r amount ≡ ok m
      → underlyer_amount math (deposited r amount m) m ≡ ok b
      → price * b ≤ price * amount + ten_to r.decimals
  unfolding IsValue
  worth_bound r price deployed amount m b hp hd hs hm hb =
      let unit = ten_to r.decimals in
      let r' = deposited r amount m in
      let (v, t, hv, ht, hvt) = mint_parts r amount m hm in
      let value = (worth-IsValue r price amount v hp hv).0 in
      elim (worth_needs_total r' price m b hp hb) [
        | inl z ↦ ground (arith, z.1)
        | inr t' ↦ ground (
          arith,
          value,
          worth_of_total r' price m b t'.0 hp t'.1 hb,
          round_trip_bound price unit v r.supply t t'.0 m (minted_lem r v t m hs hvt)
              (total_grows r price deployed amount m v t t'.0 hp hd hv ht t'.1),
        )
      ]

  -- One who deposits an amount and then redeems what was minted, at the same price and deployed value
  -- and with no call between, gets back, after the fees, tokens that are worth at most one unit of
  -- the product price times amount more than the deposit: `price * b ≤ price * amount + 10**decimals`.
  -- The supply of APT was positive before.
  pub deposit-redeem :
      (r : Reading) (f : Fees) (price deployed amount m b : ℕ)
      → r.price ≡ ok price
      → r.deployed ≡ ok deployed
      → 0 < r.supply
      → calculate_mint_amount math r amount ≡ ok m
      → underlyer_amount_with_fee math (deposited r amount m) f m ≡ ok b
      → price * b ≤ price * amount + ten_to r.decimals
  unfolding underlyer_amount_with_fee
  deposit-redeem r f price deployed amount m b hp hd hs hm hb =
      elim (View-cases (underlyer_amount math (deposited r amount m) m)) [
        | inl g ↦
            let kept : b ≤ g.0 = ground (arith, g.1, with_fee-le f g.0 b) in
            omega (
              arith,
              mul-le-mul_left price kept,
              worth_bound r price deployed amount m g.0 hp hd hs hm g.1,
            )
        | inr e ↦ ground (arith, e.1)
      ]
