-- ===== src/Pool/RoundTrip.antt =====
-- A deposit and the redemption of what it minted, on the tokens.
use mathlib.Core.Path.{subst}
use apy_core_public.Base.{ℕ, ◌+◌, ◌*◌, ◌==◌, ◌≡◌, ap, ◌∙◌, ◌≤◌, ◌<◌, inl, inr, false, arith}
use apy_core_public.Base.Exec.{ok}
use apy_core_public.Contract.Call.{View-cases}
use apy_core_public.Contract.Math.{SafeMath}
use apy_core_public.Contract.Token.{Erc20, Coin}
use apy_core_public.Pool.Amounts.{
  Reading, ten_to, value_from_underlyer_amount, pool_total_value, mint_amount,
  calculate_mint_amount, underlyer_amount_with_fee,
}
use apy_core_public.Pool.Rounding.{deposited, deposit-redeem}
use apy_core_public.Pool.Deposit.{
  Pool, Caller, reading, fees, deposit, add_liquidity, withdraw, redeem,
}

-- The worth of a balance that has lost `a` and then gained `b`.
worth_bound :
    (price x₀ x₁ x₂ a b unit : ℕ)
    → x₁ + a ≡ x₀
    → x₂ ≡ x₁ + b
    → price * b ≤ price * a + unit
    → price * x₂ ≤ price * x₀ + unit
worth_bound price x₀ x₁ x₂ a b unit h k l =
    omega (arith, ap (λ x. price * x) h, ap (λ x. price * x) k)

module _ (math : SafeMath) {T U : Type 0} (erc20 : Erc20 T) (coin : Coin U) (this : ℕ)
    (e : Caller) where
  -- The steps of a deposit that succeeds.
  add_parts :
      (amount : ℕ) (s s' : Pool T U)
      → add_liquidity math erc20 coin this e amount s ≡ ok (tt, s')
      → (m : ℕ) × (calculate_mint_amount math (reading math erc20 coin this e s) amount ≡ ok m)
        × (deposit math erc20 coin this e amount m s ≡ ok s')
  unfolding add_liquidity calculate_mint_amount
  add_parts amount s s' h =
      let r = reading math erc20 coin this e s in
      elim (View-cases (value_from_underlyer_amount math r amount)) [
        | inl v ↦ elim (View-cases (pool_total_value math r)) [
          | inl t ↦ elim (View-cases (mint_amount math r v.0 t.0)) [
            | inl m ↦ elim (View-cases (deposit math erc20 coin this e amount m.0 s)) [
              | inl d ↦ (m.0, ground (arith, v.1, t.1, m.1), ground (arith, v.1, t.1, m.1, d.1))
              | inr x ↦ ground (arith, v.1, t.1, m.1, x.1)
            ]
            | inr x ↦ ground (arith, v.1, t.1, x.1)
          ]
          | inr x ↦ ground (arith, v.1, x.1)
        ]
        | inr x ↦ ground (arith, x.1)
      ]

  deposit_lem :
      (amount m : ℕ) (s s' : Pool T U)
      → (e.sender == this) ≡ false
      → deposit math erc20 coin this e amount m s ≡ ok s'
      → (erc20.total_supply s'.token ≡ erc20.total_supply s.token + m)
        × (coin.balance s'.underlyer this ≡ coin.balance s.underlyer this + amount)
        × (coin.balance s'.underlyer e.sender + amount ≡ coin.balance s.underlyer e.sender)
  unfolding deposit
  deposit_lem amount m s s' k h = elim (View-cases (erc20.mint e.sender m s.token)) [
    | inl t ↦ elim (View-cases (coin.transfer_from this e.sender this amount s.underlyer)) [
      | inl u ↦
          let supplied = erc20.mint_supply e.sender m s.token t.0 t.1 in
          let moved = coin.transfer_from_balances this e.sender this amount s.underlyer u.0 u.1 k in
          (
            ground (arith, t.1, u.1, supplied),
            ground (arith, t.1, u.1, moved.1),
            ground (arith, t.1, u.1, moved.0),
          )
      | inr x ↦ ground (arith, t.1, x.1)
    ]
    | inr x ↦ ground (arith, x.1)
  ]

  -- The steps of a redemption that succeeds.
  redeem_parts :
      (apt_amount : ℕ) (s s' : Pool T U)
      → redeem math erc20 coin this e apt_amount s ≡ ok (tt, s')
      → (b : ℕ) × (underlyer_amount_with_fee math
            (reading math erc20 coin this e s)
            (fees math erc20 coin this e s)
            apt_amount
          ≡ ok b)
        × (withdraw math erc20 coin this e apt_amount b s ≡ ok s')
  unfolding redeem
  redeem_parts apt_amount s s' h =
      let r = reading math erc20 coin this e s in
      elim (View-cases
        (underlyer_amount_with_fee math r (fees math erc20 coin this e s) apt_amount)) [
          | inl b ↦ elim (View-cases (withdraw math erc20 coin this e apt_amount b.0 s)) [
            | inl w ↦
                let r' = reading math erc20 coin this e w.0 in
                elim (View-cases (value_from_underlyer_amount math r' b.0)) [
                  | inl v ↦ elim (View-cases (pool_total_value math r')) [
                    | inl t ↦ (b.0, b.1, ground (arith, b.1, w.1, v.1, t.1))
                    | inr x ↦ ground (arith, b.1, w.1, v.1, x.1)
                  ]
                  | inr x ↦ ground (arith, b.1, w.1, x.1)
                ]
            | inr x ↦ ground (arith, b.1, x.1)
          ]
          | inr x ↦ ground (arith, x.1)
        ]

  withdraw_lem :
      (apt_amount b : ℕ) (s s' : Pool T U)
      → (this == e.sender) ≡ false
      → withdraw math erc20 coin this e apt_amount b s ≡ ok s'
      → coin.balance s'.underlyer e.sender ≡ coin.balance s.underlyer e.sender + b
  unfolding withdraw
  withdraw_lem apt_amount b s s' k h = elim (View-cases (erc20.burn e.sender apt_amount s.token)) [
    | inl t ↦ elim (View-cases (coin.transfer this e.sender b s.underlyer)) [
      | inl u ↦
          let moved = coin.transfer_balances this e.sender b s.underlyer u.0 u.1 k in
          ground (arith, t.1, u.1, moved.1)
      | inr x ↦ ground (arith, t.1, x.1)
    ]
    | inr x ↦ ground (arith, x.1)
  ]

  same_reading :
      (r : Reading) (b b' n n' : ℕ)
      → b ≡ b'
      → n ≡ n'
      → (record r { balance = b; supply = n }) ≡ record r { balance = b'; supply = n' }
  same_reading r b b' n n' h k = cc

  -- One who deposits into a pool whose APT has a supply, and then redeems the APT that this minted, both
  -- with success, at the same time, price and deployed value and with no call between, has in the end
  -- tokens that are worth at most one unit of the product price times amount more than at first:
  -- `price * balance' ≤ price * balance + 10**decimals`. The pool does not call itself.
  pub add_liquidity-redeem :
      (price deployed amount m : ℕ) (s s₁ s₂ : Pool T U)
      → e.price ≡ ok price
      → e.deployed ≡ ok deployed
      → (e.sender == this) ≡ false
      → 0 < erc20.total_supply s.token
      → add_liquidity math erc20 coin this e amount s ≡ ok (tt, s₁)
      → erc20.total_supply s₁.token ≡ erc20.total_supply s.token + m
      → redeem math erc20 coin this e m s₁ ≡ ok (tt, s₂)
      → price * coin.balance s₂.underlyer e.sender
        ≤ price * coin.balance s.underlyer e.sender + ten_to e.decimals
  add_liquidity-redeem price deployed amount m s s₁ s₂ hp hd hn hs ha hm hr =
      let r = reading math erc20 coin this e s in
      let (m', mint, paid) = add_parts amount s s₁ ha in
      let (supply, pool, sender) = deposit_lem amount m' s s₁ hn paid in
      let (b, worth, left) = redeem_parts m s₁ s₂ hr in
      let got = withdraw_lem m b s₁ s₂ (ground arith) left in
      let same : m' ≡ m = omega (arith, supply, hm) in
      let before : reading math erc20 coin this e s₁ ≡ deposited r amount m =
        same_reading r _ _ _ _ pool hm in
      let minted : calculate_mint_amount math r amount ≡ ok m = mint ∙ ap ok same in
      let redeemed : underlyer_amount_with_fee math (deposited r amount m)
            (fees math erc20 coin this e s₁) m
          ≡ ok b =
        subst (λ x. underlyer_amount_with_fee math x (fees math erc20 coin this e s₁) m ≡ ok b)
          before worth in
      let bound =
        deposit-redeem math r (fees math erc20 coin this e s₁) price deployed amount m b hp hd hs
          minted redeemed in
      worth_bound price _ _ _ amount b (ten_to e.decimals) sender got bound
