-- ===== src/Strategies/Amounts.antt =====
-- The definitions of `main` in scripts/alpha/calculate-deploy-amounts.js.
use apy_core_public.Base.{
  ℕ, suc, ◌+◌, ◌-◌, ◌*◌, ◌/◌, ◌^◌, String, Bool, true, false, List, [], ◌∷◌, map, foldl, ltb, ◌==◌,
  if◌then◌else◌, length,
}
use apy_core_public.Base.Int.{ℤ, pos, ◌+ℤ◌, ◌-ℤ◌, ◌*ℤ◌, ◌/ℤ◌, ltb_ℤ}

-- The keys of `balances`.
pub data Underlyer : Type 0 where
  dai usdc usdt : Underlyer

-- An object with these keys.
pub record Balances {ℓ} (A : Type ℓ) : Type ℓ where
  pub dai : A
  pub usdc : A
  pub usdt : A

-- `balances[underlyer]`
abbrev pub get {ℓ} : {A : Type ℓ} → Underlyer → Balances A → A
get Underlyer.dai b = b.dai
get Underlyer.usdc b = b.usdc
get Underlyer.usdt b = b.usdt

-- `balances[underlyer] = v`
abbrev pub set {ℓ} : {A : Type ℓ} → Underlyer → A → Balances A → Balances A
set Underlyer.dai v b = record b { dai = v }
set Underlyer.usdc v b = record b { usdc = v }
set Underlyer.usdt v b = record b { usdt = v }

-- USDC and USDT have 6 decimals, DAI has 18: `mul(10 ** 12)` for the first two.
abbrev pub unit : Underlyer → ℕ
unit Underlyer.dai = 1
unit Underlyer.usdc = 10 ^ 12
unit Underlyer.usdt = 10 ^ 12

-- `normalizedBalances`
unfoldable pub normalize : Balances ℕ → Balances ℕ
normalize b = record {
  dai = b.dai;
  usdc = b.usdc * unit Underlyer.usdc;
  usdt = b.usdt * unit Underlyer.usdt;
}

-- `_.reduce(normalizedBalances, (a, b) => a.add(b))`
unfoldable pub total_balance : Balances ℕ → ℕ
total_balance b = b.dai + b.usdc + b.usdt

-- The comparator answers -1 or 1; elements that it holds equal stay in their order.
insert_sorted : Balances ℕ → Underlyer → List Underlyer → List Underlyer
insert_sorted b u [] = u ∷ []
insert_sorted b u (v ∷ vs) =
    let rest = insert_sorted b u vs in if ltb (get v b) (get u b) then v ∷ rest else u ∷ v ∷ vs

-- `strategies[name].sort(…)`
unfoldable pub sort : Balances ℕ → List Underlyer → List Underlyer
unfolding insert_sorted
sort b [] = []
sort b (u ∷ us) = insert_sorted b u (sort b us)

-- `amounts`, an object from underlyers to amounts in the token's own decimals.
abbrev pub Amounts : Type 0
Amounts = List (Underlyer × ℤ)

abbrev pub same : Underlyer → Underlyer → Bool
same Underlyer.dai Underlyer.dai = true
same Underlyer.usdc Underlyer.usdc = true
same Underlyer.usdt Underlyer.usdt = true
same _ _ = false

-- `amounts[underlyer] = amount`
unfoldable pub put : Underlyer → ℤ → Amounts → Amounts
put u a [] = (u, a) ∷ []
put u a ((v, old) ∷ rest) = if same u v then (u, a) ∷ rest else (v, old) ∷ put u a rest

-- `amount.div(10 ** 12)` for the tokens with 6 decimals.
unfoldable pub denormalize : Underlyer → ℤ → ℤ
denormalize Underlyer.dai a = a
denormalize Underlyer.usdc a = a /ℤ unit Underlyer.usdc
denormalize Underlyer.usdt a = a /ℤ unit Underlyer.usdt

-- What the loop over the underlyers of one strategy changes.
pub record Progress : Type 0 where
  pub amount_deployed : ℤ
  pub amounts : Amounts
  pub deployed_balances : Balances ℤ

-- `amount`, as the branches of the loop's body leave it.
unfoldable pub pick_amount : ℤ → ℤ → Bool → ℤ → ℤ → ℤ
pick_amount ideal_total ideal_underlyer is_last remaining amount_deployed =
    if is_last
    then (let amount = ideal_total -ℤ amount_deployed in
        if ltb_ℤ remaining amount then remaining else amount)
    else if ltb_ℤ remaining ideal_underlyer
    then remaining
    else ideal_underlyer

module _ (normalized : Balances ℕ) (ideal_total ideal_underlyer : ℤ) where
  -- The body of `for (const i in underlyers)`.
  unfoldable pub allocate_one : Underlyer → Bool → Progress → Progress
  unfolding pick_amount put denormalize
  allocate_one u is_last p =
      let remaining = pos (get u normalized) -ℤ get u p.deployed_balances in
      let amount = pick_amount ideal_total ideal_underlyer is_last remaining p.amount_deployed in
      record {
        amount_deployed = p.amount_deployed +ℤ amount;
        amounts = put u (denormalize u amount) p.amounts;
        deployed_balances = set u (amount +ℤ get u p.deployed_balances) p.deployed_balances;
      }

  -- The loop, from index `i` of `n` underlyers.
  unfoldable pub allocate : ℕ → ℕ → List Underlyer → Progress → Progress
  unfolding allocate_one
  allocate n i [] p = p
  allocate n i (u ∷ us) p = allocate n (suc i) us (allocate_one u (i == n - 1) p)

-- `totalBalance.mul(3).div(18)`
abbrev pub ideal_total_amount : ℕ → ℕ
ideal_total_amount total = total * 3 / 18

-- The function that `main` maps over the names of the strategies; `deployedBalances` is shared.
unfoldable pub allocate_strategy : Balances ℕ → List Underlyer → Balances ℤ → Progress
unfolding sort allocate
allocate_strategy normalized strategy deployed =
    let underlyers = sort normalized strategy in
    let ideal_total = ideal_total_amount (total_balance normalized) in
    allocate normalized (pos ideal_total) (pos (ideal_total / length underlyers))
      (length underlyers) 0 underlyers
      (record { amount_deployed = pos 0; amounts = []; deployed_balances = deployed })

unfoldable pub allocate_all :
    Balances ℕ → List (String × List Underlyer) → Balances ℤ → List (String × Amounts)
unfolding allocate_strategy
allocate_all normalized [] deployed = []
allocate_all normalized ((name, strategy) ∷ rest) deployed =
    let p = allocate_strategy normalized strategy deployed in
    (name, p.amounts) ∷ allocate_all normalized rest p.deployed_balances

-- `strategies`
abbrev pub strategies : List (String × List Underlyer)
strategies =
    ("curve-saave", Underlyer.dai ∷ [])
    ∷ ("curve-compound", Underlyer.dai ∷ Underlyer.usdc ∷ [])
    ∷ ("curve-susdv2", Underlyer.dai ∷ Underlyer.usdc ∷ Underlyer.usdt ∷ [])
    ∷ ("curve-frax", Underlyer.dai ∷ Underlyer.usdc ∷ Underlyer.usdt ∷ [])
    ∷ ("curve-aave", Underlyer.dai ∷ Underlyer.usdc ∷ Underlyer.usdt ∷ [])
    ∷ ("curve-usdt", Underlyer.dai ∷ Underlyer.usdc ∷ Underlyer.usdt ∷ [])
    ∷ []

-- `strategyAmounts`, from the stablecoin balances of the LP account.
unfoldable pub strategy_amounts : Balances ℕ → List (String × Amounts)
unfolding normalize total_balance allocate_all
strategy_amounts balances =
    allocate_all (normalize balances) strategies
      (record { dai = pos 0; usdc = pos 0; usdt = pos 0 })

-- The amounts of one strategy in 18 decimals, as `totalCheck` maps them.
abbrev pub renormalize : Underlyer × ℤ → ℤ
renormalize (Underlyer.dai, a) = a
renormalize (Underlyer.usdc, a) = a *ℤ pos (unit Underlyer.usdc)
renormalize (Underlyer.usdt, a) = a *ℤ pos (unit Underlyer.usdt)

-- `_.reduce(values, (b, c) => b.add(c))`: the first value starts the sum. Neither call has an empty
-- collection, for which lodash has no value.
unfoldable pub reduce : List ℤ → ℤ
reduce [] = pos 0
reduce (a ∷ rest) = foldl ◌+ℤ◌ a rest

unfoldable pub normalized_sum : Amounts → ℤ
unfolding reduce
normalized_sum amounts = reduce (map renormalize amounts)

-- `totalCheck`
unfoldable pub total_check : List (String × Amounts) → ℤ
unfolding normalized_sum reduce
total_check amounts = reduce (map (λ s. normalized_sum s.1) amounts)
