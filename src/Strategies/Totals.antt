-- ===== src/Strategies/Totals.antt =====
-- All strategies together: the amounts can be paid from the balances of the LP account.
use apy_core_public.Base.{
  ℕ, ◌*◌, ◌/◌, ◌≤◌, ◌≡◌, refl, String, List, [], ◌∷◌, ap, arith, length, map, sum_by, All,
}
use apy_core_public.Base.Int.{ℤ, pos, pos_part, neg_part, ◌+ℤ◌, ◌≤ℤ◌, int_laws}
use apy_core_public.Strategies.Amounts.{
  Underlyer, Balances, get, unit, normalize, total_balance, sort, Amounts, ideal_total_amount,
  allocate_strategy, allocate_all, strategies, strategy_amounts, renormalize, normalized_sum,
  total_check,
}
use apy_core_public.Strategies.Budget.{IsFunded, spent, AllNonneg, sum, reduce-eq-sum}
use apy_core_public.Strategies.Share.{IsSound, allocate-IsSound}

parts-le : (T n : ℕ) → n * (T / n) ≤ T
parts-le T n = grind arith

-- A strategy overspends no stablecoin, and takes at most three eighteenths of the total balance.
allocate_strategy-IsSound :
    (normalized : Balances ℕ) (strategy : List Underlyer) (d : Balances ℤ)
    → IsFunded normalized d
    → let p = allocate_strategy normalized strategy d in
      IsSound normalized d p
      × (p.amount_deployed ≤ℤ pos (ideal_total_amount (total_balance normalized)))
unfolding allocate_strategy
allocate_strategy-IsSound normalized strategy d h =
    let us = sort normalized strategy in
    let T = ideal_total_amount (total_balance normalized) in
    allocate-IsSound normalized T (T / length us) d (length us) 0 us
      (record { amount_deployed = pos 0; amounts = []; deployed_balances = d }) (omega arith)
      (omega (int_laws, parts-le T (length us)))
      (record { funded = h; covered = λ u. omega int_laws; nonneg = tt; counted = omega arith })

spent-allocate_all :
    (normalized : Balances ℕ) (u : Underlyer) (ss : List (String × List Underlyer)) (d : Balances ℤ)
    → IsFunded normalized d
    → pos (unit u * sum_by (λ s. spent u s.1) (allocate_all normalized ss d)) +ℤ get u d
      ≤ℤ pos (get u normalized)
unfolding allocate_all
spent-allocate_all normalized u [] d h = omega (int_laws, h u)
spent-allocate_all normalized u ((name, s) ∷ ss) d h =
    let p = allocate_strategy normalized s d in
    let sound = (allocate_strategy-IsSound normalized s d h).0 in
    omega (
      int_laws,
      sound.covered u,
      spent-allocate_all normalized u ss p.deployed_balances sound.funded,
    )

-- Each strategy's amounts are not negative, and are worth at most the strategy's share.
abbrev IsShare : ℕ → String × Amounts → Type 0
IsShare T s = AllNonneg s.1 × (normalized_sum s.1 ≤ℤ pos T)

normalized_sum-eq-sum : (am : Amounts) → normalized_sum am ≡ sum (map renormalize am)
unfolding normalized_sum
normalized_sum-eq-sum am = reduce-eq-sum (map renormalize am)

allocate_all-IsShare :
    (normalized : Balances ℕ) (ss : List (String × List Underlyer)) (d : Balances ℤ)
    → IsFunded normalized d
    → All (IsShare (ideal_total_amount (total_balance normalized))) (allocate_all normalized ss d)
unfolding allocate_all
allocate_all-IsShare normalized [] d h = tt
allocate_all-IsShare normalized ((name, s) ∷ ss) d h =
    let p = allocate_strategy normalized s d in
    let sound = allocate_strategy-IsSound normalized s d h in
    (
      (
        sound.0.nonneg,
        rw (normalized_sum-eq-sum p.amounts) (omega (int_laws, sound.0.counted, sound.1)),
      ),
      allocate_all-IsShare normalized ss p.deployed_balances sound.0.funded,
    )

sum-le :
    (T : ℕ) (rs : List (String × Amounts))
    → All (IsShare T) rs
    → sum (map (λ s. normalized_sum s.1) rs) ≤ℤ pos (length rs * T)
sum-le T [] h = omega arith
sum-le T (s ∷ rs) h = omega (int_laws, h.0.1, sum-le T rs h.1)

length-allocate_all :
    (normalized : Balances ℕ) (ss : List (String × List Underlyer)) (d : Balances ℤ)
    → length (allocate_all normalized ss d) ≡ length ss
unfolding allocate_all
length-allocate_all normalized [] d = refl
length-allocate_all normalized ((name, s) ∷ ss) d =
    omega (
      arith,
      length-allocate_all normalized ss (allocate_strategy normalized s d).deployed_balances,
    )

abbrev zeros : Balances ℤ
zeros = record { dai = pos 0; usdc = pos 0; usdt = pos 0 }

zeros-IsFunded : (normalized : Balances ℕ) → IsFunded normalized zeros
zeros-IsFunded normalized Underlyer.dai = omega arith
zeros-IsFunded normalized Underlyer.usdc = omega arith
zeros-IsFunded normalized Underlyer.usdt = omega arith

get-zeros : (u : Underlyer) → get u zeros ≡ pos 0
get-zeros Underlyer.dai = refl
get-zeros Underlyer.usdc = refl
get-zeros Underlyer.usdt = refl

get-normalize : (u : Underlyer) (b : Balances ℕ) → get u (normalize b) ≡ unit u * get u b
unfolding normalize
get-normalize Underlyer.dai b = omega arith
get-normalize Underlyer.usdc b = omega arith
get-normalize Underlyer.usdt b = omega arith

cancel_unit : (u : Underlyer) (m n : ℕ) → unit u * m ≤ unit u * n → m ≤ n
cancel_unit Underlyer.dai m n h = omega arith
cancel_unit Underlyer.usdc m n h = omega arith
cancel_unit Underlyer.usdt m n h = omega arith

-- Any list of strategies can be paid for.
allocate_all-affordable :
    (b : Balances ℕ) (u : Underlyer) (ss : List (String × List Underlyer))
    → sum_by (λ s. spent u s.1) (allocate_all (normalize b) ss zeros) ≤ get u b
allocate_all-affordable b u ss =
    cancel_unit u (sum_by (λ s. spent u s.1) (allocate_all (normalize b) ss zeros)) (get u b) (
      omega (
        int_laws,
        get-normalize u b,
        spent-allocate_all (normalize b) u ss zeros (zeros-IsFunded (normalize b)),
        ap pos_part (get-zeros u),
        ap neg_part (get-zeros u),
      ))

-- For every balance of the LP account and each stablecoin, the amounts that the script gives to all
-- strategies, in the token's own decimals, add up to at most the account's balance of that token.
pub strategy_amounts-affordable :
    (b : Balances ℕ) (u : Underlyer) → sum_by (λ s. spent u s.1) (strategy_amounts b) ≤ get u b
unfolding strategy_amounts
strategy_amounts-affordable b u = allocate_all-affordable b u strategies

-- For every balance, no strategy has a negative amount of a token, and the amounts of each strategy
-- are worth at most three eighteenths of the account's total, in 18 decimals.
pub strategy_amounts-IsShare :
    (b : Balances ℕ)
    → All
        (λ s.
          AllNonneg s.1
          × (normalized_sum s.1 ≤ℤ pos (ideal_total_amount (total_balance (normalize b)))))
        (strategy_amounts b)
unfolding strategy_amounts
strategy_amounts-IsShare b =
    allocate_all-IsShare (normalize b) strategies zeros (zeros-IsFunded (normalize b))

length-strategy_amounts : (b : Balances ℕ) → length (strategy_amounts b) ≡ 6
unfolding strategy_amounts
length-strategy_amounts b = length-allocate_all (normalize b) strategies zeros

-- For every balance, the total that the script prints as its check is at most the total balance.
pub total_check-le-total_balance :
    (b : Balances ℕ) → total_check (strategy_amounts b) ≤ℤ pos (total_balance (normalize b))
unfolding total_check
total_check-le-total_balance b = rw reduce-eq-sum (
    omega (
      arith,
      rw (length-strategy_amounts b) at (
          sum-le (ideal_total_amount (total_balance (normalize b))) (strategy_amounts b)
            (strategy_amounts-IsShare b)),
    ))
