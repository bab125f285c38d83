-- ===== src/Pool/Covered.antt =====
-- What a rebalancing takes from the LP Account, and what is registered after it.
use apy_core_public.Base.{
  ℕ, ◌≤◌, ◌==◌, ◌≡◌, true, not, Bool-cases, List, [], ◌∷◌, arith, inl, inr, All, if◌then◌else◌,
}
use apy_core_public.Base.Int.{ℤ, pos, negsuc}
use apy_core_public.Base.Exec.{ok}
use apy_core_public.Contract.Call.{View, of_ok}
use apy_core_public.Contract.Math.{SafeMath}
use apy_core_public.Contract.Token.{Erc20}
use apy_core_public.Contract.Enumerable.{EnumerableSet}
use apy_core_public.Registry.Calls.{get_address}
use apy_core_public.Tvl.State.{lock_oracle_adapter}
use apy_core_public.Tvl.Tokens.{
  Tokens, register_erc20_token, register_token, is_erc20_token_registered,
}
use apy_core_public.Pool.Amounts.{withdraw_amount, withdraw_amounts}
use apy_core_public.Pool.Meta.{
  Move, to_lp_account, to_pool, Meta, Others, burn_and_transfer, burn_each,
}
use apy_core_public.Pool.Rebalance.{
  Around, get_rebalance_amounts, balances_of_account, register_each_underlyer,
}

-- Two lists agree in every place that both have.
abbrev pub AllPairs : (ℕ → ℕ → Type 0) → List ℕ → List ℕ → Type 0
AllPairs P [] ns = Unit
AllPairs P (p ∷ ps) [] = Unit
AllPairs P (p ∷ ps) (n ∷ ns) = P p n × AllPairs P ps ns

withdraw_amount-le : (amount : ℤ) (balance : ℕ) → withdraw_amount amount balance ≤ balance
withdraw_amount-le (pos n) balance = ground arith
withdraw_amount-le (negsuc n) balance = ground arith

module _ {S : Type 0} (sets : EnumerableSet S) (o : Around S) where
  -- The account holds at least an amount of a pool's underlyer.
  abbrev pub Holds : ℕ → ℕ → ℕ → Type 0
  Holds account pool n =
      (token : ℕ) × (balance : ℕ) × (o.underlyer_of pool ≡ ok token)
      × (o.tokens_at.balance_of_token token account ≡ ok balance)
      × (n ≤ balance)

  -- A transfer to a pool that the account can pay.
  abbrev pub Payable : ℕ → Move → Type 0
  Payable account (to_lp_account pool n) = Unit
  Payable account (to_pool pool n) = Holds account pool n

  pub withdrawn-Holds :
      (account : ℕ) (ids pools balances ws : List ℕ) (amounts : List ℤ)
      → get_rebalance_amounts sets o ids ≡ ok (pools, amounts)
      → balances_of_account sets o account ids ≡ ok balances
      → withdraw_amounts amounts balances ≡ ok ws
      → AllPairs (Holds account) pools ws
  unfolding get_rebalance_amounts balances_of_account withdraw_amounts
  withdrawn-Holds account [] pools balances ws amounts h k l =
      let none : pools ≡ [] = ground (arith) in rw none tt
  withdrawn-Holds account (id ∷ ids) pools balances ws amounts h k l =
      let (pool, e1) = of_ok (get_address id o.registry) (λ e q. ground (arith, q)) in
      let (amount, e2) = of_ok (o.top_up_value pool) (λ e q. ground (arith, e1, q)) in
      let ((ps, as_), e3) =
        of_ok (get_rebalance_amounts sets o ids) (λ e q. ground (arith, e1, e2, q)) in
      let (token, f1) = of_ok (o.underlyer_of pool) (λ e q. ground (arith, e1, q)) in
      let (balance, f2) =
        of_ok (o.tokens_at.balance_of_token token account) (λ e q. ground (arith, e1, f1, q)) in
      let (bs, f3) =
        of_ok (balances_of_account sets o account ids) (λ e q. ground (arith, e1, f1, f2, q)) in
      let e4 : amounts ≡ amount ∷ as_ = ground (arith, e1, e2, e3) in
      let f4 : balances ≡ balance ∷ bs = ground (arith, e1, f1, f2, f3) in
      let (rest, g1) = of_ok (withdraw_amounts as_ bs) (λ e q. ground (arith, e4, f4, q)) in
      let e5 : pools ≡ pool ∷ ps = ground (arith, e1, e2, e3) in
      let g2 : ws ≡ withdraw_amount amount balance ∷ rest = ground (arith, e4, f4, g1) in
      rw (e5, g2)
        (
          (token, balance, f1, f2, withdraw_amount-le amount balance),
          withdrawn-Holds account ids ps bs rest as_ e3 f3 g1,
        )

  -- The tokens that a registration leaves.
  register_erc20_token-adds :
      (math : SafeMath) (token : ℕ) (s t : Tokens S)
      → register_erc20_token sets o.allocation_chain o.tokens_at math o.chain.self token s
        ≡ ok (tt, t)
      → (x : ℕ)
      → is_erc20_token_registered sets x t
        ≡ (if x == token then true else is_erc20_token_registered sets x s)
  unfolding register_erc20_token register_token
  register_erc20_token-adds math token s t h x =
      let (symbol, e1) = of_ok (o.tokens_at.symbol_of_token token) (λ e q. ground (arith, q)) in
      let (decimals, e2) =
        of_ok (o.tokens_at.decimals_of_token token) (λ e q. ground (arith, e1, q)) in
      let (oracles, e3) =
        of_ok (lock_oracle_adapter o.allocation_chain math s.address_registry s.oracles)
          (λ e q. ground (arith, e1, e2, q)) in
      ground (arith, e1, e2, e3, sets.contains-add x token s.token_addresses)

  -- The underlyer of a pool is registered.
  abbrev pub IsRegistered : Tokens S → ℕ → Type 0
  IsRegistered s pool =
      (token : ℕ) × (o.underlyer_of pool ≡ ok token)
      × (is_erc20_token_registered sets token s ≡ true)

  -- No token is lost.
  abbrev Keeps : Tokens S → Tokens S → Type 0
  Keeps s t =
      (x : ℕ)
      → is_erc20_token_registered sets x s ≡ true
      → is_erc20_token_registered sets x t ≡ true

  -- What is done for one pool.
  abbrev register_underlyer : SafeMath → ℕ → Tokens S → View (Unit {0} × Tokens S)
  register_underlyer math token s =
      if not (is_erc20_token_registered sets token s)
      then register_erc20_token sets o.allocation_chain o.tokens_at math o.chain.self token s
      else ok (tt, s)

  register_underlyer-Keeps :
      (math : SafeMath) (token : ℕ) (s t : Tokens S)
      → register_underlyer math token s ≡ ok (tt, t)
      → (is_erc20_token_registered sets token t ≡ true) × Keeps s t
  register_underlyer-Keeps math token s t h =
      elim (Bool-cases (is_erc20_token_registered sets token s)) [
        | inl old ↦ (ground (arith, old), λ x k. ground (arith, old))
        | inr new ↦
            let adds = register_erc20_token-adds math token s t (ground (arith, new)) in
            (ground (arith, adds token), λ x k. ground (arith, adds x))
      ]

  pub register_each_underlyer-IsRegistered :
      (math : SafeMath) (pools : List ℕ) (s t : Tokens S)
      → register_each_underlyer sets o math pools s ≡ ok (tt, t)
      → Keeps s t × All (IsRegistered t) pools
  unfolding register_each_underlyer
  register_each_underlyer-IsRegistered math [] s t h = (λ x k. ground arith, tt)
  register_each_underlyer-IsRegistered math (pool ∷ pools) s t h =
      let (token, e1) = of_ok (o.underlyer_of pool) (λ e q. ground (arith, q)) in
      let ((k, u), e2) = of_ok (register_underlyer math token s) (λ e q. ground (arith, e1, q)) in
      let (here, kept) = register_underlyer-Keeps math token s u e2 in
      let (keeps, rest) =
        register_each_underlyer-IsRegistered math pools u t (ground (arith, e1, e2)) in
      (λ x m. keeps x (kept x m), ((token, e1, keeps token here), rest))

module _ (math : SafeMath) {T : Type 0} (erc20 : Erc20 T) (others : Others)
    (P : Move → Type 0) where
  -- Burning adds only transfers to the pools of the list, by its amounts.
  burn_and_transfer-All :
      (pool burned amount : ℕ) (s t : Meta T)
      → burn_and_transfer math erc20 others pool burned amount s ≡ ok t
      → P (to_pool pool amount)
      → All P s.moves
      → All P t.moves
  unfolding burn_and_transfer
  burn_and_transfer-All pool burned amount s t h p ps = elim (Bool-cases (burned == 0)) [
    | inl zero ↦ let e : t.moves ≡ s.moves = ground (arith, zero) in rw e ps
    | inr more ↦
        let (u, e1) = of_ok (erc20.burn pool burned s.token) (λ e q. ground (arith, more, q)) in
        let (k, e2) =
          of_ok (others.transfer (to_pool pool amount)) (λ e q. ground (arith, more, e1, q)) in
        let e : t.moves ≡ to_pool pool amount ∷ s.moves = ground (arith, more, e1, e2) in
        rw e (p, ps)
  ]

  pub burn_each-All :
      (pools ds amounts : List ℕ) (s t : Meta T)
      → burn_each math erc20 others pools ds amounts s ≡ ok t
      → AllPairs (λ pool n. P (to_pool pool n)) pools amounts
      → All P s.moves
      → All P t.moves
  unfolding burn_each
  burn_each-All [] ds amounts s t h p ps = let e : t.moves ≡ s.moves = ground arith in rw e ps
  burn_each-All (pool ∷ pools) [] amounts s t h p ps = absurd (ground arith)
  burn_each-All (pool ∷ pools) (d ∷ ds) [] s t h p ps = absurd (ground arith)
  burn_each-All (pool ∷ pools) (d ∷ ds) (n ∷ amounts) s t h p ps =
      let (u, e) =
        of_ok (burn_and_transfer math erc20 others pool d n s) (λ e q. ground (arith, q)) in
      burn_each-All pools ds amounts u t (ground (arith, e)) p.1
        (burn_and_transfer-All pool d n s u e p.0 ps)
