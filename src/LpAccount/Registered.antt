-- ===== src/LpAccount/Registered.antt =====
-- What is registered where the account has deployed.
use apy_core_public.Base.{ℕ, ◌==◌, ◌≡◌, true, false, List, [], ◌∷◌, String, arith, All}
use apy_core_public.Base.Exec.{ok}
use apy_core_public.Contract.Call.{of_ok}
use apy_core_public.Contract.Math.{SafeMath}
use apy_core_public.Contract.Enumerable.{EnumerableSet}
use apy_core_public.Registry.Names.{tvl_manager_address}
use apy_core_public.Named.Calls.{get}
use apy_core_public.Tvl.State.{Manager}
use apy_core_public.Tvl.Calls.{
  get_asset_allocation, is_asset_allocation_registered, erc20_allocation_name,
}
use apy_core_public.Tvl.Tokens.{Tokens, is_erc20_token_registered, are_registered}
use apy_core_public.LpAccount.State.{Account, Outside}
use apy_core_public.LpAccount.Checks.{check_allocations, check_tokens, registry}
use apy_core_public.LpAccount.Calls.{deploy_strategy}

module _ {S W : Type 0} (sets : EnumerableSet S) (o : Outside S W) where
  -- The names have allocations in a manager, and the tokens are in an allocation of tokens.
  abbrev pub AllNamed : List String → Manager S → Type 0
  AllNamed names m = All (λ name. (get_asset_allocation sets o.chain name m == 0) ≡ false) names

  abbrev pub AllTokens : List ℕ → Tokens S → Type 0
  AllTokens tokens a = All (λ token. is_erc20_token_registered sets token a ≡ true) tokens

  registered-AllNamed :
      (names : List String) (m : Manager S)
      → is_asset_allocation_registered sets o.chain names m ≡ true
      → AllNamed names m
  unfolding is_asset_allocation_registered
  registered-AllNamed [] m h = tt
  registered-AllNamed (name ∷ names) m h =
      (ground arith, registered-AllNamed names m (ground arith))

  registered-AllTokens :
      (tokens : List ℕ) (a : Tokens S) → are_registered sets tokens a ≡ true → AllTokens tokens a
  unfolding are_registered
  registered-AllTokens [] a h = tt
  registered-AllTokens (token ∷ tokens) a h =
      (ground arith, registered-AllTokens tokens a (ground arith))

  check_tokens-AllTokens :
      (tokens : List ℕ) (s : Account S W) (m : ℕ)
      → tvl_manager_address o.chain.env.names (registry sets o s) ≡ ok m
      → check_tokens sets o tokens s ≡ ok true
      → AllTokens tokens
          (o.tokens_at (get_asset_allocation sets o.chain erc20_allocation_name (o.manager_at m)))
  unfolding check_tokens
  check_tokens-AllTokens tokens s m e h =
      let a = get_asset_allocation sets o.chain erc20_allocation_name (o.manager_at m) in
      registered-AllTokens tokens (o.tokens_at a) (ground (arith, e))

  -- What the zap at an address asks for is registered in the manager at another.
  abbrev pub HasWhatItAsks : ℕ → ℕ → Type 0
  HasWhatItAsks zap m =
      (names : List String) × (tokens : List ℕ) × ((o.zap_at zap).asset_allocations ≡ ok names)
      × ((o.zap_at zap).erc20_allocations ≡ ok tokens)
      × AllNamed names (o.manager_at m)
      × AllTokens tokens
          (o.tokens_at (get_asset_allocation sets o.chain erc20_allocation_name (o.manager_at m)))

  -- A deployment that succeeds is of a zap that is registered under the name, and every allocation
  -- that the zap names is registered in the TvlManager of the registry, and every token that it
  -- names in the allocation that has the name "erc20Allocation" there.
  pub deploy_strategy-registered :
      (math : SafeMath) (sender : ℕ) (name : String) (amounts : List ℕ) (s : Account S W)
      (t : Account S W)
      → deploy_strategy sets o sender math name amounts s ≡ ok (tt, t)
      → ((get sets name s.zaps == 0) ≡ false)
        × ((m : ℕ) × (tvl_manager_address o.chain.env.names (registry sets o s) ≡ ok m)
            × HasWhatItAsks (get sets name s.zaps) m)
  unfolding deploy_strategy check_allocations
  deploy_strategy-registered math sender name amounts s t h =
      let zap = get sets name s.zaps in
      let (names, e1) = of_ok ((o.zap_at zap).asset_allocations) (λ e q. ground (arith, q)) in
      let (m, e2) =
        of_ok (tvl_manager_address o.chain.env.names (registry sets o s))
          (λ e q. ground (arith, e1, q)) in
      let (tokens, e3) =
        of_ok ((o.zap_at zap).erc20_allocations) (λ e q. ground (arith, e1, e2, q)) in
      let (all, e4) = of_ok (check_tokens sets o tokens s) (λ e q. ground (arith, e1, e2, e3, q)) in
      (
        ground arith,
        (
          m,
          e2,
          (
            names,
            tokens,
            e1,
            e3,
            registered-AllNamed names (o.manager_at m) (ground (arith, e1, e2)),
            check_tokens-AllTokens tokens s m e2 (ground (arith, e1, e2, e3, e4)),
          ),
        ),
      )
