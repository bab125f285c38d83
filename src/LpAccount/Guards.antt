-- ===== src/LpAccount/Guards.antt =====
-- The movements of funds by the account: who may make them, and what they leave locked.
use apy_core_public.Base.{ℕ, ◌≡◌, true, String, List, [], ◌∷◌, arith}
use apy_core_public.Base.Int.{ℤ}
use apy_core_public.Base.Exec.{ok}
use apy_core_public.Contract.Call.{Call, of_ok}
use apy_core_public.Contract.Math.{SafeMath}
use apy_core_public.Contract.Enumerable.{EnumerableSet}
use apy_core_public.Named.Calls.{get}
use apy_core_public.Oracle.State.{lp_role}
use apy_core_public.LpAccount.State.{Account, Outside}
use apy_core_public.LpAccount.Checks.{lock_oracle_adapter, check_allocations}
use apy_core_public.LpAccount.Fees.{get_rewards_balances, calculate_rewards_fees, send_fees}
use apy_core_public.LpAccount.Calls.{
  deploy_strategy, unwind_strategy, swap, swap_with_3pool, claim, claim_each, require_tokens,
  locked, unsigned, settle,
}
use apy_core_public.LpAccount.Locks.{
  OwnReasons, FreezesAt, lock_oracle_adapter-ExtendsAt, ExtendsAt-FreezesAt,
}

-- The movements that the holder of the LP role makes.
pub data Movement : Type 0 where
  deploys : String → List ℕ → Movement
  unwinds : String → ℕ → ℕ → Movement
  swaps_by : String → ℕ → ℕ → Movement
  swaps_3pool : ℤ → ℤ → ℕ → ℕ → Movement
  claims : List String → Movement

module _ {S W : Type 0} (sets : EnumerableSet S) (o : Outside S W) (math : SafeMath)
    (sender : ℕ) where
  unfoldable pub move : Movement → Call (Account S W) (Unit {0})
  move (deploys name amounts) = deploy_strategy sets o sender math name amounts
  move (unwinds name amount index) = unwind_strategy sets o sender math name amount index
  move (swaps_by name amount min) = swap sets o sender math name amount min
  move (swaps_3pool i j amount min) = swap_with_3pool sets o sender math i j amount min
  move (claims names) = claim sets o sender math names

  -- A movement is by a holder of the role and ends in the lock, in the state with a new world.
  abbrev pub EndsLocked : Account S W → Account S W → Type 0
  EndsLocked s t =
      (o.chain.has_role lp_role sender ≡ true)
      × ((w : W) × (locked sets o sender math w s ≡ ok (tt, t)))

  deploy-EndsLocked :
      (name : String) (amounts : List ℕ) (s t : Account S W)
      → deploy_strategy sets o sender math name amounts s ≡ ok (tt, t)
      → EndsLocked s t
  unfolding deploy_strategy
  deploy-EndsLocked name amounts s t h =
      let zap = get sets name s.zaps in
      let (names, e1) = of_ok ((o.zap_at zap).asset_allocations) (λ e q. ground (arith, q)) in
      let (registered, e2) =
        of_ok (check_allocations sets o names s) (λ e q. ground (arith, e1, q)) in
      let (k, e3) = of_ok (require_tokens sets o zap s) (λ e q. ground (arith, e1, e2, q)) in
      let (w, e4) =
        of_ok ((o.zap_at zap).deploy_liquidity amounts s.world)
          (λ e q. ground (arith, e1, e2, e3, q)) in
      (ground arith, (w, ground (arith, e1, e2, e3, e4)))

  unwind-EndsLocked :
      (name : String) (amount index : ℕ) (s t : Account S W)
      → unwind_strategy sets o sender math name amount index s ≡ ok (tt, t)
      → EndsLocked s t
  unfolding unwind_strategy
  unwind-EndsLocked name amount index s t h =
      let zap = o.zap_at (get sets name s.zaps) in
      let (w, e1) = of_ok (zap.unwind_liquidity amount index s.world) (λ e q. ground (arith, q)) in
      (ground arith, (w, ground (arith, e1)))

  swap-EndsLocked :
      (name : String) (amount min : ℕ) (s t : Account S W)
      → swap sets o sender math name amount min s ≡ ok (tt, t)
      → EndsLocked s t
  unfolding swap
  swap-EndsLocked name amount min s t h =
      let zap = get sets name s.swaps in
      let (k, e1) = of_ok (require_tokens sets o zap s) (λ e q. ground (arith, q)) in
      let (w, e2) =
        of_ok ((o.zap_at zap).swap_tokens amount min s.world) (λ e q. ground (arith, e1, q)) in
      (ground arith, (w, ground (arith, e1, e2)))

  swap_with_3pool-EndsLocked :
      (i j : ℤ) (amount min : ℕ) (s t : Account S W)
      → swap_with_3pool sets o sender math i j amount min s ≡ ok (tt, t)
      → EndsLocked s t
  unfolding swap_with_3pool
  swap_with_3pool-EndsLocked i j amount min s t h =
      let (token, e1) = of_ok (o.coins (unsigned i)) (λ e q. ground (arith, q)) in
      let (a, e2) = of_ok (o.approve token o.pool_3 0 s.world) (λ e q. ground (arith, e1, q)) in
      let (b, e3) = of_ok (o.approve token o.pool_3 amount a) (λ e q. ground (arith, e1, e2, q)) in
      let (w, e4) = of_ok (o.exchange i j amount min b) (λ e q. ground (arith, e1, e2, e3, q)) in
      (ground arith, (w, ground (arith, e1, e2, e3, e4)))

  -- The loop of `claim` only changes the world.
  pub claim_each-world :
      (names : List String) (s t : Account S W)
      → claim_each sets o names s ≡ ok (tt, t)
      → t ≡ record s { world = t.world }
  unfolding claim_each
  claim_each-world [] s t h = ground arith
  claim_each-world (name ∷ names) s t h =
      let zap = get sets name s.zaps in
      let (k, e1) = of_ok (require_tokens sets o zap s) (λ e q. ground (arith, q)) in
      let (w, e2) = of_ok ((o.zap_at zap).zap_claim s.world) (λ e q. ground (arith, e1, q)) in
      let rest = claim_each-world names (record s { world = w }) t (ground (arith, e1, e2)) in
      ground (arith, rest)

  settle-EndsLocked :
      (before : List ℕ) (s t : Account S W)
      → settle sets o sender math before s ≡ ok (tt, t)
      → (w : W) × (locked sets o sender math w s ≡ ok (tt, t))
  unfolding settle
  settle-EndsLocked before s t h =
      let (after, e1) = of_ok (get_rewards_balances sets o s) (λ e q. ground (arith, q)) in
      let (fees, e2) =
        of_ok (calculate_rewards_fees sets o math before after s) (λ e q. ground (arith, e1, q)) in
      let (w, e3) = of_ok (send_fees sets o fees s) (λ e q. ground (arith, e1, e2, q)) in
      (w, ground (arith, e1, e2, e3))

  -- The lock reads nothing of the world.
  locked_world :
      (u w : W) (s t : Account S W)
      → locked sets o sender math w (record s { world = u }) ≡ ok (tt, t)
      → locked sets o sender math w s ≡ ok (tt, t)
  unfolding locked
  locked_world u w s t h = h

  claim-EndsLocked :
      (names : List String) (s t : Account S W)
      → claim sets o sender math names s ≡ ok (tt, t)
      → EndsLocked s t
  unfolding claim
  claim-EndsLocked names s t h =
      let (before, e1) = of_ok (get_rewards_balances sets o s) (λ e q. ground (arith, q)) in
      let ((k, mid), e2) = of_ok (claim_each sets o names s) (λ e q. ground (arith, e1, q)) in
      let (w, ends) = settle-EndsLocked before mid t (ground (arith, e1, e2)) in
      let same = claim_each-world names s mid e2 in
      (ground arith, (w, locked_world mid.world w s t (ground (arith, same, ends))))

  move-EndsLocked : (m : Movement) (s t : Account S W) → move m s ≡ ok (tt, t) → EndsLocked s t
  unfolding move
  move-EndsLocked (deploys name amounts) = deploy-EndsLocked name amounts
  move-EndsLocked (unwinds name amount index) = unwind-EndsLocked name amount index
  move-EndsLocked (swaps_by name amount min) = swap-EndsLocked name amount min
  move-EndsLocked (swaps_3pool i j amount min) = swap_with_3pool-EndsLocked i j amount min
  move-EndsLocked (claims names) = claim-EndsLocked names

  -- Where the sums of SafeMath revert with a reason of their own: a deployment, an unwinding, a
  -- swap or a claim that succeeds is sent by a holder of the LP role, and until the lock period of
  -- the account is over, the oracle of its registry reverts with ORACLE_LOCKED when it is asked for
  -- the TVL or for a price.
  pub move-FreezesAt :
      (m : Movement) (s t : Account S W)
      → OwnReasons math
      → move m s ≡ ok (tt, t)
      → (o.chain.has_role lp_role sender ≡ true)
        × ((a : ℕ) × FreezesAt o.chain math s.address_registry s.lock_period t.oracles a)
  unfolding locked
  move-FreezesAt m s t own h =
      let (role, (w, ends)) = move-EndsLocked m s t h in
      let (oracles, lock) =
        of_ok (lock_oracle_adapter o.chain math s.address_registry s.lock_period s.oracles)
          (λ e q. ground (arith, q)) in
      let (a, extends) =
        lock_oracle_adapter-ExtendsAt o.chain math s.address_registry s.lock_period s.oracles
          t.oracles own (ground (arith, lock, ends)) in
      (role, (a, ExtendsAt-FreezesAt o.chain math _ _ s.oracles t.oracles a extends))
