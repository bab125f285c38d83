-- ===== src/LpAccount/Claim.antt =====
-- What a claim leaves to the account of every reward token.
use mathlib.Core.Path.{subst}
use apy_core_public.Base.{ℕ, ◌≤◌, ◌==◌, ◌≡◌, refl, sym, true, false, List, String, arith}
use apy_core_public.Base.Exec.{ok}
use apy_core_public.Contract.Call.{of_ok}
use apy_core_public.Contract.Math.{SafeMath}
use apy_core_public.Contract.Enumerable.{EnumerableSet}
use apy_core_public.Registry.Calls.{get_address}
use apy_core_public.LpAccount.State.{Account, Outside}
use apy_core_public.LpAccount.Checks.{registry, lock_oracle_adapter}
use apy_core_public.LpAccount.Fees.{
  balances_of, get_rewards_balances, calculate_rewards_fees, fees_of, send_each, send_fees,
}
use apy_core_public.LpAccount.Calls.{claim, claim_each, settle, locked}
use apy_core_public.LpAccount.Guards.{claim_each-world}
use apy_core_public.LpAccount.Bounds.{fees_of-AreFees}
use apy_core_public.LpAccount.Sending.{AreErc20, NotLower, send_each-NotLower}

module _ {S W : Type 0} (sets : EnumerableSet S) (o : Outside S W) where
  -- No fee is above 10000 basis points.
  abbrev pub LowFees : Account S W → Type 0
  LowFees s = (x : ℕ) → s.reward_fee x ≤ 10000

  -- The treasury safe of the registry is another account.
  abbrev pub SafeElsewhere : Account S W → Type 0
  SafeElsewhere s =
      (safe : ℕ)
      → get_address o.treasury_safe (registry sets o s) ≡ ok safe
      → (safe == o.chain.self) ≡ false

  send_fees-sent :
      (fees : List ℕ) (s : Account S W) (w : W)
      → send_fees sets o fees s ≡ ok w
      → (safe : ℕ) × (get_address o.treasury_safe (registry sets o s) ≡ ok safe)
        × (send_each sets o safe (sets.values s.reward_tokens) fees s.world ≡ ok w)
  unfolding send_fees
  send_fees-sent fees s w h =
      let (safe, e) =
        of_ok (get_address o.treasury_safe (registry sets o s)) (λ e q. ground (arith, q)) in
      (safe, e, ground (arith, e))

  settled-world :
      (math : SafeMath) (sender : ℕ) (w : W) (s t : Account S W)
      → locked sets o sender math w s ≡ ok (tt, t)
      → t.world ≡ w
  unfolding locked
  settled-world math sender w s t h =
      let (oracles, e) =
        of_ok (lock_oracle_adapter o.chain math s.address_registry s.lock_period s.oracles)
          (λ e q. ground (arith, q)) in
      ground (arith, e)

  -- The end of a claim, for the worlds before the loop and after it.
  sent-NotLower :
      (math : SafeMath) (sender safe : ℕ) (before after fees : List ℕ) (w0 w : W)
      (s t : Account S W)
      → AreErc20 sets o
      → (safe == o.chain.self) ≡ false
      → LowFees s
      → balances_of sets o (sets.values s.reward_tokens) w0 ≡ ok before
      → get_rewards_balances sets o s ≡ ok after
      → fees_of sets o math s.reward_fee (sets.values s.reward_tokens) before after ≡ ok fees
      → send_each sets o safe (sets.values s.reward_tokens) fees s.world ≡ ok w
      → locked sets o sender math w s ≡ ok (tt, t)
      → (j : ℕ) → sets.contains j s.reward_tokens ≡ true
      → NotLower sets o w0 t.world j
  sent-NotLower math sender safe before after fees w0 w s t law other low b a due h l j k =
      let law_of = λ (x : ℕ). sets.count-values x s.reward_tokens in
      subst (λ v. NotLower sets o w0 v j) (sym (settled-world math sender w s t l))
        (send_each-NotLower sets o s.reward_fee safe (sets.values s.reward_tokens) before after fees
          w0 s.world s.world w law other low (λ x. ground (arith, law_of x))
          (fees_of-AreFees sets o math s.reward_fee (sets.values s.reward_tokens) before after fees
            due)
          b a (λ x m. refl) h j (ground (arith, law_of j)))

  settle-NotLower :
      (math : SafeMath) (sender : ℕ) (before : List ℕ) (w0 : W) (s t : Account S W)
      → AreErc20 sets o
      → SafeElsewhere s
      → LowFees s
      → balances_of sets o (sets.values s.reward_tokens) w0 ≡ ok before
      → settle sets o sender math before s ≡ ok (tt, t)
      → (j : ℕ) → sets.contains j s.reward_tokens ≡ true
      → NotLower sets o w0 t.world j
  unfolding settle calculate_rewards_fees
  settle-NotLower math sender before w0 s t law other low b h j k =
      let tokens = sets.values s.reward_tokens in
      let (after, e1) = of_ok (get_rewards_balances sets o s) (λ e q. ground (arith, q)) in
      let (fees, e2) =
        of_ok (fees_of sets o math s.reward_fee tokens before after)
          (λ e q. ground (arith, e1, q)) in
      let (w, e3) = of_ok (send_fees sets o fees s) (λ e q. ground (arith, e1, e2, q)) in
      let (safe, e4, e5) = send_fees-sent fees s w e3 in
      sent-NotLower math sender safe before after fees w0 w s t law (other safe e4) low b e1 e2 e5
        (ground (arith, e1, e2, e3)) j k

  -- Where the tokens are ERC20 tokens, the treasury safe is another account than this one, and no
  -- fee is above 10000 basis points: after a claim that succeeds, whatever its zaps have done, the
  -- account's balance of every token with a fee is not lower than before the claim.
  pub claim-NotLower :
      (math : SafeMath) (sender : ℕ) (names : List String) (s t : Account S W)
      → AreErc20 sets o
      → SafeElsewhere s
      → LowFees s
      → claim sets o sender math names s ≡ ok (tt, t)
      → (j : ℕ) → sets.contains j s.reward_tokens ≡ true
      → NotLower sets o s.world t.world j
  unfolding claim
  claim-NotLower math sender names s t law other low h j k =
      let (before, e1) = of_ok (get_rewards_balances sets o s) (λ e q. ground (arith, q)) in
      let ((u, mid), e2) = of_ok (claim_each sets o names s) (λ e q. ground (arith, e1, q)) in
      let same = claim_each-world sets o math sender names s mid e2 in
      settle-NotLower math sender before s.world mid t law (rw same other) (rw same low)
        (rw same e1) (ground (arith, e1, e2)) j (rw same k)
