-- ===== src/LpAccount/Rewards.antt =====
-- The tokens with a fee, in every state that the transactions reach.
use mathlib.Core.Path.{subst}
use apy_core_public.Base.{ℕ, ◌==◌, ◌≡◌, true, not, List, [], ◌∷◌, arith}
use apy_core_public.Base.Exec.{ok}
use apy_core_public.Contract.Call.{Call, of_ok, Mapping, update}
use apy_core_public.Contract.Enumerable.{EnumerableSet}
use apy_core_public.Oracle.State.{Oracle, admin_role}
use apy_core_public.LpAccount.State.{Account, Outside, blank}
use apy_core_public.LpAccount.Fees.{
  set_reward_fee, unset_reward_fee, set_each_fee, unset_each_fee, register_reward_fee,
  register_multiple_reward_fees, remove_reward_fee, remove_multiple_reward_fees,
}

-- The transactions that change the fees.
pub data FeeChange : Type 0 where
  registers : ℕ → ℕ → FeeChange
  registers_all : List ℕ → List ℕ → FeeChange
  removes : ℕ → FeeChange
  removes_all : List ℕ → FeeChange

module _ {S W : Type 0} (sets : EnumerableSet S) (o : Outside S W) where
  unfoldable pub fee_change : ℕ → FeeChange → Call (Account S W) (Unit {0})
  fee_change sender (registers token fee) = register_reward_fee sets o sender token fee
  fee_change sender (registers_all tokens fees) =
      register_multiple_reward_fees sets o sender tokens fees
  fee_change sender (removes token) = remove_reward_fee sets o sender token
  fee_change sender (removes_all tokens) = remove_multiple_reward_fees sets o sender tokens

  -- A token is in the set exactly where it has a fee.
  unfoldable pub HasFees : Account S W → Type 0
  HasFees s = (x : ℕ) → sets.contains x s.reward_tokens ≡ not (s.reward_fee x == 0)

  pub blank-HasFees : (oracles : Mapping Oracle) (world : W) → HasFees (blank sets oracles world)
  unfolding HasFees
  blank-HasFees oracles world x = ground (arith, sets.contains-empty x)

  set_reward_fee-HasFees :
      (token fee : ℕ) (s t : Account S W)
      → set_reward_fee sets o token fee s ≡ ok (tt, t)
      → HasFees s
      → HasFees t
  unfolding HasFees set_reward_fee update
  set_reward_fee-HasFees token fee s t h v x =
      ground (arith, v x, sets.contains-add x token s.reward_tokens)

  unset_reward_fee-HasFees :
      (token : ℕ) (s : Account S W) → HasFees s → HasFees (unset_reward_fee sets o token s)
  unfolding HasFees unset_reward_fee update
  unset_reward_fee-HasFees token s v x =
      ground (arith, v x, sets.contains-remove x token s.reward_tokens)

  set_each_fee-HasFees :
      (tokens fees : List ℕ) (s t : Account S W)
      → set_each_fee sets o tokens fees s ≡ ok (tt, t)
      → HasFees s
      → HasFees t
  unfolding set_each_fee
  set_each_fee-HasFees [] fees s t h v = subst HasFees (ground arith) v
  set_each_fee-HasFees (token ∷ tokens) [] s t h v = absurd (ground arith)
  set_each_fee-HasFees (token ∷ tokens) (fee ∷ fees) s t h v =
      let ((k, u), e) = of_ok (set_reward_fee sets o token fee s) (λ e q. ground (arith, q)) in
      set_each_fee-HasFees tokens fees u t (ground (arith, e))
        (set_reward_fee-HasFees token fee s u e v)

  unset_each_fee-HasFees :
      (tokens : List ℕ) (s : Account S W) → HasFees s → HasFees (unset_each_fee sets o tokens s)
  unfolding unset_each_fee
  unset_each_fee-HasFees [] s v = v
  unset_each_fee-HasFees (token ∷ tokens) s v =
      unset_each_fee-HasFees tokens (unset_reward_fee sets o token s)
        (unset_reward_fee-HasFees token s v)

  -- A change of the fees that succeeds is by an admin, and where before it the tokens in the set
  -- were exactly those with a fee other than zero, they are so after it.
  pub fee_change-HasFees :
      (sender : ℕ) (c : FeeChange) (s t : Account S W)
      → fee_change sender c s ≡ ok (tt, t)
      → (o.chain.has_role admin_role sender ≡ true) × (HasFees s → HasFees t)
  unfolding fee_change
  fee_change-HasFees sender (registers token fee) s t h =
      (ground arith, set_reward_fee-HasFees token fee s t (ground arith))
  fee_change-HasFees sender (registers_all tokens fees) s t h =
      (ground arith, set_each_fee-HasFees tokens fees s t (ground arith))
  fee_change-HasFees sender (removes token) s t h =
      (ground arith, λ v. ground (arith, unset_reward_fee-HasFees token s v))
  fee_change-HasFees sender (removes_all tokens) s t h =
      (ground arith, λ v. ground (arith, unset_each_fee-HasFees tokens s v))
