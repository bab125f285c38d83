-- ===== src/Strategies/Share.antt =====
-- The loop over the underlyers of one strategy: it overspends no stablecoin, and it stays within the
-- strategy's share of the total.
use apy_core_public.Base.{
  ℕ, suc, ◌+◌, ◌-◌, ◌*◌, ◌≡◌, Bool, true, inl, inr, List, [], ◌∷◌, arith, length, ◌==◌, map,
  Bool-cases, if◌then◌else◌,
}
use apy_core_public.Base.Int.{ℤ, pos, ◌+ℤ◌, ◌-ℤ◌, ◌≤ℤ◌, int_laws}
use apy_core_public.Strategies.Amounts.{
  Underlyer, Balances, get, same, unit, denormalize, Progress, pick_amount, allocate_one, allocate,
  renormalize,
}
use apy_core_public.Strategies.Budget.{
  get-set, eq_of_same, IsFunded, spent, pick_amount_nonneg, pick_amount-le-remaining,
  pick_amount-le-budget, spent-put, denormalize-le, denormalize_nonneg, AllNonneg, put-AllNonneg,
  sum, renormalize-denormalize-le, sum-put-le,
}

-- What holds of the loop's state, where `start` is `deployedBalances` before the strategy.
pub record IsSound (normalized : Balances ℕ) (start : Balances ℤ) (p : Progress) : Type 0 where
  pub funded : IsFunded normalized p.deployed_balances
  pub covered :
      (u : Underlyer) → pos (unit u * spent u p.amounts) +ℤ get u start ≤ℤ get u p.deployed_balances
  pub nonneg : AllNonneg p.amounts
  pub counted : sum (map renormalize p.amounts) ≤ℤ p.amount_deployed

last_index : (i n k : ℕ) → i + suc k ≡ n → (i == n - 1) ≡ true → k ≡ 0
last_index i n k e h = ground arith

module _ (normalized : Balances ℕ) (T U : ℕ) where
  allocate_one-IsFunded :
      (u : Underlyer) (is_last : Bool) (p : Progress)
      → IsFunded normalized p.deployed_balances
      → p.amount_deployed ≤ℤ pos T
      → IsFunded normalized (allocate_one normalized (pos T) (pos U) u is_last p).deployed_balances
  unfolding allocate_one
  allocate_one-IsFunded u is_last p h hd v =
      let R = pos (get u normalized) -ℤ get u p.deployed_balances in
      rw get-set (elim (Bool-cases (same u v)) [
        | inl e ↦ rw e (
            rw (← eq_of_same u v e) (
              omega (
                int_laws,
                h u,
                pick_amount_nonneg T U is_last R p.amount_deployed (omega (int_laws, h u)) hd,
                pick_amount-le-remaining (pos T) (pos U) is_last R p.amount_deployed,
              )))
        | inr e ↦ rw e (h v)
      ])

  allocate_one-IsSound :
      (start : Balances ℤ) (u : Underlyer) (is_last : Bool) (p : Progress)
      → p.amount_deployed ≤ℤ pos T
      → IsSound normalized start p
      → IsSound normalized start (allocate_one normalized (pos T) (pos U) u is_last p)
  unfolding allocate_one
  allocate_one-IsSound start u is_last p hd h = record {
    funded = allocate_one-IsFunded u is_last p h.funded hd;
    covered = λ v.
        rw (get-set, spent-put)
          (elim (Bool-cases (same u v)) [
            | inl e ↦
                rw (e, if◌then◌else◌)
                  (rw (← eq_of_same u v e)
                    (omega (int_laws, picked, h.covered u, denormalize-le u amount picked)))
            | inr e ↦ rw e (h.covered v)
          ]);
    nonneg = put-AllNonneg u _ p.amounts (denormalize_nonneg u amount picked) h.nonneg;
    counted = omega (
      int_laws,
      sum-put-le u (denormalize u amount) p.amounts h.nonneg,
      renormalize-denormalize-le u amount picked,
      h.counted,
    );
  }
    where
      R : ℤ
      R = pos (get u normalized) -ℤ get u p.deployed_balances

      amount : ℤ
      amount = pick_amount (pos T) (pos U) is_last R p.amount_deployed

      picked : pos 0 ≤ℤ amount
      picked = pick_amount_nonneg T U is_last R p.amount_deployed (omega (int_laws, h.funded u)) hd

  pub allocate-IsSound :
      (start : Balances ℤ) (n i : ℕ) (us : List Underlyer) (p : Progress)
      → i + length us ≡ n
      → p.amount_deployed +ℤ pos (length us * U) ≤ℤ pos T
      → IsSound normalized start p
      → let r = allocate normalized (pos T) (pos U) n i us p in
        IsSound normalized start r × (r.amount_deployed ≤ℤ pos T)
  unfolding allocate
  allocate-IsSound start n i [] p e hd h = (h, omega (int_laws))
  allocate-IsSound start n i (u ∷ us) p e hd h =
      allocate-IsSound start n (suc i) us (allocate_one normalized (pos T) (pos U) u (i == n - 1) p)
        (omega arith)
        (pick_amount-le-budget T U (length us) (i == n - 1)
          (pos (get u normalized) -ℤ get u p.deployed_balances) p.amount_deployed hd
          (λ last. last_index i n (length us) e last))
        (allocate_one-IsSound start u (i == n - 1) p (omega int_laws) h)
