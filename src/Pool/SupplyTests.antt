-- ===== src/Pool/SupplyTests.antt =====
-- A funding and a withdrawal at concrete amounts.
use apy_core_public.Base.{ℕ, ◌+◌, ◌-◌, ◌==◌, ◌≡◌, refl, List, [], ◌∷◌, if◌then◌else◌}
use apy_core_public.Base.Exec.{ok}
use apy_core_public.Contract.Math.{safe_math, check}
use apy_core_public.Contract.Token.{Ledger, ledger, mint_ledger, burn_ledger}
use apy_core_public.Pool.Amounts.{delta}
use apy_core_public.Pool.Meta.{
  Move, to_lp_account, to_pool, Meta, Others, each_delta, calculate_deltas, mint_and_transfer,
  mint_each, multiple_mint_and_transfer, burn_and_transfer, burn_each, multiple_burn_and_transfer,
}

-- Every underlyer costs 200 and has 6 decimals, and the TVL is 1000.
abbrev others : Others
others = record {
  underlyer_price = λ pool. ok 200;
  decimals = λ pool. 6;
  tvl = ok 1000;
  transfer = λ move. ok tt;
  lock = ok tt;
}

abbrev two_pools : ℕ → ℕ → ℕ → List Move → Meta Ledger
two_pools supply a b moves = record {
  token = record {
    supply = supply;
    balances = λ pool. if pool == 2 then b else (if pool == 1 then a else 0);
  };
  moves = moves;
}

abbrev funded : List Move → Meta Ledger
funded moves = record {
  token = record {
    supply = 11;
    balances = λ b.
        if b == 1
        then (two_pools 7 3 4 []).token.balances b + 4
        else (two_pools 7 3 4 []).token.balances b;
  };
  moves = moves;
}

-- The second pool gives less than a share is worth.
funding :
    multiple_mint_and_transfer safe_math ledger others
      (1 ∷ 2 ∷ [])
      (3000000 ∷ 600000 ∷ [])
      (two_pools 7 3 4 [])
    ≡ ok (funded (to_lp_account 1 3000000 ∷ []))
unfolding multiple_mint_and_transfer calculate_deltas each_delta mint_each mint_and_transfer delta
    mint_ledger ledger safe_math check
funding = refl

abbrev withdrawn : Meta Ledger
withdrawn = record {
  token = record {
    supply = 6;
    balances = λ b.
        if b == 2
        then (two_pools 7 3 4 []).token.balances b - 1
        else (two_pools 7 3 4 []).token.balances b;
  };
  moves = to_pool 2 1000000 ∷ [];
}

withdrawal :
    multiple_burn_and_transfer safe_math ledger others
      (1 ∷ 2 ∷ [])
      (0 ∷ 1000000 ∷ [])
      (two_pools 7 3 4 [])
    ≡ ok withdrawn
unfolding multiple_burn_and_transfer calculate_deltas each_delta burn_each burn_and_transfer delta
    burn_ledger ledger safe_math check
withdrawal = refl
