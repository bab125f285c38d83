-- ===== src/Contract/Token.antt =====
-- The ERC20 token of OpenZeppelin, which is not part of the repository: an interface with its
-- documented behaviour.
use apy_core_public.Base.{ℕ, ◌+◌, ◌-◌, ◌==◌, ◌≡◌, leb, arith, if◌then◌else◌, false}
use apy_core_public.Base.Exec.{ok}
use apy_core_public.Contract.Call.{View, Mapping, update, require, ◌>>◌}

pub record Erc20 (T : Type 0) : Type 0 where
  pub balance_of : T → ℕ → ℕ
  pub total_supply : T → ℕ
  pub mint : ℕ → ℕ → T → View T
  pub burn : ℕ → ℕ → T → View T
  pub mint_supply : (a n : ℕ) (t t' : T) → mint a n t ≡ ok t' → total_supply t' ≡ total_supply t + n
  pub mint_balance :
      (a n : ℕ) (t t' : T) → mint a n t ≡ ok t' → balance_of t' a ≡ balance_of t a + n
  pub burn_supply : (a n : ℕ) (t t' : T) → burn a n t ≡ ok t' → total_supply t' + n ≡ total_supply t
  pub burn_balance :
      (a n : ℕ) (t t' : T) → burn a n t ≡ ok t' → balance_of t' a + n ≡ balance_of t a

-- A token that the documentation describes, with the supply and the balances.
pub record Ledger : Type 0 where
  pub supply : ℕ
  pub balances : Mapping ℕ

unfoldable pub mint_ledger : ℕ → ℕ → Ledger → View Ledger
mint_ledger a n t = ok (record {
  supply = t.supply + n;
  balances = λ b. if b == a then t.balances b + n else t.balances b;
})

unfoldable pub burn_ledger : ℕ → ℕ → Ledger → View Ledger
burn_ledger a n t =
    require (leb n (t.balances a)) "ERC20: burn amount exceeds balance"
    >> require (leb n t.supply) "SafeMath: subtraction overflow"
    >> ok (record {
      supply = t.supply - n;
      balances = λ b. if b == a then t.balances b - n else t.balances b;
    })

pub mint_ledger_supply :
    (a n : ℕ) (t t' : Ledger) → mint_ledger a n t ≡ ok t' → t'.supply ≡ t.supply + n
unfolding mint_ledger
mint_ledger_supply a n t t' h = ground arith

pub mint_ledger_balance :
    (a n : ℕ) (t t' : Ledger) → mint_ledger a n t ≡ ok t' → t'.balances a ≡ t.balances a + n
unfolding mint_ledger
mint_ledger_balance a n t t' h = ground arith

pub burn_ledger_supply :
    (a n : ℕ) (t t' : Ledger) → burn_ledger a n t ≡ ok t' → t'.supply + n ≡ t.supply
unfolding burn_ledger
burn_ledger_supply a n t t' h = ground arith

pub burn_ledger_balance :
    (a n : ℕ) (t t' : Ledger) → burn_ledger a n t ≡ ok t' → t'.balances a + n ≡ t.balances a
unfolding burn_ledger
burn_ledger_balance a n t t' h = ground arith

unfoldable pub ledger : Erc20 Ledger
ledger = record {
  balance_of = λ t. t.balances;
  total_supply = λ t. t.supply;
  mint = mint_ledger;
  burn = burn_ledger;
  mint_supply = mint_ledger_supply;
  mint_balance = mint_ledger_balance;
  burn_supply = burn_ledger_supply;
  burn_balance = burn_ledger_balance;
}

-- The underlyer of a pool, an ERC20 token: transfers move exactly the amount.
pub record Coin (U : Type 0) : Type 0 where
  pub balance : U → ℕ → ℕ
  pub allowance : U → ℕ → ℕ → ℕ
  -- by the owner, to an account
  pub transfer : ℕ → ℕ → ℕ → U → View U
  -- by a spender, from an account to an account
  pub transfer_from : ℕ → ℕ → ℕ → ℕ → U → View U
  pub transfer_balances :
      (owner to n : ℕ) (u u' : U)
      → transfer owner to n u ≡ ok u'
      → (owner == to) ≡ false
      → (balance u' owner + n ≡ balance u owner) × (balance u' to ≡ balance u to + n)
  pub transfer_from_balances :
      (spender from to n : ℕ) (u u' : U)
      → transfer_from spender from to n u ≡ ok u'
      → (from == to) ≡ false
      → (balance u' from + n ≡ balance u from) × (balance u' to ≡ balance u to + n)

-- Coins by their holders, where everyone allows everything.
abbrev pub move_coins : ℕ → ℕ → ℕ → Mapping ℕ → Mapping ℕ
move_coins from to n u = update to (update from (u from - n) u to + n) (update from (u from - n) u)

unfoldable pub transfer_coins : ℕ → ℕ → ℕ → Mapping ℕ → View (Mapping ℕ)
transfer_coins from to n u =
    require (leb n (u from)) "ERC20: transfer amount exceeds balance" >> ok (move_coins from to n u)

pub transfer_coins_lem :
    (from to n : ℕ) (u u' : Mapping ℕ)
    → transfer_coins from to n u ≡ ok u'
    → (from == to) ≡ false
    → (u' from + n ≡ u from) × (u' to ≡ u to + n)
unfolding transfer_coins update
transfer_coins_lem from to n u u' h k = ground arith

unfoldable pub coins : Coin (Mapping ℕ)
coins = record {
  balance = λ u. u;
  allowance = λ u owner spender. 1000000000;
  transfer = transfer_coins;
  transfer_from = λ spender. transfer_coins;
  transfer_balances = transfer_coins_lem;
  transfer_from_balances = λ spender. transfer_coins_lem;
}
