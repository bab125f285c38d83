-- ===== src/Pool/Settings.antt =====
-- The locks and the settings of PoolTokenV3, its transfer to the LP Account, and the top-up in tokens.
-- Pausable is a library of OpenZeppelin: `_pause` and `_unpause` are parameters.
use apy_core_public.Base.{
  ℕ, zero, ◌==◌, ◌≡◌, Bool, true, false, not, ◌||◌, leb, arith, if◌then◌else◌, ◌-◌,
}
use apy_core_public.Base.Int.{ℤ, pos}
use apy_core_public.Base.Exec.{ok, err}
use apy_core_public.Contract.Call.{View, Call, ◌>>=◌, ◌>>◌, require, of_ok}
use apy_core_public.Contract.Access.{only}
use apy_core_public.Contract.Math.{SafeMath}
use apy_core_public.Contract.Signed.{SignedMath, half_mod, int256}
use apy_core_public.Contract.Token.{Erc20, Coin}
use apy_core_public.Registry.Names.{lp_account_address}
use apy_core_public.Oracle.State.{Role, emergency_role, admin_role, contract_role}
use apy_core_public.Tvl.State.{Chain}
use apy_core_public.Pool.Amounts.{Reading, ten_to}
use apy_core_public.Pool.TopUp.{reserve_top_up_value}
use apy_core_public.Pool.Deposit.{Pool, Caller, add_liquidity, redeem}

-- `_pause` and `_unpause` give the new flag, or revert.
pub record Pausable : Type 0 where
  pub pause : Bool → View Bool
  pub unpause : Bool → View Bool
  pub pause_lem : (b c : Bool) → pause b ≡ ok c → c ≡ true
  pub unpause_lem : (b c : Bool) → unpause b ≡ ok c → c ≡ false

pub record Settings (T U : Type 0) : Type 0 where
  pub pool : Pool T U
  pub reserve_percentage : ℕ
  pub address_registry : ℕ

-- The transactions that change the locks and the settings.
pub data Setting : Type 0 where
  pauses unpauses : Setting
  locks_deposits unlocks_deposits : Setting
  locks_redemptions unlocks_redemptions : Setting
  changes_registry : ℕ → Setting
  changes_arbitrage_fee : ℕ → ℕ → Setting
  changes_reserve changes_withdraw_fee : ℕ → Setting

-- The role that a transaction asks for.
unfoldable pub role_of : Setting → Role
role_of (changes_arbitrage_fee percentage period) = admin_role
role_of (changes_reserve n) = admin_role
role_of (changes_withdraw_fee n) = admin_role
role_of r = emergency_role

module _ {T U : Type 0} (e : Chain) (pausable : Pausable) where
  module _ (sender : ℕ) where
    abbrev pub emergency_lock : Call (Settings T U) (Unit {0})
    emergency_lock s =
        only e.has_role emergency_role sender >> pausable.pause s.pool.paused >>= λ b.
        ok (tt, record s { pool = record s.pool { paused = b } })

    abbrev pub emergency_unlock : Call (Settings T U) (Unit {0})
    emergency_unlock s =
        only e.has_role emergency_role sender >> pausable.unpause s.pool.paused >>= λ b.
        ok (tt, record s { pool = record s.pool { paused = b } })

    abbrev pub emergency_lock_add_liquidity : Call (Settings T U) (Unit {0})
    emergency_lock_add_liquidity s =
        only e.has_role emergency_role sender
        >> ok (tt, record s { pool = record s.pool { add_liquidity_lock = true } })

    abbrev pub emergency_unlock_add_liquidity : Call (Settings T U) (Unit {0})
    emergency_unlock_add_liquidity s =
        only e.has_role emergency_role sender
        >> ok (tt, record s { pool = record s.pool { add_liquidity_lock = false } })

    abbrev pub emergency_lock_redeem : Call (Settings T U) (Unit {0})
    emergency_lock_redeem s =
        only e.has_role emergency_role sender
        >> ok (tt, record s { pool = record s.pool { redeem_lock = true } })

    abbrev pub emergency_unlock_redeem : Call (Settings T U) (Unit {0})
    emergency_unlock_redeem s =
        only e.has_role emergency_role sender
        >> ok (tt, record s { pool = record s.pool { redeem_lock = false } })

    abbrev pub emergency_set_address_registry : ℕ → Call (Settings T U) (Unit {0})
    emergency_set_address_registry a s =
        only e.has_role emergency_role sender
        >> require (e.env.is_contract a) "INVALID_ADDRESS"
        >> ok (tt, record s { address_registry = a })

    abbrev pub set_arbitrage_fee : ℕ → ℕ → Call (Settings T U) (Unit {0})
    set_arbitrage_fee percentage period s =
        only e.has_role admin_role sender
        >> ok (
          tt,
          record s {
            pool = record s.pool { arbitrage_fee = percentage; arbitrage_fee_period = period };
          },
        )

    abbrev pub set_reserve_percentage : ℕ → Call (Settings T U) (Unit {0})
    set_reserve_percentage n s =
        only e.has_role admin_role sender >> ok (tt, record s { reserve_percentage = n })

    abbrev pub set_withdraw_fee : ℕ → Call (Settings T U) (Unit {0})
    set_withdraw_fee n s =
        only e.has_role admin_role sender
        >> ok (tt, record s { pool = record s.pool { withdraw_fee = n } })

  -- The function that a transaction calls.
  unfoldable pub set : ℕ → Setting → Call (Settings T U) (Unit {0})
  set sender pauses = emergency_lock sender
  set sender unpauses = emergency_unlock sender
  set sender locks_deposits = emergency_lock_add_liquidity sender
  set sender unlocks_deposits = emergency_unlock_add_liquidity sender
  set sender locks_redemptions = emergency_lock_redeem sender
  set sender unlocks_redemptions = emergency_unlock_redeem sender
  set sender (changes_registry a) = emergency_set_address_registry sender a
  set sender (changes_arbitrage_fee percentage period) = set_arbitrage_fee sender percentage period
  set sender (changes_reserve n) = set_reserve_percentage sender n
  set sender (changes_withdraw_fee n) = set_withdraw_fee sender n

  -- The tokens and the times of the deposits are as they were.
  abbrev pub SameFunds : Settings T U → Settings T U → Type 0
  SameFunds s t =
      (t.pool.token ≡ s.pool.token)
      × (t.pool.underlyer ≡ s.pool.underlyer)
      × (t.pool.last_deposit_time ≡ s.pool.last_deposit_time)

  -- A change of the locks or the settings that succeeds is by a holder of the role that it asks for,
  -- the admin role for the fees and the reserve percentage and the emergency role for the others, and
  -- it leaves the tokens and the times of the deposits as they were.
  pub set-SameFunds :
      (sender : ℕ) (r : Setting) (s t : Settings T U)
      → set sender r s ≡ ok (tt, t)
      → (e.has_role (role_of r) sender ≡ true) × SameFunds s t
  unfolding set role_of
  set-SameFunds sender pauses s t h =
      let (b, e1) = of_ok (pausable.pause s.pool.paused) (λ e q. ground (arith, q)) in
      ground (arith, e1)
  set-SameFunds sender unpauses s t h =
      let (b, e1) = of_ok (pausable.unpause s.pool.paused) (λ e q. ground (arith, q)) in
      ground (arith, e1)
  set-SameFunds sender locks_deposits s t h = ground arith
  set-SameFunds sender unlocks_deposits s t h = ground arith
  set-SameFunds sender locks_redemptions s t h = ground arith
  set-SameFunds sender unlocks_redemptions s t h = ground arith
  set-SameFunds sender (changes_registry a) s t h = ground arith
  set-SameFunds sender (changes_arbitrage_fee percentage period) s t h = ground arith
  set-SameFunds sender (changes_reserve n) s t h = ground arith
  set-SameFunds sender (changes_withdraw_fee n) s t h = ground arith

  module _ (math : SafeMath) (erc20 : Erc20 T) (coin : Coin U) (this : ℕ) (c : Caller) where
    abbrev pub NoDeposit : Settings T U → Type 0
    NoDeposit s =
        (amount : ℕ) (r : Unit {0} × Pool T U)
        → add_liquidity math erc20 coin this c amount s.pool ≡ ok r
        → ⊥

    abbrev pub NoRedemption : Settings T U → Type 0
    NoRedemption s =
        (amount : ℕ) (r : Unit {0} × Pool T U)
        → redeem math erc20 coin this c amount s.pool ≡ ok r
        → ⊥

    -- What a transaction stops.
    unfoldable pub Stops : Setting → Settings T U → Type 0
    Stops pauses s = NoDeposit s × NoRedemption s
    Stops locks_deposits s = NoDeposit s
    Stops locks_redemptions s = NoRedemption s
    Stops r s = Unit

    -- After a pause that succeeds no deposit and no redemption succeeds, of anyone and of any amount;
    -- after a lock of the deposits no deposit does, and after one of the redemptions no redemption.
    pub set-Stops :
        (sender : ℕ) (r : Setting) (s t : Settings T U) → set sender r s ≡ ok (tt, t) → Stops r t
    unfolding set Stops add_liquidity redeem
    set-Stops sender pauses s t h =
        let (b, e1) = of_ok (pausable.pause s.pool.paused) (λ e q. ground (arith, q)) in
        let on = pausable.pause_lem s.pool.paused b e1 in
        let paused : t.pool.paused ≡ true = ground (arith, e1, on) in
        (λ amount r k. ground (arith, paused, k), λ amount r k. ground (arith, paused, k))
    set-Stops sender locks_deposits s t h =
        let off : t.pool.add_liquidity_lock ≡ true = ground arith in
        λ amount r k. ground (arith, off, k)
    set-Stops sender locks_redemptions s t h =
        let off : t.pool.redeem_lock ≡ true = ground arith in λ amount r k. ground (arith, off, k)
    set-Stops sender unpauses s t h = tt
    set-Stops sender unlocks_deposits s t h = tt
    set-Stops sender unlocks_redemptions s t h = tt
    set-Stops sender (changes_registry a) s t h = tt
    set-Stops sender (changes_arbitrage_fee percentage period) s t h = tt
    set-Stops sender (changes_reserve n) s t h = tt
    set-Stops sender (changes_withdraw_fee n) s t h = tt

  module _ (coin : Coin U) (this : ℕ) where
    unfoldable pub transfer_to_lp_account : ℕ → ℕ → Call (Settings T U) (Unit {0})
    transfer_to_lp_account sender amount s =
        require (not s.pool.paused) "Pausable: paused"
        >> only e.has_role contract_role sender
        >> lp_account_address e.env.names (e.env.registry_at s.address_registry)
        >>= λ account. coin.transfer this account amount s.pool.underlyer >>= λ u.
            ok (tt, record s { pool = record s.pool { underlyer = u } })

-- `_beforeTokenTransfer`: APT is minted and burned, and not transferred between accounts.
unfoldable pub before_token_transfer : ℕ → ℕ → View (Unit {0})
before_token_transfer from to = if (from == 0) || (to == 0) then ok tt else err "INVALID_TRANSFER"

module _ (math : SafeMath) (signed : SignedMath) where
  -- A value in units of the underlyer, unless it is zero.
  unfoldable pub value_in_tokens : Reading → ℤ → View ℤ
  value_in_tokens r (pos zero) = ok (pos 0)
  value_in_tokens r value = r.price >>= λ price.
      require (leb price (half_mod - 1)) "INVALID_PRICE"
      >> signed.mul value (int256 (ten_to r.decimals))
      >>= λ product. signed.div product (int256 price)

  unfoldable pub get_reserve_top_up_value : Reading → ℕ → View ℤ
  get_reserve_top_up_value r reserve =
      reserve_top_up_value math signed r reserve >>= λ value. value_in_tokens r value
