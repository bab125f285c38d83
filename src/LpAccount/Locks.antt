-- ===== src/LpAccount/Locks.antt =====
-- The lock of the oracle after the account has moved funds.
use text.Mathlib.Text.{◌==◌ as str_eq}
use apy_core_public.Base.{
  ℕ, ◌+◌, ◌<◌, ◌==◌, ◌≡◌, ◌↔◌, false, true, String, arith, inl, inr, ltb, if◌then◌else◌,
}
use apy_core_public.Base.Exec.{ok, err}
use apy_core_public.Contract.Call.{View-cases, Mapping, update}
use apy_core_public.Contract.Math.{SafeMath, word_mod}
use apy_core_public.Registry.Names.{oracle_adapter_address}
use apy_core_public.Oracle.State.{Oracle, Env, contract_role}
use apy_core_public.Oracle.Values.{is_locked, get_tvl, get_asset_price}
use apy_core_public.Tvl.State.{Chain}
use apy_core_public.LpAccount.Checks.{silenced, lock_for_at, lock_oracle_adapter}

-- A sum that reverts has a reason of its own.
abbrev pub OwnReasons : SafeMath → Type 0
OwnReasons math =
    (a b : ℕ) (reason : String)
    → math.add a b ≡ err reason
    → str_eq reason "CANNOT_SHORTEN_LOCK" ≡ false

module _ (c : Chain) (math : SafeMath) (registry period : ℕ) where
  -- The later of the end of a lock and the end of the period.
  abbrev pub new_end : ℕ → ℕ
  new_end lock_end =
      if ltb lock_end (c.env.block_number + period) then c.env.block_number + period else lock_end

  abbrev pub ExtendsAt : Mapping Oracle → Mapping Oracle → ℕ → Type 0
  ExtendsAt before after a =
      (oracle_adapter_address c.env.names (c.env.registry_at registry) ≡ ok a)
      × (after a ≡ record (before a) { lock_end = new_end (before a).lock_end })
      × ((b : ℕ) → (b == a) ≡ false → after b ≡ before b)

  lock_for_at-ExtendsAt :
      (a : ℕ) (before after : Mapping Oracle)
      → OwnReasons math
      → oracle_adapter_address c.env.names (c.env.registry_at registry) ≡ ok a
      → silenced (lock_for_at c math a period before) before ≡ ok after
      → ExtendsAt before after a
  unfolding silenced lock_for_at update
  lock_for_at-ExtendsAt a before after own address h =
      elim (View-cases (math.add c.env.block_number period)) [
        | inl v ↦
            let sum = math.add_lem c.env.block_number period in
            (address, ground (arith, v.1, sum), λ b k. ground (arith, v.1, sum))
        | inr q ↦ absurd (ground (arith, q.1, own c.env.block_number period q.0 q.1))
      ]

  pub lock_oracle_adapter-ExtendsAt :
      (before after : Mapping Oracle)
      → OwnReasons math
      → lock_oracle_adapter c math registry period before ≡ ok after
      → (a : ℕ) × ExtendsAt before after a
  unfolding lock_oracle_adapter
  lock_oracle_adapter-ExtendsAt before after own h =
      elim (View-cases (oracle_adapter_address c.env.names (c.env.registry_at registry))) [
        | inl v ↦ (v.0, lock_for_at-ExtendsAt v.0 before after own v.1 (ground (arith, v.1)))
        | inr q ↦ absurd (ground (arith, q.1))
      ]

  -- Until the period is over, the oracle of the registry gives no value.
  abbrev pub FreezesAt : Mapping Oracle → ℕ → Type 0
  FreezesAt after a =
      (oracle_adapter_address c.env.names (c.env.registry_at registry) ≡ ok a)
      × ((e : Env) (asset : ℕ)
          → e.block_number < c.env.block_number + period
          → (get_tvl math e (after a) ≡ err "ORACLE_LOCKED")
            × (get_asset_price math e asset (after a) ≡ err "ORACLE_LOCKED"))

  pub ExtendsAt-FreezesAt :
      (before after : Mapping Oracle) (a : ℕ) → ExtendsAt before after a → FreezesAt after a
  unfolding get_tvl get_asset_price is_locked
  ExtendsAt-FreezesAt before after a h =
      (h.0, λ e asset k. (ground (arith, h.1), ground (arith, h.1)))

  -- Where the sums of SafeMath revert with a reason of their own and the registry has an oracle: the
  -- lock after a movement succeeds exactly where the account has the contract role of the oracle and
  -- the end of the period fits a word. So a lock that is longer already does not hold it up.
  pub lock_oracle_adapter-succeeds :
      (a : ℕ) (before : Mapping Oracle)
      → OwnReasons math
      → oracle_adapter_address c.env.names (c.env.registry_at registry) ≡ ok a
      → ((after : Mapping Oracle) × (lock_oracle_adapter c math registry period before ≡ ok after))
        ↔ ((c.oracle_has_role a contract_role c.self ≡ true)
            × (c.env.block_number + period < word_mod))
  unfolding lock_oracle_adapter silenced lock_for_at
  lock_oracle_adapter-succeeds a before own address =
      elim (View-cases (math.add c.env.block_number period)) [
        | inl v ↦
            let sum = math.add_lem c.env.block_number period in
            (
              λ h. (ground (arith, address, v.1, sum, h.1), ground (arith, v.1, sum)),
              λ h. elim (View-cases (lock_oracle_adapter c math registry period before)) [
                | inl w ↦ w
                | inr q ↦ absurd (ground (arith, address, v.1, sum, h, q.1))
              ],
            )
        | inr q ↦
            let sum = math.add_lem c.env.block_number period in
            let mine = own c.env.block_number period q.0 q.1 in
            (
              λ h. absurd (ground (arith, address, q.1, mine, h.1)),
              λ h. absurd (ground (arith, q.1, sum)),
            )
      ]
