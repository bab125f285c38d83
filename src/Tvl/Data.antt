-- ===== src/Tvl/Data.antt =====
-- The tokens of Erc20Allocation and what is stored of them.
use text.Mathlib.Text.{◌==◌ as str_eq}
use apy_core_public.Base.{ℕ, ◌≡◌, refl, false, true, String, arith, if◌then◌else◌, inl, inr}
use apy_core_public.Base.Exec.{ok}
use apy_core_public.Contract.Call.{Call, View-cases, Mapping}
use apy_core_public.Contract.Math.{SafeMath}
use apy_core_public.Contract.Enumerable.{EnumerableSet}
use apy_core_public.Oracle.State.{Oracle}
use apy_core_public.Tvl.State.{Chain, lock_oracle_adapter}
use apy_core_public.Tvl.Tokens.{
  no_data, Tokens, Metadata, register_token, register_erc20_token, register_with_symbol,
  register_with_decimals, remove_erc20_token,
}
use apy_core_public.Tvl.Locks.{Freezes, lock_oracle_adapter-Freezes}

module _ {S : Type 0} (sets : EnumerableSet S) (e : Chain) where
  -- The data of a token in the set is its own, with a symbol and code at its address; nothing is
  -- stored of any other token.
  abbrev pub IsStored : Tokens S → ℕ → Type 0
  IsStored s token =
      if sets.contains token s.token_addresses
      then (((s.token_to_data token).token ≡ token)
          × (str_eq (s.token_to_data token).symbol "" ≡ false)
          × (e.env.is_contract token ≡ true))
      else (s.token_to_data token ≡ no_data)

  unfoldable pub HasData : Tokens S → Type 0
  HasData s = (token : ℕ) → IsStored s token

  abbrev pub deployed : ℕ → Mapping Oracle → Tokens S
  deployed registry oracles = record {
    address_registry = registry;
    token_addresses = sets.empty;
    token_to_data = λ _. no_data;
    oracles = oracles;
  }

  deployed-HasData : (registry : ℕ) (oracles : Mapping Oracle) → HasData (deployed registry oracles)
  unfolding HasData
  deployed-HasData registry oracles token = rw (sets.contains-empty token) refl

-- The transactions that change the tokens.
pub data TokenChange : Type 0 where
  registers : ℕ → TokenChange
  registers_as : ℕ → String → TokenChange
  registers_fully : ℕ → String → ℕ → TokenChange
  removes : ℕ → TokenChange

module _ {S : Type 0} (sets : EnumerableSet S) (e : Chain) (tokens_at : Metadata)
    (math : SafeMath) where
  unfoldable pub token_change : ℕ → TokenChange → Call (Tokens S) (Unit {0})
  token_change sender (registers token) = register_erc20_token sets e tokens_at math sender token
  token_change sender (registers_as token symbol) =
      register_with_symbol sets e tokens_at math sender token symbol
  token_change sender (registers_fully token symbol decimals) =
      register_with_decimals sets e tokens_at math sender token symbol decimals
  token_change sender (removes token) = remove_erc20_token sets e tokens_at math sender token

  -- What is kept of a change: the data stay, and the oracle freezes.
  abbrev pub TokenEffect : Tokens S → Tokens S → Type 0
  TokenEffect s t =
      (HasData sets e s → HasData sets e t) × Freezes e math s.address_registry s.oracles t.oracles

  register_token-Effect :
      (token : ℕ) (symbol : String) (decimals : ℕ) (s t : Tokens S)
      → register_token sets e tokens_at math token symbol decimals s ≡ ok (tt, t)
      → TokenEffect s t
  unfolding register_token HasData
  register_token-Effect token symbol decimals s t h =
      elim (View-cases (lock_oracle_adapter e math s.address_registry s.oracles)) [
        | inl v ↦ (
          λ stored j. ground (arith, v.1, stored j, sets.contains-add j token s.token_addresses),
          lock_oracle_adapter-Freezes e math s.address_registry s.oracles t.oracles
              (ground (arith, v.1)),
        )
        | inr q ↦ absurd (ground (arith, q.1))
      ]

  remove_token-Effect :
      (sender token : ℕ) (s t : Tokens S)
      → remove_erc20_token sets e tokens_at math sender token s ≡ ok (tt, t)
      → TokenEffect s t
  unfolding remove_erc20_token HasData
  remove_token-Effect sender token s t h =
      elim (View-cases (lock_oracle_adapter e math s.address_registry s.oracles)) [
        | inl v ↦ (
          λ stored j. ground (arith, v.1, stored j, sets.contains-remove j token s.token_addresses),
          lock_oracle_adapter-Freezes e math s.address_registry s.oracles t.oracles
              (ground (arith, v.1)),
        )
        | inr q ↦ absurd (ground (arith, q.1))
      ]

  -- After a registration or a removal of a token that succeeds, the stored data are those of the
  -- tokens in the set, where they were so before: each has its own address, a symbol that is not
  -- empty and code at its address, and no other token has any. And until the default lock period of
  -- the oracle of the registry is over, that oracle reverts with ORACLE_LOCKED when it is asked for
  -- the TVL or for a price.
  pub token_change-Effect :
      (sender : ℕ) (c : TokenChange) (s t : Tokens S)
      → token_change sender c s ≡ ok (tt, t)
      → TokenEffect s t
  unfolding token_change register_erc20_token register_with_symbol register_with_decimals
  token_change-Effect sender (registers token) s t h =
      elim (View-cases (tokens_at.symbol_of_token token)) [
        | inl v ↦ elim (View-cases (tokens_at.decimals_of_token token)) [
          | inl w ↦ register_token-Effect token v.0 w.0 s t (ground (arith, v.1, w.1))
          | inr q ↦ absurd (ground (arith, v.1, q.1))
        ]
        | inr q ↦ absurd (ground (arith, q.1))
      ]
  token_change-Effect sender (registers_as token symbol) s t h =
      elim (View-cases (tokens_at.decimals_of_token token)) [
        | inl w ↦ register_token-Effect token symbol w.0 s t (ground (arith, w.1))
        | inr q ↦ absurd (ground (arith, q.1))
      ]
  token_change-Effect sender (registers_fully token symbol decimals) s t h =
      register_token-Effect token symbol decimals s t (ground arith)
  token_change-Effect sender (removes token) s t h = remove_token-Effect sender token s t h
