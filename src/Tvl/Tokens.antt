-- ===== src/Tvl/Tokens.antt =====
-- Erc20Allocation.sol and AssetAllocationBase.sol: the allocation of the tokens that an account
-- holds. Its events are left out.
use text.Mathlib.Text.{◌==◌ as str_eq}
use apy_core_public.Base.{
  ℕ, ◌==◌, String, Bool, true, false, not, List, [], ◌∷◌, if◌then◌else◌, map, length, get_elem?,
  none, some,
}
use apy_core_public.Base.Exec.{ok, err}
use apy_core_public.Contract.Call.{View, Call, ◌>>=◌, ◌>>◌, require, Mapping}
use apy_core_public.Contract.Access.{only, only_admin_or_contract}
use apy_core_public.Contract.Math.{SafeMath}
use apy_core_public.Contract.Enumerable.{EnumerableSet}
use apy_core_public.Registry.Names.{emergency_safe_address, admin_safe_address, m_apt_address}
use apy_core_public.Oracle.State.{
  Oracle, Role, default_admin_role, emergency_role, admin_role, contract_role,
}
use apy_core_public.Tvl.State.{Chain, Allocation, lock_oracle_adapter}

pub record TokenData : Type 0 where
  pub token : ℕ
  pub symbol : String
  pub decimals : ℕ

abbrev pub no_data : TokenData
no_data = record { token = 0; symbol = ""; decimals = 0 }

pub record Tokens (S : Type 0) : Type 0 where
  pub address_registry : ℕ
  pub token_addresses : S
  pub token_to_data : Mapping TokenData
  pub oracles : Mapping Oracle

-- The views of a token at an address.
pub record Metadata : Type 0 where
  pub symbol_of_token : ℕ → View String
  pub decimals_of_token : ℕ → View ℕ
  -- by the token and the account
  pub balance_of_token : ℕ → ℕ → View ℕ

module _ {S : Type 0} (sets : EnumerableSet S) where
  abbrev pub is_erc20_token_registered : ℕ → Tokens S → Bool
  is_erc20_token_registered token s = sets.contains token s.token_addresses

  -- The loop over the tokens.
  unfoldable pub are_registered : List ℕ → Tokens S → Bool
  are_registered [] s = true
  are_registered (token ∷ tokens) s =
      let rest = are_registered tokens s in
      if not (sets.contains token s.token_addresses) then false else rest

  abbrev pub tokens : Tokens S → List TokenData
  tokens s = map s.token_to_data (sets.values s.token_addresses)

  abbrev pub number_of_tokens : Tokens S → ℕ
  number_of_tokens s = length (tokens s)

  -- `tokens()[tokenIndex]`, which reverts out of bounds
  abbrev pub token_data : ℕ → Tokens S → View TokenData
  token_data token_index s = elim (get_elem? (tokens s) token_index) [
    | none ↦ err "invalid opcode"
    | some d ↦ ok d
  ]

  abbrev pub symbol_of : ℕ → Tokens S → View String
  symbol_of token_index s = token_data token_index s >>= λ d. ok (d.symbol)

  abbrev pub decimals_of : ℕ → Tokens S → View ℕ
  decimals_of token_index s = token_data token_index s >>= λ d. ok (d.decimals)

  abbrev pub address_of : ℕ → Tokens S → View ℕ
  address_of token_index s = token_data token_index s >>= λ d. ok (d.token)

module _ {S : Type 0} (sets : EnumerableSet S) (e : Chain) (tokens_at : Metadata) where
  abbrev pub set_address_registry : ℕ → Call (Tokens S) (Unit {0})
  set_address_registry registry s =
      require (e.env.is_contract registry) "INVALID_ADDRESS"
      >> ok (tt, record s { address_registry = registry })

  -- The constructor: the roles that it grants come with the state.
  unfoldable pub construct : ℕ → Call (Tokens S) (List (Role × ℕ))
  construct registry s = set_address_registry registry s >>= λ r.
      let registry = e.env.registry_at r.1.address_registry in
      emergency_safe_address e.env.names registry >>= λ emergency_safe.
      admin_safe_address e.env.names registry >>= λ admin_safe.
      m_apt_address e.env.names registry >>= λ m_apt. ok (
        ((default_admin_role, emergency_safe)
            ∷ (emergency_role, emergency_safe)
            ∷ (admin_role, admin_safe)
            ∷ (contract_role, m_apt)
            ∷ []),
        r.1,
      )

  module _ (math : SafeMath) where
    -- `_registerErc20Token`
    unfoldable pub register_token : ℕ → String → ℕ → Call (Tokens S) (Unit {0})
    register_token token symbol decimals s =
        require (e.env.is_contract token) "INVALID_ADDRESS"
        >> require (not (str_eq symbol "")) "INVALID_SYMBOL"
        >> lock_oracle_adapter e math s.address_registry s.oracles
        >>= λ oracles. ok (
          tt,
          record s {
            token_addresses = sets.add token s.token_addresses;
            token_to_data = λ j.
                if j == token
                then record { token = token; symbol = symbol; decimals = decimals }
                else s.token_to_data j;
            oracles = oracles;
          },
        )

    module _ (sender : ℕ) where
      unfoldable pub register_erc20_token : ℕ → Call (Tokens S) (Unit {0})
      register_erc20_token token s =
          only_admin_or_contract e.has_role sender >> tokens_at.symbol_of_token token >>= λ symbol.
          tokens_at.decimals_of_token token >>= λ decimals. register_token token symbol decimals s

      unfoldable pub register_with_symbol : ℕ → String → Call (Tokens S) (Unit {0})
      register_with_symbol token symbol s =
          only e.has_role admin_role sender >> tokens_at.decimals_of_token token >>= λ decimals.
          register_token token symbol decimals s

      unfoldable pub register_with_decimals : ℕ → String → ℕ → Call (Tokens S) (Unit {0})
      register_with_decimals token symbol decimals s =
          only e.has_role admin_role sender >> register_token token symbol decimals s

      unfoldable pub remove_erc20_token : ℕ → Call (Tokens S) (Unit {0})
      remove_erc20_token token s =
          only e.has_role admin_role sender
          >> lock_oracle_adapter e math s.address_registry s.oracles
          >>= λ oracles. ok (
            tt,
            record s {
              token_addresses = sets.remove token s.token_addresses;
              token_to_data = λ j. if j == token then no_data else s.token_to_data j;
              oracles = oracles;
            },
          )

  unfoldable pub emergency_set_address_registry : ℕ → ℕ → Call (Tokens S) (Unit {0})
  emergency_set_address_registry sender registry s =
      only e.has_role emergency_role sender >> set_address_registry registry s

  abbrev pub balance_of : ℕ → ℕ → Tokens S → View ℕ
  balance_of account token_index s =
      address_of sets token_index s >>= λ token. tokens_at.balance_of_token token account

  -- The contract as the manager sees it.
  abbrev pub as_allocation : Tokens S → Allocation
  as_allocation s = record {
    number_of_tokens = ok (number_of_tokens sets s);
    balance_of = λ account token_index. balance_of account token_index s;
    symbol_of = λ token_index. symbol_of sets token_index s;
    decimals_of = λ token_index. decimals_of sets token_index s;
  }
