-- ===== src/Named/Calls.antt =====
-- The functions of the library NamedAddressSet. Those for allocations, zaps and swaps only differ
-- in the type of the contract. `NAME` is a constant of the contract at an address.
use text.Mathlib.Text.{◌==◌ as str_eq}
use apy_core_public.Base.{ℕ, ◌==◌, String, Bool, not, List, [], ◌∷◌, if◌then◌else◌}
use apy_core_public.Base.Exec.{ok}
use apy_core_public.Contract.Call.{View, Call, ◌>>=◌, ◌>>◌, require}
use apy_core_public.Contract.Enumerable.{EnumerableSet, size, at as set_at}

pub record Set (S : Type 0) : Type 0 where
  pub named_addresses : S
  pub name_lookup : String → ℕ

-- What a call reads of other contracts.
pub record Named : Type 0 where
  -- `Address.isContract`
  pub is_contract : ℕ → Bool
  -- `NAME()` of the contract at an address
  pub name_of : ℕ → View String

abbrev pub write : String → ℕ → (String → ℕ) → String → ℕ
write name a lookup n = if str_eq n name then a else lookup n

module _ {S : Type 0} (sets : EnumerableSet S) where
  abbrev pub empty : Set S
  empty = record { named_addresses = sets.empty; name_lookup = λ _. 0 }

  unfoldable pub add : Named → ℕ → Call (Set S) (Unit {0})
  add e named_address s =
      require (e.is_contract named_address) "INVALID_ADDRESS"
      >> require (not (sets.contains named_address s.named_addresses)) "DUPLICATE_ADDRESS"
      >> e.name_of named_address
      >>= λ name.
          require (not (str_eq name "")) "INVALID_NAME"
          >> require (s.name_lookup name == 0) "DUPLICATE_NAME"
          >> ok (
            tt,
            record {
              named_addresses = sets.add named_address s.named_addresses;
              name_lookup = write name named_address s.name_lookup;
            },
          )

  unfoldable pub remove : String → Call (Set S) (Unit {0})
  remove name s =
      let named_address = s.name_lookup name in
      require (not (named_address == 0)) "INVALID_NAME"
      >> ok (
        tt,
        record {
          named_addresses = sets.remove named_address s.named_addresses;
          name_lookup = write name 0 s.name_lookup;
        },
      )

  abbrev pub contains : ℕ → Set S → Bool
  contains named_address s = sets.contains named_address s.named_addresses

  abbrev pub length : Set S → ℕ
  length s = size sets s.named_addresses

  abbrev pub at : ℕ → Set S → View ℕ
  at index s = set_at sets s.named_addresses index

  abbrev pub get : String → Set S → ℕ
  get name s = s.name_lookup name

  -- The loop of `_names` over the elements.
  unfoldable pub each_name : Named → List ℕ → View (List String)
  each_name e [] = ok []
  each_name e (a ∷ rest) = e.name_of a >>= λ name. each_name e rest >>= λ names. ok (name ∷ names)

  abbrev pub names : Named → Set S → View (List String)
  names e s = each_name e (sets.values s.named_addresses)
