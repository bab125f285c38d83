-- ===== src/Local/Account.antt =====
-- utils/helpers/account.js. How a `BigNumber` is written in hexadecimal is a parameter.
use text.Mathlib.Text.{◌==◌ as str_eq}
use Prim.Native.Char.{code}
use apy_core_public.Base.{
  ◌==◌, String, ◌<>◌, Bool, false, ◌&&◌, Option, none, some, [], ◌∷◌, if◌then◌else◌,
}
use apy_core_public.Base.Int.{ℤ}
use apy_core_public.Script.Core.{
  Value, Script, done, fail, thrown, ◌>>=◌, ◌>>◌, invoke, attempt, as_string, ignore,
}
use apy_core_public.Safe.Signers.{ethers}
use apy_core_public.TokenUnit.Convert.{Text, Amount, Result, token_amount_to_big_number}

-- `hre.network.provider`
abbrev pub network_provider : Value
network_provider = Value.str "hre.network.provider"

-- `getAddress`
unfoldable pub get_address : Value → Script String
get_address (Value.signer a) = do
  address ← invoke (Value.signer a) "getAddress" []
  as_string address
get_address (Value.contract a) = done a
get_address (Value.deployed a tx) = done a
get_address (Value.str s) = do
  address ← invoke ethers "utils.getAddress" (Value.str s ∷ [])
  as_string address
get_address _ = fail (thrown "getAddress: argument type is not recognized.")

abbrev drop_zeros : String → String
drop_zeros String.[] = ""
drop_zeros (String.◌∷◌ c s) =
    let rest = drop_zeros s in if code c == b'0' then rest else String.◌∷◌ c s

-- Whether a text begins with "0x0", and the text after "0x".
abbrev begins_0x0 : String → Bool
begins_0x0 (String.◌∷◌ c (String.◌∷◌ d (String.◌∷◌ e s))) =
    code c == b'0' && code d == b'x' && code e == b'0'
begins_0x0 _ = false

abbrev after_0x : String → String
after_0x (String.◌∷◌ c (String.◌∷◌ d s)) = s
after_0x s = s

-- `hex.replace(/0x0+/, "0x")`: the first match is replaced.
unfoldable pub strip_zeros : String → String
strip_zeros String.[] = ""
strip_zeros (String.◌∷◌ c s) =
    let rest = strip_zeros s in
    if begins_0x0 (String.◌∷◌ c s)
    then "0x" <> drop_zeros (after_0x (String.◌∷◌ c s))
    else String.◌∷◌ c rest

-- The text that is sent for a balance.
unfoldable pub balance_hex : String → String
balance_hex hex =
    let stripped = strip_zeros hex in if str_eq stripped "0x" then "0x0;" else stripped

abbrev five : Amount
five = Amount.text (b'5' ∷ [])

-- `ethBalance || 5`, where a balance that is given is not 0 and not empty.
abbrev or_five : Option Amount → Amount
or_five none = five
or_five (some amount) = amount

module _ (from : Text → Option ℤ) (to_hex : ℤ → String) where
  abbrev to_wei : Result → Script ℤ
  to_wei (Result.ok n) = done n
  to_wei (Result.err e) = fail (thrown "tokenAmountToBigNumber")

  -- `setBalance`
  unfoldable pub set_balance : Value → Option Amount → Script (Unit {0})
  set_balance account eth_balance = do
    address ← get_address account
    new_balance ← to_wei (token_amount_to_big_number from (or_five eth_balance) none)
    ignore (
        invoke network_provider "hardhat_setBalance"
          (Value.str address ∷ Value.str (balance_hex (to_hex new_balance)) ∷ []))

  -- A request whose rejection is answered by the method of ganache.
  unfoldable pub impersonate : String → Option Value → Script (Unit {0})
  impersonate address (some v) = done tt
  impersonate address none =
      ignore (invoke network_provider "evm_unlockUnknownAccount" (Value.str address ∷ []))

  -- `impersonateAccount`
  unfoldable pub impersonate_account : Value → Option Amount → Script Value
  impersonate_account account eth_balance = do
    address ← get_address account
    answer ← attempt network_provider "hardhat_impersonateAccount" (Value.str address ∷ [])
    impersonate address answer
    set_balance (Value.str address) eth_balance
    invoke ethers "getSigner" (Value.str address ∷ [])
