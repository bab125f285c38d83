-- ===== src/Safe/Receipts.antt =====
-- `waitForSafeTxReceipt` of utils/helpers/safe.js. Its two loops have no bound in the code; here each
-- has as many rounds as the fuel says, and ends with `out_of_fuel` when they are used up.
use text.Mathlib.Text.{◌==◌ as str_eq}
use apy_core_public.Base.{
  ℕ, zero, suc, ◌+◌, ◌-◌, ◌*◌, String, ◌<>◌, Bool, true, false, Option, none, some, List, [], ◌∷◌,
  leb, if◌then◌else◌,
}
use apy_core_public.Base.Texts.{to_lower, count_chars, drop_chars, first_char}
use apy_core_public.Script.Core.{
  Value, Tx, Log, Receipt, Script, done, fail, out_of_fuel, type_error, ◌>>=◌, ◌>>◌, invoke,
  attempt, as_string, truthy, required,
}
use apy_core_public.Safe.Signers.{ethers, provider}

-- `x || d` for a number.
abbrev pub or_default : Option ℕ → ℕ → ℕ
or_default none d = d
or_default (some zero) d = d
or_default (some (suc n)) d = suc n

-- `data.slice(data.length - 40)`: a start below zero counts from the end.
unfoldable pub last_40 : String → String
last_40 s =
    let n = count_chars s in if leb 40 n then drop_chars (n - 40) s else drop_chars (n + n - 40) s

-- The topic of the `ContractCreation` event.
abbrev pub creation_topic : String
creation_topic = "0x4db17dd5e4732fb6da34a148104a592783ca119a1e7bb8829eba6cbadef0b511"

-- `receipt.logs.find(…)`
unfoldable pub find_creation : List Log → Option Log
find_creation [] = none
find_creation (log ∷ logs) =
    if str_eq log.topic creation_topic then some log else find_creation logs

abbrev pub hash_of : Option Value → Option String
hash_of (some (Value.details h)) = truthy h
hash_of _ = none

abbrev pub receipt_of : Option Value → Option Receipt
receipt_of (some (Value.receipt r)) = some r
receipt_of _ = none

abbrev pause : ℕ → Script Value
pause delay = invoke (Value.str "timer") "sleep" (Value.num delay ∷ [])

-- `while (!txHash)`: a rejected request is logged, and tried again.
unfoldable pub poll_hash : ℕ → Value → String → ℕ → Script String
poll_hash zero service hash delay = fail out_of_fuel
poll_hash (suc fuel) service hash delay =
    let again = poll_hash fuel service hash delay in
    do
      answer ← attempt service "getSafeTxDetails" (Value.str hash ∷ [])
      pause delay
      elim (hash_of answer) [ none ↦ again | some h ↦ done h ]

-- `while (!receipt)`
unfoldable pub poll_receipt : ℕ → String → ℕ → ℕ → ℕ → Script Receipt
poll_receipt zero hash confirmations timeout delay = fail out_of_fuel
poll_receipt (suc fuel) hash confirmations timeout delay =
    let again = poll_receipt fuel hash confirmations timeout delay in
    do
      answer ←
          attempt provider "waitForTransaction"
            (Value.str hash ∷ Value.num confirmations ∷ Value.num timeout ∷ [])
      pause delay
      elim (receipt_of answer) [ none ↦ again | some r ↦ done r ]

-- The contract that a `CreateCall` has created is named by a log only.
unfoldable pub with_creation : Option Log → Receipt → Script Receipt
with_creation none r = done r
with_creation (some log) r = do
  address ← invoke ethers "utils.getAddress" (Value.str ("0x" <> last_40 log.contents) ∷ [])
  a ← as_string address
  done (record r { contract_address = some a })

-- The checksum address of a log that was found is looked up only for a transaction to `CreateCall`.
unfoldable pub finish_receipt : Bool → Receipt → Script Receipt
finish_receipt true r = with_creation (find_creation r.logs) r
finish_receipt false r = done r

-- The address of the deployed `CreateCall` library is not part of the repository.
module _ (create_lib_address : String) where
  -- After an answer that does not decline.
  unfoldable pub await_receipt : ℕ → Tx → Value → ℕ → ℕ → ℕ → Script (Option Receipt)
  await_receipt fuel proposed service confirmations delay timeout = do
    hash ← poll_hash fuel service proposed.hash delay
    r ← poll_receipt fuel hash confirmations timeout delay
    to ← required proposed.to type_error
    r' ← finish_receipt (str_eq (to_lower to) (to_lower create_lib_address)) r
    done (some r')

  -- `waitForSafeTxReceipt`; `none` is the `undefined` that an answer which begins with n returns.
  -- `confirmations`, `pollingDelay` and `timeout` are seconds, where they are given.
  unfoldable pub wait_for_safe_tx_receipt :
      ℕ → Tx → Value → Option ℕ → Option ℕ → Option ℕ → Script (Option Receipt)
  wait_for_safe_tx_receipt fuel proposed service confirmations polling_delay timeout = do
    reply ← invoke (Value.str "readline") "question" (Value.str "Continue? (y/n)" ∷ [])
    answer ← as_string reply
    elim (str_eq (first_char (to_lower answer)) "n") [
      | true ↦ done none
      | false ↦
          await_receipt fuel proposed service (or_default confirmations 5)
            (or_default polling_delay 5 * 1000) (or_default timeout 5 * 1000)
    ]
