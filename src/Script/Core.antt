-- ===== src/Script/Core.antt =====
-- Values, calls, and scripts as trees of calls.
use apy_core_public.Base.{ℕ, String, Bool, true, false, Option, none, some, List, ◌∷◌}
use apy_core_public.Base.Dict.{Dict, lookup}

-- A transaction response: its hash and its recipient.
pub record Tx : Type 0 where
  pub hash : String
  pub to : Option String

-- A log of a receipt: its first topic and its data.
pub record Log : Type 0 where
  pub topic : String
  pub contents : String

pub record Receipt : Type 0 where
  pub contract_address : Option String
  pub logs : List Log

-- The JavaScript values that go into calls and come back.
pub data Value : Type 0 where
  undefined : Value
  str : String → Value
  num : ℕ → Value
  flag : Bool → Value
  strs : List String → Value
  nums : List ℕ → Value
  signer : String → Value
  factory : String → Value
  contract : String → Value
  deployed : String → Tx → Value
  transaction : Tx → Value
  receipt : Receipt → Value
  details : Option String → Value
  fees : ℕ → ℕ → Value

-- A call of a method: the receiver, the signer that it is connected to, and the arguments.
pub record Call : Type 0 where
  pub target : Value
  pub caller : Value
  pub method : String
  pub args : List Value

-- What ends a script early: an error that it throws, a rejected promise, a value of an unexpected
-- type. A bounded loop of the model that is cut off ends with `out_of_fuel`.
pub data Failure : Type 0 where
  thrown : String → Failure
  rejected type_error out_of_fuel : Failure

pub data Script (A : Type 0) : Type 0 where
  done : A → Script A
  fail : Failure → Script A
  step : Call → (Option Value → Script A) → Script A

infixl 5 ◌>>=◌ ◌>>◌
unfoldable pub ◌>>=◌ : {A B : Type 0} → Script A → (A → Script B) → Script B
done a >>= f = f a
fail e >>= f = fail e
step c k >>= f = step c (λ o. k o >>= f)

abbrev pub ◌>>◌ : {A B : Type 0} → Script A → Script B → Script B
m >> n = m >>= λ _. n

abbrev pub fulfilled : Option Value → Script Value
fulfilled none = fail rejected
fulfilled (some v) = done v

-- A call whose rejection ends the script, and one inside `try`.
abbrev pub invoke : Value → String → List Value → Script Value
invoke target method args =
    step (record { target = target; caller = undefined; method = method; args = args }) fulfilled

abbrev pub invoke_as : Value → Value → String → List Value → Script Value
invoke_as caller target method args =
    step (record { target = target; caller = caller; method = method; args = args }) fulfilled

abbrev pub attempt : Value → String → List Value → Script (Option Value)
attempt target method args =
    step (record { target = target; caller = undefined; method = method; args = args }) done

-- `if (!test) throw new Error(message)`
unfoldable pub require_that : Bool → String → Script (Unit {0})
require_that true message = done tt
require_that false message = fail (thrown message)

-- `if (test) script`
unfoldable pub when : Bool → Script (Unit {0}) → Script (Unit {0})
when true script = script
when false script = done tt

-- A call for its effect.
abbrev pub ignore : {A : Type 0} → Script A → Script (Unit {0})
ignore m = m >>= λ _. done tt

-- Reading a value as what the documentation of the call says that it is.
unfoldable pub as_string : Value → Script String
as_string (str s) = done s
as_string _ = fail type_error

unfoldable pub as_number : Value → Script ℕ
as_number (num n) = done n
as_number _ = fail type_error

unfoldable pub as_flag : Value → Script Bool
as_flag (flag b) = done b
as_flag _ = fail type_error

unfoldable pub as_strings : Value → Script (List String)
as_strings (strs s) = done s
as_strings _ = fail type_error

-- `x.address` of a signer or a contract.
unfoldable pub address_of : Value → Script String
address_of (signer a) = done a
address_of (contract a) = done a
address_of (deployed a _) = done a
address_of _ = fail type_error

-- `x.deployTransaction`, and a transaction response.
unfoldable pub transaction_of : Value → Script Tx
transaction_of (deployed _ t) = done t
transaction_of (transaction t) = done t
transaction_of _ = fail type_error

-- The value of a variable that is set and not empty.
abbrev pub truthy : Option String → Option String
truthy none = none
truthy (some String.[]) = none
truthy (some (String.◌∷◌ c s)) = some (String.◌∷◌ c s)

-- The network that is selected, and the environment variables.
pub record Env : Type 0 where
  pub network_name : String
  pub variables : Dict String

-- A value that must be there.
unfoldable pub required : {A : Type 0} → Option A → Failure → Script A
required none e = fail e
required (some v) e = done v

-- `process.env[name]` where it is truthy, or an error.
unfoldable pub required_variable : Env → String → String → Script String
unfolding required
required_variable env name message = required (truthy (lookup name env.variables)) (thrown message)

-- A run in a world that answers each call by what has been called before, the last call first. The
-- calls that were made come back with the outcome.
pub data Outcome (A : Type 0) : Type 0 where
  finished : A → Outcome A
  failed : Failure → Outcome A

abbrev pub World : Type 0
World = List Call → Option Value

unfoldable pub run : {A : Type 0} → World → Script A → List Call → Outcome A × List Call
run w (done a) h = (finished a, h)
run w (fail e) h = (failed e, h)
run w (step c k) h = run w (k (w (c ∷ h))) (c ∷ h)
