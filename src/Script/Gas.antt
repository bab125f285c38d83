-- ===== src/Script/Gas.antt =====
-- `getGasPrice` of utils/helpers/gas.js. Its arithmetic is that of JavaScript numbers, a parameter.
use text.Mathlib.Text.{◌==◌ as str_eq}
use apy_core_public.Base.{ℕ, suc, String, Option, none, some, [], ◌∷◌, if◌then◌else◌}
use apy_core_public.Base.Texts.{to_lower}
use apy_core_public.Script.Core.{Value, Script, done, fail, thrown, ◌>>=◌, invoke, as_number}

-- Numbers: an integer as a number, a quotient and a product with an integer, and `parseInt`.
pub record Numbers (N : Type 0) : Type 0 where
  pub number : ℕ → N
  pub over : N → ℕ → N
  pub times : N → ℕ → N
  pub parse_int : N → ℕ

-- The names of the speeds at gasnow.org: a name that it does not know becomes one that it does.
unfoldable pub gasnow_speed : String → String
gasnow_speed speed =
    if str_eq speed "fastest"
    then "rapid"
    else (if str_eq speed "average"
        then "standard"
        else (if str_eq speed "safelow" then "slow" else speed))

unfoldable pub ethgasstation_speed : String → String
ethgasstation_speed speed =
    if str_eq speed "rapid"
    then "fastest"
    else (if str_eq speed "standard"
        then "average"
        else (if str_eq speed "safelow"
            then "safeLow"
            else (if str_eq speed "slow" then "safeLow" else speed)))

abbrev pub or_else : Option String → String → String
or_else none default = default
or_else (some s) default = s

module _ {N : Type 0} (numbers : Numbers N) where
  -- The answer's body, and the entry of a speed.
  unfoldable pub ask_price : String → String → Script ℕ
  ask_price url speed = do
    data_ ← invoke (Value.str "axios") "get" (Value.str url ∷ [])
    entry ← invoke data_ speed []
    as_number entry

  -- The price in gwei.
  unfoldable pub gas_price_of : Option ℕ → String → String → Script N
  gas_price_of (some (suc n)) speed source = done (numbers.number (suc n))
  gas_price_of _ speed source =
      if str_eq source "gasnow"
      then (do
        price ← ask_price "https://www.gasnow.org/api/v3/gas/price" (gasnow_speed (to_lower speed))
        done (numbers.over (numbers.number price) 1000000000))
      else (if str_eq source "ethgasstation"
          then (do
            price ←
                ask_price "https://ethgasstation.info/json/ethgasAPI.json"
                  (ethgasstation_speed (to_lower speed))
            done (numbers.over (numbers.number price) 10))
          else fail (thrown "getGasPrice: 'source' not recognized."))

  -- `getGasPrice`, with the speed "rapid" and the source "gasnow" where they are not given.
  unfoldable pub get_gas_price : Option ℕ → Option String → Option String → Script ℕ
  get_gas_price gas_price speed source = do
    price ← gas_price_of gas_price (or_else speed "rapid") (or_else source "gasnow")
    done (numbers.parse_int (numbers.times price 1000000000))
