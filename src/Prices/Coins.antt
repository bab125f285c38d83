-- ===== src/Prices/Coins.antt =====
-- `getIdtoSymbol`, `toAssetPrice` and `getPrices` of utils/helpers/coingecko.js. A price is a number of
-- the JSON answer, of which the code asks only whether it is positive.
use text.Mathlib.Text.{◌==◌ as str_eq}
use text.Mathlib.TextEquality.{eq_iff}
use mathlib.Core.Path.{subst₂}
use mathlib.Core.List.{Memᴰ}
use apy_core_public.Base.{
  ◌≡◌, refl, Bool, true, not, ◌&&◌, Option, none, some, String, List, [], ◌∷◌, ◌<>◌, arith, ap,
  if◌then◌else◌, ◌⊎◌, inl, inr, Bool-cases,
}
use apy_core_public.Base.Texts.{to_lower}
use apy_core_public.Base.Dict.{Dict, lookup, insert, includes, lookup-nil, lookup-insert}
use apy_core_public.Base.Exec.{Result, ok, err}

pub record Coin : Type 0 where
  pub id : String
  pub symbol : String

-- What `Requester.request` rejects with, and the error of `toAssetPrice`.
pub data Error : Type 0 where
  unreachable invalid_price : Error

-- `coingeckoBlacklist`
abbrev pub blacklist : List String
blacklist =
    "leocoin" ∷ "farmatrust" ∷ "freetip" ∷ "compound-coin" ∷ "uni-coin" ∷ "unicorn-token" ∷ []

-- The test of `coinList.find`.
unfoldable pub is_coin_of : String → Coin → Bool
is_coin_of symbol d =
    str_eq (to_lower d.symbol) (to_lower symbol) && not (includes (to_lower d.id) blacklist)

unfoldable pub find_coin : String → List Coin → Option Coin
find_coin symbol [] = none
find_coin symbol (d ∷ coins) = if is_coin_of symbol d then some d else find_coin symbol coins

-- `if (coin && coin.id) idToSymbol[coin.id] = symbol`
unfoldable pub add_coin : Option Coin → String → Dict String → Dict String
add_coin none symbol ids = ids
add_coin (some coin) symbol ids = if str_eq coin.id "" then ids else insert coin.id symbol ids

unfoldable pub add_symbols : List String → List Coin → Dict String → Dict String
unfolding add_coin find_coin
add_symbols [] coins ids = ids
add_symbols (symbol ∷ symbols) coins ids =
    add_symbols symbols coins (add_coin (find_coin symbol coins) symbol ids)

-- `getIdtoSymbol`
unfoldable pub get_id_to_symbol : List String → List Coin → Dict String
unfolding add_symbols
get_id_to_symbol symbols coins = add_symbols symbols coins []

-- `Object.keys(idToSymbol).join(",")`
unfoldable pub join_keys : Dict String → String
join_keys [] = ""
join_keys ((id, symbol) ∷ []) = id
join_keys ((id, symbol) ∷ (id', symbol') ∷ ids) = id <> "," <> join_keys ((id', symbol') ∷ ids)

abbrev pub or_undefined : Option String → String
or_undefined none = "undefined"
or_undefined (some s) = s

module _ {N : Type 0} (is_positive : N → Bool) where
  abbrev positive_or_error : Option N → Result Error N
  positive_or_error none = err invalid_price
  positive_or_error (some price) = if is_positive price then ok price else err invalid_price

  -- `toAssetPrice`
  unfoldable pub to_asset_price : Option (Dict N) → String → Result Error N
  to_asset_price none currency = err invalid_price
  to_asset_price (some prices) currency = positive_or_error (lookup (to_lower currency) prices)

  -- `Object.fromEntries` of the entries of the response.
  unfoldable pub to_prices :
      Dict String → String → Dict (Option (Dict N)) → Dict N → Result Error (Dict N)
  unfolding to_asset_price
  to_prices ids quote [] prices = ok prices
  to_prices ids quote ((coin_id, entry) ∷ entries) prices = elim (to_asset_price entry quote) [
    | ok price ↦
        to_prices ids quote entries (insert (or_undefined (lookup coin_id ids)) price prices)
    | err e ↦ err e
  ]

  -- `getPrices`, where the replies to the two requests are parameters.
  unfoldable pub get_prices :
      Result Error (List Coin)
      → (String → String → Result Error (Dict (Option (Dict N))))
      → List String
      → String
      → Result Error (Dict N)
  unfolding to_prices get_id_to_symbol join_keys
  get_prices (err e) price_data symbols quote = err e
  get_prices (ok coins) price_data symbols quote =
      let ids = get_id_to_symbol symbols coins in
      elim (price_data (join_keys ids) quote) [
        | err e ↦ err e
        | ok response ↦ to_prices ids quote response []
      ]

  -- Each price that comes out is positive.
  pub AllPositive : Dict N → Type 0
  AllPositive prices = (k : String) (p : N) → lookup k prices ≡ some p → is_positive p ≡ true

  AllPositive-nil : AllPositive []
  unfolding AllPositive
  AllPositive-nil k p e = cc (lookup-nil {V = N} k, e)

  AllPositive-insert :
      (k : String) (p : N) (prices : Dict N)
      → is_positive p ≡ true
      → AllPositive prices
      → AllPositive (insert k p prices)
  unfolding AllPositive
  AllPositive-insert k p prices h hs j q e = ground (arith, lookup-insert k j p prices, hs j q)

  Result-cases :
      {A : Type 0} (r : Result Error A) → ((a : A) × (r ≡ ok a)) ⊎ ((e : Error) × (r ≡ err e))
  Result-cases (ok a) = inl (a, refl)
  Result-cases (err e) = inr (e, refl)

  to_asset_price-positive :
      (entry : Option (Dict N)) (currency : String) (p : N)
      → to_asset_price entry currency ≡ ok p
      → is_positive p ≡ true
  unfolding to_asset_price
  to_asset_price-positive none currency p e = cc
  to_asset_price-positive (some prices) currency p e = ground arith

  to_prices-AllPositive :
      (ids : Dict String) (quote : String) (response : Dict (Option (Dict N))) (prices out : Dict N)
      → AllPositive prices
      → to_prices ids quote response prices ≡ ok out
      → AllPositive out
  unfolding to_prices
  to_prices-AllPositive ids quote [] prices out h e = ground arith
  to_prices-AllPositive ids quote ((k, entry) ∷ entries) prices out h e =
      elim (Result-cases (to_asset_price entry quote)) [
        | inl (p, d) ↦
            to_prices-AllPositive ids quote entries (insert (or_undefined (lookup k ids)) p prices)
              out (AllPositive-insert _ p prices (to_asset_price-positive entry quote p d) h)
              (ground (arith, d, e))
        | inr (x, d) ↦ ground arith
      ]

  -- `getPrices` returns positive prices only: any other is an error.
  pub get_prices-AllPositive :
      (coins : Result Error (List Coin))
      (price_data : String → String → Result Error (Dict (Option (Dict N)))) (symbols : List String)
      (quote : String) (out : Dict N)
      → get_prices coins price_data symbols quote ≡ ok out
      → AllPositive out
  unfolding get_prices
  get_prices-AllPositive (err x) price_data symbols quote out e = cc
  get_prices-AllPositive (ok coins) price_data symbols quote out e =
      let ids = get_id_to_symbol symbols coins in
      let start = AllPositive-nil in
      elim (Result-cases (price_data (join_keys ids) quote)) [
        | inl (response, d) ↦
            to_prices-AllPositive ids quote response [] out start (ground (arith, d, e))
        | inr (x, d) ↦ ground arith
      ]

-- An entry of the map: a coin of the list with this id, which is not blacklisted, for the symbol.
pub record Names (coins : List Coin) (id symbol : String) : Type 0 where
  pub coin : Coin
  pub mem : Memᴰ coin coins
  pub same_id : coin.id ≡ id
  pub is_coin : is_coin_of symbol coin ≡ true

find_coin-Names :
    (symbol : String) (coins : List Coin) (d : Coin)
    → find_coin symbol coins ≡ some d
    → Names coins d.id symbol
unfolding find_coin
find_coin-Names symbol [] d e = cc
find_coin-Names symbol (c ∷ coins) d e = elim (Bool-cases (is_coin_of symbol c)) [
  | inl h ↦
      let same : c ≡ d = ground arith in
      record { coin = c; mem = Memᴰ.head refl; same_id = ap (λ x. x.id) same; is_coin = h }
  | inr h ↦
      let rest = find_coin-Names symbol coins d (rw h at e) in
      record {
        coin = rest.coin;
        mem = Memᴰ.tail rest.mem;
        same_id = rest.same_id;
        is_coin = rest.is_coin;
      }
]

add_coin-Names :
    (s : String) (coins : List Coin) (ids : Dict String)
    → ((id symbol : String) → lookup id ids ≡ some symbol → Names coins id symbol)
    → (o : Option Coin) → find_coin s coins ≡ o
    → (id symbol : String) → lookup id (add_coin o s ids) ≡ some symbol
    → Names coins id symbol
unfolding add_coin
add_coin-Names s coins ids h none f id symbol e = h id symbol e
add_coin-Names s coins ids h (some d) f id symbol e =
    let found = find_coin-Names s coins d f in
    let cases : (lookup id ids ≡ some symbol) ⊎ ((d.id ≡ id) × (s ≡ symbol)) =
      ground (arith, lookup-insert d.id id s ids, eq_iff d.id id, eq_iff d.id "", e) in
    elim cases [
      | inl old ↦ h id symbol old
      | inr (same, same') ↦ subst₂ (Names coins) same same' found
    ]

pub add_symbols-Names :
    (symbols : List String) (coins : List Coin) (ids : Dict String)
    → ((id symbol : String) → lookup id ids ≡ some symbol → Names coins id symbol)
    → (id symbol : String) → lookup id (add_symbols symbols coins ids) ≡ some symbol
    → Names coins id symbol
unfolding add_symbols
add_symbols-Names [] coins ids h id symbol e = h id symbol e
add_symbols-Names (s ∷ symbols) coins ids h id symbol e =
    add_symbols-Names symbols coins _ (add_coin-Names s coins ids h _ refl) id symbol e

-- Every id of the map names a coin of the list for its symbol; none is blacklisted.
pub get_id_to_symbol-Names :
    (symbols : List String) (coins : List Coin) (id symbol : String)
    → lookup id (get_id_to_symbol symbols coins) ≡ some symbol
    → Names coins id symbol
unfolding get_id_to_symbol
get_id_to_symbol-Names symbols coins id symbol e =
    add_symbols-Names symbols coins [] (λ i s h. cc (lookup-nil {V = String} i, h)) id symbol e
