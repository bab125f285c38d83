-- ===== src/Prices/Tests.antt =====
-- Runs of requests, and the theorems at concrete data.
use apy_core_public.Base.{ℕ, zero, suc, ◌≤◌, ◌≡◌, refl, some, String, ◌∷◌, [], ltb, List, Option}
use apy_core_public.Base.Dict.{Dict, lookup, insert, includes}
use apy_core_public.Base.Exec.{Result, ok}
use apy_core_public.Base.Texts.{to_lower}
use apy_core_public.Prices.Request.{Answer, request, first_good, Replies, request-first_good}
use apy_core_public.Prices.Coins.{
  Coin, Error, get_id_to_symbol, get_prices, add_symbols, add_coin, find_coin, is_coin_of,
  to_prices, to_asset_price, join_keys,
}

-- The first two requests fail.
abbrev third_time : ℕ → Answer String
third_time zero = Answer.refused "timeout"
third_time (suc zero) = Answer.bad_data "limit"
third_time (suc (suc n)) = Answer.good "prices"

request-first_good_example :
    Replies third_time (first_good third_time 3 0) (request third_time (some 3)).0
    × ((request third_time (some 3)).1 ≤ 3)
request-first_good_example = request-first_good third_time 2

abbrev coins : List Coin
coins =
    record { id = "uni-coin"; symbol = "uni" }
    ∷ record { id = "uniswap"; symbol = "uni" }
    ∷ record { id = "dai"; symbol = "dai" }
    ∷ []

uni_id : lookup "uniswap" (get_id_to_symbol ("UNI" ∷ "DAI" ∷ []) coins) ≡ some "UNI"
unfolding get_id_to_symbol lookup add_symbols add_coin find_coin is_coin_of insert includes to_lower
uni_id = refl

abbrev reply : String → String → Result Error (Dict (Option (Dict ℕ)))
reply ids quote = ok (("dai", some (("usd", 1) ∷ [])) ∷ [])

dai_price : get_prices (ltb 0) (ok coins) reply ("DAI" ∷ []) "USD" ≡ ok (("DAI", 1) ∷ [])
unfolding get_prices to_prices to_asset_price get_id_to_symbol lookup add_symbols add_coin find_coin
    is_coin_of insert includes to_lower join_keys
dai_price = refl
