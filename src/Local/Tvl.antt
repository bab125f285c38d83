-- ===== src/Local/Tvl.antt =====
-- The TVL that utils/helpers/test-helper.js sets after a transfer to or from the LP account.
use apy_core_public.Base.{ℕ, ◌^◌, [], ◌∷◌}
use apy_core_public.Base.Int.{ℤ, pos, negsuc, ◌+ℤ◌, ◌*ℤ◌, ◌/ℤ◌}
use apy_core_public.Script.Core.{
  Value, Script, done, fail, thrown, ◌>>=◌, ◌>>◌, invoke, invoke_as, as_number, as_string, ignore,
}
use apy_core_public.Script.Common.{contract_at}

-- `convertToUsdValue`
unfoldable pub convert_to_usd_value : ℤ → ℕ → ℕ → ℤ
convert_to_usd_value token_wei_amount token_usd_price decimals =
    (token_wei_amount *ℤ pos token_usd_price) /ℤ (10 ^ decimals)

-- An argument of type `uint256` is not negative.
unfoldable pub as_uint256 : ℤ → Script ℕ
as_uint256 (pos n) = done n
as_uint256 (negsuc n) = fail (thrown "value out-of-bounds")

-- `updateTvl`
unfoldable pub update_tvl : ℤ → Value → Value → Script (Unit {0})
update_tvl usd_value oracle_adapter emergency_safe = do
  answer ← invoke oracle_adapter "getTvl" []
  tvl ← as_number answer
  new_tvl ← as_uint256 (pos tvl +ℤ usd_value)
  ignore (
      invoke_as emergency_safe oracle_adapter "emergencySetTvl"
        (Value.num new_tvl ∷ Value.num 50 ∷ []))

-- `updateTvlAfterTransfer`
unfoldable pub update_tvl_after_transfer : Value → ℤ → Value → Value → Script (Unit {0})
update_tvl_after_transfer pool underlyer_amount oracle_adapter emergency_safe = do
  invoke_as emergency_safe oracle_adapter "emergencyUnlock" []
  price_answer ← invoke pool "getUnderlyerPrice" []
  underlyer_price ← as_number price_answer
  address_answer ← invoke pool "underlyer" []
  underlyer_address ← as_string address_answer
  underlyer ← contract_at "IDetailedERC20" underlyer_address
  decimals_answer ← invoke underlyer "decimals" []
  decimals ← as_number decimals_answer
  update_tvl (convert_to_usd_value underlyer_amount underlyer_price decimals) oracle_adapter
      emergency_safe
