-- ===== src/Local/Token.antt =====
-- utils/helpers/token.js: tokens taken from an account that holds them.
use apy_core_public.Base.{ℕ, String, Option, some, [], ◌∷◌}
use apy_core_public.Base.Int.{ℤ, pos, negsuc}
use apy_core_public.Script.Core.{
  Value, Script, done, fail, thrown, ◌>>=◌, ◌>>◌, invoke, invoke_as, attempt, as_number, address_of,
  ignore,
}
use apy_core_public.Safe.Signers.{ethers, provider}
use apy_core_public.Script.Common.{factory_of, wait_for}
use apy_core_public.TokenUnit.Convert.{Text, Amount, Result, token_amount_to_big_number}
use apy_core_public.Local.Account.{network_provider, get_address, impersonate}

module _ (from : Text → Option ℤ) (to_hex : ℤ → String) where
  -- An amount that a call is given is not negative.
  unfoldable pub to_big_number : Result → Script ℕ
  to_big_number (Result.ok (pos n)) = done n
  to_big_number (Result.ok (negsuc n)) = fail (thrown "value out-of-bounds")
  to_big_number (Result.err e) = fail (thrown "tokenAmountToBigNumber")

  -- `forciblySendEth`
  unfoldable pub forcibly_send_eth : Value → ℕ → Value → Script (Unit {0})
  forcibly_send_eth recipient amount eth_funder = do
    recipient' ← get_address recipient
    eth_funder' ← get_address eth_funder
    factory ← factory_of "EthSender"
    eth_sender ← invoke factory "deploy" []
    invoke eth_sender "deployed" []
    funder ← invoke ethers "getSigner" (Value.str eth_funder' ∷ [])
    sender_address ← address_of eth_sender
    funded ←
        invoke_as funder funder "sendTransaction" (Value.str sender_address ∷ Value.num amount ∷ [])
    wait_for funded []
    sent ← invoke eth_sender "send" (Value.str recipient' ∷ [])
    ignore (wait_for sent [])

  -- `prepareTokenSender`
  unfoldable pub prepare_token_sender : String → Amount → String → Script (Unit {0})
  prepare_token_sender sender eth_amount eth_funder = do
    amount ← to_big_number (token_amount_to_big_number from eth_amount (some 18))
    forcibly_send_eth (Value.str sender) amount (Value.str eth_funder)
    answer ← attempt network_provider "hardhat_impersonateAccount" (Value.str sender ∷ [])
    impersonate from to_hex sender answer

  -- `acquireToken`
  unfoldable pub acquire_token : Value → Value → Value → Amount → Value → Script (Unit {0})
  acquire_token sender recipient token amount eth_funder = do
    sender' ← get_address sender
    recipient' ← get_address recipient
    eth_funder' ← get_address eth_funder
    decimals ← invoke token "decimals" []
    decimals' ← as_number decimals
    amount' ← to_big_number (token_amount_to_big_number from amount (some decimals'))
    prepare_token_sender sender' (Amount.text (b'1' ∷ b'0' ∷ [])) eth_funder'
    fund_account_signer ← invoke provider "getSigner" (Value.str sender' ∷ [])
    trx ←
        invoke_as fund_account_signer token "transfer"
          (Value.str recipient' ∷ Value.num amount' ∷ [])
    wait_for trx []
    invoke token "balanceOf" (Value.str recipient' ∷ [])
    ignore (invoke token "symbol" [])

-- `IDetailedERC20` of the Truffle artifacts at an address.
abbrev pub token_at : Value → Script Value
token_at address = do
  interface ← invoke (Value.str "artifacts") "require" (Value.str "IDetailedERC20" ∷ [])
  invoke interface "at" (address ∷ [])

-- `transferERC20Tokens`: the options of the call are the sender and the gas price.
unfoldable pub transfer_erc20_tokens : Value → Value → Value → ℕ → Script (Unit {0})
transfer_erc20_tokens token_address receiver_address owner_address amount = do
  token ← token_at token_address
  ignore (
      invoke_as owner_address token "transfer"
        (receiver_address ∷ Value.num amount ∷ Value.num 0 ∷ []))

-- `getERC20Balance`; the symbol and the decimals are read for what is printed.
unfoldable pub get_erc20_balance : Value → Value → Script Value
get_erc20_balance contract_address account_address = do
  token ← token_at contract_address
  balance ← invoke token "balanceOf" (account_address ∷ [])
  invoke token "symbol" []
  invoke token "decimals" []
  done balance
