-- ===== src/Deploys/Owner.antt =====
-- {mainnet,rinkeby,kovan}/voting_escrow_deploy.js and kovan/apy_transfer.js under scripts: the voting
-- escrow and who owns it.
use apy_core_public.Base.{◌*◌, ◌^◌, ◌-◌, String, List, [], ◌∷◌}
use apy_core_public.Base.Dict.{lookup}
use apy_core_public.Script.Core.{
  Value, Script, Env, ◌>>=◌, ◌>>◌, invoke, invoke_as, address_of, ignore,
}
use apy_core_public.Script.Common.{
  first_signer, wallet, mnemonic_wallet, show_balance, factory_of, contract_at, run_task, verify,
  wait_for,
}
use apy_core_public.Safe.Signers.{or_undefined}

abbrev escrow_args : String → List Value
escrow_args apy_address =
    Value.str apy_address
    ∷ Value.str "Boost-Locked APY"
    ∷ Value.str "blAPY"
    ∷ Value.str "1.0.0"
    ∷ []

-- The body of `main` of scripts/mainnet and scripts/rinkeby.
unfoldable pub escrow_main : Env → String → String → Script (Unit {0})
escrow_main env apy_address owner_address = do
  run_task "compile" []
  deployer ← wallet (or_undefined (lookup "SAFE_OWNER_KEY" env.variables))
  show_balance deployer
  factory ←
      invoke (Value.str "ethers") "getContractFactory" (Value.str "VotingEscrow" ∷ deployer ∷ [])
  escrow ← invoke factory "deploy" (escrow_args apy_address)
  address_of escrow
  wait_for escrow (Value.num 5 ∷ [])
  committed ← invoke_as deployer escrow "commit_transfer_ownership" (Value.str owner_address ∷ [])
  wait_for committed (Value.num 5 ∷ [])
  applied ← invoke_as deployer escrow "apply_transfer_ownership" []
  ignore (wait_for applied (Value.num 5 ∷ []))

unfoldable pub mainnet_escrow_main : Env → Script (Unit {0})
mainnet_escrow_main env =
    escrow_main env "0x95a4492f028aa1fd432ea71146b433e7b4446611"
      "0xef17933d32e07a5b789405bd197f02d6bb393147"

unfoldable pub rinkeby_escrow_main : Env → Script (Unit {0})
rinkeby_escrow_main env =
    escrow_main env "0xA41d3d461B8a9f1E9F92d2B040495cE21CfED548"
      "0xacC66a1bD538cfCBB801FC047f41A3FC0AECf87a"

-- `main` of scripts/kovan/voting_escrow_deploy.js
unfoldable pub kovan_escrow_main : Script (Unit {0})
kovan_escrow_main =
    let args = escrow_args "0x63fd300bdf6eb55ee7bf7e38f54df8adf16dc8f5" in
    do
      run_task "compile" []
      deployer ← first_signer
      show_balance deployer
      factory ← factory_of "VotingEscrow"
      escrow ← invoke factory "deploy" args
      invoke escrow "deployed" []
      address ← address_of escrow
      ignore (verify address args)

-- `main` of scripts/kovan/apy_transfer.js
unfoldable pub apy_transfer_main : Env → Script (Unit {0})
apy_transfer_main env = do
  run_task "compile" []
  deployer ← first_signer
  show_balance deployer
  apy_deployer ← mnemonic_wallet (or_undefined (lookup "KOVAN_TOKEN_MNEMONIC" env.variables))
  safe_owner ← wallet (or_undefined (lookup "SAFE_OWNER_KEY" env.variables))
  address_of apy_deployer
  owner_address ← address_of safe_owner
  apy ← contract_at "GovernanceToken" "0x63fd300bdf6eb55ee7bf7e38f54df8adf16dc8f5"
  sent ←
      invoke_as deployer deployer "sendTransaction"
        (Value.str owner_address ∷ Value.num (1 * 10 ^ 18) ∷ [])
  wait_for sent []
  transferred ←
      invoke_as apy_deployer apy "transfer"
        (Value.str owner_address ∷ Value.num (1000 * 10 ^ 18) ∷ [])
  wait_for transferred []
  approved ←
      invoke_as safe_owner apy "approve"
        (Value.str "0x61b0414801205d4cc9843827b01cfc5dfe71dc42" ∷ Value.num (2 ^ 256 - 1) ∷ [])
  ignore (wait_for approved [])
