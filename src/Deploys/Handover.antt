-- ===== src/Deploys/Handover.antt =====
-- The voting escrow is handed over in order: deployed, committed, applied.
use text.Mathlib.Text.{◌==◌ as str_eq}
use apy_core_public.Base.{String, ◌≡◌, refl, true, false, Option, some, List, [], ◌∷◌}
use apy_core_public.Script.Core.{Value, Call, Env, World, run}
use apy_core_public.Script.Monitor.{
  Monitor, Obeys, Obeys-bind, Obeys-invoke, Obeys-done, RunObeys, Follows, run-Obeys,
}
use apy_core_public.Script.Chain.{
  then_invoke, then_address_of, then_transaction_of, Neutral, then-Neutral,
}
use apy_core_public.Script.Common.{show_balance, wait_for}
use apy_core_public.Deploys.Owner.{escrow_main}

-- How far the handover to an owner is, and the signer and the contract of the commitment.
pub data Handover : Type 0 where
  idle created confirmed : Handover
  committed agreed applied settled : Value → Value → Handover

pub data Move : Type 0 where
  other deploy confirm commit apply : Move

abbrev move : Call → Move
move c = elim (str_eq c.method "deploy") [
  | true ↦ Move.deploy
  | false ↦ elim (str_eq c.method "wait") [
    | true ↦ Move.confirm
    | false ↦ elim (str_eq c.method "commit_transfer_ownership") [
      | true ↦ Move.commit
      | false ↦ elim (str_eq c.method "apply_transfer_ownership") [
        | true ↦ Move.apply
        | false ↦ Move.other
      ]
    ]
  ]
]

module _ (owner_address : String) where
  abbrev MayMove : Handover → Move → Call → Type 0
  MayMove s Move.deploy c = s ≡ Handover.idle
  MayMove s Move.commit c = (s ≡ Handover.confirmed) × (c.args ≡ Value.str owner_address ∷ [])
  MayMove s Move.apply c = s ≡ Handover.agreed c.caller c.target
  MayMove s _ c = Unit

  abbrev confirm_move : Handover → Handover
  confirm_move Handover.created = Handover.confirmed
  confirm_move (Handover.committed a e) = Handover.agreed a e
  confirm_move (Handover.applied a e) = Handover.settled a e
  confirm_move s = s

  abbrev moved : Handover → Move → Call → Option Value → Handover
  moved s Move.deploy c o = Handover.created
  moved s Move.commit c o = Handover.committed c.caller c.target
  moved s Move.apply c o = Handover.applied c.caller c.target
  moved s Move.confirm c (some v) = confirm_move s
  moved s _ c o = s

  -- A step is taken once the one before is confirmed; the owner is the one that is given.
  abbrev pub handover : Monitor Handover
  handover = record { Allows = λ s c. MayMove s (move c) c; next = λ s c o. moved s (move c) c o }

  -- The handover is applied, and confirmed.
  abbrev pub IsSettled : Handover → Unit {0} → Type 0
  IsSettled s _ = (a : Value) × (e : Value) × (s ≡ Handover.settled a e)

  show_balance-Neutral : (s : Handover) (v : Value) → Neutral handover s (show_balance v)
  unfolding show_balance
  show_balance-Neutral s v Post h =
      then_address_of handover Post s _ _ λ a. Obeys-invoke handover Post s _ tt h

  wait_for-moved :
      (Post : Handover → Value → Type 0) (s : Handover) (v : Value) (args : List Value)
      → ((a : Value) → Post (confirm_move s) a)
      → Obeys handover Post s (wait_for v args)
  unfolding wait_for
  wait_for-moved Post s v args h =
      then_transaction_of handover Post s _ _ λ t. Obeys-invoke handover Post s _ tt h

  escrow_main-Obeys :
      (env : Env) (apy_address : String)
      → Obeys handover IsSettled Handover.idle (escrow_main env apy_address owner_address)
  unfolding escrow_main
  escrow_main-Obeys env apy_address =
      let M = handover in
      let s = Handover.idle in
      then_invoke M _ s _ _ tt λ _. then_invoke M _ s _ _ tt λ deployer.
        then-Neutral M _ s _ _ (show_balance-Neutral s _) λ _. then_invoke M _ s _ _ tt λ factory'.
          then_invoke M _ s _ _ refl λ escrow. then_address_of M _ Handover.created _ _ λ a.
            Obeys-bind M _ Handover.created _ _ (
              wait_for-moved _ Handover.created _ _ λ _.
                let p : MayMove Handover.confirmed Move.commit (record {
                  target = escrow;
                  caller = deployer;
                  method = "commit_transfer_ownership";
                  args = Value.str owner_address ∷ [];
                }) =
                  (refl, refl) in
                then_invoke M _ Handover.confirmed _ _ p λ committed'.
                  let s' = Handover.committed deployer escrow in
                  Obeys-bind M _ s' _ _ (
                    wait_for-moved _ s' _ _ λ _.
                      then_invoke M _ (Handover.agreed deployer escrow) _ _ refl λ applied'.
                        let s'' = Handover.applied deployer escrow in
                        Obeys-bind M _ s'' _ _ (
                          wait_for-moved _ s'' _ _
                            λ _. Obeys-done _ _ _ _ (deployer, escrow, refl))))

  -- In every run of the scripts that deploy the voting escrow to be owned by a Safe, the ownership is
  -- committed only after a wait that followed the deployment was answered and to that owner only, it is
  -- applied only after a wait that followed the commitment was answered, by the same signer and on the
  -- same contract, and where the run is done a wait that followed the application was answered too.
  pub escrow_run-IsSettled :
      (env : Env) (apy_address : String) (w : World)
      → RunObeys handover w Handover.idle [] IsSettled
          (run w (escrow_main env apy_address owner_address) [])
  escrow_run-IsSettled env apy_address w =
      run-Obeys handover w IsSettled _ Handover.idle Handover.idle [] [] Follows.start
        (escrow_main-Obeys env apy_address)
