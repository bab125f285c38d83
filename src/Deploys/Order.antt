-- ===== src/Deploys/Order.antt =====
-- The scripts of Logic keep to an order: a contract is initialised once its deployment is confirmed, and
-- the proxy is upgraded once the initialisation is; one signer sends all three.
use text.Mathlib.Text.{◌==◌ as str_eq}
use apy_core_public.Base.{
  ℕ, zero, suc, String, ◌≡◌, refl, Bool, true, false, Option, none, some, List,
}
use apy_core_public.Script.Core.{Value, Call, Env, when, ignore}
use apy_core_public.Script.Monitor.{
  Monitor, Obeys, Obeys-bind, Obeys-invoke, Obeys-done, Obeys-when, Obeys-fail,
}
use apy_core_public.Script.Chain.{
  then_invoke, then_required_variable, then_address_of, then_transaction_of, Neutral, then-Neutral,
}
use apy_core_public.Script.Common.{
  show_balance, mnemonic_wallet, compile_one, wait_for, get_max_fee, get_max_priority_fee,
  max_fee_of, max_priority_fee_of,
}
use apy_core_public.Deploys.Logic.{Arguments, logic_main, upgrade_main}

-- How far the contract is, and the signer that has deployed it.
pub data Stage : Type 0 where
  idle : Stage
  deployed confirmed initialized ready upgraded live : Value → Stage

pub data Action : Type 0 where
  other deploy initialize upgrade confirm : Action

abbrev pub action : Call → Action
action c = elim (str_eq c.method "deploy") [
  | true ↦ Action.deploy
  | false ↦ elim (str_eq c.method "initialize") [
    | true ↦ Action.initialize
    | false ↦ elim (str_eq c.method "upgrade") [
      | true ↦ Action.upgrade
      | false ↦ elim (str_eq c.method "wait") [ true ↦ Action.confirm | false ↦ Action.other ]
    ]
  ]
]

abbrev pub InOrder : Stage → Action → Value → Type 0
InOrder s Action.deploy sender = s ≡ Stage.idle
InOrder s Action.initialize sender = s ≡ Stage.confirmed sender
InOrder s Action.upgrade sender = s ≡ Stage.ready sender
InOrder s _ sender = Unit

-- A confirmation that was awaited moves the last transaction on.
abbrev pub confirm_stage : Stage → Stage
confirm_stage (Stage.deployed v) = Stage.confirmed v
confirm_stage (Stage.initialized v) = Stage.ready v
confirm_stage (Stage.upgraded v) = Stage.live v
confirm_stage s = s

abbrev pub act : Stage → Action → Value → Option Value → Stage
act s Action.deploy sender o = Stage.deployed sender
act s Action.initialize sender o = Stage.initialized sender
act s Action.upgrade sender o = Stage.upgraded sender
act s Action.confirm sender (some v) = confirm_stage s
act s _ sender o = s

abbrev pub deploy_order : Monitor Stage
deploy_order = record {
  Allows = λ s c. InOrder s (action c) c.caller;
  next = λ s c o. act s (action c) c.caller o;
}

module _ (s : Stage) where
  show_balance-Neutral : (v : Value) → Neutral deploy_order s (show_balance v)
  unfolding show_balance
  show_balance-Neutral v Post h = search (then_address_of, Obeys-invoke)

  mnemonic_wallet-Neutral : (v : Value) → Neutral deploy_order s (mnemonic_wallet v)
  unfolding mnemonic_wallet
  mnemonic_wallet-Neutral v Post h = search (then_invoke, Obeys-invoke)

  when_compile-Neutral :
      (b : Bool) (name : String) → Neutral deploy_order s (when b (ignore (compile_one name)))
  unfolding compile_one
  when_compile-Neutral b name Post h =
      Obeys-when deploy_order Post s b _
        (search (Obeys-bind, then_invoke, Obeys-invoke, Obeys-done) depth 12) (h tt)

  max_fee_of-Neutral : (v : Value) → Neutral deploy_order s (max_fee_of v)
  unfolding max_fee_of
  max_fee_of-Neutral (Value.fees a b) Post h = Obeys-done _ _ _ _ (h a)
  max_fee_of-Neutral _ Post h = Obeys-fail _ _ _ _

  max_priority_fee_of-Neutral : (v : Value) → Neutral deploy_order s (max_priority_fee_of v)
  unfolding max_priority_fee_of
  max_priority_fee_of-Neutral (Value.fees a b) Post h = Obeys-done _ _ _ _ (h b)
  max_priority_fee_of-Neutral _ Post h = Obeys-fail _ _ _ _

  get_max_fee-Neutral : (o : Option ℕ) → Neutral deploy_order s (get_max_fee o)
  unfolding get_max_fee
  get_max_fee-Neutral none Post h =
      then_invoke deploy_order _ s _ _ tt λ v. max_fee_of-Neutral v Post h
  get_max_fee-Neutral (some zero) Post h =
      then_invoke deploy_order _ s _ _ tt λ v. max_fee_of-Neutral v Post h
  get_max_fee-Neutral (some (suc n)) Post h = Obeys-done _ _ _ _ (h _)

  get_max_priority_fee-Neutral : (o : Option ℕ) → Neutral deploy_order s (get_max_priority_fee o)
  unfolding get_max_priority_fee
  get_max_priority_fee-Neutral none Post h =
      then_invoke deploy_order _ s _ _ tt λ v. max_priority_fee_of-Neutral v Post h
  get_max_priority_fee-Neutral (some zero) Post h =
      then_invoke deploy_order _ s _ _ tt λ v. max_priority_fee_of-Neutral v Post h
  get_max_priority_fee-Neutral (some (suc n)) Post h = Obeys-done _ _ _ _ (h _)

wait_for-confirmed :
    (Post : Stage → Value → Type 0) (s : Stage) (v : Value) (args : List Value)
    → ((a : Value) → Post (confirm_stage s) a)
    → Obeys deploy_order Post s (wait_for v args)
unfolding wait_for
wait_for-confirmed Post s v args h =
    then_transaction_of deploy_order Post s _ _ λ t. Obeys-invoke deploy_order Post s _ tt h

abbrev pub AtStage : (Value → Stage) → Stage → Unit {0} → Type 0
AtStage stage s _ = (v : Value) × (s ≡ stage v)

pub logic_main-ordered :
    (env : Env) (argv : Arguments) (name : String) (args : List Value)
    → Obeys deploy_order (AtStage Stage.initialized) Stage.idle (logic_main env argv name args)
unfolding logic_main
logic_main-ordered env argv name args =
    let M = deploy_order in
    let s = Stage.idle in
    then_required_variable M _ s _ _ _ _ λ key _. then_invoke M _ s _ _ tt λ owner.
      then-Neutral M _ s _ _ (show_balance-Neutral s _) λ _.
        then-Neutral M _ s _ _ (when_compile-Neutral s _ _) λ _.
          then-Neutral M _ s _ _ (get_max_fee-Neutral s _) λ max_fee.
            then-Neutral M _ s _ _ (get_max_priority_fee-Neutral s _) λ max_priority_fee.
              then_invoke M _ s _ _ tt λ factory'. then_invoke M _ s _ _ refl λ logic.
                Obeys-bind M _ (Stage.deployed owner) _ _ (
                  wait_for-confirmed _ (Stage.deployed owner) _ _ λ _.
                    then_invoke M _ (Stage.confirmed owner) _ _ refl λ _.
                      then_address_of M _ (Stage.initialized owner) _ _ λ a.
                        then_invoke M _ (Stage.initialized owner) _ _ tt
                          λ _. Obeys-done _ _ _ _ (owner, refl))

pub upgrade_main-ordered :
    (env : Env) (compile : Bool) (variable gov_token_address proxy_admin_address : String)
    → Obeys deploy_order
        (AtStage Stage.live)
        Stage.idle
        (upgrade_main env compile variable gov_token_address proxy_admin_address)
unfolding upgrade_main
upgrade_main-ordered env compile variable gov_token_address proxy_admin_address =
    let M = deploy_order in
    let s = Stage.idle in
    then_required_variable M _ s _ _ _ _ λ key _.
      then-Neutral M _ s _ _ (mnemonic_wallet-Neutral s _) λ owner.
        then-Neutral M _ s _ _ (show_balance-Neutral s _) λ _.
          then-Neutral M _ s _ _ (when_compile-Neutral s _ _) λ _.
            then_invoke M _ s _ _ tt λ factory'. then_invoke M _ s _ _ refl λ logic.
              Obeys-bind M _ (Stage.deployed owner) _ _ (
                wait_for-confirmed _ (Stage.deployed owner) _ _ λ _.
                  then_address_of M _ (Stage.confirmed owner) _ _ λ a.
                    then_invoke M _ (Stage.confirmed owner) _ _ tt λ _.
                      then_invoke M _ (Stage.confirmed owner) _ _ refl λ initialized'.
                        Obeys-bind M _ (Stage.initialized owner) _ _ (
                          wait_for-confirmed _ (Stage.initialized owner) _ _ λ _.
                            then_invoke M _ (Stage.ready owner) _ _ tt λ proxy_admin.
                              then_invoke M _ (Stage.ready owner) _ _ refl λ upgraded'.
                                Obeys-bind M _ (Stage.upgraded owner) _ _ (
                                  wait_for-confirmed _ (Stage.upgraded owner) _ _
                                    λ _. Obeys-done _ _ _ _ (owner, refl))))
