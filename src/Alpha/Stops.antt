-- ===== src/Alpha/Stops.antt =====
-- No run of the scripts of Factories is done: each stops at the first deployment that it sends.
use text.Mathlib.Text.{◌==◌ as str_eq}
use apy_core_public.Base.{
  ℕ, zero, suc, String, ◌≡◌, refl, Bool, true, false, Option, none, some, [], ◌∷◌,
}
use apy_core_public.Base.Dict.{lookup}
use apy_core_public.Base.Exec.{Result, ok, err}
use apy_core_public.Address.Registry.{Error, Modules}
use apy_core_public.Script.Core.{Value, Call, Script, Env, World, done, ◌>>=◌, run}
use apy_core_public.Script.Monitor.{
  Monitor, Obeys, Obeys-bind, Obeys-invoke, Obeys-done, Obeys-fail, Obeys-as_strings, RunObeys,
  Follows, run-Obeys,
}
use apy_core_public.Script.Chain.{
  then_invoke, then_address_of, then_transaction_of, then_required, then_required_variable, Neutral,
  then-Neutral,
}
use apy_core_public.Script.Common.{compile_one, get_max_fee, max_fee_of}
use apy_core_public.Safe.Signers.{get_safe_signer}
use apy_core_public.Alpha.Setup.{from_result, deployed_address, signers}
use apy_core_public.Alpha.Factories.{
  addresses_filename, factory_address, deploy_factory, deploy_factories, factories_main, show_safe,
  deployment_main, upgrader_main,
}

pub data Kind : Type 0 where
  other deploy write : Kind

abbrev kind : Call → Kind
kind c = elim (str_eq c.method "deploy") [
  | true ↦ deploy
  | false ↦ elim (str_eq c.method "writeFileSync") [ true ↦ write | false ↦ other ]
]

-- Whether a deployment was sent: one may be, and the only file that may be written holds the address
-- that the script knows.
abbrev Single : Bool → Kind → Call → Type 0
Single s deploy c = s ≡ false
Single s write c =
    c.args
    ≡ Value.str addresses_filename
      ∷ Value.strs ("0x2FA1A3E783A97218DAb9a1ab4C4eeBb727C928b5" ∷ [])
      ∷ []
Single s other c = Unit

abbrev sent : Bool → Kind → Bool
sent s deploy = true
sent s _ = s

abbrev pub single : Monitor Bool
single = record { Allows = λ s c. Single s (kind c) c; next = λ s c o. sent s (kind c) }

-- A script that is never done.
abbrev pub Unfinished : Bool → Unit {0} → Type 0
Unfinished s a = ⊥

then_done :
    {A B : Type 0} (Post : Bool → B → Type 0) (a : A) (f : A → Script B)
    → Obeys single Post false (f a)
    → Obeys single Post false (done a >>= f)
unfolding ◌>>=◌
then_done Post a f h = h

from_result-Neutral : {A : Type 0} (r : Result Error A) → Neutral single false (from_result r)
unfolding from_result
from_result-Neutral (ok a) Post h = Obeys-done _ _ _ _ (h a)
from_result-Neutral (err e) Post h = Obeys-fail _ _ _ _

max_fee_of-Neutral : (v : Value) → Neutral single false (max_fee_of v)
unfolding max_fee_of
max_fee_of-Neutral (Value.fees a b) Post h = Obeys-done _ _ _ _ (h a)
max_fee_of-Neutral _ Post h = Obeys-fail _ _ _ _

get_max_fee-Neutral : (o : Option ℕ) → Neutral single false (get_max_fee o)
unfolding get_max_fee
get_max_fee-Neutral none Post h = then_invoke single _ false _ _ tt λ v. max_fee_of-Neutral v Post h
get_max_fee-Neutral (some zero) Post h =
    then_invoke single _ false _ _ tt λ v. max_fee_of-Neutral v Post h
get_max_fee-Neutral (some (suc n)) Post h = Obeys-done _ _ _ _ (h _)

get_safe_signer-Neutral :
    (env : Env) (name : String) (address owner : Value)
    → Neutral single false (get_safe_signer env name address (some owner))
unfolding get_safe_signer ◌>>=◌
get_safe_signer-Neutral env name address owner Post h =
    then_invoke single _ false _ _ tt
      λ _. then_invoke single _ false _ _ tt λ service. Obeys-invoke single _ false _ tt h

compile_one-Neutral : (name : String) → Neutral single false (compile_one name)
unfolding compile_one
compile_one-Neutral name Post h =
    then_invoke single _ false _ _ tt
      λ _. then_invoke single _ false _ _ tt λ _. Obeys-invoke single _ false _ tt h

module _ (dirname : String) (modules : Modules) (env : Env) where
  signers-Neutral : Neutral single false (signers dirname modules env)
  unfolding signers deployed_address
  signers-Neutral Post h = then_invoke single _ false _ _ tt λ deployer.
      then_address_of single _ false _ _ λ _. then_required_variable single _ false _ _ _ _ λ key _.
        then_invoke single _ false _ _ tt λ owner. then_address_of single _ false _ _ λ _.
          then-Neutral single _ false _ _ (from_result-Neutral _) λ found.
            then_required single _ false _ _ _ λ a _.
              then-Neutral single _ false _ _ (get_safe_signer-Neutral env a owner _)
                λ sender. Obeys-done _ _ _ _ (h _)

  deploy_factory-single :
      {B : Type 0} (Post : Bool → B → Type 0) (gas : Option ℕ) (deployer sender : Value)
      (name : String) (f : String → Script B)
      → Obeys single Post false (deploy_factory gas deployer sender name >>= f)
  unfolding deploy_factory ◌>>=◌
  deploy_factory-single Post gas deployer sender name f = Obeys-bind single Post false _ _ (
      then_invoke single _ false _ _ tt λ factory. then_invoke single _ false _ _ tt λ _.
        then-Neutral single _ false _ _ (get_max_fee-Neutral gas) λ fee.
          then_invoke single _ false _ _ refl λ contract.
            then_transaction_of single _ true _ _
              λ tx. then_invoke single _ true _ _ tt λ service. Obeys-fail _ _ _ _)

  factories_main-single :
      (gas : Option ℕ) → Obeys single Unfinished false (factories_main dirname modules env gas)
  unfolding factories_main deploy_factories factory_address lookup
  factories_main-single gas = then_invoke single _ false _ _ tt λ _.
      then-Neutral single _ false _ _ signers-Neutral λ s. then_invoke single _ false _ _ tt λ _.
        then_invoke single _ false _ _ tt λ _. then_done Unfinished _ _ (
          then_invoke single _ false _ _ refl
            λ _. deploy_factory-single _ gas s.0 s.1 "AddressRegistryV2Factory" _)

  upgrader_main-single : Obeys single Unfinished false (upgrader_main dirname modules env)
  unfolding upgrader_main
  upgrader_main-single = then-Neutral single _ false _ _ signers-Neutral λ s.
      then_invoke single _ false _ _ tt λ factory.
        then-Neutral single _ false _ _ (compile_one-Neutral _) λ _.
          then_invoke single _ false _ _ refl λ contract.
            then_transaction_of single _ true _ _ λ tx.
              then_invoke single _ true _ _ tt
                λ service. Obeys-bind single _ true _ _ (Obeys-fail _ _ _ _)

  show_safe-Neutral :
      (registry : Value) (id : String)
      → Neutral single false (show_safe dirname modules env registry id)
  unfolding show_safe
  show_safe-Neutral registry id Post h =
      then_invoke single _ false _ _ tt λ key. Obeys-invoke single _ false _ tt h

  deployment_main-single :
      (fee : Option ℕ) → Obeys single Unfinished false (deployment_main dirname modules env fee)
  unfolding deployment_main deployed_address
  deployment_main-single fee = then_invoke single _ false _ _ tt λ _.
      then-Neutral single _ false _ _ signers-Neutral λ s.
        then_invoke single _ false _ _ tt λ factory.
          then-Neutral single _ false _ _ (get_max_fee-Neutral fee) λ max_fee.
            then_invoke single _ false _ _ tt λ content. Obeys-bind single _ false _ _ (
              Obeys-as_strings single _ false content λ addresses.
                then-Neutral single _ false _ _ (from_result-Neutral _) λ found.
                  then_invoke single _ false _ _ tt λ registry.
                    then-Neutral single _ false _ _ (show_safe-Neutral registry _) λ _.
                      then-Neutral single _ false _ _ (show_safe-Neutral registry _) λ _.
                        then-Neutral single _ false _ _ (show_safe-Neutral registry _) λ _.
                          then-Neutral single _ false _ _ (compile_one-Neutral _) λ _.
                            then_invoke single _ false _ _ refl λ contract.
                              then_transaction_of single _ true _ _ λ tx.
                                then_invoke single _ true _ _ tt
                                  λ service. Obeys-bind single _ true _ _ (Obeys-fail _ _ _ _))

  -- In every run of the three scripts that deploy the factories, the deployment and the upgrader, each
  -- whatever is answered, at most one deployment is sent, the only file that is written is the one of
  -- the factory addresses with the single address of the proxy factory, and no run is done.
  pub setup_runs-single :
      (w : World) (gas fee : Option ℕ)
      → RunObeys single w false [] Unfinished (run w (factories_main dirname modules env gas) [])
        × RunObeys single w false [] Unfinished (run w (deployment_main dirname modules env fee) [])
        × RunObeys single w false [] Unfinished (run w (upgrader_main dirname modules env) [])
  setup_runs-single w gas fee = (
    run-Obeys single w Unfinished _ false false [] [] Follows.start (factories_main-single gas),
    run-Obeys single w Unfinished _ false false [] [] Follows.start (deployment_main-single fee),
    run-Obeys single w Unfinished _ false false [] [] Follows.start upgrader_main-single,
  )
