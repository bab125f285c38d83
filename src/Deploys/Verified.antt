-- ===== src/Deploys/Verified.antt =====
-- The scripts of scripts/rinkeby follow the monitor of Safe/Created.
use apy_core_public.Base.{ℕ, String, refl, Bool, some, List, ◌∷◌}
use apy_core_public.Script.Core.{Value, Env}
use apy_core_public.Script.Monitor.{Obeys, Obeys-done}
use apy_core_public.Script.Chain.{then_invoke, then_required_variable, then-Neutral}
use apy_core_public.Safe.Created.{Kind, Permits, created_only, proposed_by, arrived, nothing}
use apy_core_public.Deploys.Rinkeby.{deploy_main}
use apy_core_public.Safe.Verified.{
  Verified, when_compile-Neutral, get_admin_safe_signer-Neutral, created-registered,
  deployed-Verified,
}

pub deploy_main-Verified :
    (lib : String) (fuel : ℕ) (env : Env) (compile : Bool) (name : String) (args : List Value)
    → Obeys created_only Verified nothing (deploy_main lib fuel env compile name args)
unfolding deploy_main Verified
deploy_main-Verified lib fuel env compile name args =
    let s = nothing in
    then_required_variable created_only _ s _ _ _ _ λ key _.
      then-Neutral created_only _ s _ _ (get_admin_safe_signer-Neutral s _ _) λ safe_signer.
        then-Neutral created_only _ s _ _ (when_compile-Neutral s _ _) λ _.
          then_invoke created_only _ s _ _ tt λ factory'.
            then_invoke created_only _ s _ _ tt λ instance_.
              deployed-Verified s safe_signer instance_ _ λ t service sent.
                let s₁ = proposed_by (some instance_) s in
                created-registered lib fuel s₁ t service _ _ sent λ h logs c a e.
                  let s' = arrived s₁ h logs c in
                  let p : Permits s' (Kind.verification (Value.str a ∷ args)) = (a, e, refl) in
                  then_invoke created_only _ s' _ _ p λ _. Obeys-done _ _ _ _ (a, e, refl)
