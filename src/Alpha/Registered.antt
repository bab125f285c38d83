-- ===== src/Alpha/Registered.antt =====
-- The scripts of Register follow the monitor of Safe/Created: which address is registered and verified.
use apy_core_public.Base.{ℕ, String, refl, some, [], ◌∷◌}
use apy_core_public.Script.Core.{Value, Env}
use apy_core_public.Script.Monitor.{Obeys}
use apy_core_public.Script.Chain.{
  then_invoke, then_as_string, then_required_variable, then-Neutral, then_address_of,
  then_require_that,
}
use apy_core_public.Safe.Created.{Kind, Permits, created_only, proposed_by, arrived, nothing}
use apy_core_public.Alpha.Register.{Arguments, zap_main, swap_main, allocation_main}
use apy_core_public.Safe.Verified.{
  Verified, show_balance-Neutral, compile_one-Neutral, when_compile-Neutral,
  get_registered_contract-Neutral, get_admin_safe_signer-Neutral, registered-Verified,
  created-registered, deployed-Verified,
}

pub zap_main-Verified :
    (lib : String) (fuel : ℕ) (env : Env) (argv : Arguments)
    → Obeys created_only Verified nothing (zap_main lib fuel env argv)
unfolding zap_main
zap_main-Verified lib fuel env argv =
    let s = nothing in
    then_invoke created_only _ s _ _ tt λ deployer. then_address_of created_only _ s _ _ λ a.
      then_required_variable created_only _ s _ _ _ _ λ key _.
        then_invoke created_only _ s _ _ tt λ owner.
          then-Neutral created_only _ s _ _ (show_balance-Neutral s _) λ _.
            then-Neutral created_only _ s _ _ (show_balance-Neutral s _) λ _.
              then-Neutral created_only _ s _ _ (get_admin_safe_signer-Neutral s _ _) λ safe_signer.
                then-Neutral created_only _ s _ _ (when_compile-Neutral s _ _) λ _.
                  then_invoke created_only _ s _ _ tt λ factory'.
                    then_invoke created_only _ s _ _ tt λ instance_.
                      deployed-Verified s safe_signer instance_ _ λ t service sent.
                        let s₁ = proposed_by (some instance_) s in
                        created-registered lib fuel s₁ t service _ _ sent λ h logs c a e.
                          let s' = arrived s₁ h logs c in
                          then_invoke created_only _ s' _ _ tt λ created.
                            then_invoke created_only _ s' _ _ tt λ _.
                              then-Neutral created_only _ s' _ _
                                (get_registered_contract-Neutral s' _ _)
                                λ lp_account.
                                  let p : Permits s' (Kind.registration (Value.str a ∷ [])) =
                                    (refl, (a, e, refl)) in
                                  then_invoke created_only _ s' _ _ p λ proposed.
                                    registered-Verified lib fuel (record s' { registered = some a })
                                      a safe_signer proposed [] refl

pub swap_main-Verified :
    (lib : String) (fuel : ℕ) (env : Env) (argv : Arguments)
    → Obeys created_only Verified nothing (swap_main lib fuel env argv)
unfolding swap_main
swap_main-Verified lib fuel env argv =
    let s = nothing in
    then_invoke created_only _ s _ _ tt λ deployer. then_address_of created_only _ s _ _ λ a.
      then_required_variable created_only _ s _ _ _ _ λ key _.
        then_invoke created_only _ s _ _ tt λ owner.
          then-Neutral created_only _ s _ _ (show_balance-Neutral s _) λ _.
            then-Neutral created_only _ s _ _ (show_balance-Neutral s _) λ _.
              then-Neutral created_only _ s _ _ (get_admin_safe_signer-Neutral s _ _) λ safe_signer.
                then-Neutral created_only _ s _ _ (compile_one-Neutral s _) λ _.
                  then_invoke created_only _ s _ _ tt λ factory'.
                    then_invoke created_only _ s _ _ tt λ instance_.
                      deployed-Verified s safe_signer instance_ _ λ t service sent.
                        let s₁ = proposed_by (some instance_) s in
                        created-registered lib fuel s₁ t service _ _ sent λ h logs c a e.
                          let s' = arrived s₁ h logs c in
                          then_invoke created_only _ s' _ _ tt λ created.
                            then_invoke created_only _ s' _ _ tt λ _.
                              then-Neutral created_only _ s' _ _
                                (get_registered_contract-Neutral s' _ _)
                                λ lp_account.
                                  let p : Permits s' (Kind.registration (Value.str a ∷ [])) =
                                    (refl, (a, e, refl)) in
                                  then_invoke created_only _ s' _ _ p λ proposed.
                                    registered-Verified lib fuel (record s' { registered = some a })
                                      a safe_signer proposed [] refl

pub allocation_main-Verified :
    (lib : String) (fuel : ℕ) (env : Env) (argv : Arguments)
    → Obeys created_only Verified nothing (allocation_main lib fuel env argv)
unfolding allocation_main
allocation_main-Verified lib fuel env argv =
    let s = nothing in
    then_invoke created_only _ s _ _ tt λ deployer. then_address_of created_only _ s _ _ λ a.
      then_required_variable created_only _ s _ _ _ _ λ key _.
        then_invoke created_only _ s _ _ tt λ owner.
          then-Neutral created_only _ s _ _ (show_balance-Neutral s _) λ _.
            then-Neutral created_only _ s _ _ (show_balance-Neutral s _) λ _.
              then-Neutral created_only _ s _ _ (get_admin_safe_signer-Neutral s _ _) λ safe_signer.
                then-Neutral created_only _ s _ _ (when_compile-Neutral s _ _) λ _.
                  then-Neutral created_only _ s _ _ (get_registered_contract-Neutral s _ _)
                    λ tvl_manager. then_invoke created_only _ s _ _ tt λ factory'.
                      then_invoke created_only _ s _ _ tt λ curve_3pool.
                        then_as_string created_only _ s _ _ λ curve_3pool_address _.
                          then_require_that created_only _ s _ _ _ λ _.
                            then_invoke created_only _ s _ _ tt λ instance_.
                              deployed-Verified s safe_signer instance_ _ λ t service sent.
                                let s₁ = proposed_by (some instance_) s in
                                created-registered lib fuel s₁ t service _ _ sent λ h logs c a e.
                                  let s' = arrived s₁ h logs c in
                                  then_invoke created_only _ s' _ _ tt λ created.
                                    then_invoke created_only _ s' _ _ tt λ _.
                                      let p : Permits s' (Kind.registration (Value.str a ∷ [])) =
                                        (refl, (a, e, refl)) in
                                      then_invoke created_only _ s' _ _ p λ proposed.
                                        registered-Verified lib fuel
                                          (record s' { registered = some a }) a safe_signer proposed
                                          _ refl
