-- ===== src/Deployer/Order.antt =====
-- The order of a whole deployment: the ten steps of the deployer, and the registrations between and
-- after them.
use mathlib.Core.Path.{subst}
use apy_core_public.Base.{ℕ, suc, String, ◌≡◌, refl, sym, ap, some, List, [], ◌∷◌, map, arith}
use apy_core_public.Script.Core.{Value, Script, World, done, ◌>>=◌, ◌>>◌, run}
use apy_core_public.Script.Monitor.{
  Obeys, Obeys-bind, Obeys-invoke, Obeys-done, RunObeys, Follows, run-Obeys,
}
use apy_core_public.Script.Chain.{then_invoke, then_as_string, then_moves, then-Neutral}
use apy_core_public.Script.Interleave.{
  all, Quiet, Quiet-bind, Quiet-all-map, Quiet-Neutral, Quiet-invoke, Quiet-as_string,
}
use apy_core_public.Deployer.Steps.{
  deployed_contract, deploy_address_registry, register_safes, deploy_meta_pool_token, deploy_pools,
  deploy_tvl_manager, deploy_lp_account, deploy_oracle_adapter, register_erc20_allocation,
  deploy_transfer_ownership,
}
use apy_core_public.Deployer.Allocations.{Schedules, deploy_allocations, deploy_zaps, deploy_swaps}
use apy_core_public.Deployer.Main.{Deployment, underlyer_of, deploy}
use apy_core_public.Deployer.Places.{
  Place, numbered, anywhere, places, find_place, Allowed, moved, in_order, AllDone, Quiet-setup,
  Quiet-register_tokens, Quiet-deploy_allocations, Quiet-deploy_zaps, Quiet-deploy_swaps,
}

at_place : (n : ℕ) {p : Place} → p ≡ numbered n → Allowed n p
at_place n e = subst (Allowed n) (sym e) refl

moves : (n : ℕ) {p : Place} → p ≡ numbered n → (v : Value) → moved n p (some v) ≡ suc n
moves n e v = ap (λ p. moved n p (some v)) e

free : (n : ℕ) {p : Place} → p ≡ anywhere → Allowed n p
free n e = subst (Allowed n) (sym e) tt

stays : (n : ℕ) {p : Place} → p ≡ anywhere → (v : Value) → moved n p (some v) ≡ n
stays n e v = ap (λ p. moved n p (some v)) e

-- A step of the deployer, at its place.
then_deployed :
    {B : Type 0} (Post : ℕ → B → Type 0) (n : ℕ) (deployer : Value) (method getter name : String)
    (f : Value → Script B)
    → find_place method places ≡ numbered n
    → find_place getter places ≡ anywhere
    → ((v : Value) → Obeys in_order Post (suc n) (f v))
    → Obeys in_order Post n (deployed_contract deployer method getter name >>= f)
unfolding deployed_contract
then_deployed Post n deployer method getter name f h k l = Obeys-bind in_order Post n _ f (
    then_moves in_order _ n _ _ (suc n) (at_place n h) (moves n h) λ _.
      then_moves in_order _ (suc n) _ _ (suc n) (free (suc n) k) (stays (suc n) k) λ answer.
        then_as_string in_order _ (suc n) _ _ λ address _. Obeys-invoke in_order _ (suc n) _ tt l)

Quiet-underlyers :
    (n : ℕ) (schedule : List ℕ) (pools : List Value)
    → Quiet in_order n (all schedule (map underlyer_of pools))
Quiet-underlyers n schedule pools = Quiet-all-map in_order n schedule underlyer_of pools λ pool.
    Quiet-bind in_order n _ _ (Quiet-invoke in_order n _ tt λ o. refl)
      λ answer. Quiet-as_string in_order n answer

-- What follows the nine steps: the registrations, the tenth step, and the rest.
rest-in_order :
    (schedules : Schedules) (deployer admin_safe tvl_manager lp_account erc20_allocation : Value)
    (a : Deployment)
    → Obeys in_order AllDone 9 (do
      deploy_transfer_ownership deployer
      deploy_allocations schedules tvl_manager admin_safe
      deploy_zaps schedules lp_account erc20_allocation admin_safe
      deploy_swaps schedules lp_account erc20_allocation admin_safe
      done a)
unfolding deploy_transfer_ownership
rest-in_order schedules deployer admin_safe tvl_manager lp_account erc20_allocation a =
    let M = in_order in
    Obeys-bind M _ 9 _ _ (
      then_invoke M _ 9 _ _ refl λ _. Obeys-done _ _ _ _ (
        then-Neutral M _ 10 _ _
          (Quiet-Neutral M 10 _
            (Quiet-deploy_allocations 10 schedules tvl_manager admin_safe (omega arith)))
          λ _.
            then-Neutral M _ 10 _ _
              (Quiet-Neutral M 10 _
                (Quiet-deploy_zaps lp_account erc20_allocation admin_safe schedules))
              λ _.
                then-Neutral M _ 10 _ _
                  (Quiet-Neutral M 10 _
                    (Quiet-deploy_swaps lp_account erc20_allocation admin_safe schedules))
                  λ _. Obeys-done _ _ _ _ refl))

deploy-in_order : (schedules : Schedules) → Obeys in_order AllDone 0 (deploy schedules)
unfolding deploy deploy_address_registry register_safes deploy_meta_pool_token deploy_pools
    deploy_tvl_manager deploy_lp_account deploy_oracle_adapter register_erc20_allocation
    deploy_transfer_ownership
deploy-in_order schedules =
    let M = in_order in
    then-Neutral M _ 0 _ _ (Quiet-Neutral M 0 _ (Quiet-setup 0 (schedules 8))) λ s.
      then_deployed _ 0 _ _ _ _ _ refl refl λ registry. Obeys-bind M _ 1 _ _ (
        then_invoke M _ 1 _ _ refl λ _. Obeys-done _ _ _ _ (
          then_deployed _ 2 _ _ _ _ _ refl refl λ meta_pool_token. Obeys-bind M _ 3 _ _ (
            then_deployed _ 3 _ _ _ _ _ refl refl λ dai.
              then_deployed _ 4 _ _ _ _ _ refl refl λ usdc.
                then_deployed _ 5 _ _ _ _ _ refl refl λ usdt. Obeys-done _ _ _ _ (
                  then_deployed _ 6 _ _ _ _ _ refl refl λ tvl_manager.
                    then_deployed _ 7 _ _ _ _ _ refl refl λ lp_account.
                      then_deployed _ 8 _ _ _ _ _ refl refl λ oracle_adapter. Obeys-bind M _ 9 _ _ (
                        then_invoke M _ 9 _ _ tt λ answer. then_as_string M _ 9 _ _ λ address _.
                          then_invoke M _ 9 _ _ (omega arith) λ _.
                            Obeys-invoke M _ 9 _ tt λ erc20_allocation.
                              then-Neutral M _ 9 _ _
                                (Quiet-Neutral M 9 _
                                  (Quiet-underlyers 9 (schedules 9) (dai ∷ usdc ∷ usdt ∷ [])))
                                λ erc20s.
                                  then-Neutral M _ 9 _ _
                                    (Quiet-Neutral M 9 _ (
                                      Quiet-register_tokens 9 (schedules 10) erc20_allocation
                                        s.1.admin_safe erc20s (omega arith)))
                                    λ _.
                                      rest-in_order schedules s.0 s.1.admin_safe tvl_manager
                                        lp_account erc20_allocation _)))))

-- In every run of `deploy` of scripts/deploy/deployer.js, whatever is answered and however the scripts
-- that run at once take turns, the ten steps of the deployer are called once each, in their order;
-- allocations and ERC20 tokens are registered only after the first nine, zaps and swaps only after the
-- tenth, the transfer of ownership; and a run that is done has taken all ten.
pub deploy-run-in_order :
    (w : World) (schedules : Schedules)
    → RunObeys in_order w 0 [] AllDone (run w (deploy schedules) [])
deploy-run-in_order w schedules =
    run-Obeys in_order w AllDone _ 0 0 [] [] Follows.start (deploy-in_order schedules)
