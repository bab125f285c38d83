-- ===== src/Deployer/Places.antt =====
-- The places of the calls of a whole deployment, and the parts of it that take no step of the deployer:
-- what they do at once with other parts is allowed in every order.
use text.Mathlib.Text.{◌==◌ as str_eq}
use apy_core_public.Base.{
  ℕ, suc, String, ◌≡◌, refl, ◌≤◌, Option, some, List, [], ◌∷◌, arith, if◌then◌else◌,
}
use apy_core_public.Script.Core.{Value, Call, invoke_as}
use apy_core_public.Script.Monitor.{Monitor}
use apy_core_public.Script.Interleave.{
  Quiet, Quiet-bind, Quiet-all-map, Quiet-invoke, Quiet-as_strings, Quiet-address_of, Quiet-done,
}
use apy_core_public.Deployer.Factories.{
  factory_config, deploy_named, deploy_address, deploy_factories,
}
use apy_core_public.Deployer.Steps.{setup, deploy_new_deployment}
use apy_core_public.Deployer.Allocations.{
  Schedules, regular_contracts, meta_pool_contracts, zap_contracts, swap_contracts, send_each,
  deploy_allocations, register_erc20_allocations, register_with_tokens, deploy_zaps, deploy_swaps,
}

pub data Place : Type 0 where
  numbered : ℕ → Place
  registration zap_or_swap anywhere : Place

abbrev pub places : List (String × Place)
places =
    ("deploy0AddressRegistryV2", numbered 0)
    ∷ ("deploy1RegisterSafes", numbered 1)
    ∷ ("deploy2MetaPoolToken", numbered 2)
    ∷ ("deploy3DaiPoolTokenV2", numbered 3)
    ∷ ("deploy4UsdcPoolTokenV2", numbered 4)
    ∷ ("deploy5UsdtPoolTokenV2", numbered 5)
    ∷ ("deploy6TvlManager", numbered 6)
    ∷ ("deploy7LpAccount", numbered 7)
    ∷ ("deploy8OracleAdapter", numbered 8)
    ∷ ("deploy9TransferOwnership", numbered 9)
    ∷ ("registerAssetAllocation", registration)
    ∷ ("registerErc20Token(address)", registration)
    ∷ ("registerZap", zap_or_swap)
    ∷ ("registerSwap", zap_or_swap)
    ∷ []

abbrev pub find_place : String → List (String × Place) → Place
find_place method [] = anywhere
find_place method ((name, place) ∷ rest) =
    let later = find_place method rest in if str_eq method name then place else later

abbrev pub place_of : Call → Place
place_of c = find_place c.method places

-- `n` steps of the deployer are done. The step `n` is next; a registration needs the first nine, and
-- one of a zap or a swap all ten.
abbrev pub Allowed : ℕ → Place → Type 0
Allowed n (numbered k) = n ≡ k
Allowed n registration = 9 ≤ n
Allowed n zap_or_swap = n ≡ 10
Allowed n anywhere = Unit

abbrev pub moved : ℕ → Place → Option Value → ℕ
moved n (numbered k) (some v) = suc n
moved n _ _ = n

abbrev pub in_order : Monitor ℕ
in_order = record { Allows = λ n c. Allowed n (place_of c); next = λ n c o. moved n (place_of c) o }

abbrev pub AllDone : {A : Type 0} → ℕ → A → Type 0
AllDone n a = n ≡ 10

module _ (n : ℕ) where
  Quiet-deploy_named :
      (args : List Value) (name : String) → Quiet in_order n (deploy_named args name)
  unfolding deploy_named
  Quiet-deploy_named args name =
      Quiet-bind in_order n _ _ (Quiet-invoke in_order n _ tt λ o. refl)
        λ factory. Quiet-invoke in_order n _ tt λ o. refl

  Quiet-deploy_address : (name : String) → Quiet in_order n (deploy_address name)
  unfolding deploy_address
  Quiet-deploy_address name =
      Quiet-bind in_order n _ _ (Quiet-invoke in_order n _ tt λ o. refl) λ factory.
        Quiet-bind in_order n _ _ (Quiet-invoke in_order n _ tt λ o. refl)
          λ created. Quiet-address_of in_order n created

  Quiet-deploy_factories : (schedule : List ℕ) → Quiet in_order n (deploy_factories schedule)
  unfolding deploy_factories
  Quiet-deploy_factories schedule =
      Quiet-bind in_order n _ _
        (Quiet-all-map in_order n schedule (λ (c : String × String). deploy_address c.0)
          factory_config λ c. Quiet-deploy_address c.0)
        λ addresses. Quiet-done in_order n _

  pub Quiet-setup : (schedule : List ℕ) → Quiet in_order n (setup schedule)
  unfolding setup deploy_new_deployment
  Quiet-setup schedule = Quiet-bind in_order n _ _ (Quiet-invoke in_order n _ tt λ o. refl) λ lp.
      Quiet-bind in_order n _ _ (Quiet-invoke in_order n _ tt λ o. refl) λ admin.
        Quiet-bind in_order n _ _ (Quiet-invoke in_order n _ tt λ o. refl) λ emergency.
          Quiet-bind in_order n _ _ (Quiet-address_of in_order n lp) λ a.
            Quiet-bind in_order n _ _ (Quiet-address_of in_order n admin) λ b.
              Quiet-bind in_order n _ _ (Quiet-address_of in_order n emergency) λ c.
                Quiet-bind in_order n _ _ (Quiet-deploy_factories schedule) λ factories.
                  Quiet-bind in_order n _ _
                    (Quiet-bind in_order n _ _ (Quiet-invoke in_order n _ tt λ o. refl)
                      λ f. Quiet-invoke in_order n _ tt λ o. refl)
                    λ deployer. Quiet-done in_order n _

  -- A registration, where its place is reached.
  pub Quiet-register_tokens :
      (schedule : List ℕ) (erc20_allocation admin_safe : Value) (erc20s : List String)
      → 9 ≤ n
      → Quiet in_order n (register_erc20_allocations schedule erc20_allocation admin_safe erc20s)
  unfolding register_erc20_allocations
  Quiet-register_tokens schedule erc20_allocation admin_safe erc20s h =
      Quiet-bind in_order n _ _
        (Quiet-all-map in_order n schedule
          (λ erc20.
            invoke_as admin_safe erc20_allocation "registerErc20Token(address)"
              (Value.str erc20 ∷ []))
          erc20s λ erc20. Quiet-invoke in_order n _ h λ o. refl)
        λ rest. Quiet-done in_order n _

  Quiet-send_each :
      (admin_safe tvl_manager : Value) (allocations : List Value)
      → 9 ≤ n
      → Quiet in_order n (send_each admin_safe tvl_manager allocations)
  unfolding send_each Quiet
  Quiet-send_each admin_safe tvl_manager [] h = tt
  Quiet-send_each admin_safe tvl_manager (allocation ∷ allocations) h =
      Quiet-bind in_order n _ _ (Quiet-address_of in_order n allocation) λ address.
        Quiet-bind in_order n _ _ (h, λ o. (refl, tt))
          λ _. Quiet-send_each admin_safe tvl_manager allocations h

  pub Quiet-deploy_allocations :
      (schedules : Schedules) (tvl_manager admin_safe : Value)
      → 9 ≤ n
      → Quiet in_order n (deploy_allocations schedules tvl_manager admin_safe)
  unfolding deploy_allocations
  Quiet-deploy_allocations schedules tvl_manager admin_safe h =
      Quiet-bind in_order n _ _
        (Quiet-all-map in_order n (schedules 0) (deploy_named []) regular_contracts
          (Quiet-deploy_named []))
        λ regular. Quiet-bind in_order n _ _ (Quiet-deploy_named [] _) λ curve_3pool.
          Quiet-bind in_order n _ _ (Quiet-address_of in_order n curve_3pool) λ address.
            Quiet-bind in_order n _ _
              (Quiet-all-map in_order n (schedules 1) (deploy_named (Value.str address ∷ []))
                meta_pool_contracts (Quiet-deploy_named (Value.str address ∷ [])))
              λ meta_pools.
                Quiet-bind in_order n _ _ (Quiet-send_each admin_safe tvl_manager _ h)
                  λ _. Quiet-done in_order n _

-- All ten steps are done.
module _ (lp_account erc20_allocation admin_safe : Value) where
  Quiet-register_zap :
      (schedule : List ℕ) (created : Value)
      → Quiet in_order 10 (
          register_with_tokens "registerZap" schedule lp_account erc20_allocation admin_safe
            created)
  unfolding register_with_tokens
  Quiet-register_zap schedule created =
      Quiet-bind in_order 10 _ _ (Quiet-address_of in_order 10 created) λ address.
        Quiet-bind in_order 10 _ _ (Quiet-invoke in_order 10 _ refl λ o. refl) λ _.
          Quiet-bind in_order 10 _ _ (Quiet-invoke in_order 10 _ tt λ o. refl) λ answer.
            Quiet-bind in_order 10 _ _ (Quiet-as_strings in_order 10 answer) λ erc20s.
              Quiet-register_tokens 10 schedule erc20_allocation admin_safe erc20s (omega arith)

  Quiet-register_swap :
      (schedule : List ℕ) (created : Value)
      → Quiet in_order 10 (
          register_with_tokens "registerSwap" schedule lp_account erc20_allocation admin_safe
            created)
  unfolding register_with_tokens
  Quiet-register_swap schedule created =
      Quiet-bind in_order 10 _ _ (Quiet-address_of in_order 10 created) λ address.
        Quiet-bind in_order 10 _ _ (Quiet-invoke in_order 10 _ refl λ o. refl) λ _.
          Quiet-bind in_order 10 _ _ (Quiet-invoke in_order 10 _ tt λ o. refl) λ answer.
            Quiet-bind in_order 10 _ _ (Quiet-as_strings in_order 10 answer) λ erc20s.
              Quiet-register_tokens 10 schedule erc20_allocation admin_safe erc20s (omega arith)

  pub Quiet-deploy_zaps :
      (schedules : Schedules)
      → Quiet in_order 10 (deploy_zaps schedules lp_account erc20_allocation admin_safe)
  unfolding deploy_zaps
  Quiet-deploy_zaps schedules =
      Quiet-bind in_order 10 _ _
        (Quiet-all-map in_order 10 (schedules 2) (deploy_named []) zap_contracts
          (Quiet-deploy_named 10 []))
        λ zaps.
          Quiet-bind in_order 10 _ _
            (Quiet-all-map in_order 10 (schedules 3)
              (register_with_tokens "registerZap" (schedules 4) lp_account erc20_allocation
                admin_safe)
              zaps (Quiet-register_zap (schedules 4)))
            λ _. Quiet-done in_order 10 _

  pub Quiet-deploy_swaps :
      (schedules : Schedules)
      → Quiet in_order 10 (deploy_swaps schedules lp_account erc20_allocation admin_safe)
  unfolding deploy_swaps
  Quiet-deploy_swaps schedules =
      Quiet-bind in_order 10 _ _
        (Quiet-all-map in_order 10 (schedules 5) (deploy_named []) swap_contracts
          (Quiet-deploy_named 10 []))
        λ swaps.
          Quiet-bind in_order 10 _ _
            (Quiet-all-map in_order 10 (schedules 6)
              (register_with_tokens "registerSwap" (schedules 7) lp_account erc20_allocation
                admin_safe)
              swaps (Quiet-register_swap (schedules 7)))
            λ _. Quiet-done in_order 10 _
