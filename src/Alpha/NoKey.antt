-- ===== src/Alpha/NoKey.antt =====
-- Without the key of an owner the scripts of Register send nothing.
use apy_core_public.Base.{ℕ, String, ◌≡◌, refl, none, []}
use apy_core_public.Base.Dict.{lookup}
use apy_core_public.Script.Core.{Value, Script, Env, World, ◌>>=◌, truthy, run, required_variable}
use apy_core_public.Script.Monitor.{Monitor, Obeys, RunObeys, Follows, run-Obeys}
use apy_core_public.Script.Chain.{then_invoke, then_address_of, then_required_variable}
use apy_core_public.Alpha.Register as Register
use apy_core_public.Alpha.Register.{zap_main, swap_main, allocation_main}

-- Every call is made without a signer.
abbrev pub unsigned : Monitor (Unit {0})
unsigned = record { Allows = λ s c. c.caller ≡ Value.undefined; next = λ s c o. s }

-- A script that is never done.
abbrev pub Never : Unit {0} → Unit {0} → Type 0
Never s a = ⊥

no_key :
    (env : Env) (message : String) (f : String → Script (Unit {0}))
    → truthy (lookup "SAFE_OWNER_KEY" env.variables) ≡ none
    → Obeys unsigned Never tt (required_variable env "SAFE_OWNER_KEY" message >>= f)
no_key env message f e = then_required_variable unsigned _ tt _ _ _ _ λ key e'. cc

module _ (create_lib_address : String) (fuel : ℕ) (env : Env) (argv : Register.Arguments)
    (w : World) where
  -- Where SAFE_OWNER_KEY is missing or empty, no call of a run of the zap, swap and allocation scripts has
  -- a signer, so that nothing is sent, and no run is done, whatever is answered.
  pub alpha_runs-unsigned :
      truthy (lookup "SAFE_OWNER_KEY" env.variables) ≡ none
      → RunObeys unsigned w tt [] Never (run w (zap_main create_lib_address fuel env argv) [])
        × RunObeys unsigned w tt [] Never (run w (swap_main create_lib_address fuel env argv) [])
        × RunObeys unsigned w tt [] Never
            (run w (allocation_main create_lib_address fuel env argv) [])
  unfolding zap_main swap_main allocation_main
  alpha_runs-unsigned e = (
    run-Obeys unsigned w Never _ tt tt [] [] Follows.start (
        then_invoke unsigned _ tt _ _ refl
          λ d. then_address_of unsigned _ tt _ _ λ a. no_key env _ _ e),
    run-Obeys unsigned w Never _ tt tt [] [] Follows.start (
        then_invoke unsigned _ tt _ _ refl
          λ d. then_address_of unsigned _ tt _ _ λ a. no_key env _ _ e),
    run-Obeys unsigned w Never _ tt tt [] [] Follows.start (
        then_invoke unsigned _ tt _ _ refl
          λ d. then_address_of unsigned _ tt _ _ λ a. no_key env _ _ e),
  )
