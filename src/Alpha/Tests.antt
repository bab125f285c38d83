-- ===== src/Alpha/Tests.antt =====
-- Runs of the scripts, and the theorems at concrete data.
use apy_core_public.Base.{◌≡◌, refl, true, false, none, [], ◌∷◌}
use apy_core_public.Base.Dict.{lookup}
use apy_core_public.Script.Core.{
  Env, truthy, run, finished, ◌>>=◌, address_of, required_variable, required, when, transaction_of,
  as_string,
}
use apy_core_public.Base.Texts.{to_lower}
use apy_core_public.Safe.Signers.{
  get_admin_safe_signer, get_safe_signer_for_safe_type, get_safe_owner, get_safe_signer,
}
use apy_core_public.Safe.Receipts.{
  wait_for_safe_tx_receipt, await_receipt, poll_hash, poll_receipt, finish_receipt, with_creation,
}
use apy_core_public.Script.Monitor.{RunObeys}
use apy_core_public.Script.Common.{show_balance, created_address, get_registered_contract}
use apy_core_public.Script.Sample.{sample_world, sample_env}
use apy_core_public.Safe.Created.{created_only, nothing}
use apy_core_public.Safe.Verified.{Verified}
use apy_core_public.Alpha.Register.{Arguments, zap_main, swap_main, allocation_main}
use apy_core_public.Alpha.NoKey.{unsigned, Never, alpha_runs-unsigned}
use apy_core_public.Address.Registry.{Modules}
use apy_core_public.Alpha.Factories.{factories_main, deployment_main, upgrader_main}
use apy_core_public.Alpha.Stops.{single, Unfinished, setup_runs-single}
use apy_core_public.Alpha.Runs.{zap_run-Verified}

abbrev curve_mim : Arguments
curve_mim = record { name = "curve-mim"; compile = false; metapool = true }

zap_run-Verified_example :
    RunObeys created_only sample_world nothing [] Verified
      (run sample_world (zap_main "0xC1" 2 sample_env curve_mim) [])
zap_run-Verified_example = zap_run-Verified "0xC1" 2 sample_env curve_mim sample_world

zap_finishes : (run sample_world (zap_main "0xC1" 2 sample_env curve_mim) []).0 ≡ finished tt
unfolding run zap_main ◌>>=◌ sample_world address_of lookup required_variable required show_balance
    get_admin_safe_signer get_safe_signer_for_safe_type get_safe_owner get_safe_signer when
    transaction_of wait_for_safe_tx_receipt as_string to_lower await_receipt poll_hash poll_receipt
    finish_receipt with_creation created_address get_registered_contract
zap_finishes = refl

abbrev no_key_env : Env
no_key_env = record { network_name = "mainnet"; variables = ("SAFE_OWNER_KEY", "") ∷ [] }

no_key_env-empty : truthy (lookup "SAFE_OWNER_KEY" no_key_env.variables) ≡ none
unfolding lookup
no_key_env-empty = refl

alpha_runs-unsigned_example :
    RunObeys unsigned sample_world tt [] Never
      (run sample_world (zap_main "0xC1" 1 no_key_env curve_mim) [])
    × RunObeys unsigned sample_world tt [] Never
        (run sample_world (swap_main "0xC1" 1 no_key_env curve_mim) [])
    × RunObeys unsigned sample_world tt [] Never
        (run sample_world (allocation_main "0xC1" 1 no_key_env curve_mim) [])
alpha_runs-unsigned_example =
    alpha_runs-unsigned "0xC1" 1 no_key_env curve_mim sample_world no_key_env-empty

-- The address files with the admin Safe of Mainnet.
abbrev safe_files : Modules
safe_files = record {
  files =
      (
        "utils/../deployed_addresses/AdminSafe.json",
        ("1", "0x1f7f8DA3eac80DBc0b4A49BC447A88585D8766C8") ∷ [],
      )
      ∷ [];
  cache = [];
}

setup_runs-single_example :
    RunObeys single sample_world false [] Unfinished
      (run sample_world (factories_main "utils" safe_files sample_env none) [])
    × RunObeys single sample_world false [] Unfinished
        (run sample_world (deployment_main "utils" safe_files sample_env none) [])
    × RunObeys single sample_world false [] Unfinished
        (run sample_world (upgrader_main "utils" safe_files sample_env) [])
setup_runs-single_example = setup_runs-single "utils" safe_files sample_env sample_world none none
