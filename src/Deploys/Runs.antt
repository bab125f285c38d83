-- ===== src/Deploys/Runs.antt =====
-- What holds of every run of the deploy scripts, whatever the outside world answers.
use apy_core_public.Base.{ℕ, String, Bool, List, []}
use apy_core_public.Script.Core.{Value, Env, World, run}
use apy_core_public.Script.Monitor.{RunObeys, Follows, run-Obeys}
use apy_core_public.Safe.Created.{created_only, nothing}
use apy_core_public.Safe.Verified.{Verified}
use apy_core_public.Deploys.Rinkeby.{deploy_main}
use apy_core_public.Deploys.Verified.{deploy_main-Verified}
use apy_core_public.Deploys.Logic.{Arguments, logic_main, upgrade_main}
use apy_core_public.Deploys.Order.{
  Stage, AtStage, deploy_order, logic_main-ordered, upgrade_main-ordered,
}

-- In every run of the scripts that deploy one contract by the admin Safe, whatever contract and
-- arguments, and whatever is answered, the only address that is verified is the non-empty contract
-- address of the receipt that was waited for, or the checksum address that was looked up for the
-- receipt's creation log, and a run that is done has verified such an address.
pub deploy_run-Verified :
    (create_lib_address : String) (fuel : ℕ) (env : Env) (compile : Bool) (name : String)
    (args : List Value) (w : World)
    → RunObeys created_only w nothing [] Verified
        (run w (deploy_main create_lib_address fuel env compile name args) [])
deploy_run-Verified lib fuel env compile name args w =
    run-Obeys created_only w Verified _ nothing nothing [] [] Follows.start
      (deploy_main-Verified lib fuel env compile name args)

-- In every run of the scripts that deploy a logic contract, a contract is deployed at most once, it is
-- initialised only after a wait for confirmations that followed the deployment was answered, and by the
-- signer that deployed it, and it is initialised where the run is done.
pub logic_run-ordered :
    (env : Env) (argv : Arguments) (name : String) (args : List Value) (w : World)
    → RunObeys deploy_order w Stage.idle []
        (AtStage Stage.initialized)
        (run w (logic_main env argv name args) [])
logic_run-ordered env argv name args w =
    run-Obeys deploy_order w _ _ Stage.idle Stage.idle [] [] Follows.start
      (logic_main-ordered env argv name args)

-- In every run of the scripts that upgrade the governance token, a contract is deployed at most once, it
-- is initialised only after a wait that followed the deployment was answered, the proxy is upgraded only
-- after a wait that followed the initialisation was answered, one signer sends all three, and where the
-- run is done a wait that followed the upgrade was answered too.
pub upgrade_run-ordered :
    (env : Env) (compile : Bool) (variable gov_token_address proxy_admin_address : String)
    (w : World)
    → RunObeys deploy_order w Stage.idle []
        (AtStage Stage.live)
        (run w (upgrade_main env compile variable gov_token_address proxy_admin_address) [])
upgrade_run-ordered env compile variable gov_token_address proxy_admin_address w =
    run-Obeys deploy_order w _ _ Stage.idle Stage.idle [] [] Follows.start
      (upgrade_main-ordered env compile variable gov_token_address proxy_admin_address)
