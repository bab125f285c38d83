-- ===== src/Alpha/Runs.antt =====
-- What holds of every run of the scripts of Register, whatever the outside world answers.
use apy_core_public.Base.{ℕ, String, []}
use apy_core_public.Script.Core.{Env, World, run}
use apy_core_public.Script.Monitor.{RunObeys, Follows, run-Obeys}
use apy_core_public.Safe.Created.{created_only, nothing}
use apy_core_public.Safe.Verified.{Verified}
use apy_core_public.Alpha.Register.{Arguments, zap_main, swap_main, allocation_main}
use apy_core_public.Alpha.Registered.{
  zap_main-Verified, swap_main-Verified, allocation_main-Verified,
}

-- In every run of the zap script, whatever is answered: the service is asked only for the hash
-- of the transaction that the last deployment or registration has answered; the only hash that is waited
-- for is the one that the service has given for it; the only address whose checksum is looked up is the
-- one in the creation log of the receipt of that wait; at most one address is registered, and it is the
-- non-empty contract address of that receipt, or the checksum address that was looked up for its creation
-- log; the only address that is verified is the one that was registered, or where none is yet, the created
-- one; and a run that is done has verified such an address.
pub zap_run-Verified :
    (create_lib_address : String) (fuel : ℕ) (env : Env) (argv : Arguments) (w : World)
    → RunObeys created_only w nothing [] Verified
        (run w (zap_main create_lib_address fuel env argv) [])
zap_run-Verified lib fuel env argv w =
    run-Obeys created_only w Verified _ nothing nothing [] [] Follows.start
      (zap_main-Verified lib fuel env argv)

-- In every run of the swap script, whatever is answered: the service is asked only for the hash
-- of the transaction that the last deployment or registration has answered; the only hash that is waited
-- for is the one that the service has given for it; the only address whose checksum is looked up is the
-- one in the creation log of the receipt of that wait; at most one address is registered, and it is the
-- non-empty contract address of that receipt, or the checksum address that was looked up for its creation
-- log; the only address that is verified is the one that was registered, or where none is yet, the created
-- one; and a run that is done has verified such an address.
pub swap_run-Verified :
    (create_lib_address : String) (fuel : ℕ) (env : Env) (argv : Arguments) (w : World)
    → RunObeys created_only w nothing [] Verified
        (run w (swap_main create_lib_address fuel env argv) [])
swap_run-Verified lib fuel env argv w =
    run-Obeys created_only w Verified _ nothing nothing [] [] Follows.start
      (swap_main-Verified lib fuel env argv)

-- In every run of the allocation script, for a metapool or not and whatever is answered: the service is asked only for the hash
-- of the transaction that the last deployment or registration has answered; the only hash that is waited
-- for is the one that the service has given for it; the only address whose checksum is looked up is the
-- one in the creation log of the receipt of that wait; at most one address is registered, and it is the
-- non-empty contract address of that receipt, or the checksum address that was looked up for its creation
-- log; the only address that is verified is the one that was registered, or where none is yet, the created
-- one; and a run that is done has verified such an address.
pub allocation_run-Verified :
    (create_lib_address : String) (fuel : ℕ) (env : Env) (argv : Arguments) (w : World)
    → RunObeys created_only w nothing [] Verified
        (run w (allocation_main create_lib_address fuel env argv) [])
allocation_run-Verified lib fuel env argv w =
    run-Obeys created_only w Verified _ nothing nothing [] [] Follows.start
      (allocation_main-Verified lib fuel env argv)
