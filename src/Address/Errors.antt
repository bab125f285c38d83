-- ===== src/Address/Errors.antt =====
-- Where `updateDeployJsons` stops with an error, and what it has written by then.
use apy_core_public.Base.{String, ◌≡◌, false, [], ◌∷◌, ◌++◌, arith}
use apy_core_public.Base.Dict.{Dict}
use apy_core_public.Base.Exec.{ok, err}
use apy_core_public.Address.Registry.{
  Modules, is_apy_contract_name, get_chain_id, update_one, update_deploy_jsons,
  unrecognized_contract,
}
use apy_core_public.Address.Stored.{IsCoherent, Updated, update_one-Updated}
use apy_core_public.Address.Table.{AllKnown, update_deploy_jsons-cons}

module _ (dirname : String) where
  -- At the first name that the constants do not list `updateDeployJsons` throws, where the network is
  -- known and every object that `require` has kept comes from a file that is still there. The files and
  -- the kept objects are as after the entries before it, and nothing behind it is written.
  pub update_deploy_jsons-unrecognized :
      (network id : String) (before rest : Dict String) (name address : String) (m : Modules)
      → AllKnown before
      → get_chain_id network ≡ ok id
      → IsCoherent m
      → is_apy_contract_name name ≡ false
      → update_deploy_jsons dirname network (before ++ (name, address) ∷ rest) m
        ≡ (err (unrecognized_contract name), (update_deploy_jsons dirname network before m).1)
  unfolding Updated
  update_deploy_jsons-unrecognized network id [] rest name address m all chain coherent unknown =
      unfold update_deploy_jsons update_one in ground arith
  update_deploy_jsons-unrecognized network id ((k, a) ∷ before) rest name address m all chain
        coherent unknown =
      let first = update_one-Updated dirname network k a id m all.0 chain coherent in
      rw (update_deploy_jsons-cons dirname network k a (before ++ (name, address) ∷ rest) m first.0)
        (rw (update_deploy_jsons-cons dirname network k a before m first.0) (
          update_deploy_jsons-unrecognized network id before rest name address
            (update_one dirname network k a m).1 all.1 chain first.1 unknown))
