-- ===== src/Address/Tests.antt =====
-- Runs over a few files, and the theorems at concrete data.
use mathlib.Core.Option.{or_else}
use text.Mathlib.Text.{◌==◌ as str_eq}
use apy_core_public.Base.{String, ◌≡◌, refl, none, some, [], ◌∷◌, ◌++◌, if◌then◌else◌}
use apy_core_public.Base.Texts.{to_upper}
use apy_core_public.Base.Dict.{Dict, lookup, includes}
use apy_core_public.Base.Exec.{ok, err}
use apy_core_public.Address.Registry.{
  Modules, no_address, unrecognized_contract, type_error, unrecognized_network, get_chain_id,
  update_deploy_jsons, get_deployed_address, is_apy_contract_name, get_stablecoin_address,
  get_aggregator_address,
}
use apy_core_public.Address.Stored.{IsCoherent}
use apy_core_public.Address.Table.{
  recorded, restart, update_deploy_jsons-recorded, get_deployed_address-update_deploy_jsons,
}
use apy_core_public.Address.Errors.{update_deploy_jsons-unrecognized}

abbrev disk : Modules
disk = record {
  files = ("d/../deployed_addresses/AdminSafe.json", ("1", "0xa") ∷ ("4", "0xb") ∷ []) ∷ [];
  cache = [];
}

abbrev deploy_data : Dict String
deploy_data = ("AdminSafe", "0xc") ∷ ("LpSafe", "0xd") ∷ []

disk-IsCoherent : IsCoherent disk
unfolding lookup
disk-IsCoherent path h = refl

chain_id_runs :
    (get_chain_id "mainnet" ≡ ok "1")
    × (get_chain_id "Localhost" ≡ ok "1")
    × (get_chain_id "ropsten" ≡ err (unrecognized_network "ROPSTEN"))
unfolding get_chain_id lookup to_upper
chain_id_runs = (refl, refl, refl)

lookup_runs :
    (get_stablecoin_address "usdc" "kovan" ≡ ok "0xe22da380ee6b445bb8273c81944adeb6e8450422")
    × (get_stablecoin_address "crv" "kovan" ≡ err (no_address "crv"))
    × (get_stablecoin_address "dai" "rinkeby" ≡ err type_error)
    × (get_aggregator_address "dai-eth" "Mainnet"
        ≡ ok (some "0x773616E4d11A78F511299002da57A0a94577F1f4"))
    × (get_aggregator_address "crv-eth" "Mainnet" ≡ ok none)
unfolding get_stablecoin_address get_aggregator_address lookup to_upper
lookup_runs = (refl, refl, refl, refl, refl)

update_deploy_jsons-recorded_example :
    let (r, m') = update_deploy_jsons "d" "kovan" deploy_data disk in
    (r ≡ ok tt)
    × IsCoherent m'
    × ((n i : String)
        → recorded "d" m' n i ≡ (
            if str_eq "42" i
            then or_else (lookup n deploy_data) (recorded "d" disk n i)
            else recorded "d" disk n i))
    × ((n i : String)
        → recorded "d" (restart "d" m') n i ≡ elim (lookup n deploy_data) [
          | none ↦ recorded "d" (restart "d" disk) n i
          | some _ ↦ recorded "d" m' n i
        ])
unfolding get_chain_id lookup to_upper is_apy_contract_name includes
update_deploy_jsons-recorded_example =
    update_deploy_jsons-recorded "d" "kovan" "42" deploy_data disk (refl, (refl, tt))
      (refl, (refl, tt)) refl disk-IsCoherent

get_deployed_address-update_deploy_jsons_example :
    let m' = (update_deploy_jsons "d" "localhost" deploy_data disk).1 in
    ((get_deployed_address "d" "AdminSafe" "mainnet" m').0 ≡ ok (some "0xc"))
    × ((get_deployed_address "d" "AdminSafe" "mainnet" (restart "d" m')).0 ≡ ok (some "0xc"))
unfolding get_chain_id lookup to_upper is_apy_contract_name includes
get_deployed_address-update_deploy_jsons_example =
    get_deployed_address-update_deploy_jsons "d" "localhost" "mainnet" "1" deploy_data disk
      "AdminSafe" "0xc" (refl, (refl, tt)) (refl, (refl, tt)) refl refl disk-IsCoherent refl refl

update_deploy_jsons-unrecognized_example :
    update_deploy_jsons "d" "kovan"
      (deploy_data ++ ("NoSafe", "0xe") ∷ ("AdminSafe", "0xf") ∷ [])
      disk
    ≡ (err (unrecognized_contract "NoSafe"), (update_deploy_jsons "d" "kovan" deploy_data disk).1)
unfolding get_chain_id lookup to_upper is_apy_contract_name includes
update_deploy_jsons-unrecognized_example =
    update_deploy_jsons-unrecognized "d" "kovan" "42" deploy_data (("AdminSafe", "0xf") ∷ [])
      "NoSafe" "0xe" disk (refl, (refl, tt)) refl disk-IsCoherent refl
