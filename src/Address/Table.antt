-- ===== src/Address/Table.antt =====
-- The address files as a table of addresses by contract and chain: `updateDeployJsons` writes its
-- entries into the table, and `getDeployedAddress` reads it, whatever `require` has kept.
use text.Mathlib.Text.{◌==◌ as str_eq}
use text.Mathlib.TextEquality.{eq_iff}
use text.Mathlib.TextPositions.{eq_refl}
use text.Mathlib.TextLemmas.{append_cancel_left, append_cancel_right}
use mathlib.Core.Option.{or_else}
use apy_core_public.Base.{
  String, ◌<>◌, ◌≡◌, refl, sym, ap, ◌∙◌, inl, inr, true, ◌&&◌, Bool-cases, Option, none, some,
  Option-cases, [], ◌∷◌, arith, if◌then◌else◌, All,
}
use apy_core_public.Base.Dict.{
  Dict, lookup, insert, lookup-nil, lookup-cons, lookup-insert, NodupKeys,
}
use apy_core_public.Base.Exec.{ok}
use apy_core_public.Address.Registry.{
  Json, Modules, is_apy_contract_name, get_chain_id, deploys_json, update_one, update_deploy_jsons,
  get_deployed_address,
}
use apy_core_public.Address.Stored.{view, IsCoherent, or_empty, Updated, update_one-Updated}

-- Every contract of the data has a name that the constants list.
abbrev pub AllKnown : Dict String → Type 0
AllKnown = All (λ e. is_apy_contract_name e.0 ≡ true)

abbrev entry : String → Option Json → Option String
entry id none = none
entry id (some json) = lookup id json

module _ (dirname : String) where
  -- The address that the files and the kept objects give for a contract on a chain.
  abbrev pub recorded : Modules → String → String → Option String
  recorded m name id = entry id (view (deploys_json dirname name) m)

  -- The modules as a later process finds them: the files, with nothing kept.
  abbrev pub restart : Modules → Modules
  restart m = record m { cache = [] }

  deploys_json_injective : (k n : String) → deploys_json dirname k ≡ deploys_json dirname n → k ≡ n
  unfolding deploys_json
  deploys_json_injective k n e = append_cancel_right k n ".json" (
      append_cancel_left "/../deployed_addresses/" (k <> ".json") (n <> ".json")
        (append_cancel_left dirname _ _ e))

  same_path : (k n : String) → str_eq (deploys_json dirname k) (deploys_json dirname n) ≡ str_eq k n
  same_path k n = elim (Bool-cases (str_eq k n)) [
    | inl e ↦ rw ((eq_iff k n).0 e) (rw (eq_refl n) (eq_refl _))
    | inr e ↦ elim (Bool-cases (str_eq (deploys_json dirname k) (deploys_json dirname n))) [
      | inl f ↦ cc ((eq_iff k n).1 (deploys_json_injective k n ((eq_iff _ _).0 f)))
      | inr f ↦ f ∙ sym e
    ]
  ]

  entry-insert :
      (id i address : String) (v : Option Json)
      → lookup i (insert id address (or_empty v))
        ≡ (if str_eq id i then some address else entry i v)
  entry-insert id i address none = lookup-insert id i address [] ∙ rw lookup-nil
  entry-insert id i address (some json) = lookup-insert id i address json

  recorded-update_one :
      (network name address id : String) (m : Modules)
      → is_apy_contract_name name ≡ true
      → get_chain_id network ≡ ok id
      → IsCoherent m
      → (n i : String)
      → recorded (update_one dirname network name address m).1 n i
        ≡ (if str_eq name n && str_eq id i then some address else recorded m n i)
  unfolding Updated
  recorded-update_one network name address id m known chain coherent n i =
      let updated = update_one-Updated dirname network name address id m known chain coherent in
      ground (
        arith,
        updated.2 (deploys_json dirname n),
        same_path name n,
        eq_iff name n,
        entry-insert id i address (view (deploys_json dirname n) m),
      )

  written-update_one :
      (network name address id : String) (m : Modules)
      → is_apy_contract_name name ≡ true
      → get_chain_id network ≡ ok id
      → IsCoherent m
      → let m' = (update_one dirname network name address m).1 in
        (n i : String)
        → recorded (restart m') n i
          ≡ (if str_eq name n then recorded m' n i else recorded (restart m) n i)
  unfolding Updated
  written-update_one network name address id m known chain coherent n i =
      let updated = update_one-Updated dirname network name address id m known chain coherent in
      let path = deploys_json dirname n in
      ground (arith, updated.2 path, updated.3 path, lookup-nil {V = Json} path, same_path name n)

  pub update_deploy_jsons-cons :
      (network name address : String) (rest : Dict String) (m : Modules)
      → (update_one dirname network name address m).0 ≡ ok tt
      → update_deploy_jsons dirname network ((name, address) ∷ rest) m
        ≡ update_deploy_jsons dirname network rest (update_one dirname network name address m).1
  unfolding update_deploy_jsons
  update_deploy_jsons-cons network name address rest m e = ground arith

  -- If every name of the data is known, no name stands twice, the network is known and every object
  -- that `require` has kept comes from a file that is still there, then `updateDeployJsons` succeeds
  -- and that stays so: each contract of the data has its new address on that chain, and every other
  -- contract and chain has the address that it had. In the files, as a later process reads them, each
  -- contract of the data has the same addresses, and the others have those that they had there.
  pub update_deploy_jsons-recorded :
      (network id : String) (deploy_data : Dict String) (m : Modules)
      → AllKnown deploy_data
      → NodupKeys deploy_data
      → get_chain_id network ≡ ok id
      → IsCoherent m
      → let (r, m') = update_deploy_jsons dirname network deploy_data m in
        (r ≡ ok tt)
        × IsCoherent m'
        × ((n i : String)
            → recorded m' n i ≡ (
                if str_eq id i
                then or_else (lookup n deploy_data) (recorded m n i)
                else recorded m n i))
        × ((n i : String)
            → recorded (restart m') n i ≡ elim (lookup n deploy_data) [
              | none ↦ recorded (restart m) n i
              | some _ ↦ recorded m' n i
            ])
  unfolding or_else Updated update_deploy_jsons
  update_deploy_jsons-recorded network id [] m known nodup chain coherent = (
    refl,
    coherent,
    (λ n i. ground (arith, lookup-nil {V = String} n)),
    (λ n i. ground (arith, lookup-nil {V = String} n)),
  )
  update_deploy_jsons-recorded network id ((name, address) ∷ rest) m known nodup chain coherent =
      let m₁ = (update_one dirname network name address m).1 in
      let first = update_one-Updated dirname network name address id m known.0 chain coherent in
      let rest_done =
        update_deploy_jsons-recorded network id rest m₁ known.1 nodup.1 chain first.1 in
      rw (update_deploy_jsons-cons network name address rest m first.0) (
        rest_done.0,
        rest_done.1,
        (λ n i. ground (
          arith,
          rest_done.2 n i,
          lookup-cons n name address rest,
          eq_iff name n,
          eq_iff id i,
          recorded-update_one network name address id m known.0 chain coherent n i,
          nodup.0,
        )),
        (λ n i. ground (
          arith,
          rest_done.2 n i,
          rest_done.3 n i,
          lookup-cons n name address rest,
          eq_iff name n,
          written-update_one network name address id m known.0 chain coherent n i,
          nodup.0,
        )),
      )

  -- What `getDeployedAddress` answers for a known contract: the address of the table, or an error if
  -- the contract has no file.
  get_deployed_address-view :
      (name network id : String) (m : Modules) {json : Json}
      → is_apy_contract_name name ≡ true
      → get_chain_id network ≡ ok id
      → view (deploys_json dirname name) m ≡ some json
      → (get_deployed_address dirname name network m).0 ≡ ok (lookup id json)
  unfolding get_deployed_address
  get_deployed_address-view name network id m known chain v = ground arith

  get_deployed_address-recorded :
      (name network id : String) (m : Modules) (address : String)
      → is_apy_contract_name name ≡ true
      → get_chain_id network ≡ ok id
      → recorded m name id ≡ some address
      → (get_deployed_address dirname name network m).0 ≡ ok (some address)
  get_deployed_address-recorded name network id m address known chain written =
      elim (Option-cases (view (deploys_json dirname name) m)) [
        | inl absent ↦ cc (ap (entry id) absent, written)
        | inr (json, present) ↦
            get_deployed_address-view name network id m known chain present
            ∙ ap ok (sym (ap (entry id) present) ∙ written)
      ]

  -- After `updateDeployJsons` has written data with known, distinct names, where every object that
  -- `require` had kept came from a file that was still there, `getDeployedAddress` gives each contract
  -- of the data its new address, for every network name with the same chain id: in the same process,
  -- and in a later one, which has the files only.
  pub get_deployed_address-update_deploy_jsons :
      (network network' id : String) (deploy_data : Dict String) (m : Modules)
      (name address : String)
      → AllKnown deploy_data
      → NodupKeys deploy_data
      → get_chain_id network ≡ ok id
      → get_chain_id network' ≡ ok id
      → IsCoherent m
      → is_apy_contract_name name ≡ true
      → lookup name deploy_data ≡ some address
      → let m' = (update_deploy_jsons dirname network deploy_data m).1 in
        ((get_deployed_address dirname name network' m').0 ≡ ok (some address))
        × ((get_deployed_address dirname name network' (restart m')).0 ≡ ok (some address))
  unfolding or_else
  get_deployed_address-update_deploy_jsons network network' id deploy_data m name address all nodup
        chain chain' coherent known found =
      let m' = (update_deploy_jsons dirname network deploy_data m).1 in
      let updated =
        update_deploy_jsons-recorded network id deploy_data m all nodup chain coherent in
      let kept : recorded m' name id ≡ some address =
        ground (arith, updated.2 name id, eq_refl id) in
      let written : recorded (restart m') name id ≡ some address =
        ground (arith, updated.3 name id, kept) in
      (
        get_deployed_address-recorded name network' id m' address known chain' kept,
        get_deployed_address-recorded name network' id (restart m') address known chain' written,
      )
