-- ===== src/Address/Stored.antt =====
-- The address files as a table of addresses by contract and chain: `updateDeployJsons` writes its
-- entries into the table, and `getDeployedAddress` reads it, whatever `require` has kept.
use text.Mathlib.Text.{◌==◌ as str_eq}
use text.Mathlib.TextEquality.{eq_iff}
use apy_core_public.Base.{
  String, ◌≡◌, refl, inl, inr, true, Option, none, some, Option-cases, [], arith, if◌then◌else◌,
}
use apy_core_public.Base.Dict.{lookup, insert, lookup-insert}
use apy_core_public.Base.Exec.{Result, ok}
use apy_core_public.Address.Registry.{
  Error, Json, Modules, is_apy_contract_name, get_chain_id, deploys_json, update_one,
}

-- The object that `require(path)` gives.
abbrev pub view : String → Modules → Option Json
view path m = elim (lookup path m.cache) [ none ↦ lookup path m.files | some json ↦ some json ]

-- Every object that `require` has kept comes from a file that is still there.
abbrev pub IsCoherent : Modules → Type 0
IsCoherent m = (path : String) → lookup path m.files ≡ none → lookup path m.cache ≡ none

abbrev pub or_empty : Option Json → Json
or_empty none = []
or_empty (some json) = json

module _ (dirname network name address id : String) (m : Modules)
    (known : is_apy_contract_name name ≡ true) (chain : get_chain_id network ≡ ok id)
    (coherent : IsCoherent m) where
  abbrev path : String
  path = deploys_json dirname name

  new_file :
      lookup path m.files ≡ none
      → update_one dirname network name address m
        ≡ (ok tt, record m { files = insert path (insert id address []) m.files })
  unfolding update_one
  new_file hf = ground arith

  kept_object :
      (old json : Json)
      → lookup path m.files ≡ some old
      → lookup path m.cache ≡ some json
      → update_one dirname network name address m ≡ (
        ok tt,
        record {
          files = insert path (insert id address json) m.files;
          cache = insert path (insert id address json) m.cache;
        },
      )
  unfolding update_one
  kept_object old json hf hc = ground arith

  read_file :
      (json : Json)
      → lookup path m.files ≡ some json
      → lookup path m.cache ≡ none
      → update_one dirname network name address m ≡ (
        ok tt,
        record {
          files = insert path (insert id address json) m.files;
          cache = insert path (insert id address json) (insert path json m.cache);
        },
      )
  unfolding update_one
  read_file json hf hc = ground arith

  -- What a step of the loop leaves: it succeeds, it stays coherent, and the object of every path and
  -- the file of every path are the old ones, but for the path of the contract, where both are the
  -- object with the new address.
  unfoldable pub Updated : Result Error (Unit {0}) × Modules → Type 0
  Updated (r, m') =
      (r ≡ ok tt)
      × IsCoherent m'
      × ((p : String)
          → view p m' ≡ (
              if str_eq path p
              then some (insert id address (or_empty (view path m)))
              else view p m))
      × ((p : String)
          → lookup p m'.files ≡ (
              if str_eq path p
              then some (insert id address (or_empty (view path m)))
              else lookup p m.files))

  pub update_one-Updated : Updated (update_one dirname network name address m)
  unfolding Updated
  update_one-Updated = elim (Option-cases (lookup path m.files)) [
    | inl hf ↦
        let hc = coherent path hf in
        rw (new_file hf) (
          refl,
          (λ p. ground (arith, lookup-insert path p (insert id address []) m.files, coherent p)),
          (λ p. ground (arith, lookup-insert path p (insert id address []) m.files, eq_iff path p)),
          (λ p. ground (arith, lookup-insert path p (insert id address []) m.files)),
        )
    | inr (old, hf) ↦ elim (Option-cases (lookup path m.cache)) [
      | inl hc ↦
          let J = insert id address old in
          rw (read_file old hf hc) (
            refl,
            (λ p. ground (
              arith,
              lookup-insert path p J m.files,
              lookup-insert path p J (insert path old m.cache),
              lookup-insert path p old m.cache,
              coherent p,
            )),
            (λ p. ground (
              arith,
              lookup-insert path p J m.files,
              lookup-insert path p J (insert path old m.cache),
              lookup-insert path p old m.cache,
              eq_iff path p,
            )),
            (λ p. ground (arith, lookup-insert path p J m.files)),
          )
      | inr (json, hc) ↦
          let J = insert id address json in
          rw (kept_object old json hf hc) (
            refl,
            (λ p. ground (
              arith,
              lookup-insert path p J m.files,
              lookup-insert path p J m.cache,
              coherent p,
            )),
            (λ p. ground (
              arith,
              lookup-insert path p J m.files,
              lookup-insert path p J m.cache,
              eq_iff path p,
            )),
            (λ p. ground (arith, lookup-insert path p J m.files)),
          )
    ]
  ]
