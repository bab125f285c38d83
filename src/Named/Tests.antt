-- ===== src/Named/Tests.antt =====
-- Named sets at concrete calls.
use text.Mathlib.Text.{◌==◌ as str_eq}
use apy_core_public.Base.{
  ℕ, ◌==◌, ◌≡◌, refl, String, true, false, List, [], ◌∷◌, if◌then◌else◌, ltb, ◌↔◌,
}
use apy_core_public.Base.Exec.{ok, err}
use apy_core_public.Contract.Enumerable.{listed, distinct}
use apy_core_public.Registry.Ids.{has_id}
use apy_core_public.Named.Calls.{
  Set, Named, write, empty, add, remove, contains, get, each_name, names,
}
use apy_core_public.Named.Invariant.{
  IsConsistent, Reachable, start, next, adds, reachable-IsConsistent,
}
use apy_core_public.Named.Listing.{count_name, Same, names-get, remove-add, add-succeeds}

-- The contracts 1, 2 and 3: the first two have names, and the third one has none.
abbrev pub three_contracts : Named
three_contracts = record {
  is_contract = λ a. if a == 0 then false else ltb a 4;
  name_of = λ a. ok (if a == 1 then "aave" else if a == 2 then "curve" else "");
}

abbrev one_zap : Set (List ℕ)
one_zap = record { named_addresses = 1 ∷ []; name_lookup = write "aave" 1 (λ _. 0) }

abbrev two_zaps : Set (List ℕ)
two_zaps = record {
  named_addresses = 2 ∷ 1 ∷ [];
  name_lookup = write "curve" 2 (write "aave" 1 (λ _. 0));
}

add_first : add listed three_contracts 1 (empty listed) ≡ ok (tt, one_zap)
unfolding add listed has_id
add_first = refl

add_second : add listed three_contracts 2 one_zap ≡ ok (tt, two_zaps)
unfolding add listed has_id
add_second = refl

add_third : add listed three_contracts 3 one_zap ≡ err "INVALID_NAME"
unfolding add listed has_id
add_third = refl

add_again : add listed three_contracts 1 one_zap ≡ err "DUPLICATE_ADDRESS"
unfolding add listed has_id
add_again = refl

add_account : add listed three_contracts 4 one_zap ≡ err "INVALID_ADDRESS"
unfolding add listed has_id
add_account = refl

remove_unknown : remove listed "curve" one_zap ≡ err "INVALID_NAME"
unfolding remove
remove_unknown = refl

zap_names : names listed three_contracts two_zaps ≡ ok ("curve" ∷ "aave" ∷ [])
unfolding listed distinct has_id each_name
zap_names = refl

two-Reachable : Reachable listed three_contracts two_zaps
two-Reachable = next (next start (adds 1 add_first)) (adds 2 add_second)

reachable-IsConsistent_example : IsConsistent listed three_contracts two_zaps
reachable-IsConsistent_example = reachable-IsConsistent listed three_contracts refl two-Reachable

names-get_example :
    (ns : List String) × (names listed three_contracts two_zaps ≡ ok ns)
    × ((n : String) → count_name n ns ≡ (if get listed n two_zaps == 0 then 0 else 1))
names-get_example = names-get listed three_contracts refl two-Reachable

remove-add_example :
    (get listed "curve" two_zaps ≡ 2)
    × (contains listed 2 two_zaps ≡ true)
    × ((u : Set (List ℕ)) × (remove listed "curve" two_zaps ≡ ok (tt, u))
        × Same listed three_contracts one_zap u)
remove-add_example =
    remove-add listed three_contracts 2 "curve" one_zap two_zaps refl add_second refl

add-succeeds_example :
    ((t : Set (List ℕ)) × (add listed three_contracts 3 one_zap ≡ ok (tt, t))) ↔ (
      (three_contracts.is_contract 3 ≡ true)
      × (contains listed 3 one_zap ≡ false)
      × ((n : String) × (three_contracts.name_of 3 ≡ ok n)
          × (str_eq n "" ≡ false)
          × (get listed n one_zap ≡ 0)))
add-succeeds_example = add-succeeds listed three_contracts 3 one_zap
