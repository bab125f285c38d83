-- ===== src/Registry/Tests.antt =====
-- The registry at concrete calls.
use apy_core_public.Base.{ℕ, ◌==◌, ◌≡◌, refl, [], ◌∷◌}
use apy_core_public.Base.Exec.{ok, err}
use apy_core_public.Contract.Call.{View, require, update}
use apy_core_public.Registry.Ids.{has_id, delete_slot}
use apy_core_public.Registry.Calls.{
  Registry, new, get_address, get_ids, registered, deleted, register_address, register_each,
  register_multiple_addresses, delete_address,
}
use apy_core_public.Registry.Invariant.{
  IsValid, register_multiple, delete, Reachable, start, next, reachable-IsValid,
}
use apy_core_public.Registry.Lookup.{get_address-delete_address}
use apy_core_public.Registry.Events.{IsLogged, reachable-IsLogged}

-- The sender 7 is the owner.
abbrev owner_7 : ℕ → View (Unit {0})
owner_7 sender = require (sender == 7) "Ownable: caller is not the owner"

-- The ids 1, 2 and 3 get addresses, and the first gets another one.
abbrev three : Registry
three = registered 1 14 (registered 3 13 (registered 2 12 (registered 1 11 new)))

three_lem :
    register_multiple_addresses owner_7 7 (1 ∷ 2 ∷ 3 ∷ 1 ∷ []) (11 ∷ 12 ∷ 13 ∷ 14 ∷ []) new
    ≡ ok (tt, three)
unfolding register_multiple_addresses register_each register_address
three_lem = refl

three-reachable : Reachable owner_7 three
three-reachable =
    next start (register_multiple 7 (1 ∷ 2 ∷ 3 ∷ 1 ∷ []) (11 ∷ 12 ∷ 13 ∷ 14 ∷ []) three_lem)

three_ids : get_ids three ≡ 1 ∷ 2 ∷ 3 ∷ []
unfolding registered update
three_ids = refl

not_owner : register_address owner_7 8 1 11 new ≡ err "Ownable: caller is not the owner"
unfolding register_address
not_owner = refl

no_second_address :
    register_multiple_addresses owner_7 7 (1 ∷ 2 ∷ []) (11 ∷ 0 ∷ []) new ≡ err "Invalid address"
unfolding register_multiple_addresses register_each register_address
no_second_address = refl

delete_first : delete_address owner_7 7 1 three ≡ ok (tt, deleted 1 three)
unfolding delete_address
delete_first = refl

-- The last id takes the place of the first.
deleted_ids : get_ids (deleted 1 three) ≡ 3 ∷ 2 ∷ []
unfolding deleted has_id delete_slot registered update
deleted_ids = refl

reachable-IsValid_example : IsValid (deleted 1 three)
reachable-IsValid_example =
    reachable-IsValid owner_7 (next three-reachable (delete 7 1 delete_first))

get_address-delete_address_example : get_address 1 (deleted 1 three) ≡ err "Missing address"
get_address-delete_address_example =
    get_address-delete_address owner_7 7 1 1 three (deleted 1 three) three-reachable delete_first

reachable-IsLogged_example : IsLogged (deleted 1 three)
reachable-IsLogged_example =
    reachable-IsLogged owner_7 (next three-reachable (delete 7 1 delete_first))
