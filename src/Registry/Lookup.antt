-- ===== src/Registry/Lookup.antt =====
-- What a caller of `getAddress` and `getIds` sees after the other calls.
use apy_core_public.Base.{
  ℕ, length, ◌==◌, ◌≡◌, refl, ◌↔◌, Bool, true, not, ◌&&◌, List, [], ◌∷◌, arith, if◌then◌else◌,
}
use apy_core_public.Base.Exec.{ok, err}
use apy_core_public.Contract.Call.{View, update, assigned}
use apy_core_public.Registry.Ids.{has_id-false}
use apy_core_public.Registry.Calls.{
  Registry, get_address, registered, deleted, register_address, register_each,
  register_multiple_addresses, delete_address,
}
use apy_core_public.Registry.Invariant.{IsValid, Reachable, reachable-IsValid}

unfoldable pub all_nonzero : List ℕ → Bool
all_nonzero [] = true
all_nonzero (address ∷ addresses) = not (address == 0) && all_nonzero addresses

deleted_lem :
    (id j : ℕ) (s : Registry)
    → IsValid s
    → (deleted id s).id_to_address j ≡ update id 0 s.id_to_address j
unfolding IsValid deleted update
deleted_lem id j s v = ground (arith, v id, has_id-false id s.id_list)

-- The loop of `registerMultipleAddresses` succeeds where the lists are as long as each other and no
-- address is zero.
each-assigned :
    (only_owner : ℕ → View (Unit {0})) (sender : ℕ) (ids addresses : List ℕ) (s t : Registry)
    → register_each only_owner sender ids addresses s ≡ ok (tt, t)
    → (j : ℕ) → t.id_to_address j ≡ assigned ids addresses s.id_to_address j
unfolding register_each register_address registered assigned
each-assigned only_owner sender [] addresses s t h j = ground arith
each-assigned only_owner sender (id ∷ ids) [] s t h j = ground arith
each-assigned only_owner sender (id ∷ ids) (address ∷ addresses) s t h j = ground (
  arith,
  λ (e : register_each only_owner sender ids addresses (registered id address s) ≡ ok (tt, t)).
      each-assigned only_owner sender ids addresses (registered id address s) t e j,
)

module _ (only_owner : ℕ → View (Unit {0})) where
  -- After a call `deleteAddress(id)` that succeeds in a reachable state, `getAddress` reverts with
  -- "Missing address" for that id, and for every other id it does what it did.
  pub get_address-delete_address :
      (sender id j : ℕ) (s t : Registry)
      → Reachable only_owner s
      → delete_address only_owner sender id s ≡ ok (tt, t)
      → get_address j t ≡ (if j == id then err "Missing address" else get_address j s)
  unfolding delete_address get_address update
  get_address-delete_address sender id j s t r h =
      ground (arith, deleted_lem id j s (reachable-IsValid only_owner r))

  each_ok :
      (sender : ℕ) (ids addresses : List ℕ) (s : Registry)
      → only_owner sender ≡ ok tt
      → length ids ≡ length addresses
      → all_nonzero addresses ≡ true
      → (t : Registry) × (register_each only_owner sender ids addresses s ≡ ok (tt, t))
  unfolding register_each register_address all_nonzero
  each_ok sender [] [] s h l n = (s, refl)
  each_ok sender [] (address ∷ addresses) s h l n = ground arith
  each_ok sender (id ∷ ids) [] s h l n = ground arith
  each_ok sender (id ∷ ids) (address ∷ addresses) s h l n =
      let t =
        each_ok sender ids addresses (registered id address s) h (ground arith) (ground arith) in
      (t.0, ground (arith, t.1))

  each_nonzero :
      (sender : ℕ) (ids addresses : List ℕ) (s t : Registry)
      → register_each only_owner sender ids addresses s ≡ ok (tt, t)
      → length ids ≡ length addresses
      → all_nonzero addresses ≡ true
  unfolding register_each register_address all_nonzero
  each_nonzero sender [] [] s t h l = refl
  each_nonzero sender [] (address ∷ addresses) s t h l = ground arith
  each_nonzero sender (id ∷ ids) [] s t h l = ground arith
  each_nonzero sender (id ∷ ids) (address ∷ addresses) s t h l =
      ground (arith, each_nonzero sender ids addresses (registered id address s) t)

  -- `registerMultipleAddresses` succeeds where, and only where, the sender passes `onlyOwner`, the
  -- two lists are as long as each other and no address is zero.
  pub register_multiple_addresses-succeeds :
      (sender : ℕ) (ids addresses : List ℕ) (s : Registry)
      → ((t : Registry) × (register_multiple_addresses only_owner sender ids addresses s
            ≡ ok (tt, t)))
        ↔ ((only_owner sender ≡ ok tt)
            × (length ids ≡ length addresses)
            × (all_nonzero addresses ≡ true))
  unfolding register_multiple_addresses
  register_multiple_addresses-succeeds sender ids addresses s = (
    (λ e. ground (arith, e.1, each_nonzero sender ids addresses s e.0)),
    λ c. let t = each_ok sender ids addresses s c.0 c.1 c.2 in (t.0, ground (arith, t.1)),
  )

  -- After a call `registerMultipleAddresses` that succeeds, the address of an id is the one at its
  -- last place in the lists, or the one it had where the list has not the id: `getAddress` gives it,
  -- and reverts with "Missing address" where it is zero.
  pub get_address-register_multiple_addresses :
      (sender : ℕ) (ids addresses : List ℕ) (s t : Registry)
      → register_multiple_addresses only_owner sender ids addresses s ≡ ok (tt, t)
      → (j : ℕ)
      → get_address j t ≡ (
          let address = assigned ids addresses s.id_to_address j in
          if address == 0 then err "Missing address" else ok address)
  unfolding register_multiple_addresses get_address
  get_address-register_multiple_addresses sender ids addresses s t h j = ground (
    arith,
    λ (e : register_each only_owner sender ids addresses s ≡ ok (tt, t)).
        each-assigned only_owner sender ids addresses s t e j,
  )
