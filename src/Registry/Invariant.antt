-- ===== src/Registry/Invariant.antt =====
-- What holds of the registry in every state that its calls reach.
use apy_core_public.Base.{ℕ, ◌==◌, ◌≡◌, refl, false, List, [], ◌∷◌, arith, if◌then◌else◌}
use apy_core_public.Base.Exec.{ok}
use apy_core_public.Contract.Call.{View, update}
use apy_core_public.Registry.Ids.{count, count-append, count-delete_slot}
use apy_core_public.Registry.Calls.{
  Registry, new, registered, deleted, register_address, register_each, register_multiple_addresses,
  delete_address,
}

-- An id stands in the list once where it has an address, and not at all where it has none.
unfoldable pub IsValid : Registry → Type 0
IsValid s = (id : ℕ) → count id s.id_list ≡ (if s.id_to_address id == 0 then 0 else 1)

new-IsValid : IsValid new
unfolding IsValid count
new-IsValid id = refl

registered-IsValid :
    (id address : ℕ) (s : Registry)
    → (address == 0) ≡ false
    → IsValid s
    → IsValid (registered id address s)
unfolding IsValid count registered update
registered-IsValid id address s h v j =
    ground (arith, v j, v id, count-append j s.id_list (id ∷ []))

deleted-IsValid : (id : ℕ) (s : Registry) → IsValid s → IsValid (deleted id s)
unfolding IsValid deleted update
deleted-IsValid id s v j = ground (arith, v j, v id, count-delete_slot j id s.id_list)

-- A condition on a state that the calls keep is kept by the loop over the ids.
register_each-keeps :
    (only_owner : ℕ → View (Unit {0})) (P : Registry → Type 0)
    → ((id address : ℕ) (s : Registry) → (address == 0) ≡ false → P s → P (registered id address s))
    → (sender : ℕ) (ids addresses : List ℕ) (s t : Registry)
    → register_each only_owner sender ids addresses s ≡ ok (tt, t)
    → P s
    → P t
unfolding register_each register_address
register_each-keeps only_owner P k sender [] addresses s t h p = ground arith
register_each-keeps only_owner P k sender (id ∷ ids) [] s t h p = ground arith
register_each-keeps only_owner P k sender (id ∷ ids) (address ∷ addresses) s t h p = ground (
  arith,
  register_each-keeps only_owner P k sender ids addresses (registered id address s) t,
  k id address s,
)

module _ (only_owner : ℕ → View (Unit {0})) where
  -- A transaction that succeeds.
  pub data Step : Registry → Registry → Type 0 where
    register :
        {s t : Registry} (sender id address : ℕ)
        → register_address only_owner sender id address s ≡ ok (tt, t)
        → Step s t
    register_multiple :
        {s t : Registry} (sender : ℕ) (ids addresses : List ℕ)
        → register_multiple_addresses only_owner sender ids addresses s ≡ ok (tt, t)
        → Step s t
    delete :
        {s t : Registry} (sender id : ℕ)
        → delete_address only_owner sender id s ≡ ok (tt, t)
        → Step s t

  pub data Reachable : Registry → Type 0 where
    start : Reachable new
    next : {s t : Registry} → Reachable s → Step s t → Reachable t

  register-keeps :
      (P : Registry → Type 0)
      → ((id address : ℕ) (s : Registry)
          → (address == 0) ≡ false
          → P s
          → P (registered id address s))
      → (sender id address : ℕ) (s t : Registry)
      → register_address only_owner sender id address s ≡ ok (tt, t)
      → P s
      → P t
  unfolding register_address
  register-keeps P k sender id address s t h p = ground (arith, k id address s)

  delete-keeps :
      (P : Registry → Type 0)
      → ((id : ℕ) (s : Registry) → P s → P (deleted id s))
      → (sender id : ℕ) (s t : Registry) → delete_address only_owner sender id s ≡ ok (tt, t)
      → P s
      → P t
  unfolding delete_address
  delete-keeps P k sender id s t h p = ground (arith, k id s)

  register_multiple-keeps :
      (P : Registry → Type 0)
      → ((id address : ℕ) (s : Registry)
          → (address == 0) ≡ false
          → P s
          → P (registered id address s))
      → (sender : ℕ) (ids addresses : List ℕ) (s t : Registry)
      → register_multiple_addresses only_owner sender ids addresses s ≡ ok (tt, t)
      → P s
      → P t
  unfolding register_multiple_addresses
  register_multiple-keeps P k sender ids addresses s t h p =
      ground (arith, register_each-keeps only_owner P k sender ids addresses s t)

  -- A condition that a registration and a deletion keep is kept by every transaction.
  pub step-keeps :
      (P : Registry → Type 0)
      → ((id address : ℕ) (s : Registry)
          → (address == 0) ≡ false
          → P s
          → P (registered id address s))
      → ((id : ℕ) (s : Registry) → P s → P (deleted id s))
      → {s t : Registry} → Step s t
      → P s
      → P t
  step-keeps P k l (register sender id address h) = register-keeps P k sender id address _ _ h
  step-keeps P k l (register_multiple sender ids addresses h) =
      register_multiple-keeps P k sender ids addresses _ _ h
  step-keeps P k l (delete sender id h) = delete-keeps P l sender id _ _ h

  -- In every state that the calls reach from the empty registry, by whatever senders, ids and
  -- addresses, an id stands in `_idList` exactly once where it has an address other than zero, and
  -- not at all where it has none.
  pub reachable-IsValid : {s : Registry} → Reachable s → IsValid s
  reachable-IsValid start = new-IsValid
  reachable-IsValid (next r h) =
      step-keeps IsValid registered-IsValid deleted-IsValid h (reachable-IsValid r)
