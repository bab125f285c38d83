-- ===== src/Registry/Events.antt =====
-- The events of the registry, which is what an indexer off the chain reads of it.
use apy_core_public.Base.{ℕ, ◌==◌, ◌≡◌, refl, false, List, [], ◌∷◌, arith}
use apy_core_public.Contract.Call.{View, Mapping, update}
use apy_core_public.Registry.Calls.{
  Event, address_registered, address_deleted, Registry, registered, deleted,
}
use apy_core_public.Registry.Invariant.{Reachable, start, next, step-keeps}

-- The addresses by id that a reader of the events keeps: the last event comes first.
unfoldable pub replay : List Event → Mapping ℕ
replay [] id = 0
replay (address_registered id address ∷ events) j = update id address (replay events) j
replay (address_deleted id address ∷ events) j = update id 0 (replay events) j

-- The state is the one that its events tell.
unfoldable pub IsLogged : Registry → Type 0
IsLogged s = (id : ℕ) → s.id_to_address id ≡ replay s.events id

registered-IsLogged :
    (id address : ℕ) (s : Registry)
    → (address == 0) ≡ false
    → IsLogged s
    → IsLogged (registered id address s)
unfolding IsLogged replay registered update
registered-IsLogged id address s h v j = ground (arith, v j)

deleted-IsLogged : (id : ℕ) (s : Registry) → IsLogged s → IsLogged (deleted id s)
unfolding IsLogged replay deleted update
deleted-IsLogged id s v j = ground (arith, v j)

module _ (only_owner : ℕ → View (Unit {0})) where
  -- In every state that the calls reach, the addresses by id are the ones that the events
  -- `AddressRegistered` and `AddressDeleted` tell: those of the calls, in their order.
  pub reachable-IsLogged : {s : Registry} → Reachable only_owner s → IsLogged s
  unfolding IsLogged replay
  reachable-IsLogged start = λ id. refl
  reachable-IsLogged (next r h) =
      step-keeps only_owner IsLogged registered-IsLogged deleted-IsLogged h (reachable-IsLogged r)
