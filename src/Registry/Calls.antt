-- ===== src/Registry/Calls.antt =====
-- The calls of AddressRegistryV2. Ownable is a library of OpenZeppelin: what its modifier
-- `onlyOwner` does for a sender is a parameter. Ids are 32-byte values.
use apy_core_public.Base.{ℕ, length, ◌==◌, not, List, [], ◌∷◌, ◌++◌, if◌then◌else◌}
use apy_core_public.Base.Exec.{ok, err}
use apy_core_public.Contract.Call.{View, Call, ◌>>=◌, ◌>>◌, require, Mapping, update}
use apy_core_public.Registry.Ids.{delete_slot, has_id}

pub data Event : Type 0 where
  address_registered : ℕ → ℕ → Event
  address_deleted : ℕ → ℕ → Event

pub record Registry : Type 0 where
  pub id_list : List ℕ
  pub id_to_address : Mapping ℕ
  -- what was emitted, the last first
  pub events : List Event

abbrev pub new : Registry
new = record { id_list = []; id_to_address = λ _. 0; events = [] }

unfoldable pub get_address : ℕ → Registry → View ℕ
get_address id s =
    let address = s.id_to_address id in require (not (address == 0)) "Missing address" >> ok address

abbrev pub get_ids : Registry → List ℕ
get_ids s = s.id_list

-- The body of `registerAddress` after its checks.
unfoldable pub registered : ℕ → ℕ → Registry → Registry
registered id address s = record {
  id_list = if s.id_to_address id == 0 then s.id_list ++ (id ∷ []) else s.id_list;
  id_to_address = update id address s.id_to_address;
  events = address_registered id address ∷ s.events;
}

-- The body of `deleteAddress`: where no slot has the id, nothing happens.
unfoldable pub deleted : ℕ → Registry → Registry
deleted id s =
    if has_id id s.id_list
    then record {
      id_list = delete_slot id s.id_list;
      id_to_address = update id 0 s.id_to_address;
      events = address_deleted id (s.id_to_address id) ∷ s.events;
    }
    else s

module _ (only_owner : ℕ → View (Unit {0})) where
  unfoldable pub register_address : ℕ → ℕ → ℕ → Call Registry (Unit {0})
  register_address sender id address s =
      only_owner sender
      >> require (not (address == 0)) "Invalid address"
      >> ok (tt, registered id address s)

  -- The loop over the ids. Reading `addresses` out of its bounds reverts.
  unfoldable pub register_each : ℕ → List ℕ → List ℕ → Call Registry (Unit {0})
  register_each sender [] addresses s = ok (tt, s)
  register_each sender (id ∷ ids) [] s = err "invalid opcode"
  register_each sender (id ∷ ids) (address ∷ addresses) s =
      register_address sender id address s >>= λ r. register_each sender ids addresses r.1

  unfoldable pub register_multiple_addresses : ℕ → List ℕ → List ℕ → Call Registry (Unit {0})
  register_multiple_addresses sender ids addresses s =
      only_owner sender
      >> require (length ids == length addresses) "Inputs have differing length"
      >> register_each sender ids addresses s

  unfoldable pub delete_address : ℕ → ℕ → Call Registry (Unit {0})
  delete_address sender id s = only_owner sender >> ok (tt, deleted id s)
