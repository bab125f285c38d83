-- ===== src/Safe/Created.antt =====
-- What a script may do with the contracts that it creates: it asks the service for the transaction that
-- it has proposed last, waits for the hash that the service has given, looks up the address of the
-- creation log of the receipt, registers the address of the receipt, once, and verifies the address that
-- it has registered, or that it has created where it registers none.
use text.Mathlib.Text.{◌==◌ as str_eq}
use apy_core_public.Base.{
  String, ◌<>◌, ◌≡◌, Bool, true, false, Option, none, some, List, [], ◌∷◌, ◌++◌,
}
use apy_core_public.Script.Core.{Value, Log, Call, truthy}
use apy_core_public.Script.Monitor.{Monitor}
use apy_core_public.Safe.Receipts.{creation_topic, last_40, hash_of}

-- The hash of the proposal that was sent last, the hash that the service has given for it, the logs and
-- the contract address of its receipt, and what was registered and verified.
pub record Progress : Type 0 where
  pub sent : Option String
  pub mined : Option String
  pub logs : List Log
  pub created : Option String
  pub registered : Option String
  pub verified : Option String

pub data Kind : Type 0 where
  other deployment : Kind
  search confirmation checksum : List Value → Kind
  registration verification : List Value → Kind

abbrev pub task_kind : List Value → Kind
task_kind (Value.str task ∷ args) = elim (str_eq task "verify:verify") [
  | true ↦ Kind.verification args
  | false ↦ Kind.other
]
task_kind _ = Kind.other

abbrev pub receipt_kind : String → List Value → Kind
receipt_kind m args = elim (str_eq m "getSafeTxDetails") [
  | true ↦ Kind.search args
  | false ↦ elim (str_eq m "waitForTransaction") [
    | true ↦ Kind.confirmation args
    | false ↦ elim (str_eq m "utils.getAddress") [ true ↦ Kind.checksum args | false ↦ Kind.other ]
  ]
]

abbrev pub is_registration : String → Bool
is_registration m = elim (str_eq m "registerZap") [
  | true ↦ true
  | false ↦ elim (str_eq m "registerSwap") [
    | true ↦ true
    | false ↦ str_eq m "registerAssetAllocation"
  ]
]

abbrev pub kind : Call → Kind
kind c = elim (str_eq c.method "run") [
  | true ↦ task_kind c.args
  | false ↦ elim (str_eq c.method "deploy") [
    | true ↦ Kind.deployment
    | false ↦ elim (is_registration c.method) [
      | true ↦ Kind.registration c.args
      | false ↦ receipt_kind c.method c.args
    ]
  ]
]

-- The address that is to be verified.
abbrev pub current : Progress → Option String
current s = elim s.registered [ none ↦ truthy s.created | some a ↦ some a ]

abbrev pub first_string : List Value → Option String
first_string (Value.str a ∷ args) = some a
first_string _ = none

-- The hash of the transaction that an answer carries.
abbrev pub sent_of : Option Value → Option String
sent_of (some (Value.deployed _ t)) = some t.hash
sent_of (some (Value.transaction t)) = some t.hash
sent_of _ = none

-- The address in a creation log, before its checksum.
abbrev pub logged : Log → List Value
logged log = Value.str ("0x" <> last_40 log.contents) ∷ []

-- The logs have this one, and it is one of a creation.
abbrev pub HasCreation : List Log → Log → Type 0
HasCreation logs log =
    (before after : List Log) × (logs ≡ before ++ log ∷ after) × (log.topic ≡ creation_topic)

abbrev pub Permits : Progress → Kind → Type 0
Permits s (Kind.search args) = (h : String) × (s.sent ≡ some h) × (args ≡ Value.str h ∷ [])
Permits s (Kind.confirmation args) =
    (h : String) × (s.mined ≡ some h) × (first_string args ≡ some h)
Permits s (Kind.checksum args) = (log : Log) × HasCreation s.logs log × (args ≡ logged log)
Permits s (Kind.registration args) =
    (s.registered ≡ none) × ((a : String) × (truthy s.created ≡ some a) × (args ≡ Value.str a ∷ []))
Permits s (Kind.verification args) =
    (a : String) × (current s ≡ some a) × (first_string args ≡ some a)
Permits s _ = Unit

-- A new proposal: nothing is known of it yet.
abbrev pub proposed_by : Option Value → Progress → Progress
proposed_by o s = record s { sent = sent_of o; mined = none; logs = []; created = none }

abbrev pub advance : Progress → Kind → Option Value → Progress
advance s Kind.deployment o = proposed_by o s
advance s (Kind.search args) o = record s { mined = hash_of o }
advance s (Kind.confirmation args) (some (Value.receipt r)) = record s {
  logs = r.logs;
  created = r.contract_address;
}
advance s (Kind.checksum args) (some (Value.str a)) = record s { created = some a }
advance s (Kind.registration args) o = record (proposed_by o s) { registered = first_string args }
advance s (Kind.verification args) o = record s { verified = first_string args }
advance s _ o = s

abbrev pub created_only : Monitor Progress
created_only = record { Allows = λ s c. Permits s (kind c); next = λ s c o. advance s (kind c) o }

-- After a wait.
abbrev pub arrived : Progress → Option String → List Log → Option String → Progress
arrived s h logs a = record s { mined = h; logs = logs; created = a }

-- Nothing is sent, created, registered or verified.
abbrev pub nothing : Progress
nothing = record {
  sent = none;
  mined = none;
  logs = [];
  created = none;
  registered = none;
  verified = none;
}
