-- ===== src/Script/Sample.antt =====
-- A world for the tests: every call is answered, by its method only.
use apy_core_public.Base.{Option, none, some, [], ◌∷◌}
use apy_core_public.Base.Dict.{Dict, lookup}
use apy_core_public.Script.Core.{Value, Tx, Receipt, Env, World}

abbrev pub sample_tx : Tx
sample_tx = record { hash = "0x11"; to = some "0xc0" }

abbrev pub sample_receipt : Receipt
sample_receipt = record { contract_address = some "0xca"; logs = [] }

-- The answers that are not `undefined`.
abbrev pub sample_answers : Dict Value
sample_answers =
    ("getSigners", Value.signer "0xd")
    ∷ ("Wallet", Value.signer "0xe")
    ∷ ("connect", Value.signer "0xf")
    ∷ ("getFeeData", Value.fees 100 2)
    ∷ ("deploy", Value.deployed "0xca" sample_tx)
    ∷ ("initialize", Value.transaction sample_tx)
    ∷ ("upgrade", Value.transaction sample_tx)
    ∷ ("registerZap", Value.transaction sample_tx)
    ∷ ("registerSwap", Value.transaction sample_tx)
    ∷ ("registerAssetAllocation", Value.transaction sample_tx)
    ∷ ("getAssetAllocation", Value.str "0x3c")
    ∷ ("question", Value.str "y")
    ∷ ("utils.getAddress", Value.str "0xCa")
    ∷ ("getSafeTxDetails", Value.details (some "0x22"))
    ∷ ("waitForTransaction", Value.receipt sample_receipt)
    ∷ []

abbrev pub or_undefined : Option Value → Value
or_undefined none = Value.undefined
or_undefined (some v) = v

unfoldable pub sample_world : World
sample_world [] = none
sample_world (c ∷ h) = some (or_undefined (lookup c.method sample_answers))

abbrev pub sample_env : Env
sample_env = record {
  network_name = "mainnet";
  variables = ("SAFE_OWNER_KEY", "0x01") ∷ ("TOKEN_MNEMONIC", "a b c") ∷ [];
}
