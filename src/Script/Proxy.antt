-- ===== src/Script/Proxy.antt =====
-- utils/helpers/proxy.js: the addresses that a proxy keeps in the slots of EIP-1967.
use apy_core_public.Base.{◌-◌, String, [], ◌∷◌}
use apy_core_public.Script.Core.{Value, Script, done, ◌>>=◌, invoke, as_string}
use apy_core_public.Script.Common.{contract_at}
use apy_core_public.Safe.Signers.{ethers, provider}
use apy_core_public.Base.Texts.{count_chars, drop_chars}

-- `LOGIC_SLOT` and `ADMIN_SLOT`
abbrev pub logic_slot : String
logic_slot = "0x360894a13ba1a3210667c828492db98dca3e2076cc3735a920a3ca505d382bbc"

abbrev pub admin_slot : String
admin_slot = "0xb53127684a568b3173ae13b9f8a6016e243e63b6e8ee1178d6a717850b5d6103"

-- `s.slice(-40)`: the last 40 characters, all of a text that is shorter than that.
unfoldable pub slice_40 : String → String
slice_40 s = drop_chars (count_chars s - 40) s

-- The address in a slot.
unfoldable pub address_in : String → String → Script String
address_in slot proxy_address = do
  stored ← invoke provider "getStorageAt" (Value.str proxy_address ∷ Value.str slot ∷ [])
  text ← as_string stored
  address ← invoke ethers "utils.getAddress" (Value.str (slice_40 text) ∷ [])
  as_string address

-- `getLogicAddress` and `getProxyAdminAddress`
unfoldable pub get_logic_address : String → Script String
get_logic_address proxy_address = address_in logic_slot proxy_address

unfoldable pub get_proxy_admin_address : String → Script String
get_proxy_admin_address proxy_address = address_in admin_slot proxy_address

-- `getEip1967Addresses`
unfoldable pub get_eip1967_addresses : String → Script (String × String)
get_eip1967_addresses proxy_address = do
  logic ← get_logic_address proxy_address
  admin ← get_proxy_admin_address proxy_address
  done (logic, admin)

-- `getProxyAdmin`
unfoldable pub get_proxy_admin : String → Script Value
get_proxy_admin proxy_address = do
  admin ← get_proxy_admin_address proxy_address
  contract_at "ProxyAdmin" admin

-- `getLogicContract`
unfoldable pub get_logic_contract : String → String → Script Value
get_logic_contract proxy_address name_or_abi = do
  logic ← get_logic_address proxy_address
  contract_at name_or_abi logic
