-- ===== src/Contract/Access.antt =====
-- contracts/common/AccessControl.sol: the modifiers over `hasRole` of OpenZeppelin, which is an
-- argument. The contract for upgrades has the same modifiers.
use apy_core_public.Base.{ℕ, String, Bool, ◌||◌}
use apy_core_public.Contract.Call.{View, require}
use apy_core_public.Oracle.State.{
  Role, default_admin_role, emergency_role, admin_role, contract_role, lp_role,
}

-- Whether an account has a role.
abbrev pub HasRole : Type 0
HasRole = Role → ℕ → Bool

-- No modifier asks for the default admin role.
abbrev pub reason : Role → String
reason default_admin_role = ""
reason emergency_role = "NOT_EMERGENCY_ROLE"
reason admin_role = "NOT_ADMIN_ROLE"
reason contract_role = "NOT_CONTRACT_ROLE"
reason lp_role = "NOT_LP_ROLE"

module _ (has_role : HasRole) where
  abbrev pub only : Role → ℕ → View (Unit {0})
  only role sender = require (has_role role sender) (reason role)

  abbrev pub only_lp_or_contract : ℕ → View (Unit {0})
  only_lp_or_contract sender =
      require (has_role lp_role sender || has_role contract_role sender) "NOT_LP_OR_CONTRACT_ROLE"

  abbrev pub only_admin_or_contract : ℕ → View (Unit {0})
  only_admin_or_contract sender =
      require (has_role admin_role sender || has_role contract_role sender)
        "NOT_ADMIN_OR_CONTRACT_ROLE"
