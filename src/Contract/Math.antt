-- ===== src/Contract/Math.antt =====
-- SafeMath of OpenZeppelin, which is not part of the repository: an interface with its documented
-- behaviour. A result that does not fit 256 bits, a negative one and a division by zero revert.
use apy_core_public.Base.{
  ℕ, ◌+◌, ◌-◌, ◌*◌, ◌/◌, ◌^◌, ◌≤◌, ◌<◌, ◌≡◌, refl, ◌⊎◌, inl, inr, String, Bool, true, false, ltb,
  leb, arith,
}
use apy_core_public.Base.Exec.{ok, err}
use apy_core_public.Contract.Call.{View}

abbrev pub word_mod : ℕ
word_mod = 2 ^ 256

-- An operation gives its value where the condition holds, and reverts where it does not.
abbrev pub Checks : View ℕ → ℕ → Type 0 → Type 0 → Type 0
Checks r value fits fails = ((r ≡ ok value) × fits) ⊎ (((e : String) × (r ≡ err e)) × fails)

pub record SafeMath : Type 0 where
  pub add : ℕ → ℕ → View ℕ
  pub sub : ℕ → ℕ → View ℕ
  pub mul : ℕ → ℕ → View ℕ
  pub div : ℕ → ℕ → View ℕ
  pub add_lem : (a b : ℕ) → Checks (add a b) (a + b) (a + b < word_mod) (word_mod ≤ a + b)
  pub sub_lem : (a b : ℕ) → Checks (sub a b) (a - b) (b ≤ a) (a < b)
  pub mul_lem : (a b : ℕ) → Checks (mul a b) (a * b) (a * b < word_mod) (word_mod ≤ a * b)
  pub div_lem : (a b : ℕ) → Checks (div a b) (a / b) (0 < b) (b ≡ 0)

-- The functions that the documentation describes.
unfoldable pub check : Bool → ℕ → String → View ℕ
check true value reason = ok value
check false value reason = err reason

check_lem :
    (b : Bool) (value : ℕ) (reason : String) (P Q : Type 0)
    → (b ≡ true → P)
    → (b ≡ false → Q)
    → Checks (check b value reason) value P Q
unfolding check
check_lem true value reason P Q h k = inl (refl, h refl)
check_lem false value reason P Q h k = inr ((reason, refl), k refl)

pub ltb_checks :
    (a b value : ℕ) (reason : String) → Checks (check (ltb a b) value reason) value (a < b) (b ≤ a)
ltb_checks a b value reason = check_lem _ _ _ _ _ (λ h. ground arith) (λ h. ground arith)

pub leb_checks :
    (a b value : ℕ) (reason : String) → Checks (check (leb a b) value reason) value (a ≤ b) (b < a)
leb_checks a b value reason = check_lem _ _ _ _ _ (λ h. ground arith) (λ h. ground arith)

pub positive_checks :
    (b value : ℕ) (reason : String) → Checks (check (ltb 0 b) value reason) value (0 < b) (b ≡ 0)
positive_checks b value reason = check_lem _ _ _ _ _ (λ h. ground arith) (λ h. ground arith)

unfoldable pub safe_math : SafeMath
safe_math = record {
  add = λ a b. check (ltb (a + b) word_mod) (a + b) "SafeMath: addition overflow";
  sub = λ a b. check (leb b a) (a - b) "SafeMath: subtraction overflow";
  mul = λ a b. check (ltb (a * b) word_mod) (a * b) "SafeMath: multiplication overflow";
  div = λ a b. check (ltb 0 b) (a / b) "SafeMath: division by zero";
  add_lem = λ a b. ltb_checks _ _ _ _;
  sub_lem = λ a b. leb_checks _ _ _ _;
  mul_lem = λ a b. ltb_checks _ _ _ _;
  div_lem = λ a b. positive_checks _ _ _;
}
