-- ===== src/Contract/Signed.antt =====
-- SignedSafeMath of OpenZeppelin, which is not part of the repository: an interface with its
-- documented behaviour, for divisors that are not negative.
use apy_core_public.Base.{
  ℕ, zero, suc, if◌then◌else◌, ◌⊎◌, inl, inr, ◌-◌, ◌≡◌, ◌^◌, refl, Bool, true, false, ltb, String,
}
use apy_core_public.Base.Exec.{ok, err}
use apy_core_public.Base.Int.{ℤ, pos, negsuc, ◌+ℤ◌, ◌-ℤ◌, ◌*ℤ◌, ◌/ℤ◌}
use apy_core_public.Contract.Call.{View}
use apy_core_public.Contract.Math.{word_mod}

-- One more than the greatest `int256`.
abbrev pub half_mod : ℕ
half_mod = 2 ^ 255

abbrev pub fits_int256 : ℤ → Bool
fits_int256 (pos n) = ltb n half_mod
fits_int256 (negsuc n) = ltb n half_mod

-- The cast `int256(n)` of a `uint256`.
abbrev pub int256 : ℕ → ℤ
int256 n = if ltb n half_mod then pos n else negsuc (word_mod - n - 1)

-- An operation gives its value where it fits, and reverts where it does not.
abbrev pub IntChecks : View ℤ → ℤ → Type 0
IntChecks r value =
    ((r ≡ ok value) × (fits_int256 value ≡ true))
    ⊎ (((e : String) × (r ≡ err e)) × (fits_int256 value ≡ false))

pub record SignedMath : Type 0 where
  pub add : ℤ → ℤ → View ℤ
  pub sub : ℤ → ℤ → View ℤ
  pub mul : ℤ → ℤ → View ℤ
  pub div : ℤ → ℤ → View ℤ
  pub add_lem : (a b : ℤ) → IntChecks (add a b) (a +ℤ b)
  pub sub_lem : (a b : ℤ) → IntChecks (sub a b) (a -ℤ b)
  pub mul_lem : (a b : ℤ) → IntChecks (mul a b) (a *ℤ b)
  pub div_zero : (a : ℤ) → (e : String) × (div a (pos 0) ≡ err e)
  pub div_lem : (a : ℤ) (n : ℕ) → div a (pos (suc n)) ≡ ok (a /ℤ suc n)

-- The functions that the documentation describes.
unfoldable pub check_int : Bool → ℤ → String → View ℤ
check_int true value reason = ok value
check_int false value reason = err reason

pub check_int_lem :
    (b : Bool) (value : ℤ) (reason : String)
    → ((check_int b value reason ≡ ok value) × (b ≡ true))
      ⊎ (((e : String) × (check_int b value reason ≡ err e)) × (b ≡ false))
unfolding check_int
check_int_lem true value reason = inl (refl, refl)
check_int_lem false value reason = inr ((reason, refl), refl)

-- The quotient, which truncates.
unfoldable pub div_int : ℤ → ℤ → View ℤ
div_int a (pos zero) = err "SignedSafeMath: division by zero"
div_int a (pos (suc n)) = ok (a /ℤ suc n)
div_int a (negsuc n) =
    let q = pos 0 -ℤ (a /ℤ suc n) in check_int (fits_int256 q) q "SignedSafeMath: division overflow"

pub div_int_lem : (a : ℤ) (n : ℕ) → div_int a (pos (suc n)) ≡ ok (a /ℤ suc n)
unfolding div_int
div_int_lem a n = refl

pub div_int_zero : (a : ℤ) → (e : String) × (div_int a (pos 0) ≡ err e)
unfolding div_int
div_int_zero a = ("SignedSafeMath: division by zero", refl)

unfoldable pub signed_math : SignedMath
signed_math = record {
  add = λ a b. check_int (fits_int256 (a +ℤ b)) (a +ℤ b) "SignedSafeMath: addition overflow";
  sub = λ a b. check_int (fits_int256 (a -ℤ b)) (a -ℤ b) "SignedSafeMath: subtraction overflow";
  mul = λ a b. check_int (fits_int256 (a *ℤ b)) (a *ℤ b) "SignedSafeMath: multiplication overflow";
  div = div_int;
  add_lem = λ a b. check_int_lem _ _ _;
  sub_lem = λ a b. check_int_lem _ _ _;
  mul_lem = λ a b. check_int_lem _ _ _;
  div_zero = div_int_zero;
  div_lem = div_int_lem;
}
