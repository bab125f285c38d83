-- ===== src/Pool/TopUp.antt =====
-- `_getReserveTopUpValue` of PoolTokenV3, and the equation that its comment derives it from.
use apy_core_public.Base.{ℕ, zero, suc, ◌+◌, ◌-◌, ◌*◌, ◌/◌, ◌%◌, ◌≡◌, ◌<◌, ◌≤◌, true, leb, arith}
use native.Mathlib.Nat.{div-add-mod, mod-lt, mul-sub, mul-le-mul_left, le_of_mul-le-mul_right}
use apy_core_public.Base.Exec.{ok}
use apy_core_public.Base.Int.{ℤ, pos, negsuc, ◌-ℤ◌, ◌/ℤ◌, +ℤ-pos}
use apy_core_public.Contract.Call.{View, ◌>>=◌, ◌>>◌, require}
use apy_core_public.Contract.Math.{SafeMath}
use apy_core_public.Contract.Signed.{SignedMath, half_mod, int256, fits_int256}
use apy_core_public.Pool.Amounts.{Reading, pool_underlyer_value}

module _ (math : SafeMath) (signed : SignedMath) where
  unfoldable pub reserve_top_up_value : Reading → ℕ → View ℤ
  reserve_top_up_value r reserve = r.deployed >>= λ deployed.
      math.mul deployed reserve >>= λ target. pool_underlyer_value math r >>= λ underlyer.
      math.mul underlyer 100 >>= λ current.
      require (leb target (half_mod - 1)) "SIGNED_INT_OVERFLOW"
      >> require (leb current (half_mod - 1)) "SIGNED_INT_OVERFLOW"
      >> signed.sub (int256 target) (int256 current)
      >>= λ difference.
          signed.add (int256 reserve) (pos 100) >>= λ total. signed.div difference total

-- The equation R_post = (rPerc / 100) * DV_post for a top-up of a pool with the value `u`, from the
-- value `d` that it deployed, up to the rounding of the division towards zero.
unfoldable pub IsRebalanced : ℕ → ℕ → ℕ → ℤ → Type 0
IsRebalanced reserve d u (pos zero) =
    (100 * u < reserve * d + (reserve + 100)) × (reserve * d < 100 * u + (reserve + 100))
IsRebalanced reserve d u (pos (suc n)) =
    (suc n ≤ d)
    × (100 * (u + suc n) ≤ reserve * (d - suc n))
    × (reserve * (d - suc n) < 100 * (u + suc n) + (reserve + 100))
IsRebalanced reserve d u (negsuc n) =
    (suc n ≤ u)
    × (reserve * (d + suc n) ≤ 100 * (u - suc n))
    × (100 * (u - suc n) < reserve * (d + suc n) + (reserve + 100))

deficit_fits :
    (reserve d u n m : ℕ) → u * 100 + (reserve + 100) * suc n + m ≡ d * reserve → suc n ≤ d
deficit_fits zero d u n m h = omega arith
deficit_fits (suc r) d u n m h =
    let covered : suc n * suc r ≤ d * suc r = omega arith in
    le_of_mul-le-mul_right covered (omega arith)

-- A deficit, whose quotient is `n` with the remainder `m`.
deficit-IsRebalanced :
    (reserve d u n m : ℕ)
    → u * 100 + (reserve + 100) * n + m ≡ d * reserve
    → m < reserve + 100
    → IsRebalanced reserve d u (pos n)
unfolding IsRebalanced
deficit-IsRebalanced reserve d u zero m h k = (omega arith, omega arith)
deficit-IsRebalanced reserve d u (suc n) m h k =
    let fits = deficit_fits reserve d u n m h in
    let parts = mul-sub reserve d (suc n) in
    let whole : reserve * suc n ≤ reserve * d = mul-le-mul_left reserve fits in
    (fits, omega (arith, parts, whole), omega (arith, parts, whole))

surplus-IsRebalanced :
    (reserve d u n m : ℕ)
    → d * reserve + (reserve + 100) * suc n + m ≡ u * 100
    → m < reserve + 100
    → IsRebalanced reserve d u (negsuc n)
unfolding IsRebalanced
surplus-IsRebalanced reserve d u n m h k = (omega arith, omega arith, omega arith)

small_surplus-IsRebalanced :
    (reserve d u m : ℕ)
    → d * reserve + m ≡ u * 100
    → m < reserve + 100
    → IsRebalanced reserve d u (pos 0)
unfolding IsRebalanced
small_surplus-IsRebalanced reserve d u m h k = (omega arith, omega arith)

quotient-IsRebalanced :
    (reserve d u : ℕ)
    → IsRebalanced reserve d u ((pos (d * reserve) -ℤ pos (u * 100)) /ℤ (reserve + 100))
unfolding ◌-ℤ◌ ◌/ℤ◌
quotient-IsRebalanced reserve d u =
    let t = reserve + 100 in
    let x = d * reserve - u * 100 in
    let y = u * 100 - d * reserve in
    ground (
      arith,
      div-add-mod x t,
      div-add-mod y t,
      mod-lt x {m = t},
      mod-lt y {m = t},
      deficit-IsRebalanced reserve d u (x / t) (x % t),
      surplus-IsRebalanced reserve d u (y / t - 1) (y % t),
      small_surplus-IsRebalanced reserve d u (y % t),
    )

int256_small : (n : ℕ) → n < half_mod → int256 n ≡ pos n
int256_small n h = ground arith

difference_fits : (a b : ℕ) → a < half_mod → b < half_mod → fits_int256 (pos a -ℤ pos b) ≡ true
unfolding ◌-ℤ◌
difference_fits a b h k = ground arith

module _ (math : SafeMath) (signed : SignedMath) where
  difference_ok :
      (a b : ℕ)
      → a < half_mod
      → b < half_mod
      → signed.sub (int256 a) (int256 b) ≡ ok (pos a -ℤ pos b)
  difference_ok a b h k = ground (
    arith,
    int256_small a h,
    int256_small b k,
    difference_fits a b h k,
    signed.sub_lem (pos a) (pos b),
  )

  total_ok :
      (reserve : ℕ)
      → reserve + 100 < half_mod
      → signed.add (int256 reserve) (pos 100) ≡ ok (pos (reserve + 100))
  total_ok reserve h =
      let fits : fits_int256 (pos (reserve + 100)) ≡ true = ground arith in
      ground (
        arith,
        int256_small reserve (omega arith),
        fits,
        +ℤ-pos reserve 100,
        signed.add_lem (pos reserve) (pos 100),
      )

  quotient_ok : (a : ℤ) (n : ℕ) → signed.div a (pos (n + 100)) ≡ ok (a /ℤ (n + 100))
  quotient_ok a n = ground (arith, signed.div_lem a (n + 99))

  -- Where the pool's deployed value is `d` and the value of its own tokens is `u`, and the products of
  -- the code fit a signed word, `_getReserveTopUpValue` gives a top-up, and it satisfies the equation
  -- of its comment up to rounding: after a top-up by `n` the hundredfold value of the pool is at most
  -- the reserve percentage times what stays deployed, and less than one unit of the divisor below it;
  -- after a negative one the same with the sides exchanged; and a zero stands for a difference that is
  -- less than the divisor. No top-up is more than what is deployed, no excess more than the pool has.
  pub reserve_top_up_value-IsRebalanced :
      (r : Reading) (reserve d u : ℕ)
      → r.deployed ≡ ok d
      → pool_underlyer_value math r ≡ ok u
      → d * reserve < half_mod
      → u * 100 < half_mod
      → reserve + 100 < half_mod
      → (t : ℤ) × (reserve_top_up_value math signed r reserve ≡ ok t) × IsRebalanced reserve d u t
  unfolding reserve_top_up_value
  reserve_top_up_value-IsRebalanced r reserve d u hd hu h k l =
      let t = (pos (d * reserve) -ℤ pos (u * 100)) /ℤ (reserve + 100) in
      (
        t,
        ground (
          arith,
          math.mul_lem d reserve,
          math.mul_lem u 100,
          difference_ok (d * reserve) (u * 100) h k,
          total_ok reserve l,
          quotient_ok (pos (d * reserve) -ℤ pos (u * 100)) reserve,
        ),
        quotient-IsRebalanced reserve d u,
      )
