-- ===== src/LpAccount/Bounds.antt =====
-- The fees that are due after a claim, and what they leave of the gain.
use native.Mathlib.Nat.{div-add-mod, mod-lt}
use apy_core_public.Base.{ℕ, ◌+◌, ◌-◌, ◌*◌, ◌<◌, ◌≤◌, ◌≡◌, ◌↔◌, List, [], ◌∷◌, arith}
use apy_core_public.Base.Exec.{ok}
use apy_core_public.Contract.Call.{of_ok, Mapping}
use apy_core_public.Contract.Math.{SafeMath, word_mod}
use apy_core_public.Contract.Enumerable.{EnumerableSet}
use apy_core_public.LpAccount.State.{Outside}
use apy_core_public.LpAccount.Fees.{fee_of, fees_of}

-- The fee is the rate's share of the gain in basis points, rounded down.
abbrev pub IsFee : ℕ → ℕ → ℕ → ℕ → Type 0
IsFee rate before after fee =
    (before ≤ after)
    × (fee * 10000 ≤ (after - before) * rate)
    × ((after - before) * rate < fee * 10000 + 10000)

-- For every token, by its rate and its balances before and after.
abbrev pub AreFees : Mapping ℕ → List ℕ → List ℕ → List ℕ → List ℕ → Type 0
AreFees rates [] before after [] = Unit
AreFees rates (token ∷ tokens) (b ∷ before) (a ∷ after) (fee ∷ fees) =
    IsFee (rates token) b a fee × AreFees rates tokens before after fees
AreFees rates tokens before after fees = ⊥

module _ {S W : Type 0} (sets : EnumerableSet S) (o : Outside S W) (math : SafeMath) where
  -- The fee on a gain is given exactly where the balance has not fallen and the product with the
  -- rate fits a word, and it is then the only number of which the product is 10000 times, up to a
  -- remainder below 10000.
  pub fee_of-IsFee :
      (rate before after fee : ℕ)
      → (fee_of sets o math rate before after ≡ ok fee)
        ↔ (IsFee rate before after fee × ((after - before) * rate < word_mod))
  unfolding fee_of
  fee_of-IsFee rate before after fee =
      let product = (after - before) * rate in
      let sub = math.sub_lem after before in
      let mul = math.mul_lem (after - before) rate in
      let div = math.div_lem product 10000 in
      let whole = div-add-mod product 10000 in
      let rest = mod-lt product {m = 10000} in
      (
        λ h. (ground (arith, sub, mul, div, whole, rest), ground (arith, sub, mul, div)),
        λ h. ground (arith, sub, mul, div, whole, rest),
      )

  pub fees_of-AreFees :
      (rates : Mapping ℕ) (tokens before after fees : List ℕ)
      → fees_of sets o math rates tokens before after ≡ ok fees
      → AreFees rates tokens before after fees
  unfolding fees_of
  fees_of-AreFees rates [] before after fees h = ground arith
  fees_of-AreFees rates (token ∷ tokens) [] after fees h = absurd (ground arith)
  fees_of-AreFees rates (token ∷ tokens) (b ∷ before) [] fees h = absurd (ground arith)
  fees_of-AreFees rates (token ∷ tokens) (b ∷ before) (a ∷ after) [] h =
      let (fee, e1) = of_ok (fee_of sets o math (rates token) b a) (λ e q. ground (arith, q)) in
      let (rest, e2) =
        of_ok (fees_of sets o math rates tokens before after) (λ e q. ground (arith, e1, q)) in
      absurd (ground (arith, e1, e2))
  fees_of-AreFees rates (token ∷ tokens) (b ∷ before) (a ∷ after) (f ∷ fees) h =
      let (fee, e1) = of_ok (fee_of sets o math (rates token) b a) (λ e q. ground (arith, q)) in
      let (rest, e2) =
        of_ok (fees_of sets o math rates tokens before after) (λ e q. ground (arith, e1, q)) in
      (
        ((fee_of-IsFee (rates token) b a f).0 (ground (arith, e1, e2))).0,
        fees_of-AreFees rates tokens before after fees (ground (arith, e1, e2)),
      )
