-- ===== src/LpAccount/Sending.antt =====
-- The fees that are sent to the treasury safe, and the balances that this leaves.
use native.Mathlib.Nat.{mul-le-mul_left}
use mathlib.Core.Path.{subst}
use apy_core_public.Base.{
  ℕ, ◌+◌, ◌-◌, ◌<◌, ◌≤◌, ◌==◌, ◌≡◌, false, List, [], ◌∷◌, arith, inl, inr, ltb, if◌then◌else◌,
  Bool-cases,
}
use apy_core_public.Base.Exec.{ok}
use apy_core_public.Contract.Call.{View, of_ok, Mapping}
use apy_core_public.Contract.Enumerable.{EnumerableSet}
use apy_core_public.Registry.Ids.{count}
use apy_core_public.LpAccount.State.{Outside}
use apy_core_public.LpAccount.Fees.{balances_of, send_each}
use apy_core_public.LpAccount.Bounds.{IsFee, AreFees}

module _ {S W : Type 0} (sets : EnumerableSet S) (o : Outside S W) where
  -- The tokens are ERC20 tokens: a transfer to another account lowers the balance by the amount, and
  -- changes that of no other token.
  abbrev pub Lowers : ℕ → ℕ → W → W → Type 0
  Lowers token n w w' =
      (b : ℕ) → o.balance token w ≡ ok b → (b' : ℕ) × (o.balance token w' ≡ ok b') × (b' + n ≡ b)

  abbrev pub LeavesOthers : ℕ → W → W → Type 0
  LeavesOthers token w w' = (j : ℕ) → (j == token) ≡ false → o.balance j w' ≡ o.balance j w

  abbrev pub AreErc20 : Type 0
  AreErc20 =
      (token to n : ℕ) (w w' : W)
      → (to == o.chain.self) ≡ false
      → o.transfer token to n w ≡ ok w'
      → Lowers token n w w' × LeavesOthers token w w'

  -- The balance of a token is not lower than it was.
  abbrev pub NotLower : W → W → ℕ → Type 0
  NotLower w w' j = (p : ℕ) × (q : ℕ) × (o.balance j w ≡ ok p) × (o.balance j w' ≡ ok q) × (p ≤ q)

  -- What is sent of a token: nothing, or the fee.
  abbrev send : ℕ → ℕ → ℕ → W → View W
  send safe token fee w = if ltb 0 fee then o.transfer token safe fee w else ok w

  send-Lowers :
      (safe token fee : ℕ) (w w' : W)
      → AreErc20
      → (safe == o.chain.self) ≡ false
      → send safe token fee w ≡ ok w'
      → Lowers token fee w w' × LeavesOthers token w w'
  send-Lowers safe token fee w w' law other h = elim (Bool-cases (ltb 0 fee)) [
    | inl some ↦ law token safe fee w w' other (ground (arith, some))
    | inr none ↦
        (λ b e. (b, ground (arith, none, e), ground (arith, none)), λ j k. ground (arith, none))
  ]

  send_each-others :
      (safe : ℕ) (tokens fees : List ℕ) (w w' : W)
      → AreErc20
      → (safe == o.chain.self) ≡ false
      → send_each sets o safe tokens fees w ≡ ok w'
      → (j : ℕ) → count j tokens ≡ 0
      → o.balance j w' ≡ o.balance j w
  unfolding send_each count
  send_each-others safe [] fees w w' law other h j k = ground arith
  send_each-others safe (token ∷ tokens) [] w w' law other h j k = absurd (ground arith)
  send_each-others safe (token ∷ tokens) (fee ∷ fees) w w' law other h j k =
      let (u, e1) = of_ok (send safe token fee w) (λ e q. ground (arith, q)) in
      let (lowers, leaves) = send-Lowers safe token fee w u law other e1 in
      ground (
        arith,
        leaves j (ground arith),
        send_each-others safe tokens fees u w' law other (ground (arith, e1)) j (ground arith),
      )

  IsFee-le :
      (rate before after fee : ℕ)
      → rate ≤ 10000
      → IsFee rate before after fee
      → before + fee ≤ after
  IsFee-le rate before after fee h fees =
      let share = mul-le-mul_left (after - before) h in omega (arith, fees.0, fees.1, share)

  -- One step: the token is sent, and the rest of the tokens do not have it.
  sent_NotLower :
      (safe token fee before after : ℕ) (tokens fees : List ℕ) (w0 w u w' : W)
      → AreErc20
      → (safe == o.chain.self) ≡ false
      → count token tokens ≡ 0
      → o.balance token w0 ≡ ok before
      → o.balance token w ≡ ok after
      → before + fee ≤ after
      → send safe token fee w ≡ ok u
      → send_each sets o safe tokens fees u ≡ ok w'
      → NotLower w0 w' token
  sent_NotLower safe token fee before after tokens fees w0 w u w' law other once b a le e h =
      let (lowers, leaves) = send-Lowers safe token fee w u law other e in
      let (q, e1, e2) = lowers after a in
      let same = send_each-others safe tokens fees u w' law other h token once in
      (before, q, b, ground (arith, same, e1), omega (arith, e2, le))

  pub send_each-NotLower :
      (rates : Mapping ℕ) (safe : ℕ) (tokens before after fees : List ℕ) (w0 w1 w w' : W)
      → AreErc20
      → (safe == o.chain.self) ≡ false
      → ((x : ℕ) → rates x ≤ 10000)
      → ((x : ℕ) → count x tokens < 2)
      → AreFees rates tokens before after fees
      → balances_of sets o tokens w0 ≡ ok before
      → balances_of sets o tokens w1 ≡ ok after
      → ((x : ℕ) → 0 < count x tokens → o.balance x w ≡ o.balance x w1)
      → send_each sets o safe tokens fees w ≡ ok w'
      → (j : ℕ) → 0 < count j tokens
      → NotLower w0 w' j
  unfolding send_each count balances_of
  send_each-NotLower rates safe [] before after fees w0 w1 w w' law other low once due b a same h j
        k =
      absurd (ground arith)
  send_each-NotLower rates safe (token ∷ tokens) (b ∷ before) (a ∷ after) (fee ∷ fees) w0 w1 w w'
        law other low once due e0 e1 same h j k =
      let (u, step) = of_ok (send safe token fee w) (λ e q. ground (arith, q)) in
      let (b', f0) = of_ok (o.balance token w0) (λ e q. ground (arith, q)) in
      let (bs, g0) = of_ok (balances_of sets o tokens w0) (λ e q. ground (arith, f0, q)) in
      let (a', f1) = of_ok (o.balance token w1) (λ e q. ground (arith, q)) in
      let (as_, g1) = of_ok (balances_of sets o tokens w1) (λ e q. ground (arith, f1, q)) in
      let (lowers, leaves) = send-Lowers safe token fee w u law other step in
      let rest : send_each sets o safe tokens fees u ≡ ok w' = ground (arith, step) in
      elim (Bool-cases (j == token)) [
        | inl here ↦ subst (NotLower w0 w') (ground (arith, here)) (
            sent_NotLower safe token fee b a tokens fees w0 w u w' law other
              (ground (arith, once token)) (ground (arith, f0, g0))
              (ground (arith, f1, g1, same token))
              (IsFee-le (rates token) b a fee (low token) due.0) step rest)
        | inr there ↦
            send_each-NotLower rates safe tokens before after fees w0 w1 u w' law other low
              (λ x. ground (arith, once x)) due.1 (ground (arith, f0, g0)) (ground (arith, f1, g1))
              (λ x m. ground (arith, once token, leaves x, same x)) rest j (ground arith)
      ]
  send_each-NotLower rates safe (token ∷ tokens) [] after fees w0 w1 w w' law other low once due e0
        e1 same h j k =
      absurd due
  send_each-NotLower rates safe (token ∷ tokens) (b ∷ before) [] fees w0 w1 w w' law other low once
        due e0 e1 same h j k =
      absurd due
  send_each-NotLower rates safe (token ∷ tokens) (b ∷ before) (a ∷ after) [] w0 w1 w w' law other
        low once due e0 e1 same h j k =
      absurd due
