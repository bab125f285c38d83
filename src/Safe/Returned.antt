-- ===== src/Safe/Returned.antt =====
-- The wait for a receipt ends in a world that answers at last.
use text.Mathlib.Text.{◌==◌ as str_eq}
use apy_core_public.Base.{
  ℕ, zero, suc, ◌+◌, ◌≤◌, length, String, ◌≡◌, refl, Bool, true, false, Option, none, some, List,
  ◌∷◌, arith,
}
use apy_core_public.Base.Texts.{to_lower, first_char}
use apy_core_public.Script.Core.{
  Value, Tx, Log, Receipt, Call, Script, done, ◌>>=◌, as_string, required, type_error, World,
}
use apy_core_public.Script.Returns.{
  Returns, Returns-done, Returns-attempt, Returns-invoke, Returns-bind,
}
use apy_core_public.Safe.Receipts.{
  hash_of, receipt_of, poll_hash, poll_receipt, find_creation, with_creation, finish_receipt,
  await_receipt, wait_for_safe_tx_receipt,
}

-- The user goes on, timers and checksums are answered, and from the n-th call on the Safe service knows
-- the hash of the transaction, and the provider its receipt.
pub record Responsive (w : World) (n : ℕ) : Type 0 where
  pub goes_on :
      (c : Call) (h : List Call)
      → c.method ≡ "question"
      → (a : String) × (w (c ∷ h) ≡ some (Value.str a))
        × (str_eq (first_char (to_lower a)) "n" ≡ false)
  pub pauses : (c : Call) (h : List Call) → c.method ≡ "sleep" → (v : Value) × (w (c ∷ h) ≡ some v)
  pub checks :
      (c : Call) (h : List Call)
      → c.method ≡ "utils.getAddress"
      → (a : String) × (w (c ∷ h) ≡ some (Value.str a))
  pub confirmed :
      (c : Call) (h : List Call)
      → c.method ≡ "getSafeTxDetails"
      → n ≤ length h
      → (s : String) × (hash_of (w (c ∷ h)) ≡ some s)
  pub mined :
      (c : Call) (h : List Call)
      → c.method ≡ "waitForTransaction"
      → n ≤ length h
      → (r : Receipt) × (receipt_of (w (c ∷ h)) ≡ some r)

abbrev Any : {A : Type 0} → A → Type 0
Any a = Unit

-- What is left of a round: the answer ends the loop, or the loop goes on.
Returns-answered :
    {A : Type 0} (w : World) (o : Option A) (again : Script A) (h : List Call)
    → Returns w Any again h
    → Returns w Any (elim o [ none ↦ again | some a ↦ done a ]) h
Returns-answered w none again h r = r
Returns-answered w (some a) again h r = Returns-done w Any a h tt

Returns-last :
    {A : Type 0} (w : World) (o : Option A) (again : Script A) (h : List Call) (a : A)
    → o ≡ some a
    → Returns w Any (elim o [ none ↦ again | some a ↦ done a ]) h
Returns-last w none again h a e = cc
Returns-last w (some a) again h b e = Returns-done w Any a h tt

-- A receipt came back, not `undefined`.
abbrev pub IsReceipt : Option Receipt → Type 0
IsReceipt o = (r : Receipt) × (o ≡ some r)

Returns-false :
    {A : Type 0} (w : World) (P : A → Type 0) (b : Bool) (m m' : Script A) (h : List Call)
    → b ≡ false
    → Returns w P m' h
    → Returns w P (elim b [ true ↦ m | false ↦ m' ]) h
Returns-false w P true m m' h e r = cc
Returns-false w P false m m' h e r = r

module _ (w : World) (n : ℕ) (R : Responsive w n) where
  required-Returns :
      (o : Option String) (a : String)
      → o ≡ some a
      → (h : List Call) → Returns w Any (required o type_error) h
  unfolding required
  required-Returns none a e h = cc
  required-Returns (some b) a e h = Returns-done w Any b h tt

  poll_hash-Returns :
      (fuel : ℕ) (service : Value) (hash : String) (delay : ℕ) (h : List Call)
      → n ≤ length h + fuel
      → Returns w Any (poll_hash (suc fuel) service hash delay) h
  unfolding poll_hash
  poll_hash-Returns zero service hash delay h le = Returns-attempt w Any _ _ h (
      let p = R.pauses _ _ refl in
      Returns-invoke w Any _ _ _ p.0 p.1
        (let c = R.confirmed _ h refl (omega arith) in Returns-last w _ _ _ c.0 c.1))
  poll_hash-Returns (suc fuel) service hash delay h le = Returns-attempt w Any _ _ h (
      let p = R.pauses _ _ refl in
      Returns-invoke w Any _ _ _ p.0 p.1
        (Returns-answered w _ _ _ (poll_hash-Returns fuel service hash delay _ (omega arith))))

  poll_receipt-Returns :
      (fuel : ℕ) (hash : String) (confirmations timeout delay : ℕ) (h : List Call)
      → n ≤ length h + fuel
      → Returns w Any (poll_receipt (suc fuel) hash confirmations timeout delay) h
  unfolding poll_receipt
  poll_receipt-Returns zero hash confirmations timeout delay h le = Returns-attempt w Any _ _ h (
      let p = R.pauses _ _ refl in
      Returns-invoke w Any _ _ _ p.0 p.1
        (let c = R.mined _ h refl (omega arith) in Returns-last w _ _ _ c.0 c.1))
  poll_receipt-Returns (suc fuel) hash confirmations timeout delay h le =
      Returns-attempt w Any _ _ h (
        let p = R.pauses _ _ refl in
        Returns-invoke w Any _ _ _ p.0 p.1 (
          Returns-answered w _ _ _
            (poll_receipt-Returns fuel hash confirmations timeout delay _ (omega arith))))

  with_creation-Returns :
      (log : Option Log) (r : Receipt) (h : List Call) → Returns w Any (with_creation log r) h
  unfolding with_creation as_string ◌>>=◌
  with_creation-Returns none r h = Returns-done w Any r h tt
  with_creation-Returns (some log) r h =
      let c = R.checks _ _ refl in
      Returns-invoke w Any _ _ h (Value.str c.0) c.1 (Returns-done w Any _ _ tt)

  finish_receipt-Returns :
      (b : Bool) (r : Receipt) (h : List Call) → Returns w Any (finish_receipt b r) h
  unfolding finish_receipt
  finish_receipt-Returns true r h = with_creation-Returns (find_creation r.logs) r h
  finish_receipt-Returns false r h = Returns-done w Any r h tt

  await_receipt-Returns :
      (lib : String) (fuel : ℕ) (proposed : Tx) (to : String) (service : Value)
      (confirmations delay timeout : ℕ) (h : List Call)
      → proposed.to ≡ some to
      → n ≤ fuel
      → Returns w IsReceipt
          (await_receipt lib (suc fuel) proposed service confirmations delay timeout)
          h
  unfolding await_receipt
  await_receipt-Returns lib fuel proposed to service confirmations delay timeout h e le =
      Returns-bind w Any _ _ _ h
        (poll_hash-Returns fuel service proposed.hash delay h (omega arith))
        λ hash h₁ _.
          Returns-bind w Any _ _ _ h₁
            (poll_receipt-Returns fuel hash confirmations timeout delay h₁ (omega arith))
            λ r h₂ _. Returns-bind w Any _ _ _ h₂ (required-Returns proposed.to to e h₂) λ to' h₃ _.
              Returns-bind w Any _ _ _ h₃ (finish_receipt-Returns _ r h₃)
                λ r' h₄ _. Returns-done w IsReceipt (some r') h₄ (r', refl)

  -- In a world that answers at last, from its n-th call on, and where the user does not decline, the wait
  -- for a transaction with a recipient ends with a receipt if its loops may have n + 1 rounds.
  pub wait_for_safe_tx_receipt-Returns :
      (lib : String) (fuel : ℕ) (proposed : Tx) (to : String) (service : Value)
      (confirmations delay timeout : Option ℕ) (h : List Call)
      → proposed.to ≡ some to
      → n ≤ fuel
      → Returns w IsReceipt
          (wait_for_safe_tx_receipt lib (suc fuel) proposed service confirmations delay timeout)
          h
  unfolding wait_for_safe_tx_receipt as_string ◌>>=◌
  wait_for_safe_tx_receipt-Returns lib fuel proposed to service confirmations delay timeout h e le =
      let c = R.goes_on _ h refl in
      Returns-invoke w IsReceipt _ _ h (Value.str c.0) c.1 (
        Returns-false w IsReceipt (str_eq (first_char (to_lower c.0)) "n") _ _ _ c.2
          (await_receipt-Returns lib fuel proposed to service _ _ _ _ e le))
