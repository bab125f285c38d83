-- ===== src/Safe/Verified.antt =====
-- The helpers of the scripts leave the monitor's state, and what is registered is verified.
use apy_core_public.Base.{ℕ, String, ◌≡◌, refl, ap, Bool, Option, none, some, List, ◌∷◌}
use apy_core_public.Script.Core.{
  Value, Tx, Log, Receipt, Script, Env, ◌>>=◌, ◌>>◌, transaction_of, truthy, when, ignore, required,
}
use apy_core_public.Script.Monitor.{
  Obeys, Obeys-bind, Obeys-invoke, Obeys-done, Obeys-fail, Obeys-when, Obeys-required,
}
use apy_core_public.Script.Chain.{then_invoke, then_required_variable, Neutral, then_address_of}
use apy_core_public.Script.Common.{
  show_balance, compile_one, get_registered_contract, created_address, service_of, verify,
}
use apy_core_public.Safe.Signers.{
  get_safe_owner, get_safe_signer, get_safe_signer_for_safe_type, get_admin_safe_signer,
}
use apy_core_public.Safe.Receipts.{wait_for_safe_tx_receipt}
use apy_core_public.Safe.Created.{
  Progress, Kind, Permits, created_only, current, sent_of, proposed_by, arrived,
}
use apy_core_public.Safe.Waits.{wait_for_safe_tx_receipt-created}

module _ (s : Progress) where
  pub show_balance-Neutral : (v : Value) → Neutral created_only s (show_balance v)
  unfolding show_balance
  show_balance-Neutral v Post h =
      then_address_of created_only Post s _ _ (λ a. Obeys-invoke created_only Post s _ tt h)

  pub compile_one-Neutral : (name : String) → Neutral created_only s (compile_one name)
  unfolding compile_one
  compile_one-Neutral name Post h = search (then_invoke, Obeys-invoke)

  pub when_compile-Neutral :
      (b : Bool) (name : String) → Neutral created_only s (when b (ignore (compile_one name)))
  when_compile-Neutral b name Post h =
      Obeys-when created_only Post s b _
        (Obeys-bind created_only Post s _ _
          (compile_one-Neutral name _ (λ v. Obeys-done _ _ _ _ (h tt))))
        (h tt)

  pub get_registered_contract-Neutral :
      (id : String) (v : Value) → Neutral created_only s (get_registered_contract id v)
  unfolding get_registered_contract
  get_registered_contract-Neutral id v Post h = search (then_invoke, Obeys-invoke) depth 10

  pub get_admin_safe_signer-Neutral :
      (env : Env) (name : String) → Neutral created_only s (get_admin_safe_signer env name none)
  unfolding get_admin_safe_signer get_safe_signer_for_safe_type get_safe_signer get_safe_owner
  get_admin_safe_signer-Neutral env name Post h =
      search
        (then_invoke, then_required_variable, then_address_of, Obeys-bind, Obeys-invoke, Obeys-done)
        depth 20 fits 3000

-- What a script leaves when it is done: an address that was created or registered, and verified.
unfoldable pub Verified : Progress → Unit {0} → Type 0
Verified s _ = (a : String) × (current s ≡ some a) × (s.verified ≡ some a)

pub created_address-created :
    (Post : Progress → String → Type 0) (s : Progress) (r : Receipt) (message : String)
    → ((a : String) → truthy r.contract_address ≡ some a → Post s a)
    → Obeys created_only Post s (created_address (some r) message)
unfolding created_address required ◌>>=◌
created_address-created Post s r message h = Obeys-required created_only Post s _ _ h

pub created_address-none :
    (Post : Progress → String → Type 0) (s : Progress) (message : String)
    → Obeys created_only Post s (created_address none message)
unfolding created_address required ◌>>=◌
created_address-none Post s message = Obeys-fail created_only Post s _

-- The transaction that an answer carries is the one that was sent.
pub then_transaction_sent :
    {B : Type 0} (Post : Progress → B → Type 0) (s : Progress) (v : Value) (f : Tx → Script B)
    → ((t : Tx) → sent_of (some v) ≡ some t.hash → Obeys created_only Post s (f t))
    → Obeys created_only Post s (transaction_of v >>= f)
unfolding transaction_of ◌>>=◌
then_transaction_sent Post s (Value.deployed a t) f k = k t refl
then_transaction_sent Post s (Value.transaction t) f k = k t refl
then_transaction_sent Post s _ f k = Obeys-fail created_only Post s _

verify-Verified :
    (s : Progress) (a : String) (args : List Value)
    → s.registered ≡ some a
    → Obeys created_only Verified s (ignore (verify a args))
unfolding Verified
verify-Verified s a args e =
    let current_is : current s ≡ some a =
      ap (elim [ none ↦ truthy s.created | some b ↦ some b ]) e in
    let p : Permits s (Kind.verification (Value.str a ∷ args)) = (a, current_is, refl) in
    then_invoke created_only _ s _ _ p λ _. Obeys-done _ _ _ _ (a, current_is, refl)

-- What was registered is verified after the second wait, whatever it answers.
pub registered-Verified :
    (lib : String) (fuel : ℕ) (s : Progress) (a : String) (safe_signer proposed : Value)
    (args : List Value)
    → s.registered ≡ some a
    → Obeys created_only Verified (proposed_by (some proposed) s) (do
      tx ← transaction_of proposed
      service ← service_of safe_signer
      wait_for_safe_tx_receipt lib fuel tx service none none none
      ignore (verify a args))
registered-Verified lib fuel s a safe_signer proposed args e =
    let s' = proposed_by (some proposed) s in
    then_transaction_sent _ s' _ _ λ t sent. then_invoke created_only _ s' _ _ tt λ service.
      Obeys-bind created_only _ s' _ _ (
        wait_for_safe_tx_receipt-created lib _ s' fuel t _ none none none sent
          (verify-Verified s' a args e)
          (λ h logs r. verify-Verified (arrived s' (some h) logs r.contract_address) a args e))

-- After the first wait: a step that registers the address of the receipt, and the rest.
pub created-registered :
    (lib : String) (fuel : ℕ) (s : Progress) (tx : Tx) (service : Value) (message : String)
    (f : String → Script (Unit {0}))
    → s.sent ≡ some tx.hash
    → ((h : Option String) (logs : List Log) (c : Option String) (a : String)
        → truthy c ≡ some a
        → Obeys created_only Verified (arrived s h logs c) (f a))
    → Obeys created_only Verified s (do
      receipt ← wait_for_safe_tx_receipt lib fuel tx service none none none
      address ← created_address receipt message
      f address)
created-registered lib fuel s tx service message f sent k = Obeys-bind created_only _ s _ _ (
    wait_for_safe_tx_receipt-created lib _ s fuel tx service none none none sent
      (Obeys-bind created_only _ s _ _ (created_address-none _ s message))
      (λ h logs r.
        let s' = arrived s (some h) logs r.contract_address in
        Obeys-bind created_only _ s' _ _
          (created_address-created _ s' r message (k (some h) logs r.contract_address))))

-- A deployment whose address is registered and verified: the steps from the deployment to the
-- transaction that it carries.
pub deployed-Verified :
    (s : Progress) (safe_signer instance_ : Value) (f : Tx → Value → Script (Unit {0}))
    → let s' = proposed_by (some instance_) s in
      ((tx : Tx) (service : Value)
        → s'.sent ≡ some tx.hash
        → Obeys created_only Verified s' (f tx service))
      → Obeys created_only Verified s'
          (do tx ← transaction_of instance_; service ← service_of safe_signer; f tx service)
deployed-Verified s safe_signer instance_ f k =
    let s' = proposed_by (some instance_) s in
    then_transaction_sent _ s' _ _
      λ t sent. then_invoke created_only _ s' _ _ tt λ service. k t service sent
