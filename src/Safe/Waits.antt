-- ===== src/Safe/Waits.antt =====
-- `waitForSafeTxReceipt` follows the monitor of Safe/Created: it asks for the transaction that was
-- proposed, waits for its hash, and looks up the address of its creation log.
use text.Mathlib.Text.{◌==◌ as str_eq}
use text.Mathlib.TextEquality.{eq_iff}
use apy_core_public.Base.{
  Bool-cases, inl, inr, sym, ◌∙◌, arith, ℕ, zero, suc, String, ◌≡◌, refl, Bool, true, false, Option,
  none, some, List, [], ◌∷◌, ap,
}
use apy_core_public.Script.Core.{Value, Tx, Log, Receipt, Script, done, ◌>>=◌, as_string}
use apy_core_public.Script.Monitor.{Obeys, Obeys-bind, Obeys-done, Obeys-fail, Obeys-test}
use apy_core_public.Script.Chain.{then_invoke, then_attempt, then_as_string, then_required}
use apy_core_public.Base.Texts.{to_lower, first_char}
use apy_core_public.Safe.Receipts.{
  creation_topic, find_creation, receipt_of, hash_of, poll_hash, poll_receipt, with_creation,
  finish_receipt, await_receipt, wait_for_safe_tx_receipt,
}
use apy_core_public.Safe.Created.{
  Progress, Kind, Permits, advance, HasCreation, created_only, arrived, logged,
}

abbrev with_mined : Progress → Option String → Progress
with_mined s h = record s { mined = h }

abbrev with_created : Progress → Option String → Progress
with_created s a = record s { created = a }

abbrev with_receipt : Progress → Receipt → Progress
with_receipt s r = record s { logs = r.logs; created = r.contract_address }

-- An answer with a hash ends the loop.
found-created :
    (Post : Progress → String → Type 0) (s : Progress) (again : Script String)
    → Obeys created_only Post (with_mined s none) again
    → ((h : String) → Post (with_mined s (some h)) h)
    → (o : Option String)
    → Obeys created_only Post (with_mined s o) (elim o [ none ↦ again | some h ↦ done h ])
found-created Post s again h k none = h
found-created Post s again h k (some hash) = Obeys-done _ _ _ _ (k hash)

poll_hash-created :
    (Post : Progress → String → Type 0) (s : Progress) (m : Option String) (fuel : ℕ)
    (service : Value) (hash : String) (delay : ℕ)
    → s.sent ≡ some hash
    → ((h : String) → Post (with_mined s (some h)) h)
    → Obeys created_only Post (with_mined s m) (poll_hash fuel service hash delay)
unfolding poll_hash
poll_hash-created Post s m zero service hash delay e h = Obeys-fail created_only Post _ _
poll_hash-created Post s m (suc fuel) service hash delay e h =
    let again = poll_hash-created Post s none fuel service hash delay e h in
    let p : Permits (with_mined s m) (Kind.search (Value.str hash ∷ [])) = (hash, e, refl) in
    then_attempt _ _ _ _ _ p
      (λ o. then_invoke _ _ _ _ _ tt (λ _. found-created Post s _ again h (hash_of o)))

-- An answer that is a receipt ends the loop, any other leaves the state.
answered-created :
    (Post : Progress → Receipt → Type 0) (s : Progress) (args : List Value) (again : Script Receipt)
    → Obeys created_only Post s again
    → ((r : Receipt) → Post (with_receipt s r) r)
    → (o : Option Value)
    → Obeys created_only Post
        (advance s (Kind.confirmation args) o)
        (elim (receipt_of o) [ none ↦ again | some r ↦ done r ])
answered-created Post s args again h k none = h
answered-created Post s args again h k (some (Value.receipt r)) = Obeys-done _ _ _ _ (k r)
answered-created Post s args again h k (some _) = h

poll_receipt-created :
    (Post : Progress → Receipt → Type 0) (s : Progress) (fuel : ℕ) (hash : String)
    (confirmations timeout delay : ℕ)
    → s.mined ≡ some hash
    → ((r : Receipt) → Post (with_receipt s r) r)
    → Obeys created_only Post s (poll_receipt fuel hash confirmations timeout delay)
unfolding poll_receipt
poll_receipt-created Post s zero hash confirmations timeout delay e h =
    Obeys-fail created_only Post s _
poll_receipt-created Post s (suc fuel) hash confirmations timeout delay e h =
    let again = poll_receipt-created Post s fuel hash confirmations timeout delay e h in
    let args = Value.str hash ∷ Value.num confirmations ∷ Value.num timeout ∷ [] in
    let p : Permits s (Kind.confirmation args) = (hash, e, refl) in
    then_attempt _ _ _ _ _ p
      (λ o. then_invoke _ _ _ _ _ tt (λ _. answered-created Post s args _ again h o))

-- The checksum address that is looked up becomes the receipt's.
checked-created :
    (Post : Progress → Receipt → Type 0) (s : Progress) (r : Receipt) (args : List Value)
    → ((a : String) → Post (with_created s (some a)) (record r { contract_address = some a }))
    → (v : Value)
    → Obeys created_only Post
        (advance s (Kind.checksum args) (some v))
        (as_string v >>= λ a. done (record r { contract_address = some a }))
unfolding as_string ◌>>=◌
checked-created Post s r args h (Value.str a) = Obeys-done _ _ _ _ (h a)
checked-created Post s r args h _ = Obeys-fail _ _ _ _

find_creation-HasCreation :
    (logs : List Log) (log : Log) → find_creation logs ≡ some log → HasCreation logs log
unfolding find_creation
find_creation-HasCreation [] log e = cc
find_creation-HasCreation (first ∷ logs) log e =
    elim (Bool-cases (str_eq first.topic creation_topic)) [
      | inl h ↦
          let same : first ≡ log = ground (arith, h) in
          ([], logs, ap (λ l. l ∷ logs) same, ap (λ l. l.topic) (sym same) ∙ (eq_iff _ _).0 h)
      | inr h ↦
          let (before, after, at, topic) = find_creation-HasCreation logs log (ground (arith, h)) in
          (first ∷ before, after, ap (λ l. first ∷ l) at, topic)
    ]

with_creation-created :
    (Post : Progress → Receipt → Type 0) (s : Progress) (log : Option Log) (r : Receipt)
    → find_creation s.logs ≡ log
    → Post s r
    → ((a : String) → Post (with_created s (some a)) (record r { contract_address = some a }))
    → Obeys created_only Post s (with_creation log r)
unfolding with_creation
with_creation-created Post s none r e h k = Obeys-done _ _ _ _ h
with_creation-created Post s (some log) r e h k =
    let p : Permits s (Kind.checksum (logged log)) =
      (log, find_creation-HasCreation s.logs log e, refl) in
    then_invoke _ _ _ _ _ p (λ v. checked-created Post s r (logged log) k v)

finish_receipt-created :
    (Post : Progress → Receipt → Type 0) (s : Progress) (b : Bool) (r : Receipt)
    → s.logs ≡ r.logs
    → Post s r
    → ((a : String) → Post (with_created s (some a)) (record r { contract_address = some a }))
    → Obeys created_only Post s (finish_receipt b r)
unfolding finish_receipt
finish_receipt-created Post s false r e h k = Obeys-done _ _ _ _ h
finish_receipt-created Post s true r e h k =
    with_creation-created Post s (find_creation r.logs) r (ap find_creation e) h k

await_receipt-created :
    (create_lib_address : String) (Post : Progress → Option Receipt → Type 0) (s : Progress)
    (fuel : ℕ) (proposed : Tx) (service : Value) (confirmations delay timeout : ℕ)
    → s.sent ≡ some proposed.hash
    → ((h : String) (logs : List Log) (r : Receipt)
        → Post (arrived s (some h) logs r.contract_address) (some r))
    → Obeys created_only Post s
        (await_receipt create_lib_address fuel proposed service confirmations delay timeout)
unfolding await_receipt
await_receipt-created lib Post s fuel proposed service confirmations delay timeout e k =
    Obeys-bind _ _ _ _ _ (
      poll_hash-created _ s s.mined fuel service proposed.hash _ e (λ hash. Obeys-bind _ _ _ _ _ (
        poll_receipt-created _ (with_mined s (some hash)) fuel hash _ _ _ refl (λ r.
          then_required _ _ _ _ _ _ (λ to _. Obeys-bind _ _ _ _ _ (
            finish_receipt-created _ _ _ r refl (Obeys-done _ _ _ _ (k hash r.logs r)) (λ a.
              Obeys-done _ _ _ _ (k hash r.logs (record r { contract_address = some a })))))))))

-- The wait leaves what the receipt that it returns says.
pub wait_for_safe_tx_receipt-created :
    (create_lib_address : String) (Post : Progress → Option Receipt → Type 0) (s : Progress)
    (fuel : ℕ) (proposed : Tx) (service : Value) (confirmations delay timeout : Option ℕ)
    → s.sent ≡ some proposed.hash
    → Post s none
    → ((h : String) (logs : List Log) (r : Receipt)
        → Post (arrived s (some h) logs r.contract_address) (some r))
    → Obeys created_only Post s (
        wait_for_safe_tx_receipt create_lib_address fuel proposed service confirmations delay
          timeout)
unfolding wait_for_safe_tx_receipt
wait_for_safe_tx_receipt-created lib Post s fuel proposed service confirmations delay timeout e h
      k =
    then_invoke _ _ _ _ _ tt (λ v. then_as_string _ _ _ _ _ (λ a _.
      Obeys-test _ _ _ (str_eq (first_char (to_lower a)) "n") _ _ (Obeys-done _ _ _ _ h)
        (await_receipt-created lib Post s fuel proposed service _ _ _ e k)))
