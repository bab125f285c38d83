-- ===== src/Named/Invariant.antt =====
-- What holds of a named set in every state that its calls reach.
use text.Mathlib.Text.{◌==◌ as str_eq}
use text.Mathlib.TextEquality.{eq_iff}
use apy_core_public.Base.{ℕ, ◌==◌, ◌≡◌, refl, String, true, false, arith, inl, inr, Bool-cases}
use apy_core_public.Base.Exec.{ok}
use apy_core_public.Contract.Call.{View-cases}
use apy_core_public.Contract.Enumerable.{EnumerableSet}
use apy_core_public.Named.Calls.{Set, Named, write, empty, add, remove, contains, get}

module _ {S : Type 0} (sets : EnumerableSet S) (e : Named) where
  -- An address that is looked up is in the set and has the name.
  abbrev pub IsFound : Set S → Type 0
  IsFound s =
      (n : String)
      → (get sets n s == 0) ≡ false
      → (contains sets (get sets n s) s ≡ true) × (e.name_of (get sets n s) ≡ ok n)

  -- An address has a name, is a contract, and is looked up under the name.
  abbrev pub NamedBy : Set S → ℕ → String → Type 0
  NamedBy s a n =
      (e.name_of a ≡ ok n) × (get sets n s ≡ a) × (e.is_contract a ≡ true) × (str_eq n "" ≡ false)

  abbrev pub IsNamed : Set S → Type 0
  IsNamed s = (a : ℕ) → contains sets a s ≡ true → (n : String) × NamedBy s a n

  unfoldable pub IsConsistent : Set S → Type 0
  IsConsistent s = IsFound s × IsNamed s

  empty-IsConsistent : IsConsistent (empty sets)
  unfolding IsConsistent
  empty-IsConsistent = (λ n h. ground arith, λ a h. ground (arith, sets.contains-empty a))

  -- What an `add` that succeeds has found, and what it does.
  abbrev pub Adds : ℕ → Set S → Set S → String → Type 0
  Adds a s t n =
      (e.is_contract a ≡ true)
      × (contains sets a s ≡ false)
      × (e.name_of a ≡ ok n)
      × (str_eq n "" ≡ false)
      × ((get sets n s == 0) ≡ true)
      × (t ≡ record {
        named_addresses = sets.add a s.named_addresses;
        name_lookup = write n a s.name_lookup;
      })

  pub add-Adds : (a : ℕ) (s t : Set S) → add sets e a s ≡ ok (tt, t) → (n : String) × Adds a s t n
  unfolding add
  add-Adds a s t h = elim (View-cases (e.name_of a)) [
    | inl v ↦ (v.0, ground (arith, v.1))
    | inr w ↦ ground (arith, w.1)
  ]

  abbrev pub Removes : String → Set S → Set S → Type 0
  Removes n s t =
      ((get sets n s == 0) ≡ false)
      × (t ≡ record {
        named_addresses = sets.remove (get sets n s) s.named_addresses;
        name_lookup = write n 0 s.name_lookup;
      })

  pub remove-Removes : (n : String) (s t : Set S) → remove sets n s ≡ ok (tt, t) → Removes n s t
  unfolding remove
  remove-Removes n s t h = ground arith

  added-IsFound : (a : ℕ) (m : String) (s t : Set S) → Adds a s t m → IsFound s → IsFound t
  added-IsFound a m s t h f n k = ground (
    arith,
    h.5,
    f n,
    (eq_iff n m).0,
    sets.contains-add a a s.named_addresses,
    sets.contains-add (s.name_lookup n) a s.named_addresses,
  )

  -- The zero address is no contract.
  module _ (zero : e.is_contract 0 ≡ false) where
    added-IsNamed : (a : ℕ) (m : String) (s t : Set S) → Adds a s t m → IsNamed s → IsNamed t
    added-IsNamed a m s t h f b k = elim (Bool-cases (b == a)) [
      | inl same ↦ (m, ground (arith, h.5, (eq_iff m m).1 refl))
      | inr other ↦
          let old = f b (ground (arith, h.5, sets.contains-add b a s.named_addresses)) in
          (old.0, ground (arith, h.5, old.1, (eq_iff old.0 m).0))
    ]

    removed-IsFound : (n : String) (s t : Set S) → Removes n s t → IsFound s → IsFound t
    removed-IsFound n s t h f m k = ground (
      arith,
      h.1,
      f m,
      f n,
      (eq_iff m n).1,
      sets.contains-remove (s.name_lookup m) (s.name_lookup n) s.named_addresses,
    )

    removed-IsNamed : (n : String) (s t : Set S) → Removes n s t → IsNamed s → IsNamed t
    removed-IsNamed n s t h f b k =
        let law = sets.contains-remove b (s.name_lookup n) s.named_addresses in
        let old = f b (ground (arith, h.1, law)) in
        (old.0, ground (arith, h.1, law, old.1, (eq_iff old.0 n).0))

  -- A call that succeeds and changes the set.
  pub data Step : Set S → Set S → Type 0 where
    adds : {s t : Set S} (a : ℕ) → add sets e a s ≡ ok (tt, t) → Step s t
    removes : {s t : Set S} (n : String) → remove sets n s ≡ ok (tt, t) → Step s t

  pub data Reachable : Set S → Type 0 where
    start : Reachable (empty sets)
    next : {s t : Set S} → Reachable s → Step s t → Reachable t

  pub Step-IsConsistent :
      e.is_contract 0 ≡ false → {s t : Set S} → Step s t → IsConsistent s → IsConsistent t
  unfolding IsConsistent
  Step-IsConsistent zero {s} {t} (adds a h) v =
      let (n, added) = add-Adds a s t h in
      (added-IsFound a n s t added v.0, added-IsNamed zero a n s t added v.1)
  Step-IsConsistent zero {s} {t} (removes n h) v =
      let removed = remove-Removes n s t h in
      (removed-IsFound zero n s t removed v.0, removed-IsNamed zero n s t removed v.1)

  -- Where the zero address has no code: in every state that additions and removals reach from the
  -- empty set, the address that a name is looked up to, unless it is zero, is in the set and has the
  -- name; and every address in the set is a contract with a name that is not empty, under which it
  -- is looked up.
  pub reachable-IsConsistent : e.is_contract 0 ≡ false → {s : Set S} → Reachable s → IsConsistent s
  reachable-IsConsistent zero start = empty-IsConsistent
  reachable-IsConsistent zero (next r h) = Step-IsConsistent zero h (reachable-IsConsistent zero r)
