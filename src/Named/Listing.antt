-- ===== src/Named/Listing.antt =====
-- The names that a named set lists, and the way back from an addition.
use text.Mathlib.Text.{◌==◌ as str_eq}
use text.Mathlib.TextEquality.{eq_iff}
use apy_core_public.Base.{
  ℕ, ◌+◌, ◌<◌, ◌==◌, ◌≡◌, refl, String, true, false, List, [], ◌∷◌, arith, if◌then◌else◌, ◌↔◌,
}
use apy_core_public.Base.Exec.{ok}
use apy_core_public.Contract.Enumerable.{EnumerableSet}
use apy_core_public.Registry.Ids.{count}
use apy_core_public.Named.Calls.{
  Set, Named, write, add, remove, contains, get, write, each_name, names,
}
use apy_core_public.Named.Invariant.{
  IsFound, IsNamed, IsConsistent, Reachable, Adds, reachable-IsConsistent, add-Adds,
}

-- How often a name is listed.
unfoldable pub count_name : String → List String → ℕ
count_name n [] = 0
count_name n (m ∷ ns) = let rest = count_name n ns in if str_eq n m then 1 + rest else rest

module _ {S : Type 0} (sets : EnumerableSet S) (e : Named) where
  -- The list has every name that is looked up to an element, as often as the element.
  unfoldable pub Lists : Set S → List ℕ → List String → Type 0
  Lists s elements ns =
      (n : String)
      → count_name n ns ≡ (if get sets n s == 0 then 0 else count (get sets n s) elements)

  each_name-Lists :
      (s : Set S) (addresses : List ℕ)
      → e.is_contract 0 ≡ false
      → IsFound sets e s
      → IsNamed sets e s
      → ((a : ℕ) → 0 < count a addresses → contains sets a s ≡ true)
      → (ns : List String) × (each_name sets e addresses ≡ ok ns) × Lists s addresses ns
  unfolding Lists each_name count count_name
  each_name-Lists s [] zero found named within = ([], refl, λ n. ground arith)
  each_name-Lists s (a ∷ addresses) zero found named within =
      let (ns, run, lists) =
        each_name-Lists s addresses zero found named (λ b h. ground (arith, within b)) in
      let (m, by) = named a (ground (arith, within a)) in
      (
        m ∷ ns,
        ground (arith, by.0, run),
        λ n. ground (arith, by, lists n, found n, (eq_iff n m).0, (eq_iff n m).1),
      )

  -- Where the zero address has no code: in every state that additions and removals reach, `names`
  -- succeeds, and a name is listed once where it is looked up to an address other than zero, and not
  -- at all where it is not.
  pub names-get :
      e.is_contract 0 ≡ false
      → {s : Set S} → Reachable sets e s
      → (ns : List String) × (names sets e s ≡ ok ns)
        × ((n : String) → count_name n ns ≡ (if get sets n s == 0 then 0 else 1))
  unfolding IsConsistent Lists
  names-get zero {s} r =
      let (found, named) = reachable-IsConsistent sets e zero r in
      let elements = sets.values s.named_addresses in
      let (ns, run, lists) =
        each_name-Lists s elements zero found named
          (λ a h. ground (arith, sets.count-values a s.named_addresses)) in
      (
        ns,
        run,
        λ n. ground (arith, lists n, found n, sets.count-values (get sets n s) s.named_addresses),
      )

  -- The set as its lookups and its elements, without their order.
  abbrev pub Same : Set S → Set S → Type 0
  Same s t =
      ((n : String) → get sets n s ≡ get sets n t)
      × ((a : ℕ) → contains sets a s ≡ contains sets a t)

  added_back :
      (a : ℕ) (n : String) (s t : Set S)
      → e.is_contract 0 ≡ false
      → Adds sets e a s t n
      → (get sets n t ≡ a)
        × (contains sets a t ≡ true)
        × ((u : Set S) × (remove sets n t ≡ ok (tt, u)) × Same s u)
  unfolding remove
  added_back a n s t zero h = (
    ground (arith, h.5, (eq_iff n n).1 refl),
    ground (arith, h.5, sets.contains-add a a s.named_addresses),
    (
      record {
        named_addresses = sets.remove a t.named_addresses;
        name_lookup = write n 0 t.name_lookup;
      },
      ground (arith, h, (eq_iff n n).1 refl),
      (
        λ m. ground (arith, h, (eq_iff m n).0, (eq_iff n n).1 refl),
        λ b. ground (
          arith,
          h,
          sets.contains-remove b a t.named_addresses,
          sets.contains-add b a s.named_addresses,
        ),
      ),
    ),
  )

  -- After an addition that succeeds, the address is in the set under its name, and the removal of
  -- the name succeeds and leads back to the set before: every name is looked up as before, and every
  -- address is in the set where it was.
  pub remove-add :
      (a : ℕ) (n : String) (s t : Set S)
      → e.is_contract 0 ≡ false
      → add sets e a s ≡ ok (tt, t)
      → e.name_of a ≡ ok n
      → (get sets n t ≡ a)
        × (contains sets a t ≡ true)
        × ((u : Set S) × (remove sets n t ≡ ok (tt, u)) × Same s u)
  remove-add a n s t zero h named =
      let (m, added) = add-Adds sets e a s t h in added_back a n s t zero (ground (arith, added))

  -- An addition succeeds exactly where the address is a contract that is not in the set, with a name
  -- that is not empty and not in use.
  pub add-succeeds :
      (a : ℕ) (s : Set S)
      → ((t : Set S) × (add sets e a s ≡ ok (tt, t))) ↔ (
          (e.is_contract a ≡ true)
          × (contains sets a s ≡ false)
          × ((n : String) × (e.name_of a ≡ ok n) × (str_eq n "" ≡ false) × (get sets n s ≡ 0)))
  unfolding add
  add-succeeds a s = (
    λ h.
        let (n, added) = add-Adds sets e a s h.0 h.1 in
        (added.0, added.1, (n, added.2, added.3, ground arith)),
    λ h. (
      record {
        named_addresses = sets.add a s.named_addresses;
        name_lookup = write h.2.0 a s.name_lookup;
      },
      ground (arith, h),
    ),
  )
