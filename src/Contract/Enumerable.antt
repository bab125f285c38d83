-- ===== src/Contract/Enumerable.antt =====
-- EnumerableSet.AddressSet of OpenZeppelin, which is not part of the repository: an interface with
-- its documented behaviour. Elements are added, removed and checked for existence, and enumerated
-- without any guarantee on their order.
use apy_core_public.Base.{
  ℕ, ◌==◌, ◌≡◌, refl, Bool, true, false, List, [], ◌∷◌, arith, if◌then◌else◌, length, get_elem?,
  none, some,
}
use apy_core_public.Base.Exec.{ok, err}
use apy_core_public.Contract.Call.{View}
use apy_core_public.Registry.Ids.{count, has_id}

pub record EnumerableSet (S : Type 0) : Type 0 where
  pub empty : S
  pub contains : ℕ → S → Bool
  pub add : ℕ → S → S
  pub remove : ℕ → S → S
  -- the elements by their indices, for `length` and `at`
  pub values : S → List ℕ
  pub contains-empty : (x : ℕ) → contains x empty ≡ false
  pub contains-add :
      (x a : ℕ) (s : S) → contains x (add a s) ≡ (if x == a then true else contains x s)
  pub contains-remove :
      (x a : ℕ) (s : S) → contains x (remove a s) ≡ (if x == a then false else contains x s)
  pub count-values : (x : ℕ) (s : S) → count x (values s) ≡ (if contains x s then 1 else 0)

module _ {S : Type 0} (sets : EnumerableSet S) where
  abbrev pub size : S → ℕ
  size s = length (sets.values s)

  abbrev pub at : S → ℕ → View ℕ
  at s index = elim (get_elem? (sets.values s) index) [
    | none ↦ err "EnumerableSet: index out of bounds"
    | some a ↦ ok a
  ]

-- A list that stands for the set of its elements.
unfoldable pub distinct : List ℕ → List ℕ
distinct [] = []
distinct (x ∷ xs) = let rest = distinct xs in if has_id x xs then rest else x ∷ rest

unfoldable pub without : ℕ → List ℕ → List ℕ
without a [] = []
without a (x ∷ xs) = let rest = without a xs in if x == a then rest else x ∷ rest

pub has_id-cons :
    (x a : ℕ) (xs : List ℕ) → has_id x (a ∷ xs) ≡ (if x == a then true else has_id x xs)
unfolding has_id
has_id-cons x a xs = ground arith

pub has_id-without :
    (x a : ℕ) (xs : List ℕ) → has_id x (without a xs) ≡ (if x == a then false else has_id x xs)
unfolding has_id without
has_id-without x a [] = ground arith
has_id-without x a (y ∷ xs) = ground (arith, has_id-without x a xs)

pub count-distinct : (x : ℕ) (xs : List ℕ) → count x (distinct xs) ≡ (if has_id x xs then 1 else 0)
unfolding has_id distinct count
count-distinct x [] = refl
count-distinct x (y ∷ xs) = ground (arith, count-distinct x xs)

unfoldable pub listed : EnumerableSet (List ℕ)
unfolding has_id
listed = record {
  empty = [];
  contains = has_id;
  add = ◌∷◌;
  remove = without;
  values = distinct;
  contains-empty = λ x. refl;
  contains-add = has_id-cons;
  contains-remove = has_id-without;
  count-values = count-distinct;
}
