-- ===== src/Contract/Call.antt =====
-- Calls of a contract. A call that reverts leaves the state as it was, so only a call that succeeds
-- returns one. Addresses and 32-byte values are numbers, and the zero address is 0.
use apy_core_public.Base.{
  ℕ, ◌==◌, String, Bool, true, false, List, [], ◌∷◌, if◌then◌else◌, ◌≡◌, refl, ◌⊎◌, inl, inr,
}
use apy_core_public.Base.Exec.{Result, ok, err}

-- The reason of a revert is its text.
abbrev pub View : Type 0 → Type 0
View A = Result String A

abbrev pub Call : Type 0 → Type 0 → Type 0
Call S A = S → View (A × S)

infixl 5 ◌>>=◌ ◌>>◌
abbrev pub ◌>>=◌ : {A B : Type 0} → View A → (A → View B) → View B
ok a >>= f = f a
err e >>= f = err e

abbrev pub ◌>>◌ : {A B : Type 0} → View A → View B → View B
m >> n = m >>= λ _. n

-- `require(test, reason)`
abbrev pub require : Bool → String → View (Unit {0})
require true reason = ok tt
require false reason = err reason

-- A mapping: every key has a value, which is 0 where none was written.
abbrev pub Mapping : Type 0 → Type 0
Mapping A = ℕ → A

unfoldable pub update : {A : Type 0} → ℕ → A → Mapping A → Mapping A
update k v m j = if j == k then v else m j

-- A mapping after a loop over two lists: a key gets the value at its last place.
unfoldable pub assigned : {A : Type 0} → List ℕ → List A → Mapping A → Mapping A
assigned [] vs m = m
assigned (k ∷ ks) [] m = m
assigned (k ∷ ks) (v ∷ vs) m = assigned ks vs (update k v m)

pub View-cases : {A : Type 0} (v : View A) → ((a : A) × (v ≡ ok a)) ⊎ ((e : String) × (v ≡ err e))
View-cases (ok a) = inl (a, refl)
View-cases (err e) = inr (e, refl)

-- A step of a call that succeeds has not failed.
pub of_ok : {A : Type 0} (v : View A) → ((e : String) → v ≡ err e → ⊥) → (a : A) × (v ≡ ok a)
of_ok (ok a) h = (a, refl)
of_ok (err e) h = absurd (h e refl)
