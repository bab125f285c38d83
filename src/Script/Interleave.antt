-- ===== src/Script/Interleave.antt =====
-- `Promise.all`: scripts that run at once. A schedule says which of them takes the next step; when it
-- is used up, they run on one after another. The first that fails ends all: what the others call
-- after that is not followed.
use mathlib.Core.Path.{subst}
use apy_core_public.Base.{ℕ, zero, suc, ◌≡◌, sym, Option, none, some, List, [], ◌∷◌, map}
use apy_core_public.Script.Core.{
  Value, Call, Script, done, fail, step, fulfilled, ◌>>=◌, as_string, as_strings, address_of,
}
use apy_core_public.Script.Monitor.{Monitor, Obeys}
use apy_core_public.Script.Chain.{Neutral}

unfoldable pub sequence : {A : Type 0} → List (Script A) → Script (List A)
sequence [] = done []
sequence (m ∷ ms) = m >>= λ a. sequence ms >>= λ rest. done (a ∷ rest)

-- One step of the script at a place, where it has one.
unfoldable pub advance :
    {A B : Type 0} → ℕ → List (Script A) → (List (Script A) → Script B) → Script B
advance i [] k = k []
advance zero (done a ∷ ms) k = k (done a ∷ ms)
advance zero (fail e ∷ ms) k = fail e
advance zero (step c g ∷ ms) k = step c (λ o. k (g o ∷ ms))
advance (suc i) (m ∷ ms) k = advance i ms (λ rest. k (m ∷ rest))

unfoldable pub all : {A : Type 0} → List ℕ → List (Script A) → Script (List A)
all [] ms = sequence ms
all (i ∷ schedule) ms = advance i ms (λ rest. all schedule rest)

module _ {S : Type 0} (M : Monitor S) (s : S) where
  -- Every call of the script is allowed in the state, and leaves it.
  unfoldable pub Quiet : {A : Type 0} → Script A → Type 0
  Quiet (done a) = Unit
  Quiet (fail e) = Unit
  Quiet (step c k) = M.Allows s c × ((o : Option Value) → (M.next s c o ≡ s) × Quiet (k o))

  unfoldable pub AllQuiet : {A : Type 0} → List (Script A) → Type 0
  AllQuiet [] = Unit
  AllQuiet (m ∷ ms) = Quiet m × AllQuiet ms

  pub Quiet-bind :
      {A B : Type 0} (m : Script A) (f : A → Script B)
      → Quiet m
      → ((a : A) → Quiet (f a))
      → Quiet (m >>= f)
  unfolding Quiet ◌>>=◌
  Quiet-bind (done a) f q h = h a
  Quiet-bind (fail e) f q h = tt
  Quiet-bind (step c k) f q h = (q.0, λ o. ((q.1 o).0, Quiet-bind (k o) f (q.1 o).1 h))

  Quiet-sequence : {A : Type 0} (ms : List (Script A)) → AllQuiet ms → Quiet (sequence ms)
  unfolding Quiet AllQuiet sequence
  Quiet-sequence [] q = tt
  Quiet-sequence (m ∷ ms) q =
      Quiet-bind m _ q.0 λ a. Quiet-bind (sequence ms) _ (Quiet-sequence ms q.1) λ rest. tt

  Quiet-advance :
      {A B : Type 0} (i : ℕ) (ms : List (Script A)) (k : List (Script A) → Script B)
      → AllQuiet ms
      → ((rest : List (Script A)) → AllQuiet rest → Quiet (k rest))
      → Quiet (advance i ms k)
  unfolding Quiet AllQuiet advance
  Quiet-advance i [] k q h = h [] tt
  Quiet-advance zero (done a ∷ ms) k q h = h (done a ∷ ms) q
  Quiet-advance zero (fail e ∷ ms) k q h = tt
  Quiet-advance zero (step c g ∷ ms) k q h =
      (q.0.0, λ o. ((q.0.1 o).0, h (g o ∷ ms) ((q.0.1 o).1, q.1)))
  Quiet-advance (suc i) (m ∷ ms) k q h = Quiet-advance i ms _ q.1 λ rest r. h (m ∷ rest) (q.0, r)

  -- Scripts that leave the state leave it together, whatever the schedule is.
  Quiet-all :
      {A : Type 0} (schedule : List ℕ) (ms : List (Script A))
      → AllQuiet ms
      → Quiet (all schedule ms)
  unfolding all
  Quiet-all [] ms q = Quiet-sequence ms q
  Quiet-all (i ∷ schedule) ms q = Quiet-advance i ms _ q λ rest r. Quiet-all schedule rest r

  AllQuiet-map :
      {A B : Type 0} (f : A → Script B) (xs : List A)
      → ((a : A) → Quiet (f a))
      → AllQuiet (map f xs)
  unfolding AllQuiet
  AllQuiet-map f [] h = tt
  AllQuiet-map f (x ∷ xs) h = (h x, AllQuiet-map f xs h)

  pub Quiet-all-map :
      {A B : Type 0} (schedule : List ℕ) (f : A → Script B) (xs : List A)
      → ((a : A) → Quiet (f a))
      → Quiet (all schedule (map f xs))
  Quiet-all-map schedule f xs h = Quiet-all schedule (map f xs) (AllQuiet-map f xs h)

  pub Quiet-Neutral : {A : Type 0} (m : Script A) → Quiet m → Neutral M s m
  unfolding Quiet Obeys
  Quiet-Neutral (done a) q Post h = h a
  Quiet-Neutral (fail e) q Post h = tt
  Quiet-Neutral (step c k) q Post h = (
    q.0,
    λ o. subst (λ t. Obeys M Post t (k o)) (sym (q.1 o).0) (Quiet-Neutral (k o) (q.1 o).1 Post h),
  )

  pub Quiet-invoke :
      (c : Call) → M.Allows s c → ((o : Option Value) → M.next s c o ≡ s) → Quiet (step c fulfilled)
  unfolding Quiet
  Quiet-invoke c h k = (h, elim [ none ↦ (k none, tt) | some v ↦ (k (some v), tt) ])

  pub Quiet-as_string : (v : Value) → Quiet (as_string v)
  unfolding Quiet as_string
  Quiet-as_string (Value.str a) = tt
  Quiet-as_string _ = tt

  pub Quiet-as_strings : (v : Value) → Quiet (as_strings v)
  unfolding Quiet as_strings
  Quiet-as_strings (Value.strs a) = tt
  Quiet-as_strings _ = tt

  pub Quiet-address_of : (v : Value) → Quiet (address_of v)
  unfolding Quiet address_of
  Quiet-address_of (Value.signer a) = tt
  Quiet-address_of (Value.contract a) = tt
  Quiet-address_of (Value.deployed a t) = tt
  Quiet-address_of _ = tt

  pub Quiet-done : {A : Type 0} (a : A) → Quiet (done a)
  unfolding Quiet
  Quiet-done a = tt
