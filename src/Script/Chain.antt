-- ===== src/Script/Chain.antt =====
-- The rules of `Monitor` for a first step and what follows it, as a do block has them.
use mathlib.Core.Path.{subst}
use apy_core_public.Base.{String, ◌≡◌, sym, Bool, true, Option, some}
use apy_core_public.Base.Dict.{lookup}
use apy_core_public.Script.Core.{
  Value, Call, Failure, Tx, Script, done, step, ◌>>=◌, fulfilled, require_that, as_string,
  address_of, transaction_of, truthy, required, required_variable, Env,
}
use apy_core_public.Script.Monitor.{
  Monitor, Obeys, Obeys-bind, Obeys-invoke, Obeys-attempt, Obeys-require_that, Obeys-as_string,
  Obeys-address_of, Obeys-transaction_of, Obeys-required, Obeys-required_variable,
}

module _ {S : Type 0} (M : Monitor S) {B : Type 0} (Post : S → B → Type 0) (s : S) where
  pub then_invoke :
      (c : Call) (f : Value → Script B)
      → M.Allows s c
      → ((v : Value) → Obeys M Post (M.next s c (some v)) (f v))
      → Obeys M Post s (step c fulfilled >>= f)
  then_invoke _ _ h k = Obeys-bind M Post s _ _ (Obeys-invoke M _ s _ h k)

  -- The same with the next state by its name.
  pub then_moves :
      (c : Call) (f : Value → Script B) (t : S)
      → M.Allows s c
      → ((v : Value) → M.next s c (some v) ≡ t)
      → ((v : Value) → Obeys M Post t (f v))
      → Obeys M Post s (step c fulfilled >>= f)
  then_moves c f t h e k =
      then_invoke c f h λ v. subst (λ u. Obeys M Post u (f v)) (sym (e v)) (k v)

  pub then_attempt :
      (c : Call) (f : Option Value → Script B)
      → M.Allows s c
      → ((o : Option Value) → Obeys M Post (M.next s c o) (f o))
      → Obeys M Post s (step c done >>= f)
  then_attempt _ _ h k = Obeys-bind M Post s _ _ (Obeys-attempt M _ s _ h k)

  pub then_as_string :
      (v : Value) (f : String → Script B)
      → ((a : String) → v ≡ Value.str a → Obeys M Post s (f a))
      → Obeys M Post s (as_string v >>= f)
  then_as_string _ _ k = Obeys-bind M Post s _ _ (Obeys-as_string M _ s _ k)

  pub then_address_of :
      (v : Value) (f : String → Script B)
      → ((a : String) → Obeys M Post s (f a))
      → Obeys M Post s (address_of v >>= f)
  then_address_of _ _ k = Obeys-bind M Post s _ _ (Obeys-address_of M _ s _ k)

  pub then_transaction_of :
      (v : Value) (f : Tx → Script B)
      → ((t : Tx) → Obeys M Post s (f t))
      → Obeys M Post s (transaction_of v >>= f)
  then_transaction_of _ _ k = Obeys-bind M Post s _ _ (Obeys-transaction_of M _ s _ k)

  pub then_required :
      {A : Type 0} (o : Option A) (e : Failure) (f : A → Script B)
      → ((a : A) → o ≡ some a → Obeys M Post s (f a))
      → Obeys M Post s (required o e >>= f)
  then_required _ _ _ k = Obeys-bind M Post s _ _ (Obeys-required M _ s _ _ k)

  pub then_required_variable :
      (env : Env) (name message : String) (f : String → Script B)
      → ((a : String) → truthy (lookup name env.variables) ≡ some a → Obeys M Post s (f a))
      → Obeys M Post s (required_variable env name message >>= f)
  then_required_variable _ _ _ _ k = Obeys-bind M Post s _ _ (Obeys-required_variable M _ s _ _ _ k)

  pub then_require_that :
      (b : Bool) (message : String) (f : Unit {0} → Script B)
      → (b ≡ true → Obeys M Post s (f tt))
      → Obeys M Post s (require_that b message >>= f)
  then_require_that _ _ _ k = Obeys-bind M Post s _ _ (Obeys-require_that M _ s _ _ k)

-- A script that leaves the state as it is, whatever it returns.
abbrev pub Neutral : {S : Type 0} → Monitor S → S → {A : Type 0} → Script A → Type 1
Neutral {S} M s {A} m = (Post : S → A → Type 0) → ((a : A) → Post s a) → Obeys M Post s m

pub then-Neutral :
    {S : Type 0} (M : Monitor S) {B : Type 0} (Post : S → B → Type 0) (s : S) {A : Type 0}
    (m : Script A) (f : A → Script B)
    → Neutral M s m
    → ((a : A) → Obeys M Post s (f a))
    → Obeys M Post s (m >>= f)
then-Neutral M Post s m f h k = Obeys-bind M Post s m f (h _ k)
