-- ===== src/Script/Monitor.antt =====
-- Properties of all runs of a script. A monitor watches the calls and their answers: it says which
-- calls its state allows, and how a call and its answer change the state.
use mathlib.Core.Path.{subst}
use apy_core_public.Base.{ℕ, String, ◌≡◌, refl, Bool, true, false, Option, none, some, List, ◌∷◌}
use apy_core_public.Base.Dict.{lookup}
use apy_core_public.Script.Core.{
  Value, Call, Failure, Tx, Script, done, fail, step, ◌>>=◌, fulfilled, require_that, when,
  as_string, as_number, as_flag, as_strings, address_of, transaction_of, truthy, required,
  required_variable, Env, World, Outcome, finished, run,
}

pub record Monitor (S : Type 0) : Type 1 where
  pub Allows : S → Call → Type 0
  pub next : S → Call → Option Value → S

module _ {S : Type 0} (M : Monitor S) where
  -- Whatever is answered, every call is allowed, and a script that is done leaves `Post`.
  unfoldable pub Obeys : {A : Type 0} → (S → A → Type 0) → S → Script A → Type 0
  Obeys Post s (done a) = Post s a
  Obeys Post s (fail e) = Unit
  Obeys Post s (step c k) = M.Allows s c × ((o : Option Value) → Obeys Post (M.next s c o) (k o))

  pub Obeys-done :
      {A : Type 0} (Post : S → A → Type 0) (s : S) (a : A) → Post s a → Obeys Post s (done a)
  unfolding Obeys
  Obeys-done Post s a h = h

  pub Obeys-fail :
      {A : Type 0} (Post : S → A → Type 0) (s : S) (e : Failure) → Obeys Post s (fail e)
  unfolding Obeys
  Obeys-fail Post s e = tt

  pub Obeys-bind :
      {A B : Type 0} (Post : S → B → Type 0) (s : S) (m : Script A) (f : A → Script B)
      → Obeys (λ t a. Obeys Post t (f a)) s m
      → Obeys Post s (m >>= f)
  unfolding Obeys ◌>>=◌
  Obeys-bind Post s (done a) f h = h
  Obeys-bind Post s (fail e) f h = tt
  Obeys-bind Post s (step c k) f h = (h.0, λ o. Obeys-bind Post (M.next s c o) (k o) f (h.1 o))

  pub Obeys-invoke :
      (Post : S → Value → Type 0) (s : S) (c : Call)
      → M.Allows s c
      → ((v : Value) → Post (M.next s c (some v)) v)
      → Obeys Post s (step c fulfilled)
  unfolding Obeys
  Obeys-invoke Post s c h k = (h, elim [ none ↦ tt | some v ↦ k v ])

  pub Obeys-attempt :
      (Post : S → Option Value → Type 0) (s : S) (c : Call)
      → M.Allows s c
      → ((o : Option Value) → Post (M.next s c o) o)
      → Obeys Post s (step c done)
  unfolding Obeys
  Obeys-attempt Post s c h k = (h, k)

  pub Obeys-require_that :
      (Post : S → Unit {0} → Type 0) (s : S) (b : Bool) (message : String)
      → (b ≡ true → Post s tt)
      → Obeys Post s (require_that b message)
  unfolding Obeys require_that
  Obeys-require_that Post s true message h = h refl
  Obeys-require_that Post s false message h = tt

  pub Obeys-when :
      (Post : S → Unit {0} → Type 0) (s : S) (b : Bool) (m : Script (Unit {0}))
      → Obeys Post s m
      → Post s tt
      → Obeys Post s (when b m)
  unfolding Obeys when
  Obeys-when Post s true m h k = h
  Obeys-when Post s false m h k = k

  pub Obeys-as_string :
      (Post : S → String → Type 0) (s : S) (v : Value)
      → ((a : String) → v ≡ Value.str a → Post s a)
      → Obeys Post s (as_string v)
  unfolding Obeys as_string
  Obeys-as_string Post s (Value.str a) h = h a refl
  Obeys-as_string Post s _ h = tt

  pub Obeys-as_flag :
      (Post : S → Bool → Type 0) (s : S) (v : Value)
      → ((a : Bool) → Post s a)
      → Obeys Post s (as_flag v)
  unfolding Obeys as_flag
  Obeys-as_flag Post s (Value.flag a) h = h a
  Obeys-as_flag Post s _ h = tt

  pub Obeys-as_number :
      (Post : S → ℕ → Type 0) (s : S) (v : Value)
      → ((a : ℕ) → Post s a)
      → Obeys Post s (as_number v)
  unfolding Obeys as_number
  Obeys-as_number Post s (Value.num a) h = h a
  Obeys-as_number Post s _ h = tt

  pub Obeys-as_strings :
      (Post : S → List String → Type 0) (s : S) (v : Value)
      → ((a : List String) → Post s a)
      → Obeys Post s (as_strings v)
  unfolding Obeys as_strings
  Obeys-as_strings Post s (Value.strs a) h = h a
  Obeys-as_strings Post s _ h = tt

  pub Obeys-address_of :
      (Post : S → String → Type 0) (s : S) (v : Value)
      → ((a : String) → Post s a)
      → Obeys Post s (address_of v)
  unfolding Obeys address_of
  Obeys-address_of Post s (Value.signer a) h = h a
  Obeys-address_of Post s (Value.contract a) h = h a
  Obeys-address_of Post s (Value.deployed a t) h = h a
  Obeys-address_of Post s _ h = tt

  pub Obeys-transaction_of :
      (Post : S → Tx → Type 0) (s : S) (v : Value)
      → ((a : Tx) → Post s a)
      → Obeys Post s (transaction_of v)
  unfolding Obeys transaction_of
  Obeys-transaction_of Post s (Value.deployed a t) h = h t
  Obeys-transaction_of Post s (Value.transaction t) h = h t
  Obeys-transaction_of Post s _ h = tt

  pub Obeys-required :
      {A : Type 0} (Post : S → A → Type 0) (s : S) (o : Option A) (e : Failure)
      → ((a : A) → o ≡ some a → Post s a)
      → Obeys Post s (required o e)
  unfolding Obeys required
  Obeys-required Post s none e h = tt
  Obeys-required Post s (some a) e h = h a refl

  pub Obeys-test :
      {A : Type 0} (Post : S → A → Type 0) (s : S) (b : Bool) (m m' : Script A)
      → Obeys Post s m
      → Obeys Post s m'
      → Obeys Post s (elim b [ true ↦ m | false ↦ m' ])
  Obeys-test Post s true m m' h k = h
  Obeys-test Post s false m m' h k = k

  pub Obeys-or_done :
      {A : Type 0} (Post : S → A → Type 0) (s : S) (o : Option A) (m : Script A)
      → Obeys Post s m
      → ((a : A) → o ≡ some a → Post s a)
      → Obeys Post s (elim o [ none ↦ m | some a ↦ done a ])
  unfolding Obeys
  Obeys-or_done Post s none m h k = h
  Obeys-or_done Post s (some a) m h k = k a refl

  pub Obeys-required_variable :
      (Post : S → String → Type 0) (s : S) (env : Env) (name message : String)
      → ((a : String) → truthy (lookup name env.variables) ≡ some a → Post s a)
      → Obeys Post s (required_variable env name message)
  unfolding required_variable
  Obeys-required_variable Post s env name message h = Obeys-required Post s _ _ h

-- The calls of a run, first to last, as the monitor follows them: each was allowed.
pub data Follows {S : Type 0} (M : Monitor S) (w : World) (s : S) (h : List Call)
    : S → List Call → Type 0 where
  start : Follows M w s h s h
  called :
      {t : S} {g : List Call} (c : Call)
      → Follows M w s h t g
      → M.Allows t c
      → Follows M w s h (M.next t c (w (c ∷ g))) (c ∷ g)

-- What holds of a run that followed the monitor.
pub record RunObeys {S A : Type 0} (M : Monitor S) (w : World) (s : S) (h : List Call)
    (Post : S → A → Type 0) (r : Outcome A × List Call) : Type 0 where
  pub state : S
  pub follows : Follows M w s h state r.1
  pub post : (a : A) → r.0 ≡ finished a → Post state a

finished-inj : {A : Type 0} {a b : A} → finished a ≡ finished b → a ≡ b
finished-inj e = cc

-- A script that obeys a monitor does so in every world, and what it leaves holds of the run's end.
pub run-Obeys :
    {S A : Type 0} (M : Monitor S) (w : World) (Post : S → A → Type 0) (m : Script A) (s₀ s : S)
    (h₀ h : List Call)
    → Follows M w s₀ h₀ s h
    → Obeys M Post s m
    → RunObeys M w s₀ h₀ Post (run w m h)
unfolding Obeys run
run-Obeys M w Post (done a) s₀ s h₀ h f ob = record {
  state = s;
  follows = f;
  post = λ b e. subst (Post s) (finished-inj e) ob;
}
run-Obeys M w Post (fail e) s₀ s h₀ h f ob = record { state = s; follows = f; post = λ b e. cc }
run-Obeys M w Post (step c k) s₀ s h₀ h f ob =
    run-Obeys M w Post (k (w (c ∷ h))) s₀ (M.next s c (w (c ∷ h))) h₀ (c ∷ h)
      (Follows.called c f ob.0) (ob.1 (w (c ∷ h)))
