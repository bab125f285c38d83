-- ===== src/Script/Returns.antt =====
-- Runs that end: rules for a script that returns in a given world.
use mathlib.Core.Path.{subst}
use apy_core_public.Base.{◌≡◌, refl, sym, ◌∙◌, Option, some, List, ◌∷◌}
use apy_core_public.Script.Core.{
  Value, Call, Script, done, fail, step, ◌>>=◌, fulfilled, World, finished, run,
}

module _ (w : World) where
  -- The run is finished with a value of which `P` holds.
  pub Returns : {A : Type 0} → (A → Type 0) → Script A → List Call → Type 0
  Returns {A} P m h = (a : A) × (h' : List Call) × (run w m h ≡ (finished a, h')) × P a

  pub Returns-done :
      {A : Type 0} (P : A → Type 0) (a : A) (h : List Call) → P a → Returns P (done a) h
  unfolding Returns run
  Returns-done P a h p = (a, h, refl, p)

  pub Returns-attempt :
      {A : Type 0} (P : A → Type 0) (c : Call) (k : Option Value → Script A) (h : List Call)
      → Returns P (k (w (c ∷ h))) (c ∷ h)
      → Returns P (step c done >>= k) h
  unfolding Returns run ◌>>=◌
  Returns-attempt P c k h r = r

  pub Returns-invoke :
      {A : Type 0} (P : A → Type 0) (c : Call) (k : Value → Script A) (h : List Call) (v : Value)
      → w (c ∷ h) ≡ some v
      → Returns P (k v) (c ∷ h)
      → Returns P (step c fulfilled >>= k) h
  unfolding Returns run ◌>>=◌
  Returns-invoke P c k h v e r = subst (λ o. Returns P (fulfilled o >>= k) (c ∷ h)) (sym e) r

  run-bind :
      {A B : Type 0} (m : Script A) (f : A → Script B) (h h' : List Call) (a : A)
      → run w m h ≡ (finished a, h')
      → run w (m >>= f) h ≡ run w (f a) h'
  unfolding run ◌>>=◌
  run-bind (done x) f h h' a e = cc
  run-bind (fail x) f h h' a e = cc
  run-bind (step c k) f h h' a e = run-bind (k (w (c ∷ h))) f (c ∷ h) h' a e

  pub Returns-bind :
      {A B : Type 0} (Q : A → Type 0) (P : B → Type 0) (m : Script A) (f : A → Script B)
      (h : List Call)
      → Returns Q m h
      → ((a : A) (h' : List Call) → Q a → Returns P (f a) h')
      → Returns P (m >>= f) h
  unfolding Returns
  Returns-bind Q P m f h (a, h', e, q) k =
      let (b, h'', e', p) = k a h' q in (b, h'', run-bind m f h h' a e ∙ e', p)
