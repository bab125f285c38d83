-- ===== src/Strategies/Budget.antt =====
-- The loop over the underlyers of one strategy: no stablecoin is overspent, and the strategy stays
-- within its share of the total.
use apy_core_public.Base.{
  ℕ, suc, ◌*◌, ◌≡◌, refl, Bool, true, false, inl, inr, List, [], ◌∷◌, arith, All, map, foldl,
  Bool-cases, if◌then◌else◌,
}
use apy_core_public.Base.Int.{ℤ, pos, pos_part, ◌+ℤ◌, ◌*ℤ◌, ◌/ℤ◌, ◌≤ℤ◌, int_laws}
use apy_core_public.Strategies.Amounts.{
  Underlyer, Balances, get, set, same, unit, put, denormalize, Amounts, pick_amount, renormalize,
  reduce,
}

pub get-set {ℓ} :
    {A : Type ℓ} (u v : Underlyer) (x : A) (b : Balances A)
    → get v (set u x b) ≡ (if same u v then x else get v b)
get-set Underlyer.dai Underlyer.dai x b = refl
get-set Underlyer.dai Underlyer.usdc x b = refl
get-set Underlyer.dai Underlyer.usdt x b = refl
get-set Underlyer.usdc Underlyer.dai x b = refl
get-set Underlyer.usdc Underlyer.usdc x b = refl
get-set Underlyer.usdc Underlyer.usdt x b = refl
get-set Underlyer.usdt Underlyer.dai x b = refl
get-set Underlyer.usdt Underlyer.usdc x b = refl
get-set Underlyer.usdt Underlyer.usdt x b = refl

pub eq_of_same : (u v : Underlyer) → same u v ≡ true → u ≡ v
eq_of_same u v h = ground arith

-- No stablecoin has been spent beyond its balance.
abbrev pub IsFunded : Balances ℕ → Balances ℤ → Type 0
IsFunded normalized d = (u : Underlyer) → (pos 0 ≤ℤ get u d) × (get u d ≤ℤ pos (get u normalized))

-- The amount of a stablecoin in `amounts`, in its own decimals.
abbrev pub spent : Underlyer → Amounts → ℕ
spent u [] = 0
spent u ((v, a) ∷ rest) = if same v u then pos_part a else spent u rest

pub pick_amount_nonneg :
    (T U : ℕ) (is_last : Bool) (R D : ℤ)
    → pos 0 ≤ℤ R
    → D ≤ℤ pos T
    → pos 0 ≤ℤ pick_amount (pos T) (pos U) is_last R D
unfolding pick_amount
pick_amount_nonneg T U is_last R D hr hd = grind int_laws

pub pick_amount-le-remaining :
    (T U : ℤ) (is_last : Bool) (R D : ℤ) → pick_amount T U is_last R D ≤ℤ R
unfolding pick_amount
pick_amount-le-remaining T U is_last R D = grind int_laws

pub pick_amount-le-budget :
    (T U k : ℕ) (is_last : Bool) (R D : ℤ)
    → D +ℤ pos (suc k * U) ≤ℤ pos T
    → (is_last ≡ true → k ≡ 0)
    → D +ℤ pick_amount (pos T) (pos U) is_last R D +ℤ pos (k * U) ≤ℤ pos T
unfolding pick_amount
pick_amount-le-budget T U k true R D h last = let e = last refl in rw e (grind int_laws)
pick_amount-le-budget T U k false R D h last = grind int_laws

pub spent-put :
    (u v : Underlyer) (a : ℤ) (am : Amounts)
    → spent v (put u a am) ≡ (if same u v then pos_part a else spent v am)
unfolding put
spent-put u v a [] = refl
spent-put u v a ((w, old) ∷ rest) = ground (arith, spent-put u v a rest, eq_of_same u w)

-- Rounding down to the token's decimals never gives more than the amount.
pub denormalize-le :
    (u : Underlyer) (a : ℤ) → pos 0 ≤ℤ a → pos (unit u * pos_part (denormalize u a)) ≤ℤ a
unfolding denormalize ◌/ℤ◌
denormalize-le Underlyer.dai a h = ground arith
denormalize-le Underlyer.usdc a h = ground arith
denormalize-le Underlyer.usdt a h = ground arith

pub denormalize_nonneg : (u : Underlyer) (a : ℤ) → pos 0 ≤ℤ a → pos 0 ≤ℤ denormalize u a
unfolding denormalize ◌/ℤ◌
denormalize_nonneg Underlyer.dai a h = h
denormalize_nonneg Underlyer.usdc a h = ground arith
denormalize_nonneg Underlyer.usdt a h = ground arith

abbrev pub AllNonneg : Amounts → Type 0
AllNonneg = All (λ e. pos 0 ≤ℤ e.1)

pub put-AllNonneg :
    (u : Underlyer) (a : ℤ) (am : Amounts) → pos 0 ≤ℤ a → AllNonneg am → AllNonneg (put u a am)
unfolding put
put-AllNonneg u a [] h k = (h, tt)
put-AllNonneg u a ((v, old) ∷ rest) h k = ground (arith, put-AllNonneg u a rest h k.1)

-- `normalized_sum` as a recursion on the entries.
abbrev pub sum : List ℤ → ℤ
sum [] = pos 0
sum (a ∷ rest) = a +ℤ sum rest

foldl-sum : (acc : ℤ) (as' : List ℤ) → foldl ◌+ℤ◌ acc as' ≡ acc +ℤ sum as'
foldl-sum acc [] = omega int_laws
foldl-sum acc (a ∷ rest) = rw (foldl-sum (acc +ℤ a) rest) (omega int_laws)

pub reduce-eq-sum : (as' : List ℤ) → reduce as' ≡ sum as'
unfolding reduce
reduce-eq-sum [] = refl
reduce-eq-sum (a ∷ rest) = foldl-sum a rest

pub renormalize-denormalize-le :
    (u : Underlyer) (a : ℤ) → pos 0 ≤ℤ a → renormalize (u, denormalize u a) ≤ℤ a
unfolding denormalize ◌/ℤ◌ ◌*ℤ◌
renormalize-denormalize-le Underlyer.dai a h = omega arith
renormalize-denormalize-le Underlyer.usdc a h = ground arith
renormalize-denormalize-le Underlyer.usdt a h = ground arith

pub renormalize_nonneg : (u : Underlyer) (a : ℤ) → pos 0 ≤ℤ a → pos 0 ≤ℤ renormalize (u, a)
unfolding ◌*ℤ◌
renormalize_nonneg Underlyer.dai a h = h
renormalize_nonneg Underlyer.usdc a h = ground arith
renormalize_nonneg Underlyer.usdt a h = ground arith

pub sum-put-le :
    (u : Underlyer) (a : ℤ) (am : Amounts)
    → AllNonneg am
    → sum (map renormalize (put u a am)) ≤ℤ renormalize (u, a) +ℤ sum (map renormalize am)
unfolding put
sum-put-le u a [] k = omega int_laws
sum-put-le u a ((v, old) ∷ rest) k = elim (Bool-cases (same u v)) [
  | inl e ↦ rw e (omega (int_laws, renormalize_nonneg v old k.0))
  | inr e ↦ rw e (omega (int_laws, sum-put-le u a rest k.1))
]
