-- ===== src/TokenUnit/Digits.antt =====
-- Decimal digits: the number that they spell, and what padding with zeros does to it.
use native.Mathlib.Nat.{pow-suc}
use apy_core_public.Base.{
  All-append, ℕ, zero, suc, ◌+◌, ◌-◌, ◌*◌, ◌^◌, ◌≤◌, ◌≡◌, ◌≢◌, refl, ap, [], ◌∷◌, ◌++◌, arith,
  append_assoc, append-nil, length, length-append, replicate, ltb, Bool-cases, inl, inr, ◌∙◌, All,
}
use apy_core_public.TokenUnit.Convert.{Text, pad, split_dot}

abbrev pub IsDigit : ℕ → Type 0
IsDigit c = (b'0' ≤ c) × (c ≤ b'9')

abbrev pub IsDigits : Text → Type 0
IsDigits = All IsDigit

-- The number that digits spell behind `acc`.
abbrev pub value_from : ℕ → Text → ℕ
value_from acc [] = acc
value_from acc (c ∷ s) = value_from (acc * 10 + (c - b'0')) s

abbrev pub value : Text → ℕ
value = value_from 0

value_from-append :
    (s t : Text) (acc : ℕ) → value_from acc (s ++ t) ≡ value_from (value_from acc s) t
value_from-append [] t acc = refl
value_from-append (c ∷ s) t acc = value_from-append s t (acc * 10 + (c - b'0'))

abbrev pub zeros : ℕ → Text
zeros n = replicate n b'0'

value_from-zeros : (n acc : ℕ) → value_from acc (zeros n) ≡ acc * 10 ^ n
value_from-zeros zero acc = omega arith
value_from-zeros (suc n) acc =
    omega (arith, value_from-zeros n (acc * 10 + 0), ap (λ (t : ℕ). acc * t) (pow-suc 10 n))

pub value-append-zeros : (s : Text) (n : ℕ) → value (s ++ zeros n) ≡ value s * 10 ^ n
value-append-zeros s n = value_from-append s (zeros n) 0 ∙ value_from-zeros n (value s)

replicate-suc : (n : ℕ) (s : Text) → (s ++ b'0' ∷ []) ++ zeros n ≡ s ++ zeros (suc n)
replicate-suc n s = append_assoc s (b'0' ∷ []) (zeros n)

-- With enough fuel the loop appends the zeros that are missing, and no more.
pub pad-eq-zeros :
    (fuel : ℕ) (s : Text) (d : ℕ) → d ≤ length s + fuel → pad fuel s d ≡ s ++ zeros (d - length s)
unfolding pad
pad-eq-zeros zero s d h = let e : d - length s ≡ 0 = omega arith in rw (e, replicate, append-nil)
pad-eq-zeros (suc fuel) s d h = elim (Bool-cases (ltb (length s) d)) [
  | inl more ↦
      let e : d - length s ≡ suc (d - length (s ++ b'0' ∷ [])) =
        ground (arith, length-append s (b'0' ∷ [])) in
      rw (more, e)
        (pad-eq-zeros fuel (s ++ b'0' ∷ []) d (omega (arith, length-append s (b'0' ∷ [])))
          ∙ replicate-suc _ s)
  | inr done ↦ let e : d - length s ≡ 0 = ground arith in rw (done, e, replicate, append-nil)
]

abbrev pub LacksDot : Text → Type 0
LacksDot = All (λ c. c ≢ b'.')

pub IsDigits-LacksDot : (s : Text) → IsDigits s → LacksDot s
IsDigits-LacksDot [] h = tt
IsDigits-LacksDot (c ∷ s) h = (omega arith, IsDigits-LacksDot s h.1)

-- The parts of a text with one dot, and of one with none. What stands behind a dot in `rest` is split
-- off in its turn.
pub split_dot-append :
    (w rest : Text) → LacksDot w → split_dot (w ++ b'.' ∷ rest) ≡ w ∷ split_dot rest
unfolding split_dot
split_dot-append [] rest h = refl
split_dot-append (c ∷ w) rest h = ground (arith, split_dot-append w rest h.1)

pub split_dot-LacksDot : (s : Text) → LacksDot s → split_dot s ≡ s ∷ []
unfolding split_dot
split_dot-LacksDot [] h = refl
split_dot-LacksDot (c ∷ s) h = ground (arith, split_dot-LacksDot s h.1)

pub IsDigits-append : (s t : Text) → IsDigits s → IsDigits t → IsDigits (s ++ t)
IsDigits-append = All-append IsDigit

pub IsDigits-zeros : (n : ℕ) → IsDigits (zeros n)
IsDigits-zeros zero = tt
IsDigits-zeros (suc n) = (omega arith, IsDigits-zeros n)
