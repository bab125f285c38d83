-- ===== src/TokenUnit/Convert.antt =====
-- The definitions of utils/helpers/unit.js. A text is the list of its character codes.
use apy_core_public.Base.{
  ℕ, zero, suc, ◌^◌, Bool, false, not, ◌&&◌, Option, none, some, List, [], ◌∷◌, ◌++◌, ltb, ◌==◌,
  if◌then◌else◌, length,
}
use apy_core_public.Base.Int.{ℤ, pos, ◌+ℤ◌, ◌*ℤ◌}

abbrev pub Text : Type 0
Text = List ℕ

-- `amount`: a `BigNumber`, or anything else as its `toString()`.
pub data Amount : Type 0 where
  big_number : ℤ → Amount
  text : Text → Amount

-- The error that the code throws, and the one that `BigNumber.from` throws.
pub data Error : Type 0 where
  too_long not_a_number : Error

pub data Result : Type 0 where
  ok : ℤ → Result
  err : Error → Result

abbrev attach : ℕ → List Text → List Text
attach c [] = (c ∷ []) ∷ []
attach c (w ∷ ws) = (c ∷ w) ∷ ws

-- `amount.split(".")`
unfoldable pub split_dot : Text → List Text
split_dot [] = [] ∷ []
split_dot (c ∷ s) = let rest = split_dot s in if c == b'.' then [] ∷ rest else attach c rest

-- `s || "0"` for a part of the split; a missing part is `undefined`.
abbrev pub or_zero : List Text → Text
or_zero [] = b'0' ∷ []
or_zero ([] ∷ ps) = b'0' ∷ []
or_zero ((c ∷ s) ∷ ps) = c ∷ s

abbrev pub tail : List Text → List Text
tail [] = []
tail (p ∷ ps) = ps

abbrev pub is_zero_text : Text → Bool
is_zero_text (c ∷ []) = c == b'0'
is_zero_text _ = false

-- `while (fracPart.length < decimals) fracPart += "0"`, with fuel.
unfoldable pub pad : ℕ → Text → ℕ → Text
pad zero frac decimals = frac
pad (suc fuel) frac decimals =
    let rest = pad fuel (frac ++ b'0' ∷ []) decimals in
    if ltb (length frac) decimals then rest else frac

-- `decimals` is 18 where it is left out.
abbrev pub or_18 : Option ℕ → ℕ
or_18 none = 18
or_18 (some d) = d

-- `BigNumber.from` on a text is a parameter; `none` is the error that it throws.
module _ (from : Text → Option ℤ) where
  abbrev combine : Option ℤ → Option ℤ → ℕ → Result
  combine none _ decimals = err not_a_number
  combine (some frac) none decimals = err not_a_number
  combine (some frac) (some whole) decimals = ok (whole *ℤ pos (10 ^ decimals) +ℤ frac)

  -- Each round of the loop adds a digit, so `decimals` rounds are enough fuel.
  unfoldable pub convert : Text → Text → ℕ → Result
  unfolding pad
  convert whole frac decimals =
      if not (is_zero_text frac) && ltb decimals (length frac)
      then err too_long
      else combine (from (pad decimals frac decimals)) (from whole) decimals

  unfoldable pub token_amount_to_big_number : Amount → Option ℕ → Result
  unfolding convert split_dot
  token_amount_to_big_number (big_number n) decimals = ok n
  token_amount_to_big_number (text s) decimals =
      let parts = split_dot s in convert (or_zero parts) (or_zero (tail parts)) (or_18 decimals)

  -- `dai`
  unfoldable pub dai : Amount → Result
  unfolding token_amount_to_big_number
  dai amount = token_amount_to_big_number amount (some 18)
