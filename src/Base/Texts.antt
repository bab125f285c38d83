-- ===== src/Base/Texts.antt =====
-- JavaScript strings: their character codes, change of case, and the split at a separator. Only
-- ASCII letters change case, which are all the letters that the program's names hold.
use Prim.Native.Nat.{ℕ, zero, suc, ◌+◌, ◌-◌, ◌<◌}
use Prim.Native.Char.{Char, char, code, IsScalar}
use Prim.Native.String.{String, ◌++◌}
use mathlib.Core.Path.{◌≡◌, refl}
use mathlib.Core.Logic.{dite}
use mathlib.Core.List.{List, [], ◌∷◌}
use native.Mathlib.Omega.{arith}
use native.Mathlib.Decide.{dec_lt}
use apy_core_public.Base.Checks.{◌==◌, leb, if◌then◌else◌}

abbrev pub codes : String → List ℕ
codes String.[] = []
codes (String.◌∷◌ c s) = code c ∷ codes s

IsScalar-of_lt : (n : ℕ) → n < 55296 → IsScalar n
IsScalar-of_lt n h = ground arith

pub upper_char : Char → Char
unfolding dec_lt IsScalar-of_lt
upper_char (char n p) =
    if leb b'a' n
    then dite (dec_lt n 123) (λ h. char (n - 32) (IsScalar-of_lt (n - 32) (omega arith)))
        (λ _. char n p)
    else char n p

pub lower_char : Char → Char
unfolding dec_lt IsScalar-of_lt
lower_char (char n p) =
    if leb b'A' n
    then dite (dec_lt n 91) (λ h. char (n + 32) (IsScalar-of_lt (n + 32) (omega arith)))
        (λ _. char n p)
    else char n p

-- `s.toUpperCase()`
unfoldable pub to_upper : String → String
unfolding upper_char
to_upper String.[] = ""
to_upper (String.◌∷◌ c s) = String.◌∷◌ (upper_char c) (to_upper s)

-- `s.toLowerCase()`
unfoldable pub to_lower : String → String
unfolding lower_char
to_lower String.[] = ""
to_lower (String.◌∷◌ c s) = String.◌∷◌ (lower_char c) (to_lower s)

abbrev attach : Char → List String → List String
attach c [] = String.◌∷◌ c "" ∷ []
attach c (w ∷ ws) = String.◌∷◌ c w ∷ ws

-- `s.split(sep)` at a separator of one character.
unfoldable pub split : ℕ → String → List String
split sep String.[] = "" ∷ []
split sep (String.◌∷◌ c s) =
    let rest = split sep s in if code c == sep then "" ∷ rest else attach c rest

-- `words.join("")`
unfoldable pub join : List String → String
join [] = ""
join (w ∷ ws) = w ++ join ws

to_upper_test : to_upper "Usdc-eth 1" ≡ "USDC-ETH 1"
unfolding to_upper
to_upper_test = refl

split_test : split b'-' "curve-3pool" ≡ "curve" ∷ "3pool" ∷ []
unfolding split
split_test = refl

abbrev pub count_chars : String → ℕ
count_chars String.[] = 0
count_chars (String.◌∷◌ c s) = suc (count_chars s)

abbrev pub drop_chars : ℕ → String → String
drop_chars zero s = s
drop_chars (suc n) String.[] = ""
drop_chars (suc n) (String.◌∷◌ c s) = drop_chars n s

abbrev pub first_char : String → String
first_char String.[] = ""
first_char (String.◌∷◌ c s) = String.◌∷◌ c ""
