-- ===== src/TokenUnit/Tests.antt =====
-- Runs of the conversion over a reader of decimal numbers, and its theorems at concrete texts.
use apy_core_public.Base.{
  ℕ, ◌+◌, ◌*◌, ◌^◌, ◌≡◌, ◌≢◌, refl, Bool, true, false, ◌&&◌, Option, none, some, [], ◌∷◌, ◌++◌,
  arith, leb, ◌==◌, le→leb, if◌then◌else◌,
}
use apy_core_public.Base.Int.{ℤ, pos, negsuc, sub_ℕ, ◌+ℤ◌, ◌-ℤ◌, ◌*ℤ◌}
use apy_core_public.Base.Texts.{codes}
use apy_core_public.TokenUnit.Convert.{
  Text, text, Result, ok, err, too_long, not_a_number, token_amount_to_big_number,
}
use apy_core_public.TokenUnit.Digits.{IsDigits, value}
use apy_core_public.TokenUnit.Exact.{
  ReadsDecimals, token_amount-decimal, token_amount-second_dot, token_amount-negative,
}

are_digits : Text → Bool
are_digits [] = true
are_digits (c ∷ s) = leb b'0' c && leb c b'9' && are_digits s

are_digits_lem : (s : Text) → IsDigits s → are_digits s ≡ true
unfolding are_digits
are_digits_lem [] h = refl
are_digits_lem (c ∷ s) h = rw (le→leb _ _ h.0.0, le→leb _ _ h.0.1, are_digits_lem s h.1)

read_digits : Text → Option ℕ
unfolding are_digits
read_digits [] = none
read_digits (c ∷ s) = if are_digits (c ∷ s) then some (value (c ∷ s)) else none

reader : Text → Option ℤ
unfolding read_digits
reader [] = none
reader (c ∷ s) =
    if c == b'-'
    then elim (read_digits s) [ none ↦ none | some n ↦ some (sub_ℕ 0 n) ]
    else elim (read_digits (c ∷ s)) [ none ↦ none | some n ↦ some (pos n) ]

read_digits_lem : (s : Text) → s ≢ [] → IsDigits s → read_digits s ≡ some (value s)
unfolding read_digits
read_digits_lem [] h k = absurd (h refl)
read_digits_lem (c ∷ s) h k = rw (are_digits_lem (c ∷ s) k)

reader-ReadsDecimals : ReadsDecimals reader
unfolding reader
reader-ReadsDecimals = record { digits = digits; minus = minus }
  where
    digits : (s : Text) → s ≢ [] → IsDigits s → reader s ≡ some (pos (value s))
    digits [] h k = absurd (h refl)
    digits (c ∷ s) h k =
        let plain : (c == b'-') ≡ false = ground arith in rw (plain, read_digits_lem (c ∷ s) h k)

    minus : (s : Text) → s ≢ [] → IsDigits s → reader (b'-' ∷ s) ≡ some (sub_ℕ 0 (value s))
    minus s h k = rw (read_digits_lem s h k)

run : Text → Option ℕ → Result
unfolding token_amount_to_big_number reader ◌+ℤ◌ ◌*ℤ◌
run s d = token_amount_to_big_number reader (text s) d

runs :
    (run (codes "1.5") (some 6) ≡ ok (pos 1500000))
    × (run (codes "50") none ≡ ok (pos (50 * 10 ^ 18)))
    × (run (codes ".25") (some 2) ≡ ok (pos 25))
    × (run (codes "7.") (some 0) ≡ ok (pos 7))
    × (run (codes "7.0") (some 0) ≡ ok (pos 7))
    × (run (codes "7.00") (some 0) ≡ err too_long)
    × (run (codes "1e3") (some 2) ≡ err not_a_number)
    × (run (codes "-1.5") (some 1) ≡ ok (negsuc 4))
    × (run (codes "1.2.3") (some 1) ≡ ok (pos 12))
unfolding run
runs = (refl, refl, refl, refl, refl, refl, refl, refl, refl)

token_amount-decimal_example :
    token_amount_to_big_number reader (text (codes "12" ++ b'.' ∷ codes "05")) (some 6)
    ≡ ok (pos (12 * 10 ^ 6 + 5 * 10 ^ 4))
token_amount-decimal_example =
    token_amount-decimal reader reader-ReadsDecimals (codes "12") (codes "05") (some 6) (cc) (cc)
      (omega arith) (omega arith) (omega arith)

token_amount-second_dot_example :
    token_amount_to_big_number reader
      (text (codes "1" ++ b'.' ∷ (codes "2" ++ b'.' ∷ codes "3")))
      (some 1)
    ≡ token_amount_to_big_number reader (text (codes "1" ++ b'.' ∷ codes "2")) (some 1)
token_amount-second_dot_example =
    token_amount-second_dot reader (codes "1") (codes "2") (codes "3") (some 1) (omega arith)
      (omega arith)

token_amount-negative_example :
    token_amount_to_big_number reader (text (b'-' ∷ (codes "1" ++ b'.' ∷ codes "5"))) (some 1)
    ≢ ok (pos 0 -ℤ pos 15)
unfolding token_amount_to_big_number reader ◌+ℤ◌ ◌*ℤ◌
token_amount-negative_example =
    token_amount-negative reader reader-ReadsDecimals (codes "1") (codes "5") (some 1) (cc) (cc)
      (omega arith) (omega arith) (omega arith) (omega arith) (pos 15) refl
