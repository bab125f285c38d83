-- ===== src/TokenUnit/Exact.antt =====
-- What `tokenAmountToBigNumber` returns: the exact amount of a decimal text, the error of a fraction
-- that the token cannot hold, and two kinds of text for which the code returns another number.
use native.Mathlib.Nat.{one-le-pow}
use apy_core_public.Base.{
  ℕ, zero, suc, lt→ltb, ◌+◌, ◌-◌, ◌*◌, ◌^◌, ◌≤◌, ◌<◌, ◌≡◌, ◌≢◌, refl, sym, ap, ◌∙◌, inl, inr,
  Bool-cases, Option, some, List, [], ◌∷◌, ◌++◌, arith, length, true, false, not, ◌&&◌, ltb,
}
use apy_core_public.Base.Int.{
  ℤ, pos, sub_ℕ, pos_part, neg_part, ◌+ℤ◌, ◌-ℤ◌, ◌*ℤ◌, +ℤ-pos, *ℤ-pos, int_laws,
}
use apy_core_public.Base.Texts.{codes}
use apy_core_public.TokenUnit.Convert.{
  Text, text, ok, err, too_long, or_zero, is_zero_text, pad, convert, or_18,
  token_amount_to_big_number,
}
use apy_core_public.TokenUnit.Digits.{
  IsDigits, value, zeros, value-append-zeros, pad-eq-zeros, LacksDot, IsDigits-LacksDot,
  split_dot-append, split_dot-LacksDot, IsDigits-append, IsDigits-zeros,
}

-- What ethers documents of `BigNumber.from`: decimal digits, behind a minus sign or not, are read as
-- the number that they spell.
pub record ReadsDecimals (from : Text → Option ℤ) : Type 0 where
  pub digits : (s : Text) → s ≢ [] → IsDigits s → from s ≡ some (pos (value s))
  pub minus : (s : Text) → s ≢ [] → IsDigits s → from (b'-' ∷ s) ≡ some (sub_ℕ 0 (value s))

or_zero-cons : (s : Text) (ps : List Text) → s ≢ [] → or_zero (s ∷ ps) ≡ s
or_zero-cons [] ps h = absurd (h refl)
or_zero-cons (c ∷ s) ps h = refl

or_zero-head : (s : Text) (ps : List Text) → or_zero (s ∷ ps) ≡ or_zero (s ∷ [])
or_zero-head [] ps = refl
or_zero-head (c ∷ s) ps = refl

fits_test : (f : Text) (d : ℕ) → length f ≤ d → (not (is_zero_text f) && ltb d (length f)) ≡ false
fits_test f d h = elim (Bool-cases (is_zero_text f)) [ inl e ↦ rw e | inr e ↦ rw e (ground arith) ]

is_zero_text-eq : (f : Text) → is_zero_text f ≡ true → f ≡ codes "0"
is_zero_text-eq [] h = cc
is_zero_text-eq (c ∷ []) h = let e : c ≡ 48 = ground arith in rw e
is_zero_text-eq (c ∷ b ∷ f) h = cc

-- A product with a number that is not positive.
neg-* : (v p : ℕ) → sub_ℕ 0 v *ℤ pos p ≡ pos 0 -ℤ pos (v * p)
unfolding ◌*ℤ◌ ◌-ℤ◌
neg-* zero p = ground arith
neg-* (suc v) p = ground arith

neg_differs : (a b : ℕ) → 0 < b → (pos 0 -ℤ pos a) +ℤ pos b ≢ pos 0 -ℤ pos (a + b)
neg_differs a b h e = absurd (omega (int_laws, ap pos_part e, ap neg_part e))

append-ne-nil : (s t : Text) → s ≢ [] → s ++ t ≢ []
append-ne-nil [] t h = absurd (h refl)
append-ne-nil (c ∷ s) t h = cc

module _ (from : Text → Option ℤ) where
  token_amount-two :
      (w f : Text) (decimals : Option ℕ)
      → LacksDot w
      → LacksDot f
      → token_amount_to_big_number from (text (w ++ b'.' ∷ f)) decimals
        ≡ convert from (or_zero (w ∷ [])) (or_zero (f ∷ [])) (or_18 decimals)
  unfolding token_amount_to_big_number
  token_amount-two w f decimals hw hf =
      rw (split_dot-append w f hw, split_dot-LacksDot f hf, or_zero-head w _)

  token_amount-three :
      (w f x : Text) (decimals : Option ℕ)
      → LacksDot w
      → LacksDot f
      → token_amount_to_big_number from (text (w ++ b'.' ∷ (f ++ b'.' ∷ x))) decimals
        ≡ convert from (or_zero (w ∷ [])) (or_zero (f ∷ [])) (or_18 decimals)
  unfolding token_amount_to_big_number
  token_amount-three w f x decimals hw hf =
      rw (split_dot-append w (f ++ b'.' ∷ x) hw, split_dot-append f x hf)
        (rw (or_zero-head w _, or_zero-head f _))

  -- Whatever stands behind a second dot of a text is ignored: the result is that of the text cut off
  -- before the second dot, error or not.
  pub token_amount-second_dot :
      (w f x : Text) (decimals : Option ℕ)
      → LacksDot w
      → LacksDot f
      → token_amount_to_big_number from (text (w ++ b'.' ∷ (f ++ b'.' ∷ x))) decimals
        ≡ token_amount_to_big_number from (text (w ++ b'.' ∷ f)) decimals
  token_amount-second_dot w f x decimals hw hf =
      token_amount-three w f x decimals hw hf ∙ sym (token_amount-two w f decimals hw hf)

  -- A fraction with more digits than the token has decimals is refused, unless it is the one digit 0.
  pub token_amount-too_long :
      (w f : Text) (decimals : Option ℕ)
      → LacksDot w
      → LacksDot f
      → f ≢ codes "0"
      → or_18 decimals < length f
      → token_amount_to_big_number from (text (w ++ b'.' ∷ f)) decimals ≡ err too_long
  unfolding convert
  token_amount-too_long w f decimals hw hf nz long =
      token_amount-two w f decimals hw hf
      ∙ rw (or_zero-cons f [] (λ e. absurd (long_nil e)), plain, (lt→ltb _ _ long))
    where
      plain : is_zero_text f ≡ false
      plain = elim (Bool-cases (is_zero_text f)) [
        | inl e ↦ absurd (nz (is_zero_text-eq f e))
        | inr e ↦ e
      ]

      long_nil : f ≡ [] → ⊥
      long_nil e = omega (arith, ap length e)

module _ (from : Text → Option ℤ) (reads : ReadsDecimals from) where
  from-padded :
      (f : Text) (d : ℕ)
      → f ≢ []
      → IsDigits f
      → from (pad d f d) ≡ some (pos (value f * 10 ^ (d - length f)))
  from-padded f d ne h = rw (pad-eq-zeros d f d (omega arith)) (
      reads.digits (f ++ zeros (d - length f)) (append-ne-nil f _ ne)
        (IsDigits-append f _ h (IsDigits-zeros (d - length f)))
      ∙ rw value-append-zeros)

  convert-exact :
      (w f : Text) (d : ℕ) (n : ℤ)
      → from w ≡ some n
      → f ≢ []
      → IsDigits f
      → (not (is_zero_text f) && ltb d (length f)) ≡ false
      → convert from w f d ≡ ok (n *ℤ pos (10 ^ d) +ℤ pos (value f * 10 ^ (d - length f)))
  unfolding convert
  convert-exact w f d n hw nf hf fits = rw (fits, from-padded f d nf hf, hw)

  -- A decimal text with a fraction that fits the token's decimals is read exactly: the whole part
  -- times a power of ten, and the fraction's digits padded with zeros on the right. Where the code
  -- is given no decimals, they are 18.
  pub token_amount-decimal :
      (w f : Text) (decimals : Option ℕ)
      → w ≢ []
      → f ≢ []
      → IsDigits w
      → IsDigits f
      → length f ≤ or_18 decimals
      → token_amount_to_big_number from (text (w ++ b'.' ∷ f)) decimals
        ≡ ok (pos (value w * 10 ^ or_18 decimals + value f * 10 ^ (or_18 decimals - length f)))
  token_amount-decimal w f decimals nw nf hw hf fits =
      token_amount-two from w f decimals (IsDigits-LacksDot w hw) (IsDigits-LacksDot f hf)
      ∙ rw (or_zero-cons w [] nw, or_zero-cons f [] nf)
          (convert-exact w f (or_18 decimals) _ (reads.digits w nw hw) nf hf (fits_test f _ fits)
            ∙ rw (*ℤ-pos, +ℤ-pos))

  -- The same for a text with no dot.
  pub token_amount-whole :
      (w : Text) (decimals : Option ℕ)
      → w ≢ []
      → IsDigits w
      → token_amount_to_big_number from (text w) decimals ≡ ok (pos (value w * 10 ^ or_18 decimals))
  unfolding token_amount_to_big_number
  token_amount-whole w decimals nw hw =
      rw (split_dot-LacksDot w (IsDigits-LacksDot w hw), or_zero-cons w [] nw)
        (convert-exact w (codes "0") (or_18 decimals) _ (reads.digits w nw hw) (cc) (omega arith)
            refl
          ∙ rw (*ℤ-pos, +ℤ-pos) (ap (λ (t : ℕ). ok (pos t)) (omega arith)))

  token_amount-minus :
      (w f : Text) (decimals : Option ℕ)
      → w ≢ []
      → f ≢ []
      → IsDigits w
      → IsDigits f
      → length f ≤ or_18 decimals
      → token_amount_to_big_number from (text (b'-' ∷ (w ++ b'.' ∷ f))) decimals
        ≡ ok (
            (pos 0 -ℤ pos (value w * 10 ^ or_18 decimals))
            +ℤ pos (value f * 10 ^ (or_18 decimals - length f)))
  token_amount-minus w f decimals nw nf hw hf fits =
      token_amount-two from (b'-' ∷ w) f decimals (omega arith, IsDigits-LacksDot w hw)
        (IsDigits-LacksDot f hf)
      ∙ rw (or_zero-cons f [] nf) (
          convert-exact (b'-' ∷ w) f (or_18 decimals) _ (reads.minus w nw hw) nf hf
            (fits_test f _ fits)
          ∙ rw neg-*)

  -- Behind a minus sign the code adds the fraction instead of subtracting it: if the fraction is not
  -- zero, then the result is not the negative of what the code returns without the sign.
  pub token_amount-negative :
      (w f : Text) (decimals : Option ℕ)
      → w ≢ []
      → f ≢ []
      → IsDigits w
      → IsDigits f
      → length f ≤ or_18 decimals
      → 0 < value f
      → (n : ℤ) → token_amount_to_big_number from (text (w ++ b'.' ∷ f)) decimals ≡ ok n
      → token_amount_to_big_number from (text (b'-' ∷ (w ++ b'.' ∷ f))) decimals ≢ ok (pos 0 -ℤ n)
  token_amount-negative w f decimals nw nf hw hf fits nonzero n e h =
      neg_differs (value w * 10 ^ or_18 decimals) (value f * 10 ^ (or_18 decimals - length f))
        (grind (arith, one-le-pow (or_18 decimals - length f) 10))
        (cc (
          token_amount-minus w f decimals nw nf hw hf fits,
          token_amount-decimal w f decimals nw nf hw hf fits,
        ))
