-- ===== src/Prices/Request.antt =====
-- `Requester.request` of utils/helpers/coingecko.js. The answer to the i-th request is a parameter; the
-- pause between two requests, the timeout and what is printed are left out, and so is an answer whose
-- data are null, for which the code throws a type error.
use mathlib.Core.Path.{subst}
use apy_core_public.Base.{
  ℕ, zero, suc, ◌+◌, ◌-◌, ◌≤◌, ◌≡◌, refl, Bool, true, false, Option, none, some, String, ◌==◌,
  arith, if◌then◌else◌,
}

-- What `axios(config)` does: it rejects, answers with an `error` in the data, or with data.
pub data Answer {ℓ} (A : Type ℓ) : Type ℓ where
  refused bad_data : String → Answer A
  good : A → Answer A

-- What `request` does; a countdown that never meets 1 runs out of fuel.
pub data Reply {ℓ} (A : Type ℓ) : Type ℓ where
  response : A → Reply A
  threw : String → Reply A
  out_of_fuel : Reply A

module _ {ℓ} {A : Type ℓ} (axios : ℕ → Answer A) where
  -- `_retry(n)` where `i` requests have been made; how many were made comes back as well. Where n is
  -- below 1 in the code it never is 1 again, as 0 - 1 = 0 here never is.
  unfoldable pub retry : ℕ → ℕ → ℕ → Reply A × ℕ
  retry zero n i = (Reply.out_of_fuel, i)
  retry (suc fuel) n i =
      let delay_retry = retry fuel (n - 1) (suc i) in
      elim (axios i) [
        | refused e ↦ if n == 1 then (Reply.threw e, suc i) else delay_retry
        | bad_data e ↦ if n == 1 then (Reply.threw e, suc i) else delay_retry
        | good a ↦ (Reply.response a, suc i)
      ]

  -- Each retry is a round, so `retries` rounds are enough. The default is 3.
  abbrev pub or_3 : Option ℕ → ℕ
  or_3 none = 3
  or_3 (some n) = n

  unfoldable pub request : Option ℕ → Reply A × ℕ
  unfolding retry
  request retries = retry (or_3 retries) (or_3 retries) 0

  -- The first answer with data among `n` requests from the i-th on.
  unfoldable pub first_good : ℕ → ℕ → Option A
  first_good zero i = none
  first_good (suc n) i =
      let rest = first_good n (suc i) in
      elim (axios i) [ refused e ↦ rest | bad_data e ↦ rest | good a ↦ some a ]

  -- The reply that an answer, or that none, makes.
  pub Replies : Option A → Reply A → Type ℓ
  Replies (some a) r = r ≡ Reply.response a
  Replies none r = (e : String) × (r ≡ Reply.threw e)

  -- One round, by the answer: the last one, and one that may go on.
  last_round :
      (x : Answer A) (i : ℕ)
      → Replies
          (elim x as (λ _. Option A) [ refused e ↦ none | bad_data e ↦ none | good a ↦ some a ])
          (elim x as (λ _. Reply A × ℕ) [
            | refused e ↦ (Reply.threw e, suc i)
            | bad_data e ↦ (Reply.threw e, suc i)
            | good a ↦ (Reply.response a, suc i)
          ]).0
        × ((elim x as (λ _. Reply A × ℕ) [
          | refused e ↦ (Reply.threw e, suc i)
          | bad_data e ↦ (Reply.threw e, suc i)
          | good a ↦ (Reply.response a, suc i)
        ]).1
            ≤ i + 1)
  unfolding Replies
  last_round (Answer.refused e) i = ((e, refl), omega arith)
  last_round (Answer.bad_data e) i = ((e, refl), omega arith)
  last_round (Answer.good a) i = (refl, omega arith)

  next_round :
      (x : Answer A) (b : Bool) (i n : ℕ) (o : Option A) (r : Reply A × ℕ)
      → b ≡ false
      → Replies o r.0 × (r.1 ≤ suc i + n)
      → Replies
          (elim x as (λ _. Option A) [ refused e ↦ o | bad_data e ↦ o | good a ↦ some a ])
          (elim x as (λ _. Reply A × ℕ) [
            | refused e ↦ if b then (Reply.threw e, suc i) else r
            | bad_data e ↦ if b then (Reply.threw e, suc i) else r
            | good a ↦ (Reply.response a, suc i)
          ]).0
        × ((elim x as (λ _. Reply A × ℕ) [
          | refused e ↦ if b then (Reply.threw e, suc i) else r
          | bad_data e ↦ if b then (Reply.threw e, suc i) else r
          | good a ↦ (Reply.response a, suc i)
        ]).1
            ≤ i + suc n)
  unfolding Replies
  next_round (Answer.refused e) false i n o r hb h = (h.0, omega (arith, h.1))
  next_round (Answer.bad_data e) false i n o r hb h = (h.0, omega (arith, h.1))
  next_round (Answer.good a) b i n o r hb h = (refl, omega arith)
  next_round _ true i n o r hb h = cc

  not_one : (n : ℕ) → (suc (suc n) == 1) ≡ false
  not_one n = ground arith

  -- What holds of the countdown from n + 1 for `k`.
  Counts : ℕ → ℕ → ℕ → Type ℓ
  Counts n k i =
      Replies (first_good (suc n) i) (retry (suc n) k i).0 × ((retry (suc n) k i).1 ≤ i + suc n)

  retry_lem : (n i : ℕ) → Counts n (suc n) i
  unfolding Counts retry first_good
  retry_lem zero i = last_round (axios i) i
  retry_lem (suc n) i =
      let one_less : suc n ≡ suc (suc n) - 1 = omega arith in
      next_round (axios i) _ i (suc n) _ (retry (suc n) (suc (suc n) - 1) (suc i)) (not_one n)
        (subst (λ k. Counts n k (suc i)) one_less (retry_lem n (suc i)))

  -- With at least one retry, the request makes at most that many requests, and replies with the first
  -- answer that has data among them, or throws where none has.
  pub request-first_good :
      (n : ℕ)
      → Replies (first_good (suc n) 0) (request (some (suc n))).0
        × ((request (some (suc n))).1 ≤ suc n)
  unfolding request Counts
  request-first_good n = let h = retry_lem n 0 in (h.0, omega (arith, h.1))
