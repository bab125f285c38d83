-- ===== src/Registry/Ids.antt =====
-- The array of ids: a new id is pushed, and a deleted one is replaced by the last.
use apy_core_public.Base.{
  ℕ, ◌+◌, ◌==◌, ◌≡◌, refl, Bool, true, false, List, [], ◌∷◌, ◌++◌, arith, if◌then◌else◌,
}

-- How often an id stands in the array.
unfoldable pub count : ℕ → List ℕ → ℕ
count x [] = 0
count x (j ∷ ids) = let rest = count x ids in if j == x then 1 + rest else rest

-- The last of a list that begins with `j`, and the list without it.
abbrev last : ℕ → List ℕ → ℕ
last j [] = j
last j (k ∷ ids) = last k ids

abbrev init : ℕ → List ℕ → List ℕ
init j [] = []
init j (k ∷ ids) = j ∷ init k ids

-- The slot before `ids` takes the last element, and the array is shortened.
abbrev move_last : List ℕ → List ℕ
move_last [] = []
move_last (j ∷ ids) = last j ids ∷ init j ids

-- The loop of `deleteAddress` over the array: the first slot with the id is filled.
unfoldable pub delete_slot : ℕ → List ℕ → List ℕ
delete_slot id [] = []
delete_slot id (j ∷ ids) =
    let rest = delete_slot id ids in if j == id then move_last ids else j ∷ rest

-- Whether the loop meets the id.
unfoldable pub has_id : ℕ → List ℕ → Bool
has_id id [] = false
has_id id (j ∷ ids) = let rest = has_id id ids in if j == id then true else rest

pub count-append : (x : ℕ) (ids ids' : List ℕ) → count x (ids ++ ids') ≡ count x ids + count x ids'
unfolding count
count-append x [] ids' = omega arith
count-append x (j ∷ ids) ids' = ground (arith, count-append x ids ids')

count-last : (x j : ℕ) (ids : List ℕ) → count x (last j ids ∷ init j ids) ≡ count x (j ∷ ids)
unfolding count
count-last x j [] = refl
count-last x j (k ∷ ids) = ground (arith, count-last x k ids)

count-move_last : (x : ℕ) (ids : List ℕ) → count x (move_last ids) ≡ count x ids
unfolding count
count-move_last x [] = refl
count-move_last x (j ∷ ids) = count-last x j ids

-- One occurrence of the id is gone, and nothing else.
pub count-delete_slot :
    (x id : ℕ) (ids : List ℕ)
    → count x (delete_slot id ids) + (if has_id id ids then (if x == id then 1 else 0) else 0)
      ≡ count x ids
unfolding count delete_slot has_id
count-delete_slot x id [] = refl
count-delete_slot x id (j ∷ ids) = ground (arith, count-delete_slot x id ids, count-move_last x ids)

pub has_id-false : (id : ℕ) (ids : List ℕ) → has_id id ids ≡ false → count id ids ≡ 0
unfolding count has_id
has_id-false id [] h = refl
has_id-false id (j ∷ ids) h = ground (arith, has_id-false id ids)
