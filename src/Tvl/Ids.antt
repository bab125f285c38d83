-- ===== src/Tvl/Ids.antt =====
-- The ids of TvlManager: the address of an allocation and the index of one of its tokens in 32
-- bytes. The packed bytes are 21, and those that are read after them are zero.
use apy_core_public.Base.{
  ℕ, zero, suc, ◌+◌, ◌*◌, ◌/◌, ◌%◌, ◌^◌, ◌<◌, ◌≤◌, ◌==◌, ◌≡◌, Bool, ◌&&◌, List, [], ◌∷◌, arith,
  if◌then◌else◌, leb, ltb,
}
use apy_core_public.Contract.Math.{word_mod}
use apy_core_public.Registry.Ids.{count}

abbrev pub address_mod : ℕ
address_mod = 2 ^ 160

abbrev pub encode : ℕ → ℕ → ℕ
encode asset_allocation token_index = asset_allocation * 2 ^ 96 + token_index * 2 ^ 88

abbrev pub decode : ℕ → ℕ × ℕ
decode id = ((id / 2 ^ 96) % address_mod, (id / 2 ^ 88) % 256)

-- For an address of 20 bytes and an index of one byte, the encoded id has 32 bytes and is decoded to
-- the two.
pub decode-encode :
    (a j : ℕ) → a < address_mod → j < 256 → (encode a j < word_mod) × (decode (encode a j) ≡ (a, j))
decode-encode a j h k = (omega arith, ground arith)

-- The ids of the tokens from an index on.
unfoldable pub index_ids : ℕ → ℕ → ℕ → List ℕ
index_ids a j zero = []
index_ids a j (suc m) = encode a (j % 256) ∷ index_ids a (suc j) m

-- The id is one that `encode` gives, for the allocation and an index in a range.
abbrev pub in_range : ℕ → ℕ → ℕ → ℕ → Bool
in_range a j m id = let (b, k) = decode id in id == encode b k && b == a && leb j k && ltb k (j + m)

pub count-index_ids :
    (id a j m : ℕ)
    → a < address_mod
    → j + m ≤ 256
    → count id (index_ids a j m) ≡ (if in_range a j m id then 1 else 0)
unfolding index_ids count
count-index_ids id a j zero h k = ground arith
count-index_ids id a j (suc m) h k = ground (arith, count-index_ids id a (suc j) m)
