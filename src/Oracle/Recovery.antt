-- ===== src/Oracle/Recovery.antt =====
-- What the emergency safe can always do, whatever became of the sources and of the lock.
use apy_core_public.Base.{ℕ, ◌+◌, ◌≡◌, ◌<◌, false, arith}
use apy_core_public.Base.Exec.{ok}
use apy_core_public.Contract.Math.{SafeMath, word_mod}
use apy_core_public.Oracle.State.{Oracle, emergency_role, Env}
use apy_core_public.Oracle.Values.{is_locked, has_tvl_override, get_tvl}
use apy_core_public.Oracle.Requests.{unlock, tvl, no_tvl, call, Later}

-- The state after an unlocking at a block.
abbrev pub unlocked_at : ℕ → Oracle → Oracle
unlocked_at n s = record s { lock_end = n }

abbrev pub with_tvl : ℕ → ℕ → Oracle → Oracle
with_tvl v end s = record s { submitted_tvl_value = record { value = v; period_end = end } }

module _ (math : SafeMath) (e : Env) (sender : ℕ) where
  unlock_succeeds :
      (s : Oracle)
      → e.only_role emergency_role sender ≡ ok tt
      → e.block_number < word_mod
      → call math e sender unlock s ≡ ok (tt, unlocked_at e.block_number s)
  unfolding call
  unlock_succeeds s r h = ground (arith, math.add_lem e.block_number 0)

  tvl_succeeds :
      (v n : ℕ) (s : Oracle)
      → e.only_role emergency_role sender ≡ ok tt
      → e.block_number + n < word_mod
      → call math e sender (tvl v n) s ≡ ok (tt, with_tvl v (e.block_number + n) s)
  unfolding call
  tvl_succeeds v n s r h = ground (arith, math.add_lem e.block_number n)

  -- In every state, one who passes for the emergency role can unlock the oracle and then submit any
  -- TVL `v` for `n` blocks, as long as the number of the last of them fits 256 bits: both
  -- transactions succeed, and then `getTvl` gives `v` at every block from this one on that is less
  -- than `n` blocks away, whatever the sources, the registry and the supply of mAPT are there.
  pub recovery :
      (v n : ℕ) (s : Oracle)
      → e.only_role emergency_role sender ≡ ok tt
      → e.block_number + n < word_mod
      → (t : Oracle) × (u : Oracle) × (call math e sender unlock s ≡ ok (tt, t))
        × (call math e sender (tvl v n) t ≡ ok (tt, u))
        × ((e' : Env)
            → Later e e'
            → e'.block_number < e.block_number + n
            → get_tvl math e' u ≡ ok v)
  unfolding get_tvl is_locked has_tvl_override
  recovery v n s r h =
      let t = unlocked_at e.block_number s in
      (
        t,
        with_tvl v (e.block_number + n) t,
        unlock_succeeds s r (omega arith),
        tvl_succeeds v n t r h,
        λ e' l k. ground (arith, l.block_le),
      )

  -- After a transaction `emergencyUnsetTvl` that succeeds, `hasTvlOverride` is false in that state at
  -- its block and at every later one.
  pub no_override-unset :
      (s t : Oracle)
      → call math e sender no_tvl s ≡ ok (tt, t)
      → (e' : Env) → Later e e'
      → has_tvl_override e' t ≡ false
  unfolding call has_tvl_override
  no_override-unset s t h e' l = ground (arith, l.block_le)
