-- ===== src/Oracle/Sources.antt =====
-- The sources of the values: what holds of them in every reachable state.
use apy_core_public.Base.{ℕ, ◌≡◌, refl, ◌<◌, ◌⊎◌, inl, inr, true, List, [], ◌∷◌, arith}
use apy_core_public.Base.Exec.{ok}
use apy_core_public.Contract.Call.{Mapping, update, assigned, View-cases}
use apy_core_public.Contract.Math.{SafeMath}
use apy_core_public.Oracle.State.{Oracle, blank, Role, Env}
use apy_core_public.Oracle.Calls.{set_each_source, construct, configure}
use apy_core_public.Oracle.Requests.{
  Request, lock_period, default_lock, unlock, lock_blocks, registry, asset_value, no_asset_value,
  tvl, no_tvl, tvl_source, asset_sources, asset_source, stale_period, call, Later, Reachable,
  constructed, called, passed,
}

module _ (e : Env) where
  -- The loop over the assets changes their sources and nothing else.
  pub set_each_source-assigned :
      (assets sources : List ℕ) (s t : Oracle)
      → set_each_source e assets sources s ≡ ok (tt, t)
      → t ≡ record s { asset_sources = assigned assets sources s.asset_sources }
  unfolding set_each_source assigned
  set_each_source-assigned [] sources s t h = ground arith
  set_each_source-assigned (asset ∷ assets) [] s t h = ground arith
  set_each_source-assigned (asset ∷ assets) (source ∷ sources) s t h = ground (
    arith,
    set_each_source-assigned assets sources
        (record s { asset_sources = update asset source s.asset_sources }) t,
  )

-- A source that was set is a contract.
unfoldable pub HasSources : Env → Mapping ℕ → Type 0
HasSources e m = (a : ℕ) → (m a ≡ 0) ⊎ (e.is_contract (m a) ≡ true)

-- The registry and the sources are contracts, and the period until a value is stale is positive.
pub record IsSound (e : Env) (s : Oracle) : Type 0 where
  pub registry_sound : e.is_contract s.address_registry ≡ true
  pub tvl_sound : e.is_contract s.tvl_source ≡ true
  pub assets_sound : HasSources e s.asset_sources
  pub period_sound : 0 < s.chainlink_stale_period

HasSources-none : (e : Env) → HasSources e (λ _. 0)
unfolding HasSources
HasSources-none e a = inl refl

module _ (e : Env) where
  update-HasSources :
      (asset source : ℕ) (m : Mapping ℕ)
      → e.is_contract source ≡ true
      → HasSources e m
      → HasSources e (update asset source m)
  unfolding HasSources update
  update-HasSources asset source m h k a = ground (arith, k a)

  set_each_source-HasSources :
      (assets sources : List ℕ) (s t : Oracle)
      → set_each_source e assets sources s ≡ ok (tt, t)
      → HasSources e s.asset_sources
      → HasSources e t.asset_sources
  unfolding set_each_source
  set_each_source-HasSources [] sources s t h k = ground arith
  set_each_source-HasSources (asset ∷ assets) [] s t h k = ground arith
  set_each_source-HasSources (asset ∷ assets) (source ∷ sources) s t h k = ground (
    arith,
    update-HasSources asset source s.asset_sources,
    set_each_source-HasSources assets sources
        (record s { asset_sources = update asset source s.asset_sources }) t,
  )

module _ (math : SafeMath) (e : Env) (sender : ℕ) where
  call-IsSound :
      (r : Request) (s t : Oracle) → call math e sender r s ≡ ok (tt, t) → IsSound e s → IsSound e t
  unfolding call
  call-IsSound (lock_period n) s t h k = ground arith
  call-IsSound default_lock s t h k =
      ground (arith, math.add_lem e.block_number s.default_lock_period)
  call-IsSound unlock s t h k = ground (arith, math.add_lem e.block_number 0)
  call-IsSound (lock_blocks n) s t h k = ground (arith, math.add_lem e.block_number n)
  call-IsSound (registry a) s t h k = ground arith
  call-IsSound (asset_value a v n) s t h k = ground (arith, math.add_lem e.block_number n)
  call-IsSound (no_asset_value a) s t h k = ground arith
  call-IsSound (tvl v n) s t h k = ground (arith, math.add_lem e.block_number n)
  call-IsSound no_tvl s t h k = ground arith
  call-IsSound (tvl_source a) s t h k = ground arith
  call-IsSound (asset_sources assets sources) s t h k = ground (
    arith,
    set_each_source-assigned e assets sources s t,
    set_each_source-HasSources e assets sources s t,
  )
  call-IsSound (asset_source a b) s t h k = ground (arith, update-HasSources e a b s.asset_sources)
  call-IsSound (stale_period n) s t h k = ground arith

configure-IsSound :
    (e : Env) (registry_ source : ℕ) (assets sources : List ℕ) (stale lock_ : ℕ) (s : Oracle)
    → configure e registry_ source assets sources stale lock_ ≡ ok (tt, s)
    → IsSound e s
unfolding configure
configure-IsSound e registry_ source assets sources stale lock_ s h =
    let b = record blank { address_registry = registry_; tvl_source = source } in
    let start : HasSources e (λ _. 0) = HasSources-none e in
    elim (View-cases (set_each_source e assets sources b)) [
      | inl c ↦ ground (
        arith,
        c,
        start,
        set_each_source-assigned e assets sources b c.0.1,
        set_each_source-HasSources e assets sources b c.0.1,
      )
      | inr c ↦ ground (arith, c)
    ]

Later-IsSound : (e e' : Env) (s : Oracle) → Later e e' → IsSound e s → IsSound e' s
unfolding HasSources
Later-IsSound e e' s l k = record {
  registry_sound = l.code_kept _ k.registry_sound;
  tvl_sound = l.code_kept _ k.tvl_sound;
  assets_sound = λ a. ground (arith, k.assets_sound a, l.code_kept (s.asset_sources a));
  period_sound = k.period_sound;
}

construct-IsSound :
    (e : Env) (registry_ source : ℕ) (assets sources : List ℕ) (stale lock_ : ℕ) (s : Oracle)
    (roles : List (Role × ℕ))
    → construct e registry_ source assets sources stale lock_ ≡ ok (roles, s)
    → IsSound e s
unfolding construct
construct-IsSound e registry_ source assets sources stale lock_ s roles h =
    ground (arith, configure-IsSound e registry_ source assets sources stale lock_ s)

-- In every state that the constructor, the transactions of any senders and the passing of blocks
-- reach, the registry and the source of the TVL are contracts, so is every source of an asset that was
-- set, and the period until a value is stale is positive. A contract keeps its code.
pub reachable-IsSound : (math : SafeMath) {e : Env} {s : Oracle} → Reachable math e s → IsSound e s
reachable-IsSound math (constructed registry_ source assets sources stale lock_ h) =
    construct-IsSound _ registry_ source assets sources stale lock_ _ _ h
reachable-IsSound math (called sender r k h) =
    call-IsSound math _ sender r _ _ h (reachable-IsSound math k)
reachable-IsSound math (passed k l) = Later-IsSound _ _ _ l (reachable-IsSound math k)
