-- ===== src/Executor/Policies.antt =====
-- cpp/execution/qwen35_executor.cu: the policies that resolve_execution_policy returns.
use raftinfer.Base.{
  ℕ, ◌≤◌, true, not, ◌&&◌, ltb, ◌==◌, Bool-cases, if◌then◌else◌, ok, >>=-eq-ok, throw_if->>-eq-ok,
  ◌≡◌, ◌⊎◌, inl, inr, refl, sym, ap, subst, ◌∙◌, arith,
}
use raftinfer.Model.Config.{Qwen35Config}
use raftinfer.Session.Policy.{
  Qwen35AttentionImplementation, Qwen35KvCacheDType, Qwen35DecodeAttentionMode,
  Qwen35ExecutionPolicy, materialized_reference, online_tiled, auto_select, single_block,
  split_k_256, split_k_512, token_major,
}
use raftinfer.Kernels.Attention
use raftinfer.Kernels.Attention.{
  is_known_implementation, is_known_kv_cache, is_known_layout, Qwen35AttentionShape,
}
use raftinfer.Kernels.Online.{
  qwen35_online_decode_plan, partition_tokens_for_mode, Qwen35OnlineDecodePlan, ceil_div,
}
use raftinfer.Executor.Resolve.{
  require, validate_config, validate_execution_policy, is_known_mode,
  decode_attention_partition_tokens, online_supported, online_decode_supported,
  attention_launch_policy, attention_shape, with_mode, materialized, select_mode, resolve_online,
  resolve_materialized, resolve_by, resolve_execution_policy,
}

-- A mode that a context can use: one block, or partitions no longer than the context.
abbrev pub FitsContext : ℕ → Qwen35DecodeAttentionMode → Type 0
FitsContext max_context mode =
    (mode ≡ single_block)
    ⊎ (((mode ≡ split_k_256) × (256 ≤ max_context)) ⊎ ((mode ≡ split_k_512) × (512 ≤ max_context)))

-- A policy that an executor runs with.
abbrev pub IsSettled : Qwen35Config → ℕ → Qwen35ExecutionPolicy → Type 0
IsSettled config max_context q =
    ((q.attention ≡ materialized_reference)
      × (q.kv_cache ≡ Qwen35KvCacheDType.f32)
      × (q.kv_cache_layout ≡ token_major)
      × (q.decode_attention ≡ single_block))
    ⊎ ((q.attention ≡ online_tiled)
        × (is_known_kv_cache q.kv_cache ≡ true)
        × (is_known_layout q.kv_cache_layout ≡ true)
        × FitsContext max_context q.decode_attention
        × (online_supported config max_context q ≡ true))

resolved_auto :
    (s : Qwen35AttentionShape) {plan : Qwen35OnlineDecodePlan}
    → qwen35_online_decode_plan s auto_select 1 ≡ ok plan
    → plan.resolved_mode ≡ split_k_256
unfolding qwen35_online_decode_plan Attention.require partition_tokens_for_mode ceil_div
resolved_auto s h = ground (arith, h)

abbrev IsChosen : Qwen35DecodeAttentionMode → Type 0
IsChosen mode = (mode ≡ single_block) ⊎ ((mode ≡ split_k_256) ⊎ (mode ≡ split_k_512))

select_mode-IsChosen :
    (config : Qwen35Config) (max_context : ℕ) (mode mode' : Qwen35DecodeAttentionMode)
    → is_known_mode mode ≡ true
    → select_mode config max_context mode ≡ ok mode'
    → IsChosen mode'
unfolding select_mode
select_mode-IsChosen config max_context auto_select mode' known h =
    let (plan, planned, last) =
      >>=-eq-ok (qwen35_online_decode_plan (attention_shape config max_context 1 0) auto_select 1) _
        h in
    ground (arith, resolved_auto (attention_shape config max_context 1 0) planned, last)
select_mode-IsChosen config max_context single_block mode' known h = ground (arith, h)
select_mode-IsChosen config max_context split_k_256 mode' known h = ground (arith, h)
select_mode-IsChosen config max_context split_k_512 mode' known h = ground (arith, h)
select_mode-IsChosen config max_context (Qwen35DecodeAttentionMode.unknown n) mode' known h = cc

-- The partitions of the chosen mode are cut back to one block where the context is shorter.
fitted-FitsContext :
    (max_context partition : ℕ) (mode : Qwen35DecodeAttentionMode)
    → IsChosen mode
    → decode_attention_partition_tokens mode ≡ ok partition
    → FitsContext max_context
        (if not (partition == 0) && ltb max_context partition then single_block else mode)
unfolding decode_attention_partition_tokens
fitted-FitsContext max_context partition mode chosen h = ground (arith, chosen, h)

resolve_online-FitsContext :
    (config : Qwen35Config) (max_context : ℕ) (p q : Qwen35ExecutionPolicy)
    → is_known_mode p.decode_attention ≡ true
    → resolve_online config max_context p ≡ ok q
    → (mode : Qwen35DecodeAttentionMode) × FitsContext max_context mode × (with_mode p mode ≡ q)
unfolding resolve_online
resolve_online-FitsContext config max_context p q known h =
    let (mode, selected, h₁) = >>=-eq-ok (select_mode config max_context p.decode_attention) _ h in
    let (partition, cut, last) = >>=-eq-ok (decode_attention_partition_tokens mode) _ h₁ in
    let chosen = select_mode-IsChosen config max_context p.decode_attention mode known selected in
    (_, fitted-FitsContext max_context partition mode chosen cut, cc last)

validate_execution_policy-known :
    (p : Qwen35ExecutionPolicy)
    → validate_execution_policy p ≡ ok tt
    → (is_known_implementation p.attention ≡ true)
      × (is_known_kv_cache p.kv_cache ≡ true)
      × (is_known_layout p.kv_cache_layout ≡ true)
      × (is_known_mode p.decode_attention ≡ true)
unfolding validate_execution_policy require
validate_execution_policy-known p h =
    let (implementation, h₁) =
      throw_if->>-eq-ok (not (is_known_implementation p.attention)) _ _ h in
    let (cache, h₂) = throw_if->>-eq-ok (not (is_known_kv_cache p.kv_cache)) _ _ h₁ in
    let (layout, h₃) = throw_if->>-eq-ok (not (is_known_layout p.kv_cache_layout)) _ _ h₂ in
    (
      ground (arith, implementation),
      ground (arith, cache),
      ground (arith, layout),
      ground (arith, h₃),
    )

online_supported-with_mode :
    (config : Qwen35Config) (max_context : ℕ) (p : Qwen35ExecutionPolicy)
    (mode : Qwen35DecodeAttentionMode)
    → online_supported config max_context p ≡ online_supported config max_context (with_mode p mode)
unfolding online_supported online_decode_supported attention_launch_policy
online_supported-with_mode config max_context p mode = refl

materialized-IsSettled :
    (config : Qwen35Config) (max_context : ℕ) (p q : Qwen35ExecutionPolicy)
    → resolve_materialized p ≡ ok q
    → p.attention ≡ materialized_reference
    → IsSettled config max_context q
unfolding resolve_materialized require
materialized-IsSettled config max_context p q h asked = ground (arith, h, asked)

online-IsSettled :
    (config : Qwen35Config) (max_context : ℕ) (p q : Qwen35ExecutionPolicy)
    → validate_execution_policy p ≡ ok tt
    → p.attention ≡ online_tiled
    → (if online_supported config max_context p
        then resolve_online config max_context p
        else ok (materialized p))
      ≡ ok q
    → IsSettled config max_context q
online-IsSettled config max_context p q valid asked h =
    elim (Bool-cases (online_supported config max_context p)) [
      | inl supported ↦
          let (_, cache, layout, known) = validate_execution_policy-known p valid in
          let resolved : resolve_online config max_context p ≡ ok q =
            ground (arith, h, supported) in
          let (mode, fits, same) =
            resolve_online-FitsContext config max_context p q known resolved in
          subst (IsSettled config max_context) same (
            inr (
              asked,
              cache,
              layout,
              fits,
              sym (online_supported-with_mode config max_context p mode) ∙ supported,
            ))
      | inr refused ↦
          let same : materialized p ≡ q = ground (arith, h, refused) in
          subst (IsSettled config max_context) same (inl (refl, refl, refl, refl))
    ]

resolve_by-IsSettled :
    (implementation : Qwen35AttentionImplementation) (config : Qwen35Config) (max_context : ℕ)
    (p q : Qwen35ExecutionPolicy)
    → validate_execution_policy p ≡ ok tt
    → p.attention ≡ implementation
    → resolve_by implementation config max_context p ≡ ok q
    → IsSettled config max_context q
unfolding resolve_by
resolve_by-IsSettled materialized_reference config max_context p q valid asked h =
    materialized-IsSettled config max_context p q h asked
resolve_by-IsSettled online_tiled config max_context p q valid asked h =
    online-IsSettled config max_context p q valid asked h
resolve_by-IsSettled (Qwen35AttentionImplementation.unknown n) config max_context p q valid asked
      h =
    let known = (validate_execution_policy-known p valid).0 in
    cc (ap is_known_implementation asked, known)

-- A settled policy is valid, and resolves to itself.
settled_known :
    (config : Qwen35Config) (max_context : ℕ) (q : Qwen35ExecutionPolicy)
    → IsSettled config max_context q
    → validate_execution_policy q ≡ ok tt
unfolding validate_execution_policy require
settled_known config max_context q (inl (attention, cache, layout, mode)) =
    rw (attention, cache, layout, mode) refl
settled_known config max_context q (inr (attention, cache, layout, fits, supported)) =
    let mode : is_known_mode q.decode_attention ≡ true = ground (arith, fits) in
    rw (attention, cache, layout, mode) refl

chosen_again :
    (config : Qwen35Config) (max_context : ℕ) (q : Qwen35ExecutionPolicy)
    → FitsContext max_context q.decode_attention
    → resolve_online config max_context q ≡ ok q
unfolding resolve_online select_mode decode_attention_partition_tokens
chosen_again config max_context q fits = ground (arith, fits)

resolved_again :
    (config : Qwen35Config) (max_context : ℕ) (q : Qwen35ExecutionPolicy)
    → IsSettled config max_context q
    → resolve_by q.attention config max_context q ≡ ok q
unfolding resolve_by resolve_materialized require
resolved_again config max_context q (inl (attention, cache, layout, mode)) =
    subst (λ (i : Qwen35AttentionImplementation). resolve_by i config max_context q ≡ ok q)
      (sym attention) (ground (arith, cache, layout, mode))
resolved_again config max_context q (inr (attention, cache, layout, fits, supported)) =
    subst (λ (i : Qwen35AttentionImplementation). resolve_by i config max_context q ≡ ok q)
      (sym attention) (rw supported (chosen_again config max_context q fits))

-- A policy that resolve_execution_policy returns is settled: it is materialized attention in one block
-- on a token-major F32 cache, or online attention that the configuration supports, with a known cache and a
-- decode mode other than automatic whose partitions are no longer than the context. And it resolves to
-- itself, so the workspace that is computed for the requested policy is that of the resolved one.
pub resolve_execution_policy-IsSettled :
    (config : Qwen35Config) (max_context : ℕ) (p q : Qwen35ExecutionPolicy)
    → resolve_execution_policy config max_context p ≡ ok q
    → IsSettled config max_context q × (resolve_execution_policy config max_context q ≡ ok q)
unfolding resolve_execution_policy
resolve_execution_policy-IsSettled config max_context p q h =
    let (_, config_valid, h₁) = >>=-eq-ok (validate_config config max_context) _ h in
    let (_, policy_valid, h₂) = >>=-eq-ok (validate_execution_policy p) _ h₁ in
    let settled = resolve_by-IsSettled p.attention config max_context p q policy_valid refl h₂ in
    (
      settled,
      rw (config_valid, settled_known config max_context q settled)
          (resolved_again config max_context q settled),
    )
