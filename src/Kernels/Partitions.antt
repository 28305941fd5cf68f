-- ===== src/Kernels/Partitions.antt =====
-- cpp/kernels/qwen35_online_attention.cu: what a plan of a decode step covers.
use raftinfer.Base.{
  ℕ, zero, suc, ◌+◌, ◌*◌, ◌≤◌, ◌<◌, not, ◌||◌, leb, ◌==◌, ok, >>=-eq-ok, ok-injective,
  throw_if->>-eq-ok, size_max, ◌≡◌, ◌⊎◌, inl, inr, refl, sym, ap, subst, ◌∙◌, arith,
}
use native.Mathlib.Nat.{mul-le-mul, le_refl}
use raftinfer.Session.Policy.{
  Qwen35DecodeAttentionMode, auto_select, single_block, split_k_256, split_k_512,
}
use raftinfer.Kernels.Attention
use raftinfer.Kernels.Attention.{Qwen35AttentionShape}
use raftinfer.Base.Sizes.{checked_mul, checked_add, checked_mul-eq-ok, checked_add-eq-ok}
use raftinfer.Kernels.Online.{
  split_layout, layout_for, is_auto, Qwen35OnlineDecodeWorkspaceLayout,
  qwen35_online_decode_workspace_layout, context_bucket_tokens, ceil_div, plan_of, resolve_mode,
  partition_tokens_for_mode, online_decode_model_signature_supported, Qwen35OnlineDecodePlan,
  qwen35_online_decode_plan,
}
use raftinfer.Kernels.Buckets.{
  context_bucket_tokens-holds, rounded, ceil_div-rounded, IsPieceSize, rounded_bounds,
  partition_tokens-IsPieceSize,
}

-- The three arrays of a split: the largest score, the sum and the values of each partial result.
record IsSplit (s : Qwen35AttentionShape) (b : ℕ) (layout : Qwen35OnlineDecodeWorkspaceLayout)
    : Type 0 where
  start : layout.max_offset_bytes ≡ 0
  sums : layout.sum_offset_bytes ≡ s.query_heads * rounded s.max_context_tokens b * 4
  values : layout.value_offset_bytes ≡ layout.sum_offset_bytes * 2
  total :
      layout.bytes
      ≡ layout.value_offset_bytes + s.query_heads * rounded s.max_context_tokens b * s.head_dim * 4

split_layout-IsSplit :
    (s : Qwen35AttentionShape) (b : ℕ) (layout : Qwen35OnlineDecodeWorkspaceLayout)
    → split_layout s b ≡ ok layout
    → IsSplit s b layout
unfolding split_layout Attention.require
split_layout-IsSplit s b layout h =
    let (_, h₁) = throw_if->>-eq-ok (not (online_decode_model_signature_supported s)) _ _ h in
    let (most, most_is, h₂) = >>=-eq-ok (ceil_div s.max_context_tokens b _) _ h₁ in
    let (count, count_is, h₃) = >>=-eq-ok (checked_mul s.query_heads most _) _ h₂ in
    let (partial, partial_is, h₄) = >>=-eq-ok (checked_mul count 4 _) _ h₃ in
    let (offset, offset_is, h₅) = >>=-eq-ok (checked_mul 2 partial _) _ h₄ in
    let (values, values_is, h₆) = >>=-eq-ok (checked_mul count s.head_dim _) _ h₅ in
    let (value_bytes, value_bytes_is, h₇) = >>=-eq-ok (checked_mul values 4 _) _ h₆ in
    let (total, total_is, last) = >>=-eq-ok (checked_add offset value_bytes _) _ h₇ in
    let (offset_eq, offset_fits) = (checked_mul-eq-ok 2 partial _ offset).0 offset_is in
    let below : offset ≤ size_max = subst (λ n. n ≤ size_max) (sym offset_eq) offset_fits in
    let total_eq = ((checked_add-eq-ok offset value_bytes _ total below).0 total_is).0 in
    let partial_eq = ((checked_mul-eq-ok count 4 _ partial).0 partial_is).0 in
    let values_eq = ((checked_mul-eq-ok count s.head_dim _ values).0 values_is).0 in
    let value_bytes_eq = ((checked_mul-eq-ok values 4 _ value_bytes).0 value_bytes_is).0 in
    let count_eq : count ≡ s.query_heads * rounded s.max_context_tokens b =
      ((checked_mul-eq-ok s.query_heads most _ count).0 count_is).0
      ∙ ap (λ n. s.query_heads * n) (ceil_div-rounded s.max_context_tokens b _ most most_is).1 in
    let all_values = values_eq ∙ ap (λ n. n * s.head_dim) count_eq in
    subst (IsSplit s b) (ok-injective last) (record {
      start = refl;
      sums = partial_eq ∙ ap (λ n. n * 4) count_eq;
      values = omega (arith, offset_eq);
      total = total_eq ∙ ap (λ n. offset + n) (value_bytes_eq ∙ ap (λ n. n * 4) all_values);
    })

-- The partial result of a query head for a partition, as the kernel numbers it: each head has as many as the
-- longest context has partitions.
abbrev pub partial_of : Qwen35AttentionShape → Qwen35OnlineDecodePlan → ℕ → ℕ → ℕ
partial_of s plan head partition =
    head * rounded s.max_context_tokens plan.partition_tokens + partition

-- The largest score, the sum and the values of a partial result end in their arrays, which do not overlap, and
-- the last array ends in the workspace.
abbrev pub HasRoom : Qwen35AttentionShape → Qwen35OnlineDecodeWorkspaceLayout → ℕ → Type 0
HasRoom s layout partial =
    (layout.max_offset_bytes + (partial + 1) * 4 ≤ layout.sum_offset_bytes)
    × (layout.sum_offset_bytes + (partial + 1) * 4 ≤ layout.value_offset_bytes)
    × (layout.value_offset_bytes + (partial + 1) * s.head_dim * 4 ≤ layout.bytes)

-- What a plan promises of a context, and of a partial result in a workspace.
abbrev pub Covering :
    Qwen35AttentionShape
    → ℕ
    → Qwen35OnlineDecodePlan
    → Qwen35OnlineDecodeWorkspaceLayout
    → ℕ
    → Type 0
Covering s context plan layout partial =
    ((plan.partition_tokens ≡ 0) × (plan.active_partition_capacity ≡ 1))
    ⊎ ((0 < plan.partition_tokens)
        × (context ≤ plan.active_partition_capacity * plan.partition_tokens)
        × HasRoom s layout partial)

IsSplit-HasRoom :
    (s : Qwen35AttentionShape) (b : ℕ) (layout : Qwen35OnlineDecodeWorkspaceLayout)
    (capacity head partition : ℕ)
    → IsSplit s b layout
    → capacity ≤ rounded s.max_context_tokens b
    → head < s.query_heads
    → partition < capacity
    → HasRoom s layout (head * rounded s.max_context_tokens b + partition)
IsSplit-HasRoom s b layout capacity head partition split fewer head_below below =
    let r = rounded s.max_context_tokens b in
    let heads : (head + 1) * r ≤ s.query_heads * r =
      mul-le-mul (omega (arith, head_below)) (le_refl r) in
    let row : (head + 1) * r ≡ head * r + r = omega arith in
    let inside : head * r + partition + 1 ≤ s.query_heads * r =
      omega (arith, heads, row, fewer, below) in
    let values : (head * r + partition + 1) * s.head_dim ≤ s.query_heads * r * s.head_dim =
      mul-le-mul inside (le_refl s.head_dim) in
    (
      omega (arith, split.start, split.sums, inside),
      omega (arith, split.sums, split.values, inside),
      omega (arith, split.total, values),
    )

plan_of-mode :
    (mode : Qwen35DecodeAttentionMode) (n bucket : ℕ) (plan : Qwen35OnlineDecodePlan)
    → plan_of mode n bucket ≡ ok plan
    → plan.resolved_mode ≡ mode
plan_of-mode mode zero bucket plan h =
    sym (ap (λ (p : Qwen35OnlineDecodePlan). p.resolved_mode) (ok-injective h))
plan_of-mode mode (suc n) bucket plan h =
    let (_, _, last) = >>=-eq-ok (ceil_div bucket (suc n) _) _ h in
    sym (ap (λ (p : Qwen35OnlineDecodePlan). p.resolved_mode) (ok-injective last))

plan_of-tokens :
    (mode : Qwen35DecodeAttentionMode) (n bucket : ℕ) (plan : Qwen35OnlineDecodePlan)
    → plan_of mode n bucket ≡ ok plan
    → plan.partition_tokens ≡ n
plan_of-tokens mode zero bucket plan h =
    sym (ap (λ (p : Qwen35OnlineDecodePlan). p.partition_tokens) (ok-injective h))
plan_of-tokens mode (suc n) bucket plan h =
    let (_, _, last) = >>=-eq-ok (ceil_div bucket (suc n) _) _ h in
    sym (ap (λ (p : Qwen35OnlineDecodePlan). p.partition_tokens) (ok-injective last))

-- The length of the partitions by the mode of a plan, which is not the automatic one.
abbrev pub IsLengthOf : Qwen35DecodeAttentionMode → ℕ → Type 0
IsLengthOf mode n =
    ((mode ≡ single_block) × (n ≡ 0))
    ⊎ (((mode ≡ split_k_256) × (n ≡ 256)) ⊎ ((mode ≡ split_k_512) × (n ≡ 512)))

resolve_mode-IsLengthOf :
    (requested : Qwen35DecodeAttentionMode) (n : ℕ)
    → partition_tokens_for_mode (resolve_mode requested) ≡ ok n
    → IsLengthOf (resolve_mode requested) n
unfolding partition_tokens_for_mode
resolve_mode-IsLengthOf auto_select n h = inr (inl (refl, sym (ok-injective h)))
resolve_mode-IsLengthOf single_block n h = inl (refl, sym (ok-injective h))
resolve_mode-IsLengthOf split_k_256 n h = inr (inl (refl, sym (ok-injective h)))
resolve_mode-IsLengthOf split_k_512 n h = inr (inr (refl, sym (ok-injective h)))
resolve_mode-IsLengthOf (Qwen35DecodeAttentionMode.unknown k) n h = cc h

plan_of-Covering :
    (s : Qwen35AttentionShape) (mode : Qwen35DecodeAttentionMode)
    (context bucket n head partition : ℕ) (plan : Qwen35OnlineDecodePlan)
    (layout : Qwen35OnlineDecodeWorkspaceLayout)
    → (n ≡ 0) ⊎ IsPieceSize n
    → context ≤ bucket
    → bucket ≤ s.max_context_tokens
    → head < s.query_heads
    → partition < plan.active_partition_capacity
    → plan_of mode n bucket ≡ ok plan
    → layout_for s n ≡ ok layout
    → Covering s context plan layout (partial_of s plan head partition)
plan_of-Covering s mode context bucket zero head partition plan layout kind holds below head_below
      inside planned laid =
    let is_plan = ok-injective planned in
    inl (
      sym (ap (λ (p : Qwen35OnlineDecodePlan). p.partition_tokens) is_plan),
      sym (ap (λ (p : Qwen35OnlineDecodePlan). p.active_partition_capacity) is_plan),
    )
plan_of-Covering s mode context bucket (suc n) head partition plan layout kind holds below
      head_below inside planned laid =
    let (capacity, divided, last) = >>=-eq-ok (ceil_div bucket (suc n) _) _ planned in
    let is_plan = ok-injective last in
    let tokens = ap (λ (p : Qwen35OnlineDecodePlan). p.partition_tokens) is_plan in
    let active = ap (λ (p : Qwen35OnlineDecodePlan). p.active_partition_capacity) is_plan in
    let is_capacity = (ceil_div-rounded bucket (suc n) _ capacity divided).1 in
    let piece : IsPieceSize (suc n) = ground (arith, kind) in
    let (covers, fewer) = rounded_bounds bucket s.max_context_tokens (suc n) piece below in
    let some : 0 < suc n = omega arith in
    inr (
      subst (λ k. 0 < k) tokens some,
      rw (← tokens, ← active, is_capacity) (omega (arith, covers, holds)),
      subst (λ k. HasRoom s layout (head * rounded s.max_context_tokens k + partition)) tokens
          (IsSplit-HasRoom s (suc n) layout capacity head partition
            (split_layout-IsSplit s (suc n) layout laid)
            (subst (λ k. k ≤ rounded s.max_context_tokens (suc n)) (sym is_capacity) fewer)
            head_below (subst (λ k. partition < k) (sym active) inside)),
    )

-- For a context that a plan of a decode step returns on, and the workspace layout of the mode that the
-- plan has resolved: the mode is one block, or partitions of 256 or 512 tokens, and the plan's partitions are
-- that long; the plan has one block and no partitions, or its active partitions hold the whole context, and the partial result of each query head for each active partition has room in the workspace:
-- its largest score, its sum and its values end in their arrays, which do not overlap.
pub qwen35_online_decode_plan-Covering :
    (s : Qwen35AttentionShape) (requested : Qwen35DecodeAttentionMode) (context head partition : ℕ)
    (plan : Qwen35OnlineDecodePlan) (layout : Qwen35OnlineDecodeWorkspaceLayout)
    → s.max_context_tokens ≤ size_max
    → qwen35_online_decode_plan s requested context ≡ ok plan
    → qwen35_online_decode_workspace_layout s plan.resolved_mode ≡ ok layout
    → head < s.query_heads
    → partition < plan.active_partition_capacity
    → IsLengthOf plan.resolved_mode plan.partition_tokens
      × Covering s context plan layout (partial_of s plan head partition)
unfolding qwen35_online_decode_plan qwen35_online_decode_workspace_layout Attention.require
qwen35_online_decode_plan-Covering s requested context head partition plan layout word h laid
      head_below inside =
    let mode = resolve_mode requested in
    let (_, h₁) = throw_if->>-eq-ok (not (not (s.max_context_tokens == 0))) _ _ h in
    let (_, h₂) = throw_if->>-eq-ok (not (not (context == 0))) _ _ h₁ in
    let (within, h₃) = throw_if->>-eq-ok (not (leb context s.max_context_tokens)) _ _ h₂ in
    let (n, is_n, h₄) = >>=-eq-ok (partition_tokens_for_mode (resolve_mode requested)) _ h₃ in
    let (_, planned) =
      throw_if->>-eq-ok (not (n == 0 || online_decode_model_signature_supported s)) _ _ h₄ in
    let is_mode = plan_of-mode mode n (context_bucket_tokens s context) plan planned in
    let (_, g₁) = throw_if->>-eq-ok (not (not (is_auto plan.resolved_mode))) _ _ laid in
    let (n', is_n', g₂) = >>=-eq-ok (partition_tokens_for_mode plan.resolved_mode) _ g₁ in
    let same : n' ≡ n =
      ok-injective (sym is_n' ∙ ap (λ m. partition_tokens_for_mode m) is_mode ∙ is_n) in
    let fits : context ≤ s.max_context_tokens = ground (arith, within) in
    let (holds, below) = context_bucket_tokens-holds s context fits word in
    let tokens = plan_of-tokens mode n (context_bucket_tokens s context) plan planned in
    (
      subst (λ m. IsLengthOf m plan.partition_tokens) (sym is_mode)
          (subst (λ k. IsLengthOf mode k) (sym tokens) (resolve_mode-IsLengthOf requested n is_n)),
      plan_of-Covering s mode context (context_bucket_tokens s context) n head partition plan layout
          (partition_tokens-IsPieceSize mode n is_n) holds below head_below inside planned
          (subst (λ k. layout_for s k ≡ ok layout) same g₂),
    )
