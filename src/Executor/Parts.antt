-- ===== src/Executor/Parts.antt =====
-- cpp/execution/qwen35_executor.cu: the buffers of an executor whose sizes the kernels or the blocks determine.
use raftinfer.Base.{
  ℕ, ◌+◌, ◌-◌, ◌*◌, ◌/◌, ◌<◌, leb, ltb, ◌==◌, not, if◌then◌else◌, Result, ok, err, ◌>>=◌, >>=-eq-ok,
  throw_if->>-eq-ok, ◌≡◌, subst, arith, primitive_error, false,
}
use native.Mathlib.Nat.{mul-pos}
use raftinfer.Base.Sizes.{checked_mul}
use raftinfer.Model.Config.{Qwen35Config}
use raftinfer.Registry.Enums.{DataType}
use raftinfer.Session.Policy.{Qwen35KvCacheDType, Qwen35DecodeAttentionMode}
use raftinfer.Kernels.Attention.{
  Qwen35AttentionShape, Qwen35AttentionLaunchPolicy, validate_shape, cache_elements, kv_vector_size,
  validate_launch_policy, kv_cache_element_bytes, qwen35_attention_cache_bytes,
}
use raftinfer.Kernels.Attention
use raftinfer.Kernels.Online.{is_online}
use raftinfer.Kernels.Argmax.{min, qwen35_parallel_argmax_workspace_bytes}
use raftinfer.Executor.Resolve.{attention_shape}
use raftinfer.Executor.Estimate.{
  max, as_executor_error, attention_cache_bytes, attention_workspace_bytes, decode_bytes,
  max_attention_workspace, matmul_input_estimate,
}
use raftinfer.Executor.Buffers.{dtype_size, matmul_input_bytes}
use raftinfer.Executor.Covered.{product_is, product_fits, product_returns}
use raftinfer.Executor.Served.{Covers, Returns}

pub argmax-positive : (n v : ℕ) → qwen35_parallel_argmax_workspace_bytes n ≡ ok v → 0 < v
unfolding qwen35_parallel_argmax_workspace_bytes Attention.require
argmax-positive n v h =
    let (some, h₁) = throw_if->>-eq-ok (not (ltb 0 n)) _ _ h in
    let (_, h₂) = throw_if->>-eq-ok (not (leb n 2147483647)) _ _ h₁ in
    let is_v = product_is (min 256 ((n + 255) / 256)) 8 _ h₂ in
    let blocks : 0 < min 256 ((n + 255) / 256) = ground (arith, some) in omega (arith, is_v, blocks)

pub as_executor_error-ok : (r : Result ℕ) (n : ℕ) → as_executor_error r ≡ ok n → r ≡ ok n
as_executor_error-ok (ok m) n h = h
as_executor_error-ok (err (primitive_error t)) n h = cc
as_executor_error-ok (err e) n h = ground (arith, h)

element-positive : (d : Qwen35KvCacheDType) (n : ℕ) → kv_cache_element_bytes d ≡ ok n → 0 < n
unfolding kv_cache_element_bytes
element-positive d n h = ground (arith, h)

pub cache-positive :
    (s : Qwen35AttentionShape) (policy : Qwen35AttentionLaunchPolicy) (n : ℕ)
    → 0 < s.kv_heads
    → 0 < s.head_dim
    → 0 < s.max_context_tokens
    → attention_cache_bytes s policy ≡ ok n
    → 0 < n
unfolding attention_cache_bytes qwen35_attention_cache_bytes cache_elements kv_vector_size
cache-positive s policy n heads dimension context h =
    let plain = as_executor_error-ok (qwen35_attention_cache_bytes s policy) n h in
    let (_, _, h₁) = >>=-eq-ok (validate_shape s) _ plain in
    let (_, _, h₂) = >>=-eq-ok (validate_launch_policy policy) _ h₁ in
    let (elements, elements_is, h₃) = >>=-eq-ok (cache_elements s) _ h₂ in
    let (element, element_is, h₄) = >>=-eq-ok (kv_cache_element_bytes policy.kv_cache_dtype) _ h₃ in
    let (vector, vector_is, k₁) = >>=-eq-ok (kv_vector_size s) _ elements_is in
    let (plane, plane_is, k₂) = >>=-eq-ok (checked_mul s.max_context_tokens vector _) _ k₁ in
    let some_vector : 0 < s.kv_heads * s.head_dim = mul-pos heads dimension in
    let vector_eq = product_is s.kv_heads s.head_dim _ vector_is in
    let plane_eq = product_is s.max_context_tokens vector _ plane_is in
    let some_plane : 0 < s.max_context_tokens * vector =
      mul-pos context (omega (arith, vector_eq, some_vector)) in
    let elements_eq = product_is 2 plane _ k₂ in
    let some : 0 < elements * element =
      mul-pos (omega (arith, elements_eq, plane_eq, some_plane))
        (element-positive policy.kv_cache_dtype element element_is) in
    omega (arith, product_is elements element _ h₄, some)

pub matmul_input-Covers :
    (c : Qwen35Config) (t : ℕ) (weight_dtype : DataType)
    → 0 < t
    → 0 < c.hidden_size
    → dtype_size weight_dtype ≡ ok 2
    → Covers (matmul_input_estimate c t) (matmul_input_bytes c t weight_dtype)
unfolding matmul_input_estimate matmul_input_bytes
matmul_input-Covers c t weight_dtype some_tokens hidden two v h =
    let wide = max c.hidden_size c.intermediate_size in
    let (elements, elements_is, last) = >>=-eq-ok (checked_mul t wide _) _ h in
    let some_wide : 0 < wide = ground (arith, hidden) in
    let some : 0 < t * wide = mul-pos some_tokens some_wide in
    let is_elements = product_is t wide _ elements_is in
    let is_v = product_is elements 2 _ last in
    let fits = product_fits elements 2 _ last in
    (
      elements * 2,
      rw (elements_is, two) (product_returns elements 2 _ fits),
      omega (arith, is_elements, some),
      omega (arith, is_v),
    )

-- The workspace of attention is no less than that of a prefill, whose size is asked for again.
pub prefill-Returns :
    (c : Qwen35Config) (t m : ℕ) (policy : Qwen35AttentionLaunchPolicy)
    (mode : Qwen35DecodeAttentionMode)
    → 0 < c.full_attention_head_count
    → Returns (max_attention_workspace c t m policy mode)
    → Returns (attention_workspace_bytes (attention_shape c m t (m - t)) policy)
unfolding max_attention_workspace
prefill-Returns c t m policy mode heads (v, h) =
    let some : (c.full_attention_head_count == 0) ≡ false = ground (arith, heads) in
    let (prefill, is_prefill, _) =
      >>=-eq-ok (attention_workspace_bytes (attention_shape c m t (m - t)) policy) _ (
        subst
          (λ b.
            (if b
              then ok 0
              else (attention_workspace_bytes (attention_shape c m t (m - t)) policy >>= λ prefill.
                  decode_bytes (is_online policy.implementation) (attention_shape c m 1 (m - 1))
                    mode
                  >>= λ decode. ok (max prefill decode)))
            ≡ ok v)
          some h) in
    (prefill, is_prefill)
