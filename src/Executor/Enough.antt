-- ===== src/Executor/Enough.antt =====
-- cpp/execution/qwen35_executor.cu: a workspace of the size that workspace_estimate returns is enough for
-- allocate_buffers.
use raftinfer.Base.{
  ℕ, ◌*◌, ◌%◌, ◌^◌, ◌≤◌, ◌<◌, ok, Error, executor_error, bytes, Text, >>=-eq-ok, ok-injective,
  u32_max, ◌≡◌, refl, sym, subst, ◌∙◌, arith,
}
use native.Mathlib.Nat.{mod-eq_of_lt}
use raftinfer.Base.Sizes.{checked_mul}
use raftinfer.Model.Config.{Qwen35Config}
use raftinfer.Registry.Enums.{DataType}
use raftinfer.Session.Policy.{Qwen35ExecutionPolicy}
use raftinfer.Workspace.{IsValid}
use raftinfer.Workspace.Place.{le-round_up}
use raftinfer.Workspace.Arena.{WorkspaceArena}
use raftinfer.Kernels.Delta.{qwen35_gated_delta_workspace_bytes}
use raftinfer.Kernels.DeltaSizes.{delta_workspace-positive}
use raftinfer.Kernels.Argmax.{qwen35_parallel_argmax_workspace_bytes}
use raftinfer.Executor.Resolve.{
  attention_shape, attention_launch_policy, max_prefill, validate_config, resolve_execution_policy,
}
use raftinfer.Executor.Policies.{resolve_execution_policy-IsSettled}
use raftinfer.Executor.Estimate.{
  Widths, widths_of, attention_cache_bytes, delta_shape, rows_estimate, size_estimates, add_all,
  workspace_estimate, matmul_workspace_budget,
}
use raftinfer.Executor.Buffers.{
  Buffers, dtype_size, rows_of, query_gate_bytes, buffer_steps, state_slots, allocate_buffers,
}
use raftinfer.Executor.Widths.{
  Tested, FitsU32, Bounded, validate_config-Tested, widths_of-Bounded, value_heads_small,
}
use raftinfer.Executor.Covered.{
  product_is, product_returns, same-Covers, product-Covers, ok-Covers, rows-Covers,
}
use raftinfer.Executor.Parts.{argmax-positive, cache-positive, matmul_input-Covers, prefill-Returns}
use raftinfer.Executor.Blocks.{aligned_4, aligned_16, aligned_256, block_steps-Served}
use raftinfer.Executor.Room.{align_up-round_up}
use raftinfer.Executor.Served.{Covers, Served, run_steps_fit}

-- The type of a weight is two bytes long.
abbrev pub IsHalf : DataType → Type 0
IsHalf dtype = dtype_size dtype ≡ ok 2

module _ (t : ℕ) (some_tokens : 0 < t) where
  activation-Covers :
      (width : ℕ) (message message' : Text)
      → 0 < width
      → width ≤ 2 ^ 40
      → Covers (rows_estimate t width message) (rows_of 4 t width message')
  unfolding rows_of
  activation-Covers width message message' some small =
      rows-Covers t width _ _ _ some_tokens some small

  query_gate-Covers :
      (width : ℕ) (message : Text)
      → 0 < width
      → width ≤ u32_max
      → Covers (rows_estimate t (width * 2 % 2 ^ 64) message) (query_gate_bytes 4 t width)
  unfolding query_gate_bytes rows_of
  query_gate-Covers width message some small =
      let unwrapped : width * 2 % 2 ^ 64 ≡ width * 2 = mod-eq_of_lt (omega (arith, small)) in
      let doubled : checked_mul width 2 _ ≡ ok (width * 2) =
        product_returns width 2 (executor_error (bytes "full query gate width overflow"))
          (omega (arith, small)) in
      rw (unwrapped, doubled)
        (rows-Covers t (width * 2) _ _ _ some_tokens (omega (arith, some)) (omega (arith, small)))

logits-Covers :
    (n : ℕ) (e e' : Error)
    → 0 < n
    → n ≤ u32_max
    → Covers (checked_mul (n * 4 % 2 ^ 64) 1 e) (checked_mul n 4 e')
logits-Covers n e e' some small v h =
    let unwrapped : n * 4 % 2 ^ 64 ≡ n * 4 = mod-eq_of_lt (omega (arith, small)) in
    let is_v = product_is (n * 4 % 2 ^ 64) 1 e h in
    (
      n * 4,
      product_returns n 4 e' (omega (arith, small)),
      omega (arith, some),
      omega (arith, is_v, unwrapped),
    )

-- A step in front of the steps that follow it.
infixr 5 ◌▸◌
abbrev ◌▸◌ : {A B C : Type 0} → A × B → C → A × B × C
step ▸ steps = (step.0, step.1, steps)

max_prefill-positive : (m : ℕ) → 0 < m → 0 < max_prefill m
max_prefill-positive m h = ground (arith, h)

module _ (c : Qwen35Config) (m : ℕ) (p : Qwen35ExecutionPolicy) (w : Widths) (t : Tested c m)
    (f : FitsU32 c) (b : Bounded w) (width : 2 ≤ c.linear_convolution_width) where
  buffer_steps-Served :
      (weight_dtype : DataType) (kv : ℕ)
      → IsHalf weight_dtype
      → attention_cache_bytes (attention_shape c m 1 0) (attention_launch_policy p) ≡ ok kv
      → Served (size_estimates c m p w kv) (buffer_steps c m p 4 weight_dtype (ok tt) (ok tt) w)
  unfolding size_estimates buffer_steps
  buffer_steps-Served weight_dtype kv half cache =
      let tokens = max_prefill-positive m t.context in
      let rows = λ (n : ℕ) (a e : Text) (some : 0 < n) (small : n ≤ 2 ^ 40).
        activation-Covers (max_prefill m) tokens n a e some small in
      let some_kv : 0 < kv =
        cache-positive (attention_shape c m 1 0) (attention_launch_policy p) kv t.kv_heads
          t.head_dimension t.context cache in
      let hidden = λ (a e : Text). rows c.hidden_size a e t.hidden (omega (arith, f.hidden)) in
      let inner = λ (a e : Text).
        rows c.intermediate_size a e t.intermediate (omega (arith, f.intermediate)) in
      let heads = λ (a e : Text).
        rows c.linear_value_head_count a e t.value_heads
          (omega (arith, value_heads_small c m t f)) in
      let full = λ (a e : Text). rows w.full_q a e b.full_q.0 (omega (arith, b.full_q.1)) in
      let key = λ (a e : Text). rows w.full_kv a e b.full_kv.0 (omega (arith, b.full_kv.1)) in
      let four = ok-Covers 4 (omega arith) in
      let words = λ (e : Error). product-Covers m 4 e t.context (omega arith) in
      let states = block_steps-Served c m w t b width kv _ c.blocks cache some_kv in
      (words _, aligned_4)
      ▸ (four, aligned_4)
      ▸ (
        same-Covers (qwen35_parallel_argmax_workspace_bytes c.vocabulary_size)
            (argmax-positive c.vocabulary_size),
        aligned_4,
      )
      ▸ (four, aligned_4)
      ▸ (four, aligned_4)
      ▸ (words _, aligned_4)
      ▸ (
        refl,
        (
          refl,
          (hidden _ _, aligned_16)
              ▸ (hidden _ _, aligned_16)
              ▸ (inner _ _, aligned_16)
              ▸ (inner _ _, aligned_16)
              ▸ (rows w.pack _ _ b.pack.0 (omega (arith, b.pack.1)), aligned_16)
              ▸ (rows w.qkv _ _ b.qkv.0 (omega (arith, b.qkv.1)), aligned_16)
              ▸ (heads _ _, aligned_16)
              ▸ (heads _ _, aligned_16)
              ▸ (rows w.gate _ _ b.gate.0 (omega (arith, b.gate.1)), aligned_16)
              ▸ (
                query_gate-Covers (max_prefill m) tokens w.full_q _ b.full_q.0 b.full_q.1,
                aligned_16,
              )
              ▸ (full _ _, aligned_16)
              ▸ (full _ _, aligned_16)
              ▸ (key _ _, aligned_16)
              ▸ (key _ _, aligned_16)
              ▸ (key _ _, aligned_16)
              ▸ (hidden _ _, aligned_16)
              ▸ (hidden _ _, aligned_16)
              ▸ (logits-Covers c.vocabulary_size _ _ t.vocabulary f.vocabulary, aligned_16)
              ▸ (
                matmul_input-Covers c (max_prefill m) weight_dtype tokens t.hidden half,
                aligned_16,
              )
              ▸ (ok-Covers matmul_workspace_budget (omega arith), aligned_256)
              ▸ (
                λ here later.
                    prefill-Returns c (max_prefill m) m (attention_launch_policy p)
                      p.decode_attention t.heads here,
                (refl, aligned_4)
                    ▸ (
                      same-Covers
                          (qwen35_gated_delta_workspace_bytes (delta_shape c (max_prefill m)))
                          (λ v h.
                            delta_workspace-positive (delta_shape c (max_prefill m)) v tokens
                              t.hidden h),
                      aligned_4,
                    )
                    ▸ states,
              ),
        ),
      )

-- What the requested policy is resolved to has the workspace of the request.
workspace_estimate-resolved :
    (c : Qwen35Config) (m : ℕ) (p q : Qwen35ExecutionPolicy)
    → resolve_execution_policy c m p ≡ ok q
    → workspace_estimate c m q ≡ workspace_estimate c m p
unfolding workspace_estimate
workspace_estimate-resolved c m p q h =
    rw ((resolve_execution_policy-IsSettled c m p q h).1, h) refl

resolved-Tested :
    (c : Qwen35Config) (m : ℕ) (p q : Qwen35ExecutionPolicy)
    → resolve_execution_policy c m p ≡ ok q
    → Tested c m
unfolding resolve_execution_policy
resolved-Tested c m p q h =
    let (_, valid, _) = >>=-eq-ok (validate_config c m) _ h in validate_config-Tested c m valid

-- The parts of an estimate.
record Estimated (c : Qwen35Config) (m : ℕ) (q : Qwen35ExecutionPolicy) (total : ℕ) : Type 0 where
  widths : Widths
  are_widths : widths_of c ≡ ok widths
  kv : ℕ
  is_kv : attention_cache_bytes (attention_shape c m 1 0) (attention_launch_policy q) ≡ ok kv
  sum : ℕ
  is_sum : add_all 0 (size_estimates c m q widths kv) ≡ ok sum
  below : sum ≤ total

workspace_estimate-Estimated :
    (c : Qwen35Config) (m : ℕ) (p q : Qwen35ExecutionPolicy) (total : ℕ)
    → resolve_execution_policy c m p ≡ ok q
    → workspace_estimate c m p ≡ ok total
    → Estimated c m q total
unfolding workspace_estimate
workspace_estimate-Estimated c m p q total resolved h =
    let (q', resolved', h₁) = >>=-eq-ok (resolve_execution_policy c m p) _ h in
    let same : q' ≡ q = ok-injective (sym resolved' ∙ resolved) in
    let (w, widths, h₂) = >>=-eq-ok (widths_of c) _ h₁ in
    let (kv, cached, h₃) =
      >>=-eq-ok (attention_cache_bytes (attention_shape c m 1 0) (attention_launch_policy q')) _
        h₂ in
    let (sum, added, last) = >>=-eq-ok (add_all 0 (size_estimates c m q' w kv)) _ h₃ in
    let (rounded, _) = align_up-round_up 8 sum total (omega arith) last in
    record {
      widths = w;
      are_widths = widths;
      kv = kv;
      is_kv =
          subst
            (λ (r : Qwen35ExecutionPolicy).
              attention_cache_bytes (attention_shape c m 1 0) (attention_launch_policy r) ≡ ok kv)
            same cached;
      sum = sum;
      is_sum =
          subst (λ (r : Qwen35ExecutionPolicy). add_all 0 (size_estimates c m r w kv) ≡ ok sum) same
            added;
      below = omega (arith, rounded, le-round_up sum 256 (omega arith));
    }

-- If workspace_estimate returns a size for a policy, and the policy is resolved, then the estimate for
-- the resolved policy is the same, and in an empty workspace of at least this size allocate_buffers
-- returns: no buffer is refused. This holds for weights of two bytes, activations in F32, a convolution that is
-- wider than one token, and pinned host memory that is granted.
pub allocate_buffers-fits :
    (c : Qwen35Config) (m : ℕ) (p q : Qwen35ExecutionPolicy) (total : ℕ) (weight_dtype : DataType)
    (arena : WorkspaceArena)
    → FitsU32 c
    → 2 ≤ c.linear_convolution_width
    → IsHalf weight_dtype
    → resolve_execution_policy c m p ≡ ok q
    → workspace_estimate c m p ≡ ok total
    → IsValid arena.layout
    → arena.layout.used ≡ 0
    → total ≤ arena.layout.capacity
    → (workspace_estimate c m q ≡ ok total)
      × ((buffers : Buffers) × (arena' : WorkspaceArena) × (allocate_buffers c m q 4 weight_dtype
              (ok tt)
              (ok tt)
              arena
            ≡ ok (buffers, arena'))
          × IsValid arena'.layout)
unfolding allocate_buffers
allocate_buffers-fits c m p q total weight_dtype arena f width half resolved estimated valid empty
      room =
    let t = resolved-Tested c m p q resolved in
    let e = workspace_estimate-Estimated c m p q total resolved estimated in
    let w = e.widths in
    let served =
      buffer_steps-Served c m q w t f (widths_of-Bounded c m w t f e.are_widths) width weight_dtype
        e.kv half e.is_kv in
    let (addresses, arena', run, valid') =
      run_steps_fit (buffer_steps c m q 4 weight_dtype (ok tt) (ok tt) w)
        (size_estimates c m q w e.kv) 0 e.sum arena served e.is_sum valid (omega (arith, empty))
        (omega (arith, e.below, room)) in
    (
      workspace_estimate-resolved c m p q resolved ∙ estimated,
      (
        record { addresses = addresses; slots = state_slots 0 0 c.blocks },
        arena',
        rw (e.are_widths, run) refl,
        valid',
      ),
    )
