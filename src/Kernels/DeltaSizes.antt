-- ===== src/Kernels/DeltaSizes.antt =====
-- cpp/kernels/qwen35_delta.cu: the workspace of a gated-delta block.
use raftinfer.Base.{
  Error, ℕ, ◌-◌, ◌*◌, ◌≤◌, ◌<◌, ◌==◌, ok, >>=-eq-ok, ok-injective, size_max, ◌≡◌, ap, subst, arith,
}
use native.Mathlib.Nat.{mul-pos}
use raftinfer.Base.Sizes.{checked_mul, checked_add, checked_mul-eq-ok, checked_add-eq-ok}
use raftinfer.Kernels.Delta.{
  GatedDeltaShape, CheckedShape, require, require_delta_sizes, checked_block_count, workspace_for,
  validate_shape, qwen35_gated_delta_workspace_bytes,
}

workspace_for-positive :
    (s : GatedDeltaShape) (conv_dim n : ℕ)
    → conv_dim ≤ size_max
    → 0 < s.tokens
    → 0 < s.hidden_size
    → workspace_for s conv_dim ≡ ok n
    → 0 < n
unfolding workspace_for
workspace_for-positive s conv_dim n small tokens hidden h =
    let (per_token, added, h₁) = >>=-eq-ok (checked_add conv_dim s.hidden_size _) _ h in
    let (elements, multiplied, last) = >>=-eq-ok (checked_mul s.tokens per_token _) _ h₁ in
    let sum = ((checked_add-eq-ok conv_dim s.hidden_size _ per_token small).0 added).0 in
    let product = ((checked_mul-eq-ok s.tokens per_token _ elements).0 multiplied).0 in
    let some : 0 < s.tokens * per_token = mul-pos tokens (omega (arith, sum, hidden)) in
    let total = ((checked_mul-eq-ok elements 4 _ n).0 last).0 in omega (arith, total, product, some)

convolved_small :
    (key value two conv_dim : ℕ) (e e' : Error)
    → checked_mul key 2 e ≡ ok two
    → checked_add two value e' ≡ ok conv_dim
    → conv_dim ≤ size_max
convolved_small key value two conv_dim e e' doubled added =
    let product = (checked_mul-eq-ok key 2 e two).0 doubled in
    let sum = (checked_add-eq-ok two value e' conv_dim (omega (arith, product))).0 added in
    omega (arith, sum)

validate_shape-positive :
    (s : GatedDeltaShape) (c : CheckedShape)
    → 0 < s.tokens
    → 0 < s.hidden_size
    → validate_shape s ≡ ok c
    → 0 < c.workspace_bytes
unfolding validate_shape
validate_shape-positive s c tokens hidden h =
    let (_, _, h₁) = >>=-eq-ok (require_delta_sizes s) _ h in
    let (key, _, h₂) = >>=-eq-ok (checked_mul s.key_heads s.key_dim _) _ h₁ in
    let (value, _, h₃) = >>=-eq-ok (checked_mul s.value_heads s.value_dim _) _ h₂ in
    let (_, _, h₄) = >>=-eq-ok (require (value == s.hidden_size) _) _ h₃ in
    let (two, doubled, h₅) = >>=-eq-ok (checked_mul key 2 _) _ h₄ in
    let (conv_dim, added, h₆) = >>=-eq-ok (checked_add two value _) _ h₅ in
    let small = convolved_small key value two conv_dim _ _ doubled added in
    let (_, _, h₇) = >>=-eq-ok (checked_mul s.value_heads 2 _) _ h₆ in
    let (with_heads, _, h₈) = >>=-eq-ok (checked_add conv_dim _ _) _ h₇ in
    let (stride, _, h₉) = >>=-eq-ok (checked_add with_heads s.hidden_size _) _ h₈ in
    let (_, _, g₁) = >>=-eq-ok (checked_mul s.tokens stride _) _ h₉ in
    let (_, _, g₂) = >>=-eq-ok (checked_mul s.tokens s.hidden_size _) _ g₁ in
    let (_, _, g₃) = >>=-eq-ok (checked_mul conv_dim s.conv_width _) _ g₂ in
    let (_, _, g₄) = >>=-eq-ok (checked_mul conv_dim (s.conv_width - 1) _) _ g₃ in
    let (_, _, g₅) = >>=-eq-ok (checked_mul value s.key_dim _) _ g₄ in
    let (bytes, bytes_are, g₆) = >>=-eq-ok (workspace_for s conv_dim) _ g₅ in
    let (_, _, g₇) = >>=-eq-ok (checked_block_count s.tokens _) _ g₆ in
    let (_, _, g₈) = >>=-eq-ok (checked_block_count conv_dim _) _ g₇ in
    let (blocks, _, g₉) = >>=-eq-ok (checked_mul s.key_heads 2 _) _ g₈ in
    let (_, _, f₁) = >>=-eq-ok (checked_block_count blocks _) _ g₉ in
    let (_, _, last) = >>=-eq-ok (checked_block_count s.value_heads _) _ f₁ in
    let some = workspace_for-positive s conv_dim bytes small tokens hidden bytes_are in
    subst (λ n. 0 < n) (ap (λ (k : CheckedShape). k.workspace_bytes) (ok-injective last)) some

pub delta_workspace-positive :
    (s : GatedDeltaShape) (n : ℕ)
    → 0 < s.tokens
    → 0 < s.hidden_size
    → qwen35_gated_delta_workspace_bytes s ≡ ok n
    → 0 < n
unfolding qwen35_gated_delta_workspace_bytes
delta_workspace-positive s n tokens hidden h =
    let (c, checked, last) = >>=-eq-ok (validate_shape s) _ h in
    subst (λ k. 0 < k) (ok-injective last) (validate_shape-positive s c tokens hidden checked)
