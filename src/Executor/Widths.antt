-- ===== src/Executor/Widths.antt =====
-- cpp/execution/qwen35_executor.cu: the sizes of a configuration that validate_config accepts.
use raftinfer.Base.{
  dec_lt, ℕ, ◌+◌, ◌*◌, ◌%◌, ◌≤◌, ◌<◌, leb, ltb, ◌==◌, not, ok, ok-injective, >>=-eq-ok,
  throw_if->>-eq-ok, u32_max, ◌≡◌, sym, subst, ◌∙◌, arith,
}
use native.Mathlib.Nat.{mul-pos, mul-le-mul, mod-eq_of_lt, le_refl}
use raftinfer.Base.Sizes.{checked_mul, checked_add, checked_mul-eq-ok, checked_add-eq-ok}
use raftinfer.Model.Config.{Qwen35Config}
use raftinfer.Executor.Resolve.{require, require_counts, require_relations, validate_config}
use raftinfer.Executor.Estimate.{linear_qkv_width, Widths, widths_of}

-- The fields are std::uint32_t.
pub record FitsU32 (c : Qwen35Config) : Type 0 where
  pub vocabulary : c.vocabulary_size ≤ u32_max
  pub hidden : c.hidden_size ≤ u32_max
  pub intermediate : c.intermediate_size ≤ u32_max

-- What validate_config has tested, as far as the sizes of the buffers depend on it.
pub record Tested (c : Qwen35Config) (max_context : ℕ) : Type 0 where
  pub vocabulary : 0 < c.vocabulary_size
  pub hidden : 0 < c.hidden_size
  pub intermediate : 0 < c.intermediate_size
  pub context : 0 < max_context
  pub key_heads : 0 < c.linear_key_head_count
  pub value_heads : 0 < c.linear_value_head_count
  pub dimension : 0 < c.linear_head_dimension
  pub heads : 0 < c.full_attention_head_count
  pub kv_heads : 0 < c.full_attention_kv_head_count
  pub head_dimension : 0 < c.full_attention_head_dimension
  pub grouped : c.full_attention_head_count % c.full_attention_kv_head_count ≡ 0
  pub full_width : c.full_attention_head_count * c.full_attention_head_dimension ≡ c.hidden_size
  pub value_width : c.linear_value_head_count * c.linear_head_dimension ≡ c.hidden_size
  pub values_grouped : c.linear_value_head_count % c.linear_key_head_count ≡ 0

require_counts-positive :
    (c : Qwen35Config) (m : ℕ)
    → require_counts c m ≡ ok tt
    → (0 < c.vocabulary_size)
      × (0 < c.hidden_size)
      × (0 < c.intermediate_size)
      × (0 < m)
      × (0 < c.linear_key_head_count)
      × (0 < c.linear_value_head_count)
      × (0 < c.linear_head_dimension)
      × (0 < c.full_attention_head_count)
      × (0 < c.full_attention_kv_head_count)
      × (0 < c.full_attention_head_dimension)
unfolding require_counts require
require_counts-positive c m h = ground (arith, h)

require_relations-widths :
    (c : Qwen35Config)
    → require_relations c ≡ ok tt
    → (c.full_attention_head_count % c.full_attention_kv_head_count ≡ 0)
      × (c.full_attention_head_count * c.full_attention_head_dimension ≡ c.hidden_size)
      × (c.linear_value_head_count * c.linear_head_dimension ≡ c.hidden_size)
      × (c.linear_value_head_count % c.linear_key_head_count ≡ 0)
unfolding require_relations require
require_relations-widths c h =
    let (_, h₁) = throw_if->>-eq-ok (not (ltb 0 c.rotary_dimension)) _ _ h in
    let (_, h₂) =
      throw_if->>-eq-ok (not (leb c.rotary_dimension c.full_attention_head_dimension)) _ _ h₁ in
    let (_, h₃) = throw_if->>-eq-ok (not (c.rotary_dimension % 2 == 0)) _ _ h₂ in
    let (grouped, h₄) =
      throw_if->>-eq-ok (not (c.full_attention_head_count % c.full_attention_kv_head_count == 0)) _
        _ h₃ in
    let (full, full_is, h₅) =
      >>=-eq-ok (checked_mul c.full_attention_head_count c.full_attention_head_dimension _) _ h₄ in
    let (full_hidden, h₆) = throw_if->>-eq-ok (not (full == c.hidden_size)) _ _ h₅ in
    let (value, value_is, h₇) =
      >>=-eq-ok (checked_mul c.linear_value_head_count c.linear_head_dimension _) _ h₆ in
    let (value_hidden, h₈) = throw_if->>-eq-ok (not (value == c.hidden_size)) _ _ h₇ in
    let product =
      (checked_mul-eq-ok c.full_attention_head_count c.full_attention_head_dimension _ full).0
        full_is in
    let value_product =
      (checked_mul-eq-ok c.linear_value_head_count c.linear_head_dimension _ value).0 value_is in
    (
      ground (arith, grouped),
      sym product.0 ∙ ground (arith, full_hidden),
      sym value_product.0 ∙ ground (arith, value_hidden),
      ground (arith, h₈),
    )

pub validate_config-Tested : (c : Qwen35Config) (m : ℕ) → validate_config c m ≡ ok tt → Tested c m
unfolding validate_config
validate_config-Tested c m h =
    let (_, counts, h₁) = >>=-eq-ok (require_counts c m) _ h in
    let (_, relations, _) = >>=-eq-ok (require_relations c) _ h₁ in
    let p = require_counts-positive c m counts in
    let r = require_relations-widths c relations in
    record {
      vocabulary = p.0;
      hidden = p.1;
      intermediate = p.2;
      context = p.3;
      key_heads = p.4;
      value_heads = p.5;
      dimension = p.6;
      heads = p.7;
      kv_heads = p.8;
      head_dimension = p.9;
      grouped = r.0;
      full_width = r.1;
      value_width = r.2;
      values_grouped = r.3;
    }

-- A divisor is no larger.
le_of_multiple : (a b : ℕ) → 0 < a → a % b ≡ 0 → b ≤ a
le_of_multiple a b some multiple = elim (dec_lt a b) [
  | yes below ↦ absurd (omega (arith, mod-eq_of_lt below, multiple))
  | no above ↦ omega (arith, above)
]

-- The widths that the code computes are not zero, and so small that nothing wraps.
pub record Bounded (w : Widths) : Type 0 where
  pub qkv : (0 < w.qkv) × (w.qkv ≤ 3 * u32_max)
  pub gate : (0 < w.gate) × (w.gate ≤ u32_max)
  pub pack : (0 < w.pack) × (w.pack ≤ 6 * u32_max)
  pub full_q : (0 < w.full_q) × (w.full_q ≤ u32_max)
  pub full_kv : (0 < w.full_kv) × (w.full_kv ≤ u32_max)

linear_qkv_width-sum :
    (c : Qwen35Config) (qkv : ℕ)
    → linear_qkv_width c ≡ ok qkv
    → qkv
      ≡ 2 * (c.linear_key_head_count * c.linear_head_dimension)
        + c.linear_value_head_count * c.linear_head_dimension
unfolding linear_qkv_width
linear_qkv_width-sum c qkv h =
    let (key, key_is, h₁) =
      >>=-eq-ok (checked_mul c.linear_key_head_count c.linear_head_dimension _) _ h in
    let (value, value_is, h₂) =
      >>=-eq-ok (checked_mul c.linear_value_head_count c.linear_head_dimension _) _ h₁ in
    let (two, two_is, sum_is) = >>=-eq-ok (checked_mul 2 key _) _ h₂ in
    let k = (checked_mul-eq-ok c.linear_key_head_count c.linear_head_dimension _ key).0 key_is in
    let v =
      (checked_mul-eq-ok c.linear_value_head_count c.linear_head_dimension _ value).0 value_is in
    let t = (checked_mul-eq-ok 2 key _ two).0 two_is in
    let s = (checked_add-eq-ok two value _ qkv (omega (arith, t.0, t.1))).0 sum_is in
    omega (arith, k.0, v.0, t.0, s.0)

pub widths_of-Bounded :
    (c : Qwen35Config) (m : ℕ) (w : Widths)
    → Tested c m
    → FitsU32 c
    → widths_of c ≡ ok w
    → Bounded w
unfolding widths_of
widths_of-Bounded c m w t f h =
    let heads = c.linear_value_head_count in
    let d = c.linear_head_dimension in
    let (qkv, qkv_is, h₁) = >>=-eq-ok (linear_qkv_width c) _ h in
    let (gate, gate_is, h₂) = >>=-eq-ok (checked_mul heads d _) _ h₁ in
    let (beta, beta_is, h₃) = >>=-eq-ok (checked_add qkv heads _) _ h₂ in
    let (alpha, alpha_is, h₄) = >>=-eq-ok (checked_add heads gate _) _ h₃ in
    let (pack, pack_is, h₅) = >>=-eq-ok (checked_add beta alpha _) _ h₄ in
    let (full_q, full_q_is, h₆) =
      >>=-eq-ok (checked_mul c.full_attention_head_count c.full_attention_head_dimension _) _ h₅ in
    let (full_kv, full_kv_is, last) =
      >>=-eq-ok (checked_mul c.full_attention_kv_head_count c.full_attention_head_dimension _) _
        h₆ in
    let q = linear_qkv_width-sum c qkv qkv_is in
    let g = (checked_mul-eq-ok heads d _ gate).0 gate_is in
    let fewer_keys : c.linear_key_head_count ≤ heads =
      le_of_multiple heads c.linear_key_head_count t.value_heads t.values_grouped in
    let keys : c.linear_key_head_count * d ≤ heads * d = mul-le-mul fewer_keys (le_refl d) in
    let some_keys : 0 < c.linear_key_head_count * d = mul-pos t.key_heads t.dimension in
    let few_heads : heads * 1 ≤ heads * d = mul-le-mul (le_refl heads) t.dimension in
    let qkv_small : qkv ≤ 3 * u32_max = omega (arith, q, keys, t.value_width, f.hidden) in
    let b = (checked_add-eq-ok qkv heads _ beta (omega (arith, qkv_small))).0 beta_is in
    let a =
      (checked_add-eq-ok heads gate _ alpha (omega (arith, few_heads, t.value_width, f.hidden))).0
        alpha_is in
    let p = (checked_add-eq-ok beta alpha _ pack (omega (arith, b.0, b.1))).0 pack_is in
    let fq =
      (checked_mul-eq-ok c.full_attention_head_count c.full_attention_head_dimension _ full_q).0
        full_q_is in
    let fkv =
      (checked_mul-eq-ok c.full_attention_kv_head_count c.full_attention_head_dimension _ full_kv).0
        full_kv_is in
    let fewer_kv : c.full_attention_kv_head_count ≤ c.full_attention_head_count =
      le_of_multiple c.full_attention_head_count c.full_attention_kv_head_count t.heads t.grouped in
    let kv_small : c.full_attention_kv_head_count * c.full_attention_head_dimension
        ≤ c.full_attention_head_count * c.full_attention_head_dimension =
      mul-le-mul fewer_kv (le_refl c.full_attention_head_dimension) in
    let some_kv : 0 < c.full_attention_kv_head_count * c.full_attention_head_dimension =
      mul-pos t.kv_heads t.head_dimension in
    let made : Widths = record {
      qkv = qkv;
      gate = gate;
      pack = pack;
      full_q = full_q;
      full_kv = full_kv;
    } in
    let same : made ≡ w = ok-injective last in
    subst Bounded same (record {
      qkv = (omega (arith, q, some_keys), qkv_small);
      gate = (
        omega (arith, g.0, t.value_width, t.hidden),
        omega (arith, g.0, t.value_width, f.hidden),
      );
      pack = (
        omega (arith, p.0, b.0, t.value_heads),
        omega (arith, p.0, b.0, a.0, qkv_small, few_heads, g.0, t.value_width, f.hidden),
      );
      full_q = (
        omega (arith, fq.0, t.full_width, t.hidden),
        omega (arith, fq.0, t.full_width, f.hidden),
      );
      full_kv =
          (omega (arith, fkv.0, some_kv), omega (arith, fkv.0, kv_small, t.full_width, f.hidden));
    })

pub value_heads_small :
    (c : Qwen35Config) (m : ℕ) → Tested c m → FitsU32 c → c.linear_value_head_count ≤ u32_max
value_heads_small c m t f =
    let few : c.linear_value_head_count * 1 ≤ c.linear_value_head_count * c.linear_head_dimension =
      mul-le-mul (le_refl c.linear_value_head_count) t.dimension in
    omega (arith, few, t.value_width, f.hidden)
