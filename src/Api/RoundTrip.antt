-- ===== src/Api/RoundTrip.antt =====
-- The conversions of cpp/src/c_api.cpp in both directions.
use raftinfer.Base.{
  ℕ, ◌≡◌, ◌↔◌, refl, subst, Bool, true, false, not, some, arith, ◌==◌, ==_iff, Text, bytes, ok,
  >>=-eq-ok, throw_if->>-eq-ok,
}
use raftinfer.Base.Int.{ℤ, pos, negsuc}
use raftinfer.Session.Policy.{
  Qwen35AttentionImplementation, materialized_reference, online_tiled, Qwen35DecodeAttentionMode,
  Qwen35KvCacheDType, f32, bf16, Qwen35KvCacheLayout, token_major, head_major,
  Qwen35ExecutionPolicy, default_policy,
}
use raftinfer.Api.Policies.{
  PolicyStruct, AbiSizes, to_attention_implementation, to_kv_cache_dtype, to_kv_cache_layout,
  from_attention_implementation, from_kv_cache_dtype, from_kv_cache_layout, to_bool,
  to_execution_policy,
}

-- How C sees a bool.
abbrev pub bool_code : Bool → ℤ
bool_code true = pos 1
bool_code false = pos 0

not-false : (b : Bool) → not b ≡ false → b ≡ true
not-false true h = refl
not-false false h = cc h

attention-eq :
    (n : ℕ) (v : Qwen35AttentionImplementation)
    → (to_attention_implementation n ≡ ok v) ↔ (from_attention_implementation v ≡ ok n)
unfolding to_attention_implementation from_attention_implementation
attention-eq n materialized_reference = ground arith
attention-eq n online_tiled = ground arith
attention-eq n (Qwen35AttentionImplementation.unknown m) = ground arith

kv_cache_dtype-eq :
    (n : ℕ) (v : Qwen35KvCacheDType) → (to_kv_cache_dtype n ≡ ok v) ↔ (from_kv_cache_dtype v ≡ ok n)
unfolding to_kv_cache_dtype from_kv_cache_dtype
kv_cache_dtype-eq n f32 = ground arith
kv_cache_dtype-eq n bf16 = ground arith
kv_cache_dtype-eq n (Qwen35KvCacheDType.unknown m) = ground arith

kv_cache_layout-eq :
    (n : ℕ) (v : Qwen35KvCacheLayout)
    → (to_kv_cache_layout n ≡ ok v) ↔ (from_kv_cache_layout v ≡ ok n)
unfolding to_kv_cache_layout from_kv_cache_layout
kv_cache_layout-eq n token_major = ground arith
kv_cache_layout-eq n head_major = ground arith
kv_cache_layout-eq n (Qwen35KvCacheLayout.unknown m) = ground arith

bool-eq : (n : ℤ) (name : Text) (b : Bool) → (to_bool n name ≡ ok b) ↔ (n ≡ bool_code b)
unfolding to_bool
bool-eq (pos n) name true = ground arith
bool-eq (pos n) name false = ground arith
bool-eq (negsuc n) name true = ground arith
bool-eq (negsuc n) name false = ground arith

-- The structure is the encoding of the policy by the functions of the other direction.
pub record Encodes (sizes : AbiSizes) (p : PolicyStruct) (q : Qwen35ExecutionPolicy) : Type 0 where
  pub size : p.struct_size ≡ sizes.policy
  pub attention : from_attention_implementation q.attention ≡ ok p.attention
  pub kv_cache : from_kv_cache_dtype q.kv_cache ≡ ok p.kv_cache_dtype
  pub kv_cache_layout : from_kv_cache_layout q.kv_cache_layout ≡ ok p.kv_cache_layout
  pub decode_graph : p.decode_graph ≡ bool_code q.decode_graph
  pub grouped_input_casts : p.grouped_input_casts ≡ bool_code q.grouped_input_casts
  pub automatic : q.decode_attention ≡ Qwen35DecodeAttentionMode.auto_select

module _ (sizes : AbiSizes) (p : PolicyStruct) (q : Qwen35ExecutionPolicy) where
  decodes : to_execution_policy sizes (some p) ≡ ok q → Encodes sizes p q
  unfolding to_execution_policy
  decodes h =
      let (same_size, h₁) = throw_if->>-eq-ok (not (p.struct_size == sizes.policy)) _ _ h in
      let size : p.struct_size ≡ sizes.policy =
        (==_iff p.struct_size sizes.policy).0
          (not-false (p.struct_size == sizes.policy) same_size) in
      let (attention, a, h₂) = >>=-eq-ok _ _ h₁ in
      let (kv_cache, b, h₃) = >>=-eq-ok _ _ h₂ in
      let (kv_cache_layout, c, h₄) = >>=-eq-ok _ _ h₃ in
      let (graph, d, h₅) = >>=-eq-ok _ _ h₄ in
      let (casts, e, last) = >>=-eq-ok _ _ h₅ in
      let same : record default_policy {
        attention = attention;
        kv_cache = kv_cache;
        kv_cache_layout = kv_cache_layout;
        decode_graph = graph;
        grouped_input_casts = casts;
      }
          ≡ q =
        cc last in
      subst (Encodes sizes p) same (record {
        size = size;
        attention = (attention-eq p.attention attention).0 a;
        kv_cache = (kv_cache_dtype-eq p.kv_cache_dtype kv_cache).0 b;
        kv_cache_layout = (kv_cache_layout-eq p.kv_cache_layout kv_cache_layout).0 c;
        decode_graph = (bool-eq p.decode_graph _ graph).0 d;
        grouped_input_casts = (bool-eq p.grouped_input_casts _ casts).0 e;
        automatic = refl;
      })

  encodes : Encodes sizes p q → to_execution_policy sizes (some p) ≡ ok q
  unfolding to_execution_policy
  encodes e =
      let size : (p.struct_size == sizes.policy) ≡ true = ground (arith, e.size) in
      rw
        (
          to_execution_policy,
          size,
          (attention-eq p.attention q.attention).1 e.attention,
          (kv_cache_dtype-eq p.kv_cache_dtype q.kv_cache).1 e.kv_cache,
          (kv_cache_layout-eq p.kv_cache_layout q.kv_cache_layout).1 e.kv_cache_layout,
          (bool-eq p.decode_graph (bytes "decode_graph must be 0 or 1") q.decode_graph).1
              e.decode_graph,
          (bool-eq p.grouped_input_casts (bytes "grouped_input_casts must be 0 or 1")
                q.grouped_input_casts).1
              e.grouped_input_casts,
          ← e.automatic,
        )
        refl

  -- `to_execution_policy` returns a policy exactly for the structure of the right size that the functions
  -- of the other direction make of it (the mode of decode attention, which the structure does not
  -- have, is automatic), so it accepts no code twice and loses none.
  pub to_execution_policy-Encodes : (to_execution_policy sizes (some p) ≡ ok q) ↔ Encodes sizes p q
  to_execution_policy-Encodes = (decodes, encodes)
