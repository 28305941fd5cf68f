-- ===== src/Model/Manifest/Complete.antt =====
-- What a catalog must have for validate_qwen35_manifest of cpp/model/qwen35_manifest.cpp, as one list of names and
-- dimensions, and what the manifest then holds.
use raftinfer.Base.{
  ℕ, ◌+◌, ◌*◌, ◌%◌, ◌^◌, ◌<◌, List, [], ◌∷◌, ◌++◌, map, All, length, ok, bytes, ◌≡◌, ◌≢◌, ◌⊎◌,
}
use raftinfer.Gguf.Types.{TensorInfo, Catalog}
use raftinfer.Model.Config.{
  Qwen35BlockKind, linear_attention, full_attention, Qwen35BlockPlan, Qwen35Config,
}
use raftinfer.Model.Manifest.{Qwen35Manifest, validate_qwen35_manifest}
use raftinfer.Model.Manifest.Expected.{Expected}
use raftinfer.Model.Manifest.Listed.{key_of, tensors_of, in_block}

-- The first tensor of this name has these dimensions.
abbrev pub IsPresent : List TensorInfo → Expected → Type 0
IsPresent [] e = ⊥
IsPresent (t ∷ ts) e = ((t.name ≡ e.0) × (t.dimensions ≡ e.1)) ⊎ ((t.name ≢ e.0) × IsPresent ts e)

-- The heads of the queries, the keys and the values, each with its dimensions, in 64 bits.
abbrev pub qkv_rows : Qwen35Config → ℕ
qkv_rows c =
    (c.linear_key_head_count + c.linear_key_head_count + c.linear_value_head_count)
    * c.linear_head_dimension
    % 2 ^ 64

abbrev pub value_rows : Qwen35Config → ℕ
value_rows c = c.linear_value_head_count * c.linear_head_dimension

abbrev pub query_rows : Qwen35Config → ℕ
query_rows c = c.full_attention_head_count * c.full_attention_head_dimension

abbrev pub kv_rows : Qwen35Config → ℕ
kv_rows c = c.full_attention_kv_head_count * c.full_attention_head_dimension

-- The tensors of a layer. A query stands beside its gate, so it has its rows twice.
abbrev pub layer_of : Qwen35BlockKind → Qwen35Config → List Expected
layer_of full_attention c =
    (bytes "attn_norm.weight", c.hidden_size ∷ [])
    ∷ (bytes "post_attention_norm.weight", c.hidden_size ∷ [])
    ∷ (bytes "ffn_gate.weight", c.hidden_size ∷ c.intermediate_size ∷ [])
    ∷ (bytes "ffn_down.weight", c.intermediate_size ∷ c.hidden_size ∷ [])
    ∷ (bytes "ffn_up.weight", c.hidden_size ∷ c.intermediate_size ∷ [])
    ∷ (bytes "attn_q.weight", c.hidden_size ∷ ((query_rows c + query_rows c) % 2 ^ 64) ∷ [])
    ∷ (bytes "attn_k.weight", c.hidden_size ∷ kv_rows c ∷ [])
    ∷ (bytes "attn_v.weight", c.hidden_size ∷ kv_rows c ∷ [])
    ∷ (bytes "attn_output.weight", query_rows c ∷ c.hidden_size ∷ [])
    ∷ (bytes "attn_q_norm.weight", c.full_attention_head_dimension ∷ [])
    ∷ (bytes "attn_k_norm.weight", c.full_attention_head_dimension ∷ [])
    ∷ []
layer_of linear_attention c =
    (bytes "attn_norm.weight", c.hidden_size ∷ [])
    ∷ (bytes "post_attention_norm.weight", c.hidden_size ∷ [])
    ∷ (bytes "ffn_gate.weight", c.hidden_size ∷ c.intermediate_size ∷ [])
    ∷ (bytes "ffn_down.weight", c.intermediate_size ∷ c.hidden_size ∷ [])
    ∷ (bytes "ffn_up.weight", c.hidden_size ∷ c.intermediate_size ∷ [])
    ∷ (bytes "attn_qkv.weight", c.hidden_size ∷ qkv_rows c ∷ [])
    ∷ (bytes "attn_gate.weight", c.hidden_size ∷ value_rows c ∷ [])
    ∷ (bytes "ssm_conv1d.weight", c.linear_convolution_width ∷ qkv_rows c ∷ [])
    ∷ (bytes "ssm_dt.bias", c.linear_value_head_count ∷ [])
    ∷ (bytes "ssm_a", c.linear_value_head_count ∷ [])
    ∷ (bytes "ssm_beta.weight", c.hidden_size ∷ c.linear_value_head_count ∷ [])
    ∷ (bytes "ssm_alpha.weight", c.hidden_size ∷ c.linear_value_head_count ∷ [])
    ∷ (bytes "ssm_norm.weight", c.linear_head_dimension ∷ [])
    ∷ (bytes "ssm_out.weight", value_rows c ∷ c.hidden_size ∷ [])
    ∷ []

abbrev pub layers_of : Qwen35Config → List Qwen35BlockPlan → List Expected
layers_of c [] = []
layers_of c (block ∷ blocks) =
    map (in_block block.index) (layer_of block.kind c) ++ layers_of c blocks

abbrev pub InOrder : ℕ → List Qwen35BlockPlan → Type 0
InOrder position [] = Unit
InOrder position (block ∷ blocks) = (block.index ≡ position) × InOrder (position + 1) blocks

-- The tensors of the model, then those of its blocks.
abbrev pub expected_of : Qwen35Config → List Expected
expected_of c =
    (bytes "token_embd.weight", c.hidden_size ∷ c.vocabulary_size ∷ [])
    ∷ (bytes "output_norm.weight", c.hidden_size ∷ [])
    ∷ (bytes "output.weight", c.hidden_size ∷ c.vocabulary_size ∷ [])
    ∷ layers_of c c.blocks

abbrev pub IsComplete : Catalog → Qwen35Config → Type 0
IsComplete catalog c =
    (0 < length c.blocks) × InOrder 0 c.blocks × All (IsPresent catalog.tensors) (expected_of c)

-- A manifest is returned, and its fields hold the tensors of these names and dimensions, in this order.
abbrev pub Returns : Catalog → Qwen35Config → Type 0
Returns catalog c =
    (m : Qwen35Manifest) × (validate_qwen35_manifest catalog c ≡ ok m)
    × (map key_of (tensors_of m) ≡ expected_of c)
