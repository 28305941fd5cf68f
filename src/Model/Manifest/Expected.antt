-- ===== src/Model/Manifest/Expected.antt =====
-- The tensors that a Qwen3.5 model has, as a list, against validate_qwen35_manifest of
-- cpp/model/qwen35_manifest.cpp.
use raftinfer.Base.{
  ℕ, ◌+◌, ◌*◌, ◌%◌, ◌^◌, List, [], ◌∷◌, Option, none, some, Bool, true, false, ◌&&◌, ◌==◌, Text,
  bytes, Result, ok, err, ◌>>=◌, ◌≡◌, refl, arith,
}
use raftinfer.Base.Texts.{text_eq}
use raftinfer.Gguf.Types.{TensorInfo, Catalog}
use raftinfer.Model.Config.{
  Qwen35BlockKind, linear_attention, full_attention, Qwen35BlockPlan, Qwen35Config,
}
use raftinfer.Model.Manifest.{
  find_tensor, require_tensor, block_name, full_query_width, full_kv_width, linear_value_width,
  linear_qkv_width,
}

-- A name with its dimensions.
abbrev pub Expected : Type 0
Expected = Text × List ℕ

abbrev pub common_tensors : Qwen35Config → List Expected
common_tensors c =
    (bytes "attn_norm.weight", c.hidden_size ∷ [])
    ∷ (bytes "post_attention_norm.weight", c.hidden_size ∷ [])
    ∷ (bytes "ffn_gate.weight", c.hidden_size ∷ c.intermediate_size ∷ [])
    ∷ (bytes "ffn_down.weight", c.intermediate_size ∷ c.hidden_size ∷ [])
    ∷ (bytes "ffn_up.weight", c.hidden_size ∷ c.intermediate_size ∷ [])
    ∷ []

abbrev pub attention_tensors : Qwen35BlockKind → Qwen35Config → List Expected
attention_tensors full_attention c =
    (bytes "attn_q.weight", c.hidden_size ∷ (full_query_width c * 2 % 2 ^ 64) ∷ [])
    ∷ (bytes "attn_k.weight", c.hidden_size ∷ full_kv_width c ∷ [])
    ∷ (bytes "attn_v.weight", c.hidden_size ∷ full_kv_width c ∷ [])
    ∷ (bytes "attn_output.weight", full_query_width c ∷ c.hidden_size ∷ [])
    ∷ (bytes "attn_q_norm.weight", c.full_attention_head_dimension ∷ [])
    ∷ (bytes "attn_k_norm.weight", c.full_attention_head_dimension ∷ [])
    ∷ []
attention_tensors linear_attention c =
    (bytes "attn_qkv.weight", c.hidden_size ∷ linear_qkv_width c ∷ [])
    ∷ (bytes "attn_gate.weight", c.hidden_size ∷ linear_value_width c ∷ [])
    ∷ (bytes "ssm_conv1d.weight", c.linear_convolution_width ∷ linear_qkv_width c ∷ [])
    ∷ (bytes "ssm_dt.bias", c.linear_value_head_count ∷ [])
    ∷ (bytes "ssm_a", c.linear_value_head_count ∷ [])
    ∷ (bytes "ssm_beta.weight", c.hidden_size ∷ c.linear_value_head_count ∷ [])
    ∷ (bytes "ssm_alpha.weight", c.hidden_size ∷ c.linear_value_head_count ∷ [])
    ∷ (bytes "ssm_norm.weight", c.linear_head_dimension ∷ [])
    ∷ (bytes "ssm_out.weight", linear_value_width c ∷ c.hidden_size ∷ [])
    ∷ []

abbrev pub model_tensors : Qwen35Config → List Expected
model_tensors c =
    (bytes "token_embd.weight", c.hidden_size ∷ c.vocabulary_size ∷ [])
    ∷ (bytes "output_norm.weight", c.hidden_size ∷ [])
    ∷ (bytes "output.weight", c.hidden_size ∷ c.vocabulary_size ∷ [])
    ∷ []

-- The first tensor of that name has those dimensions.
abbrev pub has_dimensions : Option TensorInfo → List ℕ → Bool
has_dimensions none dimensions = false
has_dimensions (some t) dimensions = text_eq t.dimensions dimensions

abbrev pub has_tensor : Catalog → Text → List ℕ → Bool
has_tensor catalog name dimensions = has_dimensions (find_tensor catalog.tensors name) dimensions

abbrev pub has_all : Catalog → List Expected → Bool
has_all catalog [] = true
has_all catalog (e ∷ es) = has_tensor catalog e.0 e.1 && has_all catalog es

abbrev pub has_block : Catalog → ℕ → List Expected → Bool
has_block catalog index [] = true
has_block catalog index (e ∷ es) =
    has_tensor catalog (block_name index e.0) e.1 && has_block catalog index es

-- Blocks in index order from `position` on, each with all its tensors.
abbrev pub has_blocks : Catalog → Qwen35Config → ℕ → List Qwen35BlockPlan → Bool
has_blocks catalog c position [] = true
has_blocks catalog c position (block ∷ blocks) =
    (block.index == position)
    && (has_block catalog block.index (common_tensors c)
        && (has_block catalog block.index (attention_tensors block.kind c)
            && has_blocks catalog c (position + 1) blocks))

abbrev pub is_ok {ℓ} : {A : Type ℓ} → Result A → Bool
is_ok (ok value) = true
is_ok (err e) = false

pub is_ok->>= {ℓ κ} :
    {A : Type ℓ} {B : Type κ} (m : Result A) (rest : A → Result B) (first later : Bool)
    → is_ok m ≡ first
    → ((value : A) → is_ok (rest value) ≡ later)
    → is_ok (m >>= rest) ≡ (first && later)
is_ok->>= (ok value) rest true later h k = k value
is_ok->>= (ok value) rest false later h k = cc h
is_ok->>= (err e) rest true later h k = cc h
is_ok->>= (err e) rest false later h k = refl

pub is_ok-require_tensor :
    (catalog : Catalog) (name : Text) (dimensions : List ℕ)
    → is_ok (require_tensor catalog name dimensions) ≡ has_tensor catalog name dimensions
unfolding require_tensor
is_ok-require_tensor catalog name dimensions = ground arith
